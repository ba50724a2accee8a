-- ===== src/Strings/Listed.antt =====
-- The bytes of a block as a list.
use gravityos.Base.{
  ℕ, zero, suc, ◌+◌, ◌-◌, ◌<◌, ◌≤◌, ◌≡◌, ◌⊎◌, refl, arith, List, [], ◌∷◌, ◌++◌, length, take, ap,
  ap₂, ◌∙◌,
}
use gravityos.Strings.{Bytes, memcpy}
use gravityos.Strings.Blocks.{memcpy_lem}

-- The `n` bytes from `p` on.
abbrev pub bytes_at : Bytes → ℕ → ℕ → List ℕ
bytes_at m p zero = []
bytes_at m p (suc n) = m p ∷ bytes_at m (p + 1) n

pub bytes_at-same :
    (m m' : Bytes) (p q n : ℕ)
    → ((i : ℕ) → i < n → m (p + i) ≡ m' (q + i))
    → bytes_at m p n ≡ bytes_at m' q n
bytes_at-same m m' p q zero same = refl
bytes_at-same m m' p q (suc n) same =
    let zp : p + 0 ≡ p = omega arith in
    let zq : q + 0 ≡ q = omega arith in
    ap₂ (λ x xs. x ∷ xs) (rw (zp, zq) at (same 0 (omega arith)))
      (bytes_at-same m m' (p + 1) (q + 1) n (λ i lt.
        let sp : p + suc i ≡ p + 1 + i = omega arith in
        let sq : q + suc i ≡ q + 1 + i = omega arith in
        rw (sp, sq) at (same (suc i) (omega arith))))

pub take-bytes_at : (m : Bytes) (p n k : ℕ) → k ≤ n → bytes_at m p k ≡ take k (bytes_at m p n)
take-bytes_at m p n zero le = refl
take-bytes_at m p zero (suc k) le = absurd (omega arith)
take-bytes_at m p (suc n) (suc k) le = ap (◌∷◌ (m p)) (take-bytes_at m (p + 1) n k (omega arith))

-- A block of a copy, and one outside it.
pub bytes_at-copied :
    (d s n : ℕ) (m : Bytes) → (d ≤ s) ⊎ (s + n ≤ d) → bytes_at (memcpy d s n m) d n ≡ bytes_at m s n
bytes_at-copied d s n m ok = bytes_at-same (memcpy d s n m) m d s n (λ i lt.
    let back : s + (d + i - d) ≡ s + i = omega arith in
    memcpy_lem d s n m (d + i) ok ∙ ground (arith, ap m back))

pub bytes_at-kept :
    (d s n : ℕ) (m : Bytes) (p k : ℕ)
    → (d ≤ s) ⊎ (s + n ≤ d)
    → (p + k ≤ d) ⊎ (d + n ≤ p)
    → bytes_at (memcpy d s n m) p k ≡ bytes_at m p k
bytes_at-kept d s n m p k ok away =
    bytes_at-same (memcpy d s n m) m p p k (λ i lt. memcpy_lem d s n m (p + i) ok ∙ ground arith)

pub bytes_at-end : (m : Bytes) (p n : ℕ) → bytes_at m p (suc n) ≡ bytes_at m p n ++ (m (p + n) ∷ [])
bytes_at-end m p zero = let e : p + 0 ≡ p = omega arith in rw e refl
bytes_at-end m p (suc n) =
    let e : p + 1 + n ≡ p + suc n = omega arith in
    ap (◌∷◌ (m p)) (bytes_at-end m (p + 1) n ∙ ap (λ q. bytes_at m (p + 1) n ++ (m q ∷ [])) e)

pub length-bytes_at : (m : Bytes) (p n : ℕ) → length (bytes_at m p n) ≡ n
length-bytes_at m p zero = refl
length-bytes_at m p (suc n) = ap suc (length-bytes_at m (p + 1) n)
