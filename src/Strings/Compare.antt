-- ===== src/Strings/Compare.antt =====
-- memcmp, strncmp and strcmp: where two blocks or strings first differ.
use gravityos.Base.{
  ℕ, zero, suc, ◌+◌, ◌<◌, ◌≤◌, ◌≡◌, ◌≢◌, ◌⊎◌, refl, arith, true, false, ◌==◌, Option, some,
  Bool-cases, inl, inr, ℕ_discrete, sym,
}
use gravityos.Base.Int.{ℤ, pos, sub_ℕ, sub_ℕ_zero}
use gravityos.Strings.Terminated.{IsString, IsString-head, IsString-tail, IsString-end}
use gravityos.Strings.{Bytes, memcmp, strncmp_from, strncmp, strcmp}

-- The two sequences of bytes agree below `k`.
abbrev pub Agree : Bytes → ℕ → ℕ → ℕ → Type 0
Agree m p q k = (i : ℕ) → i < k → m (p + i) ≡ m (q + i)

-- Both go on below `k`, with the same bytes and no NUL.
abbrev pub GoOn : Bytes → ℕ → ℕ → ℕ → Type 0
GoOn m p q k = (i : ℕ) → i < k → (m (p + i) ≡ m (q + i)) × (m (p + i) ≢ 0)

-- The outcome of a comparison of `n` bytes: none differs, or the first that do decide.
abbrev pub Compared : Bytes → ℕ → ℕ → ℕ → ℤ → Type 0
Compared m p q n r =
    ((r ≡ pos 0) × Agree m p q n)
    ⊎ ((k : ℕ) × (k < n)
        × Agree m p q k
        × (m (p + k) ≢ m (q + k))
        × (r ≡ sub_ℕ (m (p + k)) (m (q + k))))

Agree-cons : (m : Bytes) (p q k : ℕ) → m p ≡ m q → Agree m (p + 1) (q + 1) k → Agree m p q (suc k)
Agree-cons m p q k e a zero lt = let (zp, zq) = zeros in rw (zp, zq) e
  where
    zeros : (p + 0 ≡ p) × (q + 0 ≡ q)
    zeros = omega arith
Agree-cons m p q k e a (suc i) lt =
    let shift : (p + suc i ≡ p + 1 + i) × (q + suc i ≡ q + 1 + i) = omega arith in
    rw (shift.0, shift.1) (a i (omega arith))

Compared-step :
    (m : Bytes) (p q n : ℕ) (r : ℤ)
    → m p ≡ m q
    → Compared m (p + 1) (q + 1) n r
    → Compared m p q (suc n) r
Compared-step m p q n r e (inl (z, a)) = inl (z, Agree-cons m p q n e a)
Compared-step m p q n r e (inr (k, lt, a, ne, d)) =
    let shift : (p + suc k ≡ p + 1 + k) × (q + suc k ≡ q + 1 + k) = omega arith in
    inr (
      suc k,
      omega arith,
      Agree-cons m p q k e a,
      rw (shift.0, shift.1) ne,
      rw (shift.0, shift.1) d,
    )

-- memcmp is 0 where the blocks agree, and otherwise the difference of the first bytes that differ.
pub memcmp-Compared : (m : Bytes) (p q n : ℕ) → Compared m p q n (memcmp m p q n)
unfolding memcmp
memcmp-Compared m p q zero = inl (refl, λ i lt. elim lt [ ])
memcmp-Compared m p q (suc n) = elim (Bool-cases (m p == m q)) [
  | inl e ↦ rw e (
      Compared-step m p q n (memcmp m (p + 1) (q + 1) n) (ground arith)
        (memcmp-Compared m (p + 1) (q + 1) n))
  | inr ne ↦
      let zeros : (p + 0 ≡ p) × (q + 0 ≡ q) = omega arith in
      rw ne (
        inr (
          0,
          omega arith,
          λ i lt. elim lt [ ],
          rw (zeros.0, zeros.1) (ground arith),
          rw (zeros.0, zeros.1) refl,
        ))
]

-- The outcome of a comparison of two strings in at most `n` bytes, with the first `i` behind it.
abbrev pub Decided : Bytes → ℕ → ℕ → ℕ → ℤ → Type 0
Decided m p q n r =
    ((r ≡ pos 0) × GoOn m p q n)
    ⊎ ((k : ℕ) × (k < n)
        × GoOn m p q k
        × ((m (p + k) ≢ m (q + k)) ⊎ (m (p + k) ≡ 0))
        × (r ≡ sub_ℕ (m (p + k)) (m (q + k))))

GoOn-snoc :
    (m : Bytes) (p q i : ℕ)
    → GoOn m p q i
    → m (p + i) ≡ m (q + i)
    → m (p + i) ≢ 0
    → GoOn m p q (i + 1)
GoOn-snoc m p q i g e n j lt = elim (ℕ_discrete j i) [
  | yes same ↦ rw same (e, n)
  | no before ↦ g j (omega arith)
]

strncmp_from-Decided :
    (m : Bytes) (p q n i : ℕ) → GoOn m p q i → Decided m p q (i + n) (strncmp_from m p q n i)
unfolding strncmp_from
strncmp_from-Decided m p q zero i g = let e : i + 0 ≡ i = omega arith in inl (refl, rw e g)
strncmp_from-Decided m p q (suc n) i g = elim (Bool-cases (m (p + i) == m (q + i))) [
  | inr ne ↦ rw ne (inr (i, omega arith, g, inl (ground arith), refl))
  | inl e ↦ elim (Bool-cases (m (p + i) == 0)) [
    | inl z ↦
        rw (e, z) (inr (i, omega arith, g, inr (ground arith), zero_difference (ground arith)))
    | inr nz ↦
        let shift : i + suc n ≡ i + 1 + n = omega arith in
        rw (e, nz, shift)
          (strncmp_from-Decided m p q n (i + 1) (GoOn-snoc m p q i g (ground arith) (ground arith)))
  ]
]
  where
    zero_difference : m (p + i) ≡ m (q + i) → pos 0 ≡ sub_ℕ (m (p + i)) (m (q + i))
    zero_difference same = sym ((sub_ℕ_zero (m (p + i)) (m (q + i))).1 same)

-- strncmp is 0 where the strings go on alike for `n` bytes; otherwise it is the difference of the
-- bytes at the first place where they differ or end.
pub strncmp-Decided : (m : Bytes) (p q n : ℕ) → Decided m p q n (strncmp m p q n)
unfolding strncmp
strncmp-Decided m p q n =
    let e : 0 + n ≡ n = omega arith in
    rw e at (strncmp_from-Decided m p q n 0 (λ i lt. elim lt [ ]))

-- What strcmp decides by: the first place, within the `l` bytes and the NUL of the first string,
-- where the two differ or end.
abbrev pub StrCompared : Bytes → ℕ → ℕ → ℕ → Option ℤ → Type 0
StrCompared m p q l r =
    (k : ℕ) × (k ≤ l)
    × GoOn m p q k
    × ((m (p + k) ≢ m (q + k)) ⊎ (m (p + k) ≡ 0))
    × (r ≡ some (sub_ℕ (m (p + k)) (m (q + k))))

GoOn-cons :
    (m : Bytes) (p q k : ℕ) → m p ≡ m q → m p ≢ 0 → GoOn m (p + 1) (q + 1) k → GoOn m p q (suc k)
GoOn-cons m p q k e n g zero lt =
    let zeros : (p + 0 ≡ p) × (q + 0 ≡ q) = omega arith in rw (zeros.0, zeros.1) (e, n)
GoOn-cons m p q k e n g (suc i) lt =
    let shift : (p + suc i ≡ p + 1 + i) × (q + suc i ≡ q + 1 + i) = omega arith in
    rw (shift.0, shift.1) (g i (omega arith))

strcmp_stops :
    (m : Bytes) (p q l : ℕ)
    → ((m p ≢ m q) ⊎ (m p ≡ 0))
    → StrCompared m p q l (some (sub_ℕ (m p) (m q)))
strcmp_stops m p q l stop =
    let zeros : (p + 0 ≡ p) × (q + 0 ≡ q) = omega arith in
    (0, omega arith, λ i lt. elim lt [ ], rw (zeros.0, zeros.1) stop, rw (zeros.0, zeros.1) refl)

StrCompared-step :
    (m : Bytes) (p q l : ℕ) (r : Option ℤ)
    → m p ≡ m q
    → m p ≢ 0
    → StrCompared m (p + 1) (q + 1) l r
    → StrCompared m p q (suc l) r
StrCompared-step m p q l r e n (k, le, g, stop, d) =
    let shift : (p + suc k ≡ p + 1 + k) × (q + suc k ≡ q + 1 + k) = omega arith in
    (
      suc k,
      omega arith,
      GoOn-cons m p q k e n g,
      rw (shift.0, shift.1) stop,
      rw (shift.0, shift.1) d,
    )

-- For a string of length `l`, strcmp comes to an end with fuel above `l`, and returns the difference
-- of the bytes at the first place where the two strings differ or end.
pub strcmp-StrCompared :
    (fuel : ℕ) (m : Bytes) (p q l : ℕ)
    → IsString m p l
    → l < fuel
    → StrCompared m p q l (strcmp fuel m p q)
unfolding strcmp
strcmp-StrCompared zero m p q l s lt = elim lt [ ]
strcmp-StrCompared (suc fuel) m p q zero s lt =
    let z : (m p == 0) ≡ true = ground (arith, IsString-end m p s) in
    rw z (strcmp_stops m p q 0 (inr (ground arith)))
strcmp-StrCompared (suc fuel) m p q (suc l) s lt =
    let nz : m p ≢ 0 = IsString-head m p l s in
    let test : (m p == 0) ≡ false = ground arith in
    elim (Bool-cases (m p == m q)) [
      | inl e ↦
          rw (test, e)
            (StrCompared-step m p q l (strcmp fuel m (p + 1) (q + 1)) (ground arith) nz
              (strcmp-StrCompared fuel m (p + 1) (q + 1) l (IsString-tail m p l s) (omega arith)))
      | inr ne ↦ rw (test, ne) (strcmp_stops m p q (suc l) (inl (ground arith)))
    ]
