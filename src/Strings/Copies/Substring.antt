-- ===== src/Strings/Copies/Substring.antt =====
-- strstr finds the first place of the needle.
use gravityos.Base.{
  ℕ, zero, suc, ◌+◌, ◌<◌, ◌≤◌, ◌≡◌, ◌⊎◌, refl, arith, Bool, true, false, not, ◌&&◌, Option, some,
  ◌==◌, Bool-cases, inl, inr, ap, sym, ◌∙◌, subst,
}
use gravityos.Strings.{Bytes}
use gravityos.Strings.Terminated.{IsString, IsString-head, IsString-tail, IsString-end}
use gravityos.Strings.Copies.{matches_at, after_match, strstr_from, strstr}

-- The `k` bytes from `p` on are those from `q` on.
abbrev pub SameBytes : Bytes → ℕ → ℕ → ℕ → Type 0
SameBytes m p q k = (j : ℕ) → j < k → m (p + j) ≡ m (q + j)

SameBytes-tail : (m : Bytes) (p q k : ℕ) → SameBytes m p q (suc k) → SameBytes m (p + 1) (q + 1) k
SameBytes-tail m p q k same j lt =
    let a : p + suc j ≡ p + 1 + j = omega arith in
    let b : q + suc j ≡ q + 1 + j = omega arith in rw (a, b) at (same (suc j) (omega arith))

SameBytes-suc :
    (m : Bytes) (p q k : ℕ) → m p ≡ m q → SameBytes m (p + 1) (q + 1) k → SameBytes m p q (suc k)
SameBytes-suc m p q k first rest zero lt =
    let a : p + 0 ≡ p = omega arith in let b : q + 0 ≡ q = omega arith in rw (a, b) first
SameBytes-suc m p q k first rest (suc j) lt =
    let a : p + suc j ≡ p + 1 + j = omega arith in
    let b : q + suc j ≡ q + 1 + j = omega arith in rw (a, b) (rest j (omega arith))

SameBytes-first : (m : Bytes) (p q k : ℕ) → SameBytes m p q (suc k) → m p ≡ m q
SameBytes-first m p q k same =
    let a : p + 0 ≡ p = omega arith in
    let b : q + 0 ≡ q = omega arith in rw (a, b) at (same 0 (omega arith))

-- The inner loop decides whether the needle stands there.
abbrev Decides : Bytes → ℕ → ℕ → ℕ → Option Bool → Type 0
Decides m h n k r =
    ((r ≡ some true) × SameBytes m h n k) ⊎ ((r ≡ some false) × (SameBytes m h n k → ⊥))

matches_at-Decides :
    (k fuel : ℕ) (m : Bytes) (h n : ℕ)
    → IsString m n k
    → k < fuel
    → Decides m h n k (matches_at fuel m h n)
unfolding matches_at
matches_at-Decides k zero m h n needle lt = absurd (omega arith)
matches_at-Decides zero (suc fuel) m h n needle lt =
    let e : (m n == 0) ≡ true = ground (arith, IsString-end m n needle) in
    let guard : (not (m h == 0) && (not (m n == 0) && (m h == m n))) ≡ false = ground arith in
    rw (guard, e) (inl (refl, λ j no_byte. absurd (omega arith)))
matches_at-Decides (suc k) (suc fuel) m h n needle lt =
    let there : (m n == 0) ≡ false = ground (arith, IsString-head m n k needle) in
    elim (Bool-cases (m h == m n)) [
      | inl same ↦
          let guard : (not (m h == 0) && (not (m n == 0) && (m h == m n))) ≡ true = ground arith in
          rw guard
            (elim (matches_at-Decides k fuel m (h + 1) (n + 1) (IsString-tail m n k needle)
              (omega arith)) [
                | inl (found, rest) ↦ inl (found, SameBytes-suc m h n k (ground arith) rest)
                | inr (ended, differs) ↦ inr (ended, λ all. differs (SameBytes-tail m h n k all))
              ])
      | inr other ↦
          let guard : (not (m h == 0) && (not (m n == 0) && (m h == m n))) ≡ false = ground arith in
          rw (guard, there) (inr (refl, λ all. ground (arith, SameBytes-first m h n k all)))
    ]

-- The first of the places from `s` to `s + l` where the `k` bytes of the needle stand, or 0 for none.
abbrev pub FirstPlace : Bytes → ℕ → ℕ → ℕ → ℕ → Option ℕ → Type 0
FirstPlace m s l needle k r =
    ((r ≡ some 0) × ((i : ℕ) → i ≤ l → SameBytes m (s + i) needle k → ⊥))
    ⊎ ((i : ℕ) × (i ≤ l)
        × (r ≡ some (s + i))
        × SameBytes m (s + i) needle k
        × ((j : ℕ) → j < i → SameBytes m (s + j) needle k → ⊥))

FirstPlace-here :
    (m : Bytes) (s l needle k : ℕ) → SameBytes m s needle k → FirstPlace m s l needle k (some s)
FirstPlace-here m s l needle k same =
    let zeros : s + 0 ≡ s = omega arith in
    inr (
      0,
      omega arith,
      ap some (sym zeros),
      subst (λ p. SameBytes m p needle k) (sym zeros) same,
      λ j lt all. absurd (omega arith),
    )

FirstPlace-skip :
    (m : Bytes) (s l needle k : ℕ) (r : Option ℕ)
    → (SameBytes m s needle k → ⊥)
    → FirstPlace m (s + 1) l needle k r
    → FirstPlace m s (suc l) needle k r
FirstPlace-skip m s l needle k r differs (inl (nowhere, all)) = inl (nowhere, λ i le. earlier i le)
  where
    earlier : (i : ℕ) → i ≤ suc l → SameBytes m (s + i) needle k → ⊥
    earlier zero le same =
        let e : s + 0 ≡ s = omega arith in differs (subst (λ p. SameBytes m p needle k) e same)
    earlier (suc i) le same =
        let e : s + suc i ≡ s + 1 + i = omega arith in
        all i (omega arith) (subst (λ p. SameBytes m p needle k) e same)
FirstPlace-skip m s l needle k r differs (inr (i, le, at_i, same, before)) =
    let e : s + 1 + i ≡ s + suc i = omega arith in
    inr (
      suc i,
      omega arith,
      at_i ∙ ap some e,
      subst (λ p. SameBytes m p needle k) e same,
      λ j lt. earlier j lt,
    )
  where
    earlier : (j : ℕ) → j < suc i → SameBytes m (s + j) needle k → ⊥
    earlier zero lt all =
        let e : s + 0 ≡ s = omega arith in differs (subst (λ p. SameBytes m p needle k) e all)
    earlier (suc j) lt all =
        let e : s + suc j ≡ s + 1 + j = omega arith in
        before j (omega arith) (subst (λ p. SameBytes m p needle k) e all)

strstr_from-FirstPlace :
    (l fuel : ℕ) (m : Bytes) (s needle k : ℕ)
    → IsString m s l
    → IsString m needle (suc k)
    → l + suc k < fuel
    → FirstPlace m s l needle (suc k) (strstr_from fuel m s needle)
unfolding strstr_from after_match
strstr_from-FirstPlace l zero m s needle k hay word lt = absurd (omega arith)
strstr_from-FirstPlace zero (suc fuel) m s needle k hay word lt =
    let nul : (m s == 0) ≡ true = ground (arith, IsString-end m s hay) in
    rw nul (
      inl (
        refl,
        λ i le same.
            let e : s + i ≡ s = omega arith in
            IsString-head m needle k word (
              sym (SameBytes-first m s needle k (subst (λ p. SameBytes m p needle (suc k)) e same))
              ∙ IsString-end m s hay),
      ))
strstr_from-FirstPlace (suc l) (suc fuel) m s needle k hay word lt =
    let there : (m s == 0) ≡ false = ground (arith, IsString-head m s l hay) in
    let rest =
      strstr_from-FirstPlace l fuel m (s + 1) needle k (IsString-tail m s l hay) word
        (omega arith) in
    elim (Bool-cases (m s == m needle)) [
      | inr other ↦
          rw (there, other)
            (FirstPlace-skip m s l needle (suc k) (strstr_from fuel m (s + 1) needle)
              (λ same. ground (arith, SameBytes-first m s needle k same)) rest)
      | inl first ↦ elim (matches_at-Decides (suc k) fuel m s needle word (omega arith)) [
        | inl (found, same) ↦
            rw (there, first, found) (FirstPlace-here m s (suc l) needle (suc k) same)
        | inr (ended, differs) ↦
            rw (there, first, ended)
              (FirstPlace-skip m s l needle (suc k) (strstr_from fuel m (s + 1) needle) differs
                rest)
      ]
    ]

-- For a haystack of length l and a needle of length k, strstr comes to an end with fuel above l + k, and
-- gives the first place of the haystack where the needle's bytes stand, or NULL where there is none.
pub strstr-FirstPlace :
    (l k fuel : ℕ) (m : Bytes) (s needle : ℕ)
    → IsString m s l
    → IsString m needle k
    → l + k < fuel
    → FirstPlace m s l needle k (strstr fuel m s needle)
unfolding strstr
strstr-FirstPlace l zero fuel m s needle hay word lt =
    let empty : (m needle == 0) ≡ true = ground (arith, IsString-end m needle word) in
    rw empty (FirstPlace-here m s l needle 0 (λ j no_byte. absurd (omega arith)))
strstr-FirstPlace l (suc k) fuel m s needle hay word lt =
    let there : (m needle == 0) ≡ false = ground (arith, IsString-head m needle k word) in
    rw there (strstr_from-FirstPlace l fuel m s needle k hay word lt)
