-- ===== src/Strings/Search.antt =====
-- strchr and strrchr: the first and the last place of a character.
use gravityos.Base.{
  ℕ, zero, suc, ◌+◌, ◌%◌, ◌<◌, ◌≡◌, ◌≢◌, ◌⊎◌, inl, inr, refl, arith, true, false, ◌==◌, some,
  Bool-cases,
}
use gravityos.Strings.{Bytes, strchr, strrchr_from, strrchr}
use gravityos.Strings.Terminated.{IsString, IsString-head, IsString-tail, IsString-end}

-- None of the `l` bytes from `s` on is `b`.
abbrev pub Absent : Bytes → ℕ → ℕ → ℕ → Type 0
Absent m s l b = (i : ℕ) → i < l → m (s + i) ≢ b

-- `r` points to the first byte `b` among the `l` from `s` on, or is NULL where there is none.
abbrev pub First : Bytes → ℕ → ℕ → ℕ → ℕ → Type 0
First m s l b r =
    ((r ≡ 0) × Absent m s l b)
    ⊎ ((k : ℕ) × (k < l) × (r ≡ s + k) × (m (s + k) ≡ b) × Absent m s k b)

Absent-cons : (m : Bytes) (s l b : ℕ) → m s ≢ b → Absent m (s + 1) l b → Absent m s (suc l) b
Absent-cons m s l b n h zero lt = let zeros : s + 0 ≡ s = omega arith in rw zeros n
Absent-cons m s l b n h (suc i) lt =
    let shift : s + suc i ≡ s + 1 + i = omega arith in rw shift (h i (omega arith))

First-cons : (m : Bytes) (s l b r : ℕ) → m s ≢ b → First m (s + 1) l b r → First m s (suc l) b r
First-cons m s l b r n (inl (z, h)) = inl (z, Absent-cons m s l b n h)
First-cons m s l b r n (inr (k, lt, at, e, h)) =
    let shift : s + suc k ≡ s + 1 + k = omega arith in
    inr (suc k, omega arith, omega arith, rw shift e, Absent-cons m s k b n h)

-- On a string, with fuel above its length, strchr of a character that is not NUL comes to an end
-- with the character's first place, or with NULL where the string does not have it.
pub strchr-First :
    (fuel : ℕ) (m : Bytes) (s l c : ℕ)
    → IsString m s l
    → l < fuel
    → 0 < c
    → (r : ℕ) × (strchr fuel m s c ≡ some r) × First m s l (c % 256) r
unfolding strchr
strchr-First zero m s l c h lt pos = elim lt [ ]
strchr-First (suc fuel) m s zero c h lt pos =
    let z : (m s == 0) ≡ true = ground (arith, IsString-end m s h) in
    let nc : (c == 0) ≡ false = ground arith in rw (z, nc) (0, refl, inl (refl, λ i u. elim u [ ]))
strchr-First (suc fuel) m s (suc l) c h lt pos =
    let nz : (m s == 0) ≡ false = ground (arith, IsString-head m s l h) in
    elim (Bool-cases (m s == c % 256)) [
      | inl e ↦
          let zeros : s + 0 ≡ s = omega arith in
          rw (nz, e)
            (s, refl, inr (0, omega arith, omega arith, rw zeros (ground arith), λ i u. elim u [ ]))
      | inr ne ↦
          let (r, found, first) =
            strchr-First fuel m (s + 1) l c (IsString-tail m s l h) (omega arith) pos in
          rw (nz, ne) (r, found, First-cons m s l (c % 256) r (ground arith) first)
    ]

-- `r` points to the last byte `b` among the `l` from `s` on, or is `last` where there is none.
abbrev pub Last : Bytes → ℕ → ℕ → ℕ → ℕ → ℕ → Type 0
Last m s l b last r =
    ((r ≡ last) × Absent m s l b)
    ⊎ ((k : ℕ) × (k < l)
        × (r ≡ s + k)
        × (m (s + k) ≡ b)
        × ((i : ℕ) → k < i → i < l → m (s + i) ≢ b))

Last-later :
    (m : Bytes) (s l b r : ℕ)
    → ((k : ℕ) × (k < l)
        × (r ≡ s + 1 + k)
        × (m (s + 1 + k) ≡ b)
        × ((i : ℕ) → k < i → i < l → m (s + 1 + i) ≢ b))
    → (k : ℕ) × (k < suc l)
      × (r ≡ s + k)
      × (m (s + k) ≡ b)
      × ((i : ℕ) → k < i → i < suc l → m (s + i) ≢ b)
Last-later m s l b r (k, lt, at, e, h) =
    let shift : s + suc k ≡ s + 1 + k = omega arith in
    (suc k, omega arith, omega arith, rw shift e, later)
  where
    later : (i : ℕ) → suc k < i → i < suc l → m (s + i) ≢ b
    later zero u v = absurd (omega arith)
    later (suc i) u v =
        let shift : s + suc i ≡ s + 1 + i = omega arith in
        rw shift (h i (omega arith) (omega arith))

Last-skip :
    (m : Bytes) (s l b last r : ℕ) → m s ≢ b → Last m (s + 1) l b last r → Last m s (suc l) b last r
Last-skip m s l b last r n (inl (z, h)) = inl (z, Absent-cons m s l b n h)
Last-skip m s l b last r n (inr t) = inr (Last-later m s l b r t)

Last-here :
    (m : Bytes) (s l b last r : ℕ) → m s ≡ b → Last m (s + 1) l b s r → Last m s (suc l) b last r
Last-here m s l b last r e (inl (z, h)) =
    let zeros : s + 0 ≡ s = omega arith in inr (0, omega arith, rw zeros z, rw zeros e, later)
  where
    later : (i : ℕ) → 0 < i → i < suc l → m (s + i) ≢ b
    later zero u v = elim u [ ]
    later (suc i) u v =
        let shift : s + suc i ≡ s + 1 + i = omega arith in rw shift (h i (omega arith))
Last-here m s l b last r e (inr t) = inr (Last-later m s l b r t)

strrchr_from-Last :
    (fuel : ℕ) (m : Bytes) (s l c last : ℕ)
    → IsString m s l
    → l < fuel
    → 0 < c
    → (r : ℕ) × (strrchr_from fuel m s c last ≡ some r) × Last m s l (c % 256) last r
unfolding strrchr_from
strrchr_from-Last zero m s l c last h lt pos = elim lt [ ]
strrchr_from-Last (suc fuel) m s zero c last h lt pos =
    let z : (m s == 0) ≡ true = ground (arith, IsString-end m s h) in
    let nc : (c == 0) ≡ false = ground arith in
    rw (z, nc) (last, refl, inl (refl, λ i u. elim u [ ]))
strrchr_from-Last (suc fuel) m s (suc l) c last h lt pos =
    let nz : (m s == 0) ≡ false = ground (arith, IsString-head m s l h) in
    elim (Bool-cases (m s == c % 256)) [
      | inl e ↦
          let (r, found, at) =
            strrchr_from-Last fuel m (s + 1) l c s (IsString-tail m s l h) (omega arith) pos in
          rw (nz, e) (r, found, Last-here m s l (c % 256) last r (ground arith) at)
      | inr ne ↦
          let (r, found, at) =
            strrchr_from-Last fuel m (s + 1) l c last (IsString-tail m s l h) (omega arith) pos in
          rw (nz, ne) (r, found, Last-skip m s l (c % 256) last r (ground arith) at)
    ]

-- On a string, with fuel above its length, strrchr of a character that is not NUL comes to an end
-- with the character's last place, or with NULL where the string does not have it.
pub strrchr-Last :
    (fuel : ℕ) (m : Bytes) (s l c : ℕ)
    → IsString m s l
    → l < fuel
    → 0 < c
    → (r : ℕ) × (strrchr fuel m s c ≡ some r) × Last m s l (c % 256) 0 r
unfolding strrchr
strrchr-Last fuel m s l c h lt pos = strrchr_from-Last fuel m s l c 0 h lt pos
