-- ===== src/Format/Digits.antt =====
-- utoa and atoi: a number that is printed in base 10 is read back.
use gravityos.Base.{
  ℕ, zero, suc, ◌+◌, ◌-◌, ◌*◌, ◌/◌, ◌%◌, ◌^◌, ◌<◌, ◌≡◌, refl, arith, true, false, List, [], ◌∷◌,
  ltb, ◌==◌, Bool-cases, inl, inr, ap, ◌∙◌,
}
use gravityos.Base.Int.{pos}
use gravityos.Format.{digit_char, low_digits, turn, utoa, is_digit, read_digits, atoi}

-- The numbers of at most `n` decimal digits are those below it.
abbrev limit : ℕ → ℕ
limit zero = 1
limit (suc n) = 10 * limit n

-- A digit's character is read as its value.
read_digit :
    (d : ℕ) (out : List ℕ) (r : ℕ)
    → d < 10
    → read_digits (digit_char d ∷ out) r ≡ read_digits out (r * 10 + d)
read_digit d out r h =
    let small : ltb d 10 ≡ true = ground arith in
    let on : is_digit (b'0' + d) ≡ true = ground arith in
    let e : b'0' + d - b'0' ≡ d = omega arith in rw (small, on, e) refl

last_digit :
    (fuel v : ℕ) (out : List ℕ)
    → (v / 10 == 0) ≡ true
    → read_digits (turn (low_digits (suc fuel) 10 v) out) 0 ≡ read_digits out v
unfolding low_digits
last_digit fuel v out last =
    let e : 0 * 10 + v % 10 ≡ v = ground arith in
    rw last (read_digit (v % 10) out 0 (omega arith) ∙ rw e refl)

read_digits-turn :
    (fuel v : ℕ) (out : List ℕ)
    → v < limit (suc fuel)
    → read_digits (turn (low_digits (suc fuel) 10 v) out) 0 ≡ read_digits out v
unfolding low_digits
read_digits-turn zero v out h = last_digit zero v out (ground arith)
read_digits-turn (suc fuel) v out h = elim (Bool-cases (v / 10 == 0)) [
  | inl last ↦ last_digit (suc fuel) v out last
  | inr more ↦
      let e : v / 10 * 10 + v % 10 ≡ v = omega arith in
      rw more (
        read_digits-turn fuel (v / 10) (digit_char (v % 10) ∷ out) (omega arith)
        ∙ (read_digit (v % 10) out (v / 10) (omega arith) ∙ rw e refl))
]

-- Digits alone.
abbrev Digits : List ℕ → Type 0
Digits [] = Unit {0}
Digits (c ∷ cs) = (is_digit c ≡ true) × Digits cs

Digits-turn : (cs out : List ℕ) → Digits cs → Digits out → Digits (turn cs out)
Digits-turn [] out h k = k
Digits-turn (c ∷ cs) out (h, hs) k = Digits-turn cs (c ∷ out) hs (h, k)

low_digits-Digits : (fuel v : ℕ) → Digits (low_digits fuel 10 v)
unfolding low_digits
low_digits-Digits zero v = tt
low_digits-Digits (suc fuel) v =
    let first : is_digit (digit_char (v % 10)) ≡ true = ground arith in
    let rest = low_digits-Digits fuel (v / 10) in
    elim (Bool-cases (v / 10 == 0)) [
      | inl last ↦ rw last (first, tt)
      | inr more ↦ rw more (first, rest)
    ]

atoi-Digits : (s : List ℕ) → Digits s → atoi s ≡ pos (read_digits s 0)
unfolding atoi
atoi-Digits [] h = refl
atoi-Digits (c ∷ s) (h, hs) =
    let a : (c == b' ') ≡ false = ground arith in
    let b : (c == b'\t') ≡ false = ground arith in
    let m : (c == b'-') ≡ false = ground arith in
    let p : (c == b'+') ≡ false = ground arith in rw (a, b) (rw (m, p) refl)

-- A number below 2 ^ 31 that utoa prints in base 10 is what atoi reads.
pub atoi-utoa : (v : ℕ) → v < 2 ^ 31 → atoi (utoa v 10) ≡ pos v
unfolding utoa
atoi-utoa v h =
    atoi-Digits (turn (low_digits 64 10 v) [])
      (Digits-turn (low_digits 64 10 v) [] (low_digits-Digits 64 v) tt)
    ∙ ap pos (read_digits-turn 63 v [] (omega arith))
