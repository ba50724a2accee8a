-- ===== src/Net/Checksum.antt =====
-- The byte order conversions, and the checksum that a receiver verifies.
use gravityos.Base.{
  ℕ, zero, suc, ◌+◌, ◌-◌, ◌*◌, ◌/◌, ◌%◌, ◌^◌, ◌<◌, ◌≤◌, ◌≡◌, refl, arith, true, false, List, [],
  ◌∷◌, ◌++◌, some, ◌==◌, length, ap, ◌∙◌, sym, ℕ_discrete,
}
use gravityos.Net.{htons, htonl, add_words, fold_carries, checksum_fuel, checksum16}

-- On 16-bit and 32-bit values the conversions are their own inverses.
pub htons-htons : (v : ℕ) → v < 2 ^ 16 → (htons (htons v) ≡ v) × (htons v < 2 ^ 16)
htons-htons v h = omega arith

-- htonl reverses the four bytes of a value.
pub htonl_bytes :
    (a b c d : ℕ)
    → a < 256
    → b < 256
    → c < 256
    → d < 256
    → htonl (a * 2 ^ 24 + b * 2 ^ 16 + c * 2 ^ 8 + d) ≡ d * 2 ^ 24 + c * 2 ^ 16 + b * 2 ^ 8 + a
htonl_bytes a b c d ha hb hc hd = omega arith

-- The bytes of a block, as numbers below 256.
abbrev pub AreBytes : List ℕ → Type 0
AreBytes [] = Unit {0}
AreBytes (b ∷ bs) = (b < 256) × AreBytes bs

-- The sum of the big-endian words, an odd byte at the end standing for a word's high half.
abbrev pub word_sum : List ℕ → ℕ
word_sum [] = 0
word_sum (a ∷ []) = a * 256
word_sum (a ∷ b ∷ bytes) = a * 256 + b + word_sum bytes

pub word_sum-le : (bytes : List ℕ) → AreBytes bytes → word_sum bytes ≤ 65535 * length bytes
word_sum-le [] h = omega arith
word_sum-le (a ∷ []) h = omega (arith, h.0)
word_sum-le (a ∷ b ∷ bytes) h = omega (arith, h.0, h.1.0, word_sum-le bytes h.1.1)

-- Without a wrap the first loop adds the words.
add_words_lem :
    (bytes : List ℕ) (sum : ℕ)
    → sum + word_sum bytes < 2 ^ 32
    → add_words bytes sum ≡ sum + word_sum bytes
unfolding add_words
add_words_lem [] sum h = omega arith
add_words_lem (a ∷ []) sum h = omega arith
add_words_lem (a ∷ b ∷ bytes) sum h =
    let e : (sum + (a * 256 + b)) % 2 ^ 32 ≡ sum + (a * 256 + b) = omega arith in
    rw e (add_words_lem bytes (sum + (a * 256 + b)) (omega arith) ∙ omega arith)

-- What the carries fold into: the same number modulo 65535, and 0 for 0 alone.
pub record Folded (sum r : ℕ) : Type 0 where
  pub small : r < 2 ^ 16
  pub same : r % 65535 ≡ sum % 65535
  pub zero_only : (r ≡ 0) → (sum ≡ 0)
  pub zero_kept : (sum ≡ 0) → (r ≡ 0)

fold_carries-Folded :
    (sum : ℕ) → sum < 2 ^ 32 → (r : ℕ) × (fold_carries checksum_fuel sum ≡ some r) × Folded sum r
unfolding fold_carries
fold_carries-Folded sum h =
    let s1 = (sum % 2 ^ 16 + sum / 2 ^ 16) % 2 ^ 32 in
    let s2 = (s1 % 2 ^ 16 + s1 / 2 ^ 16) % 2 ^ 32 in
    elim (ℕ_discrete (sum / 2 ^ 16) 0) [
      | yes e ↦ rw e (
        sum,
        refl,
        record { small = omega arith; same = refl; zero_only = λ z. z; zero_kept = λ z. z },
      )
      | no n ↦
          let t : (sum / 2 ^ 16 == 0) ≡ false = ground arith in
          elim (ℕ_discrete (s1 / 2 ^ 16) 0) [
            | yes e ↦
                rw (t, e)
                  (
                    s1,
                    refl,
                    record {
                      small = omega arith;
                      same = omega arith;
                      zero_only = λ z. omega arith;
                      zero_kept = λ z. omega arith;
                    },
                  )
            | no k ↦
                let u : (s1 / 2 ^ 16 == 0) ≡ false = ground arith in
                let v : (s2 / 2 ^ 16 == 0) ≡ true = ground arith in
                rw (t, u, v)
                  (
                    s2,
                    refl,
                    record {
                      small = omega arith;
                      same = omega arith;
                      zero_only = λ z. omega arith;
                      zero_kept = λ z. omega arith;
                    },
                  )
          ]
    ]

checksum16_lem :
    (bytes : List ℕ)
    → word_sum bytes < 2 ^ 32
    → (r : ℕ) × (checksum16 bytes ≡ some (65535 - r)) × Folded (word_sum bytes) r
unfolding checksum16
checksum16_lem bytes h =
    let e : add_words bytes 0 ≡ word_sum bytes =
      add_words_lem bytes 0 (omega arith) ∙ omega arith in
    let (r, found, f) = fold_carries-Folded (word_sum bytes) h in
    let low : r % 2 ^ 16 ≡ r = omega (arith, f.small) in
    let folded : fold_carries checksum_fuel (add_words bytes 0) ≡ some r =
      ap (fold_carries checksum_fuel) e ∙ found in
    (r, rw (folded, checksum16) (ap some (ap (λ n. 65535 - n) low)), f)

-- A field of two bytes at an even place adds its value to the sum.
word_sum_field :
    (words : ℕ) (front back : List ℕ) (hi lo : ℕ)
    → length front ≡ words * 2
    → word_sum (front ++ hi ∷ lo ∷ back) ≡ word_sum front + (hi * 256 + lo) + word_sum back
word_sum_field zero [] back hi lo e = omega arith
word_sum_field zero (a ∷ front) back hi lo e = absurd (omega arith)
word_sum_field (suc words) [] back hi lo e = absurd (omega arith)
word_sum_field (suc words) (a ∷ []) back hi lo e = absurd (omega arith)
word_sum_field (suc words) (a ∷ b ∷ front) back hi lo e =
    omega (arith, word_sum_field words front back hi lo (omega arith))

-- The sum with the complement of its folded value added folds into all ones.
folds_to_ones : (sum r t : ℕ) → Folded sum r → Folded (sum + (65535 - r)) t → t ≡ 65535
folds_to_ones sum r t f g = elim (ℕ_discrete t 0) [
  | no n ↦ omega (arith, f.small, f.same, g.small, g.same)
  | yes z ↦
      let empty : sum + (65535 - r) ≡ 0 = g.zero_only z in
      let none_there : r ≡ 0 = f.zero_kept (omega arith) in absurd (omega arith)
]

pub checksum16-verifies :
    (words : ℕ) (front back : List ℕ)
    → length front ≡ words * 2
    → word_sum front + word_sum back + 65535 < 2 ^ 32
    → (c : ℕ) × (c < 2 ^ 16)
      × (checksum16 (front ++ 0 ∷ 0 ∷ back) ≡ some c)
      × (checksum16 (front ++ c / 256 ∷ c % 256 ∷ back) ≡ some 0)
checksum16-verifies words front back even small =
    let blank : word_sum (front ++ 0 ∷ 0 ∷ back) ≡ word_sum front + word_sum back =
      word_sum_field words front back 0 0 even ∙ omega arith in
    let (r, sent, f) = checksum16_lem (front ++ 0 ∷ 0 ∷ back) (omega (arith, blank)) in
    let (r', received, g) = filled_in r f.small in
    let full : r' ≡ 65535 =
      folds_to_ones _ r r' f (rw (sum_of r f.small ∙ ap (λ n. n + (65535 - r)) (sym blank)) at g) in
    (65535 - r, omega arith, sent, received ∙ ap some (omega arith))
  where
    sum_of :
        (r : ℕ)
        → r < 2 ^ 16
        → word_sum (front ++ (65535 - r) / 256 ∷ (65535 - r) % 256 ∷ back)
          ≡ word_sum front + word_sum back + (65535 - r)
    sum_of r h = word_sum_field words front back _ _ even ∙ omega arith

    filled_in :
        (r : ℕ)
        → r < 2 ^ 16
        → let bytes = front ++ (65535 - r) / 256 ∷ (65535 - r) % 256 ∷ back in
          (r' : ℕ) × (checksum16 bytes ≡ some (65535 - r')) × Folded (word_sum bytes) r'
    filled_in r h = checksum16_lem _ (omega (arith, sum_of r h))

-- A packet of at most 65535 bytes has such a sum.
pub word_sum-lt :
    (bytes : List ℕ) → AreBytes bytes → length bytes ≤ 65535 → word_sum bytes + 65535 < 2 ^ 32
word_sum-lt bytes h le = omega (arith, word_sum-le bytes h)
