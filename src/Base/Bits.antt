-- ===== src/Base/Bits.antt =====
-- Facts about `bit_and` and `bit_or` on bytes, checked at every value.
use Prim.Native.Nat.{ℕ, zero, suc, ◌-◌, ◌^◌, ◌<◌, bit_and, bit_or}
use mathlib.Core.Path.{◌≡◌, refl}
use mathlib.Core.Bool.{Bool, true, false, not, ◌&&◌, ◌||◌}
use native.Mathlib.Omega.{arith}
use gravityos.Base.Tests.{◌==◌, ltb, ltb→lt}

-- `p` holds of the first `n` numbers; evaluation runs through them.
unfoldable pub every_below : (ℕ → Bool) → ℕ → Bool
every_below p zero = true
every_below p (suc n) = every_below p n && p n

pub every_below-lt : (p : ℕ → Bool) {n : ℕ} → every_below p n ≡ true → (x : ℕ) → x < n → p x ≡ true
unfolding every_below
every_below-lt p {n = zero} table x lt = elim lt [ ]
every_below-lt p {n = suc n} table x lt = ground (arith, every_below-lt p {n = n} (ground arith) x)

abbrev pub bool_eq : Bool → Bool → Bool
bool_eq true b = b
bool_eq false b = not b

pub bool_eq_sound : (a b : Bool) → bool_eq a b ≡ true → a ≡ b
bool_eq_sound a b h = ground arith

-- Bit `k` of a word.
abbrev pub test_bit : ℕ → ℕ → Bool
test_bit b k = not (bit_and b (2 ^ k) == 0)

-- `b |= 1 << k` and `b &= ~(1 << k)` on a byte.
abbrev pub byte_set : ℕ → ℕ → ℕ
byte_set b k = bit_or b (2 ^ k)

abbrev pub byte_clear : ℕ → ℕ → ℕ
byte_clear b k = bit_and b (255 - 2 ^ k)

abbrev byte_laws : ℕ → ℕ → ℕ → Bool
byte_laws b k l =
    ltb (byte_set b k) 256
    && (ltb (byte_clear b k) 256
        && (bool_eq (test_bit (byte_set b k) l) ((k == l) || test_bit b l)
            && bool_eq (test_bit (byte_clear b k) l) (not (k == l) && test_bit b l)))

byte_table : every_below (λ b. every_below (λ k. every_below (byte_laws b k) 8) 8) 256 ≡ true
unfolding every_below
byte_table = refl

byte_laws_lem : (b k l : ℕ) → b < 256 → k < 8 → l < 8 → byte_laws b k l ≡ true
byte_laws_lem b k l hb hk hl =
    every_below-lt _ (every_below-lt _ (every_below-lt _ byte_table b hb) k hk) l hl

and_parts :
    (a b c d : Bool)
    → (a && (b && (c && d))) ≡ true
    → (a ≡ true) × (b ≡ true) × (c ≡ true) × (d ≡ true)
and_parts a b c d h = ground arith

module _ (b k l : ℕ) (hb : b < 256) (hk : k < 8) (hl : l < 8) where
  byte_facts :
      (ltb (byte_set b k) 256 ≡ true)
      × (ltb (byte_clear b k) 256 ≡ true)
      × (bool_eq (test_bit (byte_set b k) l) ((k == l) || test_bit b l) ≡ true)
      × (bool_eq (test_bit (byte_clear b k) l) (not (k == l) && test_bit b l) ≡ true)
  byte_facts =
      and_parts (ltb (byte_set b k) 256) (ltb (byte_clear b k) 256)
        (bool_eq (test_bit (byte_set b k) l) ((k == l) || test_bit b l))
        (bool_eq (test_bit (byte_clear b k) l) (not (k == l) && test_bit b l))
        (byte_laws_lem b k l hb hk hl)

  -- Setting bit `k` of a byte changes that bit only.
  pub test_bit-byte_set : test_bit (byte_set b k) l ≡ ((k == l) || test_bit b l)
  test_bit-byte_set = bool_eq_sound _ _ byte_facts.2

  -- So does clearing it.
  pub test_bit-byte_clear : test_bit (byte_clear b k) l ≡ (not (k == l) && test_bit b l)
  test_bit-byte_clear = bool_eq_sound _ _ byte_facts.3

pub byte_set-lt : (b k : ℕ) → b < 256 → k < 8 → byte_set b k < 256
byte_set-lt b k hb hk = ltb→lt _ _ (byte_facts b k 0 hb hk (omega arith)).0

pub byte_clear-lt : (b k : ℕ) → b < 256 → k < 8 → byte_clear b k < 256
byte_clear-lt b k hb hk = ltb→lt _ _ (byte_facts b k 0 hb hk (omega arith)).1
