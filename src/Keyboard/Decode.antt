-- ===== src/Keyboard/Decode.antt =====
-- Which character a key gives, by the tables' values.
use gravityos.Base.{
  ℕ, ◌-◌, ◌<◌, ◌≡◌, refl, arith, Bool, true, false, not, ◌||◌, Option, none, some, ◌==◌,
  if◌then◌else◌, get_or, get_or_beyond, dec_lt, ap,
}
use gravityos.Base.Bits.{every_below, every_below-lt}
use gravityos.Keyboard.{scancode_to_ascii, is_lower, lookup_key, apply_caps, apply_ctrl, key_char}

-- The key's character without any modifier.
abbrev pub plain : ℕ → ℕ
plain scancode = get_or scancode_to_ascii scancode 0

abbrev pub is_letter_key : ℕ → Bool
is_letter_key scancode = is_lower (plain scancode)

abbrev xor_bool : Bool → Bool → Bool
xor_bool a b = if a then not b else b

abbrev is_value : Option ℕ → ℕ → Bool
is_value none v = false
is_value (some c) v = c == v

is_value_sound :
    (letter : Bool) (o : Option ℕ) (v : ℕ)
    → (not letter || is_value o v) ≡ true
    → letter ≡ true
    → o ≡ some v
is_value_sound letter none v h e = ground arith
is_value_sound letter (some c) v h e = ground arith

-- The test that the key, if it is a letter, gives the character that `f` makes of its plain one.
abbrev gives : Bool → Bool → Bool → (ℕ → ℕ) → ℕ → Bool
gives shift ctrl caps f scancode =
    not (is_letter_key scancode)
    || is_value (key_char shift ctrl caps scancode) (f (plain scancode))

letter_key-lt : (scancode : ℕ) → is_letter_key scancode ≡ true → scancode < 88
letter_key-lt scancode letter = elim (dec_lt scancode 88) [
  | yes lt ↦ lt
  | no ge ↦
      let beyond : plain scancode ≡ 0 = get_or_beyond scancode_to_ascii scancode 0 (omega arith) in
      cc (letter, ap is_lower beyond)
]

gives_sound :
    (shift ctrl caps : Bool) (f : ℕ → ℕ) (scancode : ℕ)
    → every_below (gives shift ctrl caps f) 88 ≡ true
    → is_letter_key scancode ≡ true
    → key_char shift ctrl caps scancode ≡ some (f (plain scancode))
gives_sound shift ctrl caps f scancode table letter =
    is_value_sound (is_letter_key scancode) _ _
      (every_below-lt _ table scancode (letter_key-lt scancode letter)) letter

-- Without Ctrl a letter key gives the capital exactly when one of Shift and Caps Lock is on.
pub letter_case :
    (shift caps : Bool) (scancode : ℕ)
    → is_letter_key scancode ≡ true
    → key_char shift false caps scancode
      ≡ some (if xor_bool shift caps then plain scancode - 32 else plain scancode)
unfolding every_below key_char lookup_key apply_caps apply_ctrl
letter_case true true scancode h = gives_sound true false true (λ c. c) scancode refl h
letter_case true false scancode h = gives_sound true false false (λ c. c - 32) scancode refl h
letter_case false true scancode h = gives_sound false false true (λ c. c - 32) scancode refl h
letter_case false false scancode h = gives_sound false false false (λ c. c) scancode refl h

-- With Ctrl, a letter key gives its control code, 1 for `a` up to 26 for `z`, where Shift and Caps
-- Lock are both on or both off; with one of them on it gives the capital letter, no control code.
pub ctrl_letter :
    (shift caps : Bool) (scancode : ℕ)
    → is_letter_key scancode ≡ true
    → key_char shift true caps scancode
      ≡ some (if xor_bool shift caps then plain scancode - 32 else plain scancode - 96)
unfolding every_below key_char lookup_key apply_caps apply_ctrl
ctrl_letter true true scancode h = gives_sound true true true (λ c. c - 96) scancode refl h
ctrl_letter true false scancode h = gives_sound true true false (λ c. c - 32) scancode refl h
ctrl_letter false true scancode h = gives_sound false true true (λ c. c - 32) scancode refl h
ctrl_letter false false scancode h = gives_sound false true false (λ c. c - 96) scancode refl h
