-- ===== src/Format/Bound/Tests.antt =====
-- Formats for a small buffer.
use gravityos.Base.{
  ℕ, ◌-◌, ◌^◌, ◌≡◌, refl, arith, List, [], ◌∷◌, some, ltb, ◌==◌, if◌then◌else◌, length, get_or, min,
}
use gravityos.Base.Int.{pos}
use gravityos.Format.{low_digits, utoa, atoi, conversion, vsnprintf}
use gravityos.Format.Digits.{atoi-utoa}
use gravityos.Format.Bound.{rendered, vsnprintf-fits}

abbrev no_text : ℕ → List ℕ
no_text a = []

abbrev blank : ℕ → ℕ
blank i = 0xAA

-- The arguments -42 and 255.
abbrev args : ℕ → ℕ
args i = if i == 0 then 2 ^ 32 - 42 else 255

-- `%4d,%x`, and its text.
abbrev format : List ℕ
format = b'%' ∷ b'4' ∷ b'd' ∷ b',' ∷ b'%' ∷ b'x' ∷ []

abbrev format_text : List ℕ
format_text = b'-' ∷ b' ' ∷ b' ' ∷ b'4' ∷ b'2' ∷ b',' ∷ b'f' ∷ b'f' ∷ []

format-rendered : rendered 7 no_text args format 0 ≡ some format_text
unfolding rendered conversion utoa low_digits
format-rendered = refl

vsnprintf-fits_example :
    (out : ℕ → ℕ) × (vsnprintf no_text args blank 6 format ≡ some (out, pos 8))
    × ((i : ℕ)
        → out i ≡ (
            if ltb i (min (length format_text) (6 - 1))
            then get_or format_text i 0
            else if i == min (length format_text) (6 - 1)
            then 0
            else blank i))
vsnprintf-fits_example =
    vsnprintf-fits no_text args blank 6 format format_text format-rendered (omega arith)
      (omega arith) (omega arith)

atoi-utoa_example : atoi (utoa 1070 10) ≡ pos 1070
atoi-utoa_example = atoi-utoa 1070 (omega arith)
