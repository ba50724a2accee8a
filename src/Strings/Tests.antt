-- ===== src/Strings/Tests.antt =====
-- Blocks that overlap, and short strings.
use gravityos.Base.{◌≡◌, refl, arith, [], ◌∷◌, get_or, not, ◌==◌, true}
use gravityos.Base.Bits.{every_below, every_below-lt}
use gravityos.Strings.{Bytes, memmove}
use gravityos.Strings.Blocks.{copied, memmove_lem}
use gravityos.Strings.Terminated.{IsString}

-- "abcab" at 0 and "abd" at 6.
abbrev text : Bytes
text i = get_or (b'a' ∷ b'b' ∷ b'c' ∷ b'a' ∷ b'b' ∷ 0 ∷ b'a' ∷ b'b' ∷ b'd' ∷ []) i 0

goes_on : every_below (λ i. not (text i == 0)) 5 ≡ true
unfolding every_below
goes_on = refl

text-IsString : IsString text 0 5
text-IsString = record { stop = refl; body = λ i lt. ground (arith, every_below-lt _ goes_on i lt) }

memmove_lem_example : memmove 2 0 4 text 4 ≡ copied 2 0 4 text 4
memmove_lem_example = memmove_lem 2 0 4 text 4
