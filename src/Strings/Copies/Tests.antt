-- ===== src/Strings/Copies/Tests.antt =====
-- "ca" in "abcab".
use gravityos.Base.{◌+◌, ◌≡◌, refl, arith, [], ◌∷◌, get_or, not, ◌==◌, true}
use gravityos.Base.Bits.{every_below, every_below-lt}
use gravityos.Strings.{Bytes}
use gravityos.Strings.Terminated.{IsString}
use gravityos.Strings.Copies.{strstr}
use gravityos.Strings.Copies.Substring.{FirstPlace, strstr-FirstPlace}

-- "abcab" at 0 and "ca" at 6.
abbrev text : Bytes
text i = get_or (b'a' ∷ b'b' ∷ b'c' ∷ b'a' ∷ b'b' ∷ 0 ∷ b'c' ∷ b'a' ∷ []) i 0

haystack_on : every_below (λ i. not (text i == 0)) 5 ≡ true
unfolding every_below
haystack_on = refl

needle_on : every_below (λ i. not (text (6 + i) == 0)) 2 ≡ true
unfolding every_below
needle_on = refl

haystack-IsString : IsString text 0 5
haystack-IsString = record {
  stop = refl;
  body = λ i lt. ground (arith, every_below-lt _ haystack_on i lt);
}

needle-IsString : IsString text 6 2
needle-IsString = record {
  stop = refl;
  body = λ i lt. ground (arith, every_below-lt _ needle_on i lt);
}

strstr-FirstPlace_example : FirstPlace text 0 5 6 2 (strstr 8 text 0 6)
strstr-FirstPlace_example =
    strstr-FirstPlace 5 2 8 text 0 6 haystack-IsString needle-IsString (omega arith)
