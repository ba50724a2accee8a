-- ===== src/Format.antt =====
-- lib/stdio.c and the conversions of lib/string.c: vsnprintf, utoa and atoi. A format is the list of its
-- characters, none of them NUL. The arguments are the 64-bit words that va_arg gives in their order,
-- and `text` is the string at an address. The buffer is an array; size_t is a 64-bit number.
pub mod Digits
pub mod Bound
use gravityos.Base.{
  ℕ, zero, suc, ◌+◌, ◌-◌, ◌*◌, ◌/◌, ◌%◌, ◌^◌, Bool, true, false, not, ◌&&◌, ◌||◌, List, [], ◌∷◌,
  ◌++◌, Option, none, some, ltb, leb, ◌==◌, if◌then◌else◌, update, length, replicate,
}
use gravityos.Base.Int.{ℤ, pos, negsuc}

-- `(digit < 10) ? ('0' + digit) : ('a' + digit - 10)`.
abbrev pub digit_char : ℕ → ℕ
digit_char digit = if ltb digit 10 then b'0' + digit else b'a' + digit - 10

-- The loop of utoa, the last digit first; a 64-bit number has at most 64 digits.
pub low_digits : ℕ → ℕ → ℕ → List ℕ
low_digits zero base value = []
low_digits (suc fuel) base value =
    let more = low_digits fuel base (value / base) in
    digit_char (value % base) ∷ (if value / base == 0 then [] else more)

-- The loop that turns the digits round.
abbrev pub turn : List ℕ → List ℕ → List ℕ
turn [] out = out
turn (c ∷ cs) out = turn cs (c ∷ out)

pub utoa : ℕ → ℕ → List ℕ
utoa value base = turn (low_digits 64 base value) []

abbrev pub is_digit : ℕ → Bool
is_digit c = leb b'0' c && leb c b'9'

abbrev pub skip_blanks : List ℕ → List ℕ
skip_blanks [] = []
skip_blanks (c ∷ s) = if (c == b' ') || (c == b'\t') then skip_blanks s else c ∷ s

-- The loop of atoi over the digits; an int that overflows is undefined in C.
abbrev pub read_digits : List ℕ → ℕ → ℕ
read_digits [] result = result
read_digits (c ∷ s) result =
    let more = read_digits s (result * 10 + (c - b'0')) in if is_digit c then more else result

abbrev pub negated : ℕ → ℤ
negated zero = pos 0
negated (suc n) = negsuc n

abbrev pub atoi_signed : List ℕ → ℤ
atoi_signed [] = pos 0
atoi_signed (c ∷ s) =
    if c == b'-'
    then negated (read_digits s 0)
    else if c == b'+'
    then pos (read_digits s 0)
    else pos (read_digits (c ∷ s) 0)

pub atoi : List ℕ → ℤ
atoi s = atoi_signed (skip_blanks s)

-- The buffer and the place of the next character, `buf` and `pos`.
pub record Out : Type 0 where
  pub buf : ℕ → ℕ
  pub place : ℕ

-- The macro PUT.
pub put : ℕ → ℕ → Out → Out
put size c o =
    if ltb o.place ((size + 2 ^ 64 - 1) % 2 ^ 64)
    then record { buf = update o.buf o.place c; place = o.place + 1 }
    else record { buf = o.buf; place = o.place + 1 }

pub put_all : ℕ → List ℕ → Out → Out
put_all size [] o = o
put_all size (c ∷ cs) o = put_all size cs (put size c o)

-- What stands between the `%` and the conversion's character.
pub record Flags : Type 0 where
  pub pad_zero : Bool
  pub pad_width : ℕ
  pub is_long : Bool

abbrev pub width : List ℕ → ℕ → ℕ × List ℕ
width [] n = (n, [])
width (c ∷ fmt) n =
    let more = width fmt (n * 10 + (c - b'0')) in if is_digit c then more else (n, c ∷ fmt)

abbrev pub long_flag : List ℕ → Bool × List ℕ
long_flag [] = (false, [])
long_flag (c ∷ fmt) = if c == b'l' then (true, fmt) else (false, c ∷ fmt)

abbrev pub zero_flag : List ℕ → Bool × List ℕ
zero_flag [] = (false, [])
zero_flag (c ∷ fmt) = if c == b'0' then (true, fmt) else (false, c ∷ fmt)

abbrev pub flags : List ℕ → Flags × List ℕ
flags fmt =
    let (z, fmt') = zero_flag fmt in
    let (n, fmt'') = width fmt' 0 in
    let (l, rest) = long_flag fmt'' in (record { pad_zero = z; pad_width = n; is_long = l }, rest)

abbrev pub padding : ℕ → ℕ → List ℕ → List ℕ
padding c n digits = replicate (n - length digits) c ++ digits

abbrev pub fill_char : Flags → ℕ
fill_char f = if f.pad_zero then b'0' else b' '

-- The value of a signed conversion: whether it is negative, and its size.
abbrev pub signed_value : Bool → ℕ → Bool × ℕ
signed_value true w =
    let v = w % 2 ^ 64 in if leb (2 ^ 63) v then (true, 2 ^ 64 - v) else (false, v)
signed_value false w =
    let v = w % 2 ^ 32 in if leb (2 ^ 31) v then (true, 2 ^ 32 - v) else (false, v)

abbrev pub unsigned_value : Bool → ℕ → ℕ
unsigned_value true w = w % 2 ^ 64
unsigned_value false w = w % 2 ^ 32

abbrev pub signed_text : Flags → ℕ → List ℕ
signed_text f w =
    let (negative, val) = signed_value f.is_long w in
    (if negative then b'-' ∷ [] else []) ++ padding (fill_char f) f.pad_width (utoa val 10)

abbrev pub unsigned_text : Flags → ℕ → ℕ → List ℕ
unsigned_text f base w = padding (fill_char f) f.pad_width (utoa (unsigned_value f.is_long w) base)

abbrev pub pointer_text : ℕ → List ℕ
pointer_text w = b'0' ∷ b'x' ∷ padding b'0' 16 (utoa (w % 2 ^ 64) 16)

abbrev pub null_text : List ℕ
null_text = b'(' ∷ b'n' ∷ b'u' ∷ b'l' ∷ b'l' ∷ b')' ∷ []

abbrev pub string_text : (ℕ → List ℕ) → Flags → ℕ → List ℕ
string_text text f w = padding b' ' f.pad_width (if w == 0 then null_text else text w)

-- The characters that a conversion puts, and whether it takes an argument.
pub conversion : (ℕ → List ℕ) → Flags → ℕ → ℕ → List ℕ × Bool
conversion text f c w =
    if (c == b'd') || (c == b'i')
    then (signed_text f w, true)
    else if c == b'u'
    then (unsigned_text f 10 w, true)
    else if (c == b'x') || (c == b'X')
    then (unsigned_text f 16 w, true)
    else if c == b'p'
    then (pointer_text w, true)
    else if c == b's'
    then (string_text text f w, true)
    else if c == b'c'
    then (w % 2 ^ 8 ∷ [], true)
    else if c == b'%'
    then (b'%' ∷ [], false)
    else (b'%' ∷ c ∷ [], false)

-- The loop over the format; `n` arguments are used up. `none`: the format ends inside a conversion,
-- and the code reads on behind its NUL; or a width does not fit into an int, whose overflow is
-- undefined in C. Fuel above the format's length is enough.
pub format_loop : ℕ → (ℕ → List ℕ) → (ℕ → ℕ) → ℕ → List ℕ → ℕ → Out → Option Out
format_loop zero text args size fmt n o = none
format_loop (suc fuel) text args size [] n o = some o
format_loop (suc fuel) text args size (c ∷ fmt) n o =
    let (f, rest) = flags fmt in
    let plain = format_loop fuel text args size fmt n (put size c o) in
    let converted : Option Out = elim rest [
      | [] ↦ none
      | k ∷ fmt' ↦
          let (chars, takes) = conversion text f k (args n) in
          format_loop fuel text args size fmt' (if takes then n + 1 else n) (put_all size chars o)
    ] in
    if not (c == b'%') then plain else if leb (2 ^ 31) f.pad_width then none else converted

-- The cast of a size_t to an int.
abbrev pub to_int : ℕ → ℤ
to_int n = let low = n % 2 ^ 32 in if ltb low (2 ^ 31) then pos low else negsuc (2 ^ 32 - 1 - low)

-- The NUL, and the result.
abbrev pub finish : ℕ → Out → (ℕ → ℕ) × ℤ
finish size o = (
  if ltb 0 size then update o.buf (if ltb o.place size then o.place else size - 1) 0 else o.buf,
  to_int o.place,
)

pub vsnprintf : (ℕ → List ℕ) → (ℕ → ℕ) → (ℕ → ℕ) → ℕ → List ℕ → Option ((ℕ → ℕ) × ℤ)
vsnprintf text args buf size fmt =
    elim (format_loop (length fmt + 1) text args size fmt 0 (record { buf = buf; place = 0 })) [
      | none ↦ none
      | some o ↦ some (finish size o)
    ]
