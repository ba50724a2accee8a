-- ===== src/Shell.antt =====
-- shell/shell.c: reading a line, splitting it into a command and its arguments, and the address that
-- ping takes. The keyboard is the list of the characters that keyboard_getchar returns; memory is that
-- of Strings. A loop over a string has fuel, and ends in `none` where it runs out.
pub mod Digits
pub mod Address
pub mod Line
pub mod Commands
pub mod Run
mod Tests
use gravityos.Base.{
  ℕ, zero, suc, ◌+◌, ◌-◌, ◌*◌, ◌/◌, ◌%◌, ◌^◌, Bool, true, false, not, ◌&&◌, ◌||◌, List, [], ◌∷◌,
  ◌++◌, Option, none, some, ltb, leb, ◌==◌, if◌then◌else◌, update,
}
use gravityos.Strings.{Bytes}

abbrev pub max_cmd_len : ℕ
max_cmd_len = 256

-- The local variables of parse_ipv4.
pub record Parts : Type 0 where
  pub parts : ℕ → ℕ
  pub part : ℕ
  pub digits : ℕ

-- What the loop does with a character: it goes on, leaves the loop, or returns 0.
pub data Step : Type 0 where
  next : Parts → Step
  stop refuse : Step

-- `parts[part] = parts[part] * 10 + (*p - '0')`, which stays below 2560.
abbrev pub more : ℕ → Parts → ℕ
more c s = s.parts s.part * 10 + (c - 48)

pub parse_step : ℕ → Parts → Step
parse_step c s =
    if leb 48 c && leb c 57
    then if ltb 255 (more c s)
      then refuse
      else next (record s { parts = update s.parts s.part (more c s); digits = s.digits + 1 })
    else if c == 46
    then if (s.digits == 0) || (s.part == 3)
      then refuse
      else next (record s { part = s.part + 1; digits = 0 })
    else if (c == 0) || (c == 32)
    then stop
    else refuse

-- The loop from address `p` on: the parts where it is left, none inside where the text is refused.
pub parse_from : ℕ → Bytes → ℕ → Parts → Option (Option Parts)
parse_from zero m p s = none
parse_from (suc fuel) m p s = elim (parse_step (m p) s) [
  | next s' ↦ parse_from fuel m (p + 1) s'
  | stop ↦ some (some s)
  | refuse ↦ some none
]

abbrev pub no_parts : Parts
no_parts = record { parts = λ _. 0; part = 0; digits = 0 }

-- The address, for four parts; each is at most 255, so that the sum is what `|` gives.
pub join_parts : Option Parts → Option ℕ
join_parts none = none
join_parts (some s) =
    if not (s.part == 3) || (s.digits == 0)
    then none
    else some (s.parts 0 * 2 ^ 24 + s.parts 1 * 2 ^ 16 + s.parts 2 * 2 ^ 8 + s.parts 3)

-- The address, or none inside for the result 0.
pub parse_ipv4 : ℕ → Bytes → ℕ → Option (Option ℕ)
parse_ipv4 fuel m text = elim (parse_from fuel m text no_parts) [
  | none ↦ none
  | some r ↦ some (join_parts r)
]

-- The four numbers that print_ip prints.
abbrev pub ip_part : ℕ → ℕ → ℕ
ip_part ip k = ip / 2 ^ (8 * k) % 256

-- The local state of readline, and what kputchar was given.
pub record Reader : Type 0 where
  pub buf : ℕ → ℕ
  pub pos : ℕ
  pub echo : List ℕ

-- A key other than the end of the line.
pub read_key : ℕ → Reader → Reader
read_key c r =
    if c == 8
    then if ltb 0 r.pos then record r { pos = r.pos - 1; echo = r.echo ++ (8 ∷ []) } else r
    else if c == 9
    then r
    else if leb 32 c && ltb c 127
    then record r { buf = update r.buf r.pos c; pos = r.pos + 1; echo = r.echo ++ (c ∷ []) }
    else r

-- `buf[pos] = '\0'`.
abbrev pub end_line : Reader → Reader
end_line r = record r { buf = update r.buf r.pos 0 }

-- The loop: the line and the keys behind it, or none where it waits for a key.
pub readline_from : ℕ → List ℕ → Reader → Option (Reader × List ℕ)
readline_from max_len [] r = if not (ltb r.pos (max_len - 1)) then some (end_line r, []) else none
readline_from max_len (c ∷ keys) r =
    let rest = readline_from max_len keys (read_key c r) in
    if not (ltb r.pos (max_len - 1))
    then some (end_line r, c ∷ keys)
    else if c == 10
    then some (record (end_line r) { echo = r.echo ++ (10 ∷ []) }, keys)
    else rest

pub readline : ℕ → List ℕ → (ℕ → ℕ) → Option (Reader × List ℕ)
readline max_len keys buf = readline_from max_len keys (record { buf = buf; pos = 0; echo = [] })
