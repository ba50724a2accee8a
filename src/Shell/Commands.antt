-- ===== src/Shell/Commands.antt =====
-- shell/shell.c: process_command, and the commands that hand something on: run, write and ping. The
-- names of the commands are lists of their characters.
use gravityos.Base.{
  ℕ, zero, suc, ◌+◌, Bool, ◌&&◌, List, [], ◌∷◌, Option, none, some, ◌==◌, if◌then◌else◌, update,
}
use gravityos.Strings.{Bytes, strchr}

pub data Command : Type 0 where
  help clear echo net ping run ls cat write rm df disk usermode fetch mem uptime gravity reboot halt
        unknown :
      Command

-- The tests of process_command in their order.
abbrev pub command_table : List (List ℕ × Command)
command_table =
    ((b'h' ∷ b'e' ∷ b'l' ∷ b'p' ∷ []), help)
    ∷ ((b'c' ∷ b'l' ∷ b'e' ∷ b'a' ∷ b'r' ∷ []), clear)
    ∷ ((b'c' ∷ b'l' ∷ b's' ∷ []), clear)
    ∷ ((b'e' ∷ b'c' ∷ b'h' ∷ b'o' ∷ []), echo)
    ∷ ((b'n' ∷ b'e' ∷ b't' ∷ []), net)
    ∷ ((b'p' ∷ b'i' ∷ b'n' ∷ b'g' ∷ []), ping)
    ∷ ((b'r' ∷ b'u' ∷ b'n' ∷ []), run)
    ∷ ((b'l' ∷ b's' ∷ []), ls)
    ∷ ((b'd' ∷ b'i' ∷ b'r' ∷ []), ls)
    ∷ ((b'c' ∷ b'a' ∷ b't' ∷ []), cat)
    ∷ ((b'w' ∷ b'r' ∷ b'i' ∷ b't' ∷ b'e' ∷ []), write)
    ∷ ((b'r' ∷ b'm' ∷ []), rm)
    ∷ ((b'd' ∷ b'e' ∷ b'l' ∷ []), rm)
    ∷ ((b'd' ∷ b'f' ∷ []), df)
    ∷ ((b'd' ∷ b'i' ∷ b's' ∷ b'k' ∷ []), disk)
    ∷ ((b'u' ∷ b's' ∷ b'e' ∷ b'r' ∷ b'm' ∷ b'o' ∷ b'd' ∷ b'e' ∷ []), usermode)
    ∷ ((b'r' ∷ b'i' ∷ b'n' ∷ b'g' ∷ b'3' ∷ []), usermode)
    ∷ ((b'f' ∷ b'e' ∷ b't' ∷ b'c' ∷ b'h' ∷ []), fetch)
    ∷ ((b'n' ∷ b'e' ∷ b'o' ∷ b'f' ∷ b'e' ∷ b't' ∷ b'c' ∷ b'h' ∷ []), fetch)
    ∷ ((b'm' ∷ b'e' ∷ b'm' ∷ []), mem)
    ∷ ((b'u' ∷ b'p' ∷ b't' ∷ b'i' ∷ b'm' ∷ b'e' ∷ []), uptime)
    ∷ ((b'g' ∷ b'r' ∷ b'a' ∷ b'v' ∷ b'i' ∷ b't' ∷ b'y' ∷ []), gravity)
    ∷ ((b'r' ∷ b'e' ∷ b'b' ∷ b'o' ∷ b'o' ∷ b't' ∷ []), reboot)
    ∷ ((b'd' ∷ b'u' ∷ b'm' ∷ b'b' ∷ []), halt)
    ∷ []

-- `strcmp(cmd, name) == 0`, for a name that is a literal.
pub equals : Bytes → ℕ → List ℕ → Bool
equals m p [] = m p == 0
equals m p (c ∷ name) = (m p == c) && equals m (p + 1) name

pub find_command : Bytes → ℕ → List (List ℕ × Command) → Command
find_command m cmd [] = unknown
find_command m cmd ((name, command) ∷ table) =
    if equals m cmd name then command else find_command m cmd table

-- `while (*p == ' ') p++`.
pub skip_spaces : ℕ → Bytes → ℕ → Option ℕ
skip_spaces zero m p = none
skip_spaces (suc fuel) m p =
    let rest = skip_spaces fuel m (p + 1) in if m p == 32 then rest else some p

-- What a line asks for: nothing, or a command with its arguments (0 for NULL) and the memory in which the
-- command's name ends with a NUL.
pub data Request : Type 0 where
  nothing : Request
  call : Command → ℕ → Bytes → Request

-- The arguments behind the first blank, which is overwritten.
pub split_args : ℕ → Bytes → ℕ → ℕ → Option Request
split_args fuel m cmd space =
    let m' = update m space 0 in
    if space == 0
    then some (call (find_command m cmd command_table) 0 m)
    else elim (skip_spaces fuel m' (space + 1)) [
      | none ↦ none
      | some args ↦
          some (call (find_command m' cmd command_table) (if m' args == 0 then 0 else args) m')
    ]

pub process_at : ℕ → Bytes → ℕ → Option Request
process_at fuel m cmd =
    if m cmd == 0
    then some nothing
    else elim (strchr fuel m cmd 32) [ none ↦ none | some space ↦ split_args fuel m cmd space ]

-- The request of a line; `none` where the fuel does not reach the line's end.
pub process_command : ℕ → Bytes → ℕ → Option Request
process_command fuel m cmd_line = elim (skip_spaces fuel m cmd_line) [
  | none ↦ none
  | some cmd ↦ process_at fuel m cmd
]

-- cmd_run's copy into pending_run_file, with `n` characters of room left: the name and its NUL.
pub copy_name : Bytes → ℕ → ℕ → ℕ → (ℕ → ℕ) → ℕ → ℕ
copy_name m filename zero i file = update file i 0
copy_name m filename (suc n) i file =
    let rest = copy_name m filename n (i + 1) (update file i (m (filename + i))) in
    if m (filename + i) == 0 then update file i 0 else rest

pub pending_run_file : Bytes → ℕ → (ℕ → ℕ) → ℕ → ℕ
pending_run_file m filename file = copy_name m filename 31 0 file

-- cmd_write's copy into its buffer, with `n` characters of room left: the length with the newline, and
-- the buffer.
pub copy_text : Bytes → ℕ → ℕ → ℕ → (ℕ → ℕ) → ℕ × (ℕ → ℕ)
copy_text m text zero len buffer = (len + 1, update buffer len 10)
copy_text m text (suc n) len buffer =
    let rest = copy_text m text n (len + 1) (update buffer len (m (text + len))) in
    if m (text + len) == 0 then (len + 1, update buffer len 10) else rest

pub write_buffer : Bytes → ℕ → (ℕ → ℕ) → ℕ × (ℕ → ℕ)
write_buffer m text buffer = copy_text m text 510 0 buffer

-- cmd_write's arguments: where the text starts, and the memory in which the name ends; none inside for
-- the usage message.
pub split_write : ℕ → Bytes → ℕ → Option (Option (ℕ × Bytes))
split_write fuel m args = elim (strchr fuel m args 32) [
  | none ↦ none
  | some text ↦
      if text == 0
      then some none
      else let m' = update m text 0 in
        elim (skip_spaces fuel m' (text + 1)) [ none ↦ none | some start ↦ some (some (start, m')) ]
]
