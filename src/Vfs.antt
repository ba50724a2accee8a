-- ===== src/Vfs.antt =====
-- kernel/vfs.c: paths with the one kind of slash, and the names that vfs_open knows.
pub mod Normal
mod Tests
use gravityos.Base.{
  ℕ, zero, suc, ◌+◌, Bool, true, false, not, ◌||◌, Option, none, some, ◌==◌, if◌then◌else◌, update,
}
use gravityos.Base.Int.{ℤ, pos, negsuc}
use gravityos.Strings.{Bytes}
use gravityos.Strings.Copies.{strstr}

abbrev pub max_path_len : ℕ
max_path_len = 256

-- A backslash becomes a slash.
abbrev pub slash : ℕ → ℕ
slash c = if c == 92 then 47 else c

-- The loop from index `i` on, with `n` characters of room left, and the NUL behind it.
pub normalize_from : ℕ → ℕ → ℕ → ℕ → Bytes → Bytes
normalize_from input output zero i m = update m (output + i) 0
normalize_from input output (suc n) i m =
    let rest =
      normalize_from input output n (i + 1) (update m (output + i) (slash (m (input + i)))) in
    if m (input + i) == 0 then update m (output + i) 0 else rest

pub vfs_normalize_path : ℕ → ℕ → Bytes → Bytes
vfs_normalize_path input output m = normalize_from input output 255 0 m

-- Whether a search found something; none where its fuel ran out.
pub either : Option ℕ → Option ℕ → Option Bool
either none b = none
either (some a) none = if not (a == 0) then some true else none
either (some a) (some b) = some (not (a == 0) || not (b == 0))

pub open_result : Option Bool → Option ℕ → Option ℤ
open_result none libc = none
open_result (some true) libc = some (pos 999)
open_result (some false) none = none
open_result (some false) (some libc) = some (if not (libc == 0) then pos 998 else negsuc 0)

-- `path` is the local buffer, the others are the addresses of the three literals.
pub vfs_open : ℕ → ℕ → ℕ → ℕ → ℕ → ℕ → Bytes → Option ℤ
vfs_open fuel filename path kernel32 user32 libc m =
    let m' = vfs_normalize_path filename path m in
    open_result (either (strstr fuel m' path kernel32) (strstr fuel m' path user32))
      (strstr fuel m' path libc)
