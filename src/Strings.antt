-- ===== src/Strings.antt =====
-- lib/string.c: memory blocks and C strings. Memory is the array of its bytes, a pointer an index
-- into it; an object does not reach over the end of the address space, so sums of a pointer and an
-- index do not wrap. A loop that runs to a string's NUL is recursion on fuel, and ends in `none`
-- where the fuel runs out.
pub mod Blocks
pub mod Listed
pub mod Terminated
pub mod Compare
pub mod Search
pub mod Copies
mod Tests
use gravityos.Base.{
  ℕ, zero, suc, ◌+◌, ◌-◌, ◌%◌, Bool, true, false, not, ◌&&◌, Option, none, some, ltb, ◌==◌,
  if◌then◌else◌, update,
}
use gravityos.Base.Int.{ℤ, pos, sub_ℕ}

abbrev pub Bytes : Type 0
Bytes = ℕ → ℕ

-- `for (i = 0; i < n; i++) d[i] = s[i]`, from round `i` on, with `n` rounds left.
pub copy_up : ℕ → ℕ → ℕ → ℕ → Bytes → Bytes
copy_up d s zero i m = m
copy_up d s (suc n) i m = copy_up d s n (i + 1) (update m (d + i) (m (s + i)))

-- `for (i = n; i > 0; i--) d[i - 1] = s[i - 1]`.
pub copy_down : ℕ → ℕ → ℕ → Bytes → Bytes
copy_down d s zero m = m
copy_down d s (suc n) m = copy_down d s n (update m (d + n) (m (s + n)))

pub memcpy : ℕ → ℕ → ℕ → Bytes → Bytes
memcpy d s n m = copy_up d s n 0 m

pub memmove : ℕ → ℕ → ℕ → Bytes → Bytes
memmove d s n m = if ltb d s then copy_up d s n 0 m else copy_down d s n m

pub fill : ℕ → ℕ → ℕ → ℕ → Bytes → Bytes
fill p c zero i m = m
fill p c (suc n) i m = fill p c n (i + 1) (update m (p + i) (c % 256))

pub memset : ℕ → ℕ → ℕ → Bytes → Bytes
memset p c n m = fill p c n 0 m

pub memcmp : Bytes → ℕ → ℕ → ℕ → ℤ
memcmp m p q zero = pos 0
memcmp m p q (suc n) =
    let rest = memcmp m (p + 1) (q + 1) n in if m p == m q then rest else sub_ℕ (m p) (m q)

-- The loop of strncmp from index `i` on, with `n` rounds left.
pub strncmp_from : Bytes → ℕ → ℕ → ℕ → ℕ → ℤ
strncmp_from m p q zero i = pos 0
strncmp_from m p q (suc n) i =
    let rest = strncmp_from m p q n (i + 1) in
    if not (m (p + i) == m (q + i))
    then sub_ℕ (m (p + i)) (m (q + i))
    else if m (p + i) == 0
    then pos 0
    else rest

pub strncmp : Bytes → ℕ → ℕ → ℕ → ℤ
strncmp m p q n = strncmp_from m p q n 0

pub strlen_from : ℕ → Bytes → ℕ → ℕ → Option ℕ
strlen_from zero m s len = none
strlen_from (suc fuel) m s len =
    let rest = strlen_from fuel m s (len + 1) in if m (s + len) == 0 then some len else rest

pub strlen : ℕ → Bytes → ℕ → Option ℕ
strlen fuel m s = strlen_from fuel m s 0

pub strcmp : ℕ → Bytes → ℕ → ℕ → Option ℤ
strcmp zero m p q = none
strcmp (suc fuel) m p q =
    let rest = strcmp fuel m (p + 1) (q + 1) in
    if not (m p == 0) && (m p == m q) then rest else some (sub_ℕ (m p) (m q))

-- The result of the searches: a pointer, or 0 for NULL.
pub strchr : ℕ → Bytes → ℕ → ℕ → Option ℕ
strchr zero m s c = none
strchr (suc fuel) m s c =
    let rest = strchr fuel m (s + 1) c in
    if m s == 0 then some (if c == 0 then s else 0) else if m s == c % 256 then some s else rest

-- The loop of strrchr, with the last find so far.
pub strrchr_from : ℕ → Bytes → ℕ → ℕ → ℕ → Option ℕ
strrchr_from zero m s c last = none
strrchr_from (suc fuel) m s c last =
    let rest = strrchr_from fuel m (s + 1) c (if m s == c % 256 then s else last) in
    if m s == 0 then some (if c == 0 then s else last) else rest

pub strrchr : ℕ → Bytes → ℕ → ℕ → Option ℕ
strrchr fuel m s c = strrchr_from fuel m s c 0
