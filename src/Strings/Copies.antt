-- ===== src/Strings/Copies.antt =====
-- lib/string.c: the copies of strings, and strstr. The loops that run to a NUL have fuel.
pub mod Substring
mod Tests
use gravityos.Base.{
  ℕ, zero, suc, ◌+◌, ◌-◌, Bool, true, false, not, ◌&&◌, Option, none, some, ◌==◌, if◌then◌else◌,
  update,
}
use gravityos.Strings.{Bytes, fill, strlen}

-- `while ((*dest++ = *src++))`: the memory behind it.
pub strcpy : ℕ → Bytes → ℕ → ℕ → Option Bytes
strcpy zero m dest src = none
strcpy (suc fuel) m dest src =
    let m' = update m dest (m src) in
    let rest = strcpy fuel m' (dest + 1) (src + 1) in if m src == 0 then some m' else rest

-- The two loops of strncpy from index `i` on, with `n` bytes of room left.
pub strncpy_from : Bytes → ℕ → ℕ → ℕ → ℕ → Bytes
strncpy_from m dest src zero i = m
strncpy_from m dest src (suc n) i =
    let rest = strncpy_from (update m (dest + i) (m (src + i))) dest src n (i + 1) in
    if m (src + i) == 0 then fill dest 0 (suc n) i m else rest

pub strncpy : Bytes → ℕ → ℕ → ℕ → Bytes
strncpy m dest src n = strncpy_from m dest src n 0

pub strcat : ℕ → Bytes → ℕ → ℕ → Option Bytes
strcat fuel m dest src = elim (strlen fuel m dest) [
  | none ↦ none
  | some len ↦ strcpy fuel m (dest + len) src
]

-- The inner loop of strstr: whether the needle's end is reached.
pub matches_at : ℕ → Bytes → ℕ → ℕ → Option Bool
matches_at zero m h n = none
matches_at (suc fuel) m h n =
    let rest = matches_at fuel m (h + 1) (n + 1) in
    if not (m h == 0) && (not (m n == 0) && (m h == m n)) then rest else some (m n == 0)

-- What follows the inner loop, by its result and the rest of the outer loop.
pub after_match : ℕ → Option Bool → Option ℕ → Option ℕ
after_match haystack none rest = none
after_match haystack (some true) rest = some haystack
after_match haystack (some false) rest = rest

pub strstr_from : ℕ → Bytes → ℕ → ℕ → Option ℕ
strstr_from zero m haystack needle = none
strstr_from (suc fuel) m haystack needle =
    let rest = strstr_from fuel m (haystack + 1) needle in
    if m haystack == 0
    then some 0
    else if m haystack == m needle
    then after_match haystack (matches_at fuel m haystack needle) rest
    else rest

-- The place in the haystack, or 0 for NULL.
pub strstr : ℕ → Bytes → ℕ → ℕ → Option ℕ
strstr fuel m haystack needle =
    if m needle == 0 then some haystack else strstr_from fuel m haystack needle
