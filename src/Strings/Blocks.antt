-- ===== src/Strings/Blocks.antt =====
-- memcpy, memmove and memset, byte by byte.
use gravityos.Base.{
  ℕ, zero, suc, ◌+◌, ◌-◌, ◌%◌, ◌≤◌, ◌≡◌, ◌⊎◌, refl, arith, Bool, false, ◌&&◌, ltb, leb,
  if◌then◌else◌, update, Bool-cases, inl, inr, ap, ◌∙◌, ℕ_discrete,
}
use gravityos.Strings.{Bytes, copy_up, copy_down, memcpy, memmove, fill, memset}

-- Index `x` lies in the `n` bytes from `p` on.
abbrev pub within : ℕ → ℕ → ℕ → Bool
within p n x = leb p x && ltb x (p + n)

-- The memory after a block copy, by the memory before it.
abbrev pub copied : ℕ → ℕ → ℕ → Bytes → ℕ → ℕ
copied d s n m x = if within d n x then m (s + (x - d)) else m x

module _ (d s : ℕ) where
  -- The bytes still to be read lie above those written already, or in another block.
  copy_up_lem :
      (n i : ℕ) (m : Bytes) (x : ℕ)
      → (d ≤ s) ⊎ (s + i + n ≤ d)
      → copy_up d s n i m x ≡ (if within (d + i) n x then m (s + (x - d)) else m x)
  unfolding copy_up
  copy_up_lem zero i m x ok = ground arith
  copy_up_lem (suc n) i m x ok =
      copy_up_lem n (i + 1) (update m (d + i) (m (s + i))) x (ground arith)
      ∙ elim (ℕ_discrete x (d + i)) [
        | yes e ↦ let back : s + (x - d) ≡ s + i = omega arith in ground (arith, ap m back)
        | no ne ↦ ground arith
      ]

  copy_down_lem : (n : ℕ) (m : Bytes) (x : ℕ) → s ≤ d → copy_down d s n m x ≡ copied d s n m x
  unfolding copy_down
  copy_down_lem zero m x le = ground arith
  copy_down_lem (suc n) m x le =
      copy_down_lem n (update m (d + n) (m (s + n))) x le ∙ elim (ℕ_discrete x (d + n)) [
        | yes e ↦ let back : s + (x - d) ≡ s + n = omega arith in ground (arith, ap m back)
        | no ne ↦ ground arith
      ]

-- Whether the blocks overlap or not, memmove copies the bytes that the source held before it, and
-- changes no byte outside the destination.
pub memmove_lem : (d s n : ℕ) (m : Bytes) (x : ℕ) → memmove d s n m x ≡ copied d s n m x
unfolding memmove
memmove_lem d s n m x = elim (Bool-cases (ltb d s)) [
  | inl lt ↦ rw lt (copy_up_lem d s n 0 m x (inl (ground arith)) ∙ ground arith)
  | inr ge ↦ rw ge (copy_down_lem d s n m x (ground arith))
]

-- For a destination that starts below the source or behind its end, memcpy copies the bytes that the
-- source held before it, and changes no byte outside the destination.
pub memcpy_lem :
    (d s n : ℕ) (m : Bytes) (x : ℕ) → (d ≤ s) ⊎ (s + n ≤ d) → memcpy d s n m x ≡ copied d s n m x
unfolding memcpy
memcpy_lem d s n m x ok = copy_up_lem d s n 0 m x (ground arith) ∙ ground arith

fill_lem :
    (p c n i : ℕ) (m : Bytes) (x : ℕ)
    → fill p c n i m x ≡ (if within (p + i) n x then c % 256 else m x)
unfolding fill
fill_lem p c zero i m x = ground arith
fill_lem p c (suc n) i m x = fill_lem p c n (i + 1) (update m (p + i) (c % 256)) x ∙ ground arith

-- memset stores the low byte of its value in each byte of the block, and changes no other.
pub memset_lem :
    (p c n : ℕ) (m : Bytes) (x : ℕ) → memset p c n m x ≡ (if within p n x then c % 256 else m x)
unfolding memset
memset_lem p c n m x = fill_lem p c n 0 m x ∙ ground arith

copy_up_outside :
    (d s n i : ℕ) (m : Bytes) (x : ℕ) → within (d + i) n x ≡ false → copy_up d s n i m x ≡ m x
unfolding copy_up
copy_up_outside d s zero i m x out = refl
copy_up_outside d s (suc n) i m x out =
    copy_up_outside d s n (i + 1) (update m (d + i) (m (s + i))) x (ground arith) ∙ ground arith

-- Wherever the source lies, memcpy changes no byte outside the destination.
pub memcpy_outside : (d s n : ℕ) (m : Bytes) (x : ℕ) → within d n x ≡ false → memcpy d s n m x ≡ m x
unfolding memcpy
memcpy_outside d s n m x out = copy_up_outside d s n 0 m x (ground arith)
