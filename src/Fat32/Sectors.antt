-- ===== src/Fat32/Sectors.antt =====
-- What a store into a sector reads back as, and what a command does to the sectors.
use gravityos.Base.{
  ℕ, ◌+◌, ◌*◌, ◌/◌, ◌%◌, ◌^◌, ◌<◌, ◌≤◌, ◌≡◌, ◌⊎◌, refl, arith, true, false, none, some, update,
  if◌then◌else◌, Bool-cases, inl, inr,
}
use gravityos.Fat32.{Sector, Disk, read_sector, write_sector, le32, put_le32, patch_entry}

-- A value of four bytes reads back, and every other byte is as before.
pub le32-put_le32 : (s : Sector) (o v : ℕ) → le32 (put_le32 s o v) o ≡ v % 2 ^ 32
le32-put_le32 s o v = ground arith

pub put_le32_other : (s : Sector) (o v i : ℕ) → (i < o) ⊎ (o + 4 ≤ i) → put_le32 s o v i ≡ s i
put_le32_other s o v i h = ground arith

-- The entry's 28 bits, after it was set.
pub patch_entry_self : (s : Sector) (o v : ℕ) → le32 (patch_entry s o v) o % 2 ^ 28 ≡ v % 2 ^ 28
patch_entry_self s o v =
    let e = le32-put_le32 s o (le32 s o / 2 ^ 28 * 2 ^ 28 + v % 2 ^ 28) in rw e (omega arith)

pub patch_entry_other :
    (s : Sector) (o v x : ℕ) → (x + 4 ≤ o) ⊎ (o + 4 ≤ x) → le32 (patch_entry s o v) x ≡ le32 s x
patch_entry_other s o v x h = ground arith

-- A read changes no sector, and gives the sector or nothing.
pub read_sector_lem :
    (d : Disk) (lba : ℕ)
    → ((read_sector d lba).1.sectors ≡ d.sectors)
      × ((read_sector d lba).1.fault ≡ d.fault)
      × (((read_sector d lba).0 ≡ none) ⊎ ((read_sector d lba).0 ≡ some (d.sectors lba)))
unfolding read_sector
read_sector_lem d lba = elim (Bool-cases (d.fault d.commands)) [
  | inl bad ↦ rw bad (refl, refl, inl refl)
  | inr good ↦ rw good (refl, refl, inr refl)
]

pub read_value :
    (d : Disk) (lba : ℕ)
    → (read_sector d lba).0 ≡ (if d.fault d.commands then none else some (d.sectors lba))
unfolding read_sector
read_value d lba = refl

-- Both succeed unless their command fails.
pub write_sector_done :
    (d : Disk) (lba : ℕ) (s : Sector)
    → ((write_sector d lba s).0 ≡ true) ⊎ (d.fault d.commands ≡ true)
unfolding write_sector
write_sector_done d lba s = elim (Bool-cases (d.fault d.commands)) [
  | inl bad ↦ inr bad
  | inr good ↦ rw good (inl refl)
]

pub read_sector-none :
    (d : Disk) (lba : ℕ) → (read_sector d lba).0 ≡ none → d.fault d.commands ≡ true
unfolding read_sector
read_sector-none d lba e = ground arith

-- A write changes its sector alone, or it fails and changes nothing.
pub write_sector_lem :
    (d : Disk) (lba : ℕ) (s : Sector)
    → let r = write_sector d lba s in
      ((r.1.sectors ≡ update d.sectors lba s) ⊎ ((r.0 ≡ false) × (r.1.sectors ≡ d.sectors)))
      × (r.1.fault ≡ d.fault)
unfolding write_sector
write_sector_lem d lba s = elim (Bool-cases (d.fault d.commands)) [
  | inl bad ↦ elim (Bool-cases (d.late d.commands)) [
    | inl kept ↦ rw (bad, kept) (inl refl, refl)
    | inr lost ↦ rw (bad, lost) (inr (refl, refl), refl)
  ]
  | inr good ↦ rw good (inl refl, refl)
]
