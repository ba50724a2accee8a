-- ===== src/Fat32/Directory/Entry.antt =====
-- The entries of a directory: what an entry that was written reads back as, and short names.
use gravityos.Base.{
  ℕ, zero, suc, ◌+◌, ◌/◌, ◌%◌, ◌^◌, ◌<◌, ◌≤◌, ◌≡◌, ◌≢◌, ◌⊎◌, refl, arith, Bool, true, false, List,
  [], ◌∷◌, ◌==◌, Bool-cases, inl, inr, ap, ◌∙◌, length, update, length-append, length-replicate,
}
use gravityos.Fat32.{Sector, Disk, read_sector, write_sector, le16, le32, put_le16, put_le32}
use gravityos.Fat32.Sectors.{
  le32-put_le32, put_le32_other, read_sector_lem, read_sector-none, write_sector_lem,
  write_sector_done,
}
use gravityos.Fat32.Directory.{
  base_part, after_dot, ext_part, to_short_name, name_matches, hit, scan_entries, entry_cluster,
  entry_size, clear_entry, put_name, new_entry, write_dir_entry,
}

length-base_part : (n : ℕ) (name : List ℕ) → length (base_part n name) ≡ n
unfolding base_part
length-base_part zero name = refl
length-base_part (suc n) [] = ap suc (length-base_part n [])
length-base_part (suc n) (c ∷ name) = elim (Bool-cases (c == b'.')) [
  | inl e ↦ rw e (ap suc (length-replicate n b' '))
  | inr e ↦ rw e (ap suc (length-base_part n name))
]

length-ext_part : (n : ℕ) (name : List ℕ) → length (ext_part n name) ≡ n
unfolding ext_part
length-ext_part zero name = refl
length-ext_part (suc n) [] = ap suc (length-ext_part n [])
length-ext_part (suc n) (c ∷ name) = ap suc (length-ext_part n name)

pub length-to_short_name : (name : List ℕ) → length (to_short_name name) ≡ 11
unfolding to_short_name
length-to_short_name name =
    length-append (base_part 8 name) (ext_part 3 (after_dot name))
    ∙ omega (arith, length-base_part 8 name, length-ext_part 3 (after_dot name))

put_name_other :
    (s : Sector) (o : ℕ) (name : List ℕ) (i : ℕ)
    → (i < o) ⊎ (o + length name ≤ i)
    → put_name s o name i ≡ s i
unfolding put_name
put_name_other s o [] i h = refl
put_name_other s o (c ∷ name) i h =
    put_name_other (update s o c) (o + 1) name i (ground arith) ∙ ground arith

-- A name matches where the bytes are the name's.
name_matches_same :
    (f g : Sector) (o : ℕ) (name : List ℕ)
    → ((i : ℕ) → o ≤ i → i < o + length name → f i ≡ g i)
    → name_matches g o name ≡ true
    → name_matches f o name ≡ true
unfolding name_matches
name_matches_same f g o [] same h = refl
name_matches_same f g o (c ∷ name) same h =
    let here : f o ≡ g o = same o (omega arith) (omega arith) in
    let rest : name_matches g (o + 1) name ≡ true = ground arith in
    let ih : name_matches f (o + 1) name ≡ true =
      name_matches_same f g (o + 1) name (λ i lo hi. same i (omega arith) (omega arith)) rest in
    ground (arith, here, ih)

name_matches-put_name :
    (s : Sector) (o : ℕ) (name : List ℕ) → name_matches (put_name s o name) o name ≡ true
unfolding name_matches put_name
name_matches-put_name s o [] = refl
name_matches-put_name s o (c ∷ name) =
    let first : put_name (update s o c) (o + 1) name o ≡ c =
      put_name_other (update s o c) (o + 1) name o (inl (omega arith)) ∙ ground arith in
    let rest = name_matches-put_name (update s o c) (o + 1) name in ground (arith, first, rest)

le32_same : (f g : Sector) (o : ℕ) → ((i : ℕ) → o ≤ i → i < o + 4 → f i ≡ g i) → le32 f o ≡ le32 g o
le32_same f g o h = ground (
  arith,
  h o (omega arith) (omega arith),
  h (o + 1) (omega arith) (omega arith),
  h (o + 2) (omega arith) (omega arith),
  h (o + 3) (omega arith) (omega arith),
)

le16_same : (f g : Sector) (o : ℕ) → f o ≡ g o → f (o + 1) ≡ g (o + 1) → le16 f o ≡ le16 g o
le16_same f g o a b = ground arith

le16-put_le16 : (s : Sector) (o v : ℕ) → le16 (put_le16 s o v) o ≡ v % 2 ^ 16
le16-put_le16 s o v = ground arith

put_le16_other : (s : Sector) (o v i : ℕ) → (i < o) ⊎ (o + 2 ≤ i) → put_le16 s o v i ≡ s i
put_le16_other s o v i h = ground arith

module _ (s : Sector) (off : ℕ) (name : List ℕ) (cluster size : ℕ) (full : length name ≡ 11) where
  abbrev named : Sector
  named = update (put_name (clear_entry s off) off name) (off + 11) 0x20

  abbrev with_hi : Sector
  with_hi = put_le16 named (off + 20) (cluster / 2 ^ 16 % 2 ^ 16)

  abbrev with_lo : Sector
  with_lo = put_le16 with_hi (off + 26) (cluster % 2 ^ 16)

  entry_is : new_entry s off name cluster size ≡ put_le32 with_lo (off + 28) size
  unfolding new_entry
  entry_is = refl

  -- Below the cluster's fields the entry is the named one.
  below_fields :
      (i : ℕ) → (i < off + 20) ⊎ (off + 32 ≤ i) → new_entry s off name cluster size i ≡ named i
  below_fields i h = rw entry_is (
      put_le32_other with_lo (off + 28) size i (ground arith)
      ∙ (put_le16_other with_hi (off + 26) (cluster % 2 ^ 16) i (ground arith)
          ∙ put_le16_other named (off + 20) (cluster / 2 ^ 16 % 2 ^ 16) i (ground arith)))

  outside : (i : ℕ) → (i < off) ⊎ (off + 32 ≤ i) → new_entry s off name cluster size i ≡ s i
  outside i h =
      below_fields i (ground arith)
      ∙ ground (arith, put_name_other (clear_entry s off) off name i (ground arith), full)

  field_lo : le16 (new_entry s off name cluster size) (off + 26) ≡ cluster % 2 ^ 16
  field_lo = rw entry_is (
      le16_same (put_le32 with_lo (off + 28) size) with_lo (off + 26)
        (put_le32_other with_lo (off + 28) size (off + 26) (inl (omega arith)))
        (put_le32_other with_lo (off + 28) size (off + 26 + 1) (inl (omega arith)))
      ∙ (le16-put_le16 with_hi (off + 26) (cluster % 2 ^ 16) ∙ omega arith))

  field_hi : le16 (new_entry s off name cluster size) (off + 20) ≡ cluster / 2 ^ 16 % 2 ^ 16
  field_hi =
      let keep : ((i : ℕ) → i < off + 26 → new_entry s off name cluster size i ≡ with_hi i) = λ i h.
        ap (λ (f : Sector). f i) entry_is
        ∙ (put_le32_other with_lo (off + 28) size i (inl (omega arith))
            ∙ put_le16_other with_hi (off + 26) (cluster % 2 ^ 16) i (inl (omega arith))) in
      le16_same (new_entry s off name cluster size) with_hi (off + 20)
        (keep (off + 20) (omega arith)) (keep (off + 20 + 1) (omega arith))
      ∙ (le16-put_le16 named (off + 20) (cluster / 2 ^ 16 % 2 ^ 16) ∙ omega arith)

  -- An entry reads back as its cluster, size and name, and the sector's other bytes are kept.
  pub new_entry_lem :
      cluster < 2 ^ 32
      → size < 2 ^ 32
      → let e = new_entry s off name cluster size in
        (entry_cluster e off ≡ cluster)
        × (entry_size e off ≡ size)
        × (name_matches e off name ≡ true)
        × (e (off + 11) ≡ 0x20)
        × ((i : ℕ) → (i < off) ⊎ (off + 32 ≤ i) → e i ≡ s i)
  new_entry_lem c z = (
    omega (arith, field_lo, field_hi),
    ap (λ (f : Sector). le32 f (off + 28)) entry_is
        ∙ (le32-put_le32 with_lo (off + 28) size ∙ omega arith),
    name_matches_same (new_entry s off name cluster size) (put_name (clear_entry s off) off name)
        off name (λ i lo hi. below_fields i (inl (omega arith)) ∙ ground arith)
        (name_matches-put_name (clear_entry s off) off name),
    below_fields (off + 11) (inl (omega arith)) ∙ ground arith,
    outside,
  )

-- What a written entry shows: its fields, and that a search for its name stops at it.
abbrev pub Shows : Sector → ℕ → List ℕ → ℕ → ℕ → Type 0
Shows e off target cluster size =
    (entry_cluster e off ≡ cluster)
    × (entry_size e off ≡ size)
    × ((n : ℕ) → scan_entries e target (suc n) off ≡ hit off)

scan_here :
    (e : Sector) (off c : ℕ) (target : List ℕ) (n : ℕ)
    → c ≢ 0
    → c ≢ 0xE5
    → name_matches e off (c ∷ target) ≡ true
    → e (off + 11) ≡ 0x20
    → scan_entries e (c ∷ target) (suc n) off ≡ hit off
unfolding scan_entries name_matches
scan_here e off c target n used kept m attr = ground arith

-- write_dir_entry fails, where a command of the drive does, and changes no sector; or, as it always does
-- where it succeeds, and may do where the drive fails at the flush, it leaves an entry that reads back
-- with its cluster and size, a search for its name stops at it, and every other byte of the disk is
-- kept. The name has eleven bytes, the first neither 0 nor the mark of a deleted entry.
pub write_dir_entry_lem :
    (lba off c : ℕ) (target : List ℕ) (cluster size : ℕ) (d : Disk)
    → length (c ∷ target) ≡ 11
    → c ≢ 0
    → c ≢ 0xE5
    → cluster < 2 ^ 32
    → size < 2 ^ 32
    → let r = write_dir_entry lba off (c ∷ target) cluster size d in
      ((r.0 ≡ false)
        × (r.1.sectors ≡ d.sectors)
        × ((d.fault d.commands ≡ true) ⊎ (d.fault (d.commands + 1) ≡ true)))
      ⊎ (Shows (r.1.sectors lba) off (c ∷ target) cluster size
          × ((l i : ℕ) → (l ≢ lba) ⊎ ((i < off) ⊎ (off + 32 ≤ i)) → r.1.sectors l i ≡ d.sectors l i)
          × ((r.0 ≡ true) ⊎ (d.fault (d.commands + 1) ≡ true)))
unfolding write_dir_entry read_sector
write_dir_entry_lem lba off c target cluster size d full used kept small fits =
    let (same, fault, o) = read_sector_lem d lba in
    elim o [
      | inl bad ↦ rw (bad, write_dir_entry) (inl (refl, same, inl (read_sector-none d lba bad)))
      | inr good ↦
          let e = new_entry (d.sectors lba) off (c ∷ target) cluster size in
          let d' = (read_sector d lba).1 in
          let (written, f) = write_sector_lem d' lba e in
          let (a, b, m, attr, out) =
            new_entry_lem (d.sectors lba) off (c ∷ target) cluster size full small fits in
          rw (good, write_dir_entry)
            (elim written [
              | inr (failed, left) ↦ inl (
                failed,
                left ∙ same,
                inr (wrote_not (write_sector d' lba e).0 failed (write_sector_done d' lba e)),
              )
              | inl set ↦
                  let now : (write_sector d' lba e).1.sectors ≡ update d.sectors lba e =
                    rw same at set in
                  inr (
                    rw now (written_shows (d.sectors) e a b m attr),
                    λ l i h. ap (λ (g : ℕ → Sector). g l i) now ∙ ground (arith, h, out i),
                    write_sector_done d' lba e,
                  )
            ])
    ]
  where
    wrote_not : {p : Type 0} (b : Bool) → b ≡ false → (b ≡ true) ⊎ p → p
    wrote_not b off (inl on) = absurd (ground arith)
    wrote_not b off (inr fault) = fault

    written_shows :
        (f : ℕ → Sector) (e : Sector)
        → entry_cluster e off ≡ cluster
        → entry_size e off ≡ size
        → name_matches e off (c ∷ target) ≡ true
        → e (off + 11) ≡ 0x20
        → Shows (update f lba e lba) off (c ∷ target) cluster size
    written_shows f e a b m attr =
        let here : update f lba e lba ≡ e = ground arith in
        rw here (a, b, λ n. scan_here e off c target n used kept m attr)
