-- ===== src/Fat32/Directory.antt =====
-- drivers/fat32.c: short names and the root directory. A name is the list of its characters, none of
-- them NUL; a short name the list of its eleven bytes.
pub mod Entry
pub mod Search
pub mod Tests
use gravityos.Base.{
  ℕ, zero, suc, ◌+◌, ◌-◌, ◌*◌, ◌/◌, ◌%◌, ◌^◌, Bool, true, false, not, ◌&&◌, ◌||◌, List, [], ◌∷◌,
  ◌++◌, Option, none, some, ltb, leb, ◌==◌, if◌then◌else◌, update, replicate,
}
use gravityos.Fat32.{
  word, sector_size, Sector, Disk, Fs, read_sector, write_sector, le16, le32, put_le16, put_le32,
  cluster_to_lba, in_chain, fat_next_cluster, fat_set_entry, fat_alloc_cluster,
}

-- DIR_ENTRY_SIZE.
abbrev pub dir_entry_size : ℕ
dir_entry_size = 32

abbrev pub upper : ℕ → ℕ
upper c = if leb b'a' c && leb c b'z' then c - 32 else c

-- The name's part before its first dot, in `n` places filled up with spaces.
pub base_part : ℕ → List ℕ → List ℕ
base_part zero name = []
base_part (suc n) [] = b' ' ∷ base_part n []
base_part (suc n) (c ∷ name) =
    let rest = base_part n name in if c == b'.' then replicate (suc n) b' ' else upper c ∷ rest

-- What follows the first dot; nothing where there is none.
pub after_dot : List ℕ → List ℕ
after_dot [] = []
after_dot (c ∷ name) = if c == b'.' then name else after_dot name

pub ext_part : ℕ → List ℕ → List ℕ
ext_part zero name = []
ext_part (suc n) [] = b' ' ∷ ext_part n []
ext_part (suc n) (c ∷ name) = upper c ∷ ext_part n name

pub to_short_name : List ℕ → List ℕ
to_short_name name = base_part 8 name ++ ext_part 3 (after_dot name)

-- `memcmp(e, target, 11) == 0` for a target of eleven bytes.
pub name_matches : Sector → ℕ → List ℕ → Bool
name_matches s o [] = true
name_matches s o (c ∷ target) = (s o == c) && name_matches s (o + 1) target

-- Bit 3 of the attributes, ATTR_VOLUME_ID; ATTR_LFN is 0x0F.
abbrev pub is_skipped : Sector → ℕ → Bool
is_skipped s o = ((s o == 0xE5) || (s (o + 11) == 0x0F)) || not (s (o + 11) / 8 % 2 == 0)

-- What the loop over a sector's entries ends with: an entry, the directory's end, or neither.
pub data Scan : Type 0 where
  hit : ℕ → Scan
  dir_end : Scan
  go_on : Scan

pub scan_entries : Sector → List ℕ → ℕ → ℕ → Scan
scan_entries s target zero off = go_on
scan_entries s target (suc n) off =
    let rest = scan_entries s target n (off + dir_entry_size) in
    if s off == 0
    then dir_end
    else if is_skipped s off
    then rest
    else if name_matches s off target
    then hit off
    else rest

-- The first entry that is unused: never used, or deleted.
pub scan_free : Sector → ℕ → ℕ → Scan
scan_free s zero off = go_on
scan_free s (suc n) off =
    let rest = scan_free s n (off + dir_entry_size) in
    if (s off == 0) || (s off == 0xE5) then hit off else rest

abbrev pub entries_in_sector : ℕ
entries_in_sector = sector_size / dir_entry_size

-- The end of a search through sectors: an entry's sector, its contents and its offset there, an end
-- without one, or the sectors' end.
pub data Place : Type 0 where
  at : (lba off : ℕ) (s : Sector) → Place
  missing : Place
  beyond : Place

abbrev pub placed : ℕ → Sector → Scan → Place
placed lba s (hit off) = at lba off s
placed lba s dir_end = missing
placed lba s go_on = beyond

-- What a sector that was read shows; one that could not be read ends the search.
abbrev pub look : (Sector → Scan) → ℕ → Option Sector → Place
look scan lba none = missing
look scan lba (some s) = placed lba s (scan s)

-- The `n` sectors of a cluster from `s` on.
pub search_cluster : (Sector → Scan) → Fs → ℕ → ℕ → ℕ → Disk → Place × Disk
search_cluster scan fs cluster zero s d = (beyond, d)
search_cluster scan fs cluster (suc n) s d =
    let lba = (cluster_to_lba fs cluster + s) % word in
    let (o, d') = read_sector d lba in
    elim (look scan lba o) [
      | at l off c ↦ (at l off c, d')
      | missing ↦ (missing, d')
      | beyond ↦ search_cluster scan fs cluster n (s + 1) d'
    ]

-- The loop over the clusters of a chain, and the last cluster that it searched. `none`: no fuel.
pub search_chain : ℕ → (Sector → Scan) → Fs → ℕ → ℕ → Disk → Option (Place × ℕ) × Disk
search_chain zero scan fs cluster last d = (none, d)
search_chain (suc fuel) scan fs cluster last d =
    let (p, d') = search_cluster scan fs cluster fs.sectors_per_cluster 0 d in
    let (next, d'') = fat_next_cluster fs cluster d' in
    let rest : Option (Place × ℕ) × Disk = elim p [
      | at l off c ↦ (some (at l off c, cluster), d')
      | missing ↦ (some (missing, cluster), d')
      | beyond ↦ search_chain fuel scan fs next cluster d''
    ] in
    if in_chain cluster then rest else (some (beyond, last), d)

-- The search of find_entry and find_entry_location.
pub find_entry_location : ℕ → Fs → List ℕ → Disk → Option (Place × ℕ) × Disk
find_entry_location fuel fs name d =
    search_chain fuel (λ s. scan_entries s (to_short_name name) entries_in_sector 0) fs
      fs.root_cluster fs.root_cluster d

-- The cluster and the size in an entry.
abbrev pub entry_cluster : Sector → ℕ → ℕ
entry_cluster s off = le16 s (off + 20) * 2 ^ 16 + le16 s (off + 26)

abbrev pub entry_size : Sector → ℕ → ℕ
entry_size s off = le32 s (off + 28)

-- The found entry's cluster and size.
abbrev pub entry_fields : Option (Place × ℕ) → Option (Option (ℕ × ℕ))
entry_fields none = none
entry_fields (some (at lba off s, _)) = some (some (entry_cluster s off, entry_size s off))
entry_fields (some (missing, _)) = some none
entry_fields (some (beyond, _)) = some none

pub find_entry : ℕ → Fs → List ℕ → Disk → Option (Option (ℕ × ℕ)) × Disk
find_entry fuel fs name d = let (r, d') = find_entry_location fuel fs name d in (entry_fields r, d')

-- Zero the `n` sectors of a new cluster from `s` on.
pub clear_cluster : Fs → ℕ → ℕ → ℕ → Disk → Bool × Disk
clear_cluster fs cluster zero s d = (true, d)
clear_cluster fs cluster (suc n) s d =
    let (done, d') = write_sector d ((cluster_to_lba fs cluster + s) % word) (λ _. 0) in
    elim done [ true ↦ clear_cluster fs cluster n (s + 1) d' | false ↦ (false, d') ]

-- The directory grows by a cluster behind `last`, and its first entry is the free one.
pub link_cluster : Fs → ℕ → ℕ → Disk → Option (ℕ × ℕ) × Disk
link_cluster fs last new d =
    let (linked, d') = fat_set_entry fs last new d in
    let (cleared, d'') = clear_cluster fs new fs.sectors_per_cluster 0 d' in
    if linked then (if cleared then some (cluster_to_lba fs new, 0) else none, d'') else (none, d')

pub extend_root : Fs → ℕ → Disk → Option (ℕ × ℕ) × Disk
extend_root fs last d =
    let (new, d') = fat_alloc_cluster fs d in
    if new == 0 then (none, d') else link_cluster fs last new d'

-- A place for a new entry, by its sector and offset. The outer `none`: no fuel.
pub find_free_dir_slot : ℕ → Fs → Disk → Option (Option (ℕ × ℕ)) × Disk
find_free_dir_slot fuel fs d =
    let (r, d') =
      search_chain fuel (λ s. scan_free s entries_in_sector 0) fs fs.root_cluster fs.root_cluster
        d in
    elim r [
      | none ↦ (none, d')
      | some (p, last) ↦ elim p [
        | at lba off s ↦ (some (some (lba, off)), d')
        | missing ↦ (some none, d')
        | beyond ↦ let (slot, d'') = extend_root fs last d' in (some slot, d'')
      ]
    ]

-- `memset(e, 0, DIR_ENTRY_SIZE)`.
abbrev pub clear_entry : Sector → ℕ → Sector
clear_entry s off x = if leb off x && ltb x (off + dir_entry_size) then 0 else s x

-- `memcpy(e, name11, 11)`.
pub put_name : Sector → ℕ → List ℕ → Sector
put_name s o [] = s
put_name s o (c ∷ name) = put_name (update s o c) (o + 1) name

-- The sector with the entry in it; 0x20 is ATTR_ARCHIVE.
pub new_entry : Sector → ℕ → List ℕ → ℕ → ℕ → Sector
new_entry s off name cluster size =
    let named = update (put_name (clear_entry s off) off name) (off + 11) 0x20 in
    let placed_hi = put_le16 named (off + 20) (cluster / 2 ^ 16 % 2 ^ 16) in
    put_le32 (put_le16 placed_hi (off + 26) (cluster % 2 ^ 16)) (off + 28) size

pub write_dir_entry : ℕ → ℕ → List ℕ → ℕ → ℕ → Disk → Bool × Disk
write_dir_entry lba off name cluster size d =
    let (o, d') = read_sector d lba in
    elim o [ none ↦ (false, d') | some s ↦ write_sector d' lba (new_entry s off name cluster size) ]
