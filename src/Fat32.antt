-- ===== src/Fat32.antt =====
-- drivers/fat32.c: the volume and its file allocation table. `Fs` is the static record `fs`. The drive
-- holds its sectors; a command may fail, as `fault` says of the commands in their order; of a write that
-- fails, `late` says whether that was at the flush, once the sector was written. A sector is the array
-- of its 512 bytes. The buffers sector_buf and work_buf pass from each read to its use, and are no
-- state. Numbers are uint32_t.
pub mod Directory
pub mod Files
pub mod Remove
pub mod Sectors
pub mod Table
pub mod Alloc
pub mod Chain
mod Tests
use gravityos.Base.{
  ℕ, zero, suc, ◌+◌, ◌-◌, ◌*◌, ◌/◌, ◌%◌, ◌^◌, Bool, true, false, not, ◌&&◌, ◌||◌, List, [], ◌∷◌,
  Option, none, some, ltb, leb, ◌==◌, if◌then◌else◌, update,
}

abbrev pub word : ℕ
word = 2 ^ 32

-- ATA_SECTOR_SIZE.
abbrev pub sector_size : ℕ
sector_size = 512

abbrev pub fat_eoc : ℕ
fat_eoc = 0x0FFFFFF8

abbrev pub Sector : Type 0
Sector = ℕ → ℕ

pub record Disk : Type 0 where
  pub sectors : ℕ → Sector
  pub commands : ℕ
  pub fault : ℕ → Bool
  pub late : ℕ → Bool

pub record Fs : Type 0 where
  pub mounted : Bool
  pub bytes_per_sector : ℕ
  pub sectors_per_cluster : ℕ
  pub reserved_sectors : ℕ
  pub num_fats : ℕ
  pub fat_size : ℕ
  pub root_cluster : ℕ
  pub first_data_sector : ℕ

-- ata_read_sectors and ata_write_sectors with a count of one.
unfoldable pub read_sector : Disk → ℕ → Option Sector × Disk
read_sector d lba = (
  if d.fault d.commands then none else some (d.sectors lba),
  record d { commands = d.commands + 1 },
)

unfoldable pub write_sector : Disk → ℕ → Sector → Bool × Disk
write_sector d lba s =
    if d.fault d.commands
    then (
      false,
      record d {
        commands = d.commands + 1;
        sectors = if d.late d.commands then update d.sectors lba s else d.sectors;
      },
    )
    else (true, record d { commands = d.commands + 1; sectors = update d.sectors lba s })

-- The little-endian values in a sector.
abbrev pub le16 : Sector → ℕ → ℕ
le16 s o = s o + s (o + 1) * 2 ^ 8

abbrev pub le32 : Sector → ℕ → ℕ
le32 s o = s o + s (o + 1) * 2 ^ 8 + s (o + 2) * 2 ^ 16 + s (o + 3) * 2 ^ 24

abbrev pub put_le16 : Sector → ℕ → ℕ → Sector
put_le16 s o v = update (update s o (v % 2 ^ 8)) (o + 1) (v / 2 ^ 8 % 2 ^ 8)

abbrev pub put_le32 : Sector → ℕ → ℕ → Sector
put_le32 s o v =
    update (update (put_le16 s o v) (o + 2) (v / 2 ^ 16 % 2 ^ 8)) (o + 3) (v / 2 ^ 24 % 2 ^ 8)

abbrev pub cluster_to_lba : Fs → ℕ → ℕ
cluster_to_lba fs cluster =
    (fs.first_data_sector + (cluster + word - 2) % word * fs.sectors_per_cluster) % word

-- `cluster >= 2 && cluster < FAT_EOC`.
abbrev pub in_chain : ℕ → Bool
in_chain cluster = leb 2 cluster && ltb cluster fat_eoc

abbrev pub sector_in_fat : Fs → ℕ → ℕ
sector_in_fat fs cluster = cluster * 4 % word / fs.bytes_per_sector

abbrev pub entry_off : Fs → ℕ → ℕ
entry_off fs cluster = cluster * 4 % word % fs.bytes_per_sector

-- The entry at an offset, or the end of the chain where the sector could not be read.
abbrev pub entry_value : ℕ → Option Sector → ℕ
entry_value o none = fat_eoc
entry_value o (some s) = le32 s o % 2 ^ 28

pub fat_next_cluster : Fs → ℕ → Disk → ℕ × Disk
fat_next_cluster fs cluster d =
    let (s, d') = read_sector d ((fs.reserved_sectors + sector_in_fat fs cluster) % word) in
    (entry_value (entry_off fs cluster) s, d')

-- The sector with the entry set; the upper four bits are kept.
abbrev pub patch_entry : Sector → ℕ → ℕ → Sector
patch_entry s o value = put_le32 s o (le32 s o / 2 ^ 28 * 2 ^ 28 + value % 2 ^ 28)

pub write_patched : Disk → ℕ → ℕ → ℕ → Option Sector → Bool × Disk
write_patched d lba o value none = (false, d)
write_patched d lba o value (some s) = write_sector d lba (patch_entry s o value)

-- One copy of the table.
pub set_copy : Fs → ℕ → ℕ → ℕ → Disk → Bool × Disk
set_copy fs cluster value copy d =
    let lba = (fs.reserved_sectors + copy * fs.fat_size + sector_in_fat fs cluster) % word in
    let (s, d') = read_sector d lba in write_patched d' lba (entry_off fs cluster) value s

-- The loop over the copies, with `n` left; it ends at the first that fails.
pub set_copies : Fs → ℕ → ℕ → ℕ → ℕ → Disk → Bool × Disk
set_copies fs cluster value zero copy d = (true, d)
set_copies fs cluster value (suc n) copy d =
    let (done, d') = set_copy fs cluster value copy d in
    elim done [ true ↦ set_copies fs cluster value n (copy + 1) d' | false ↦ (false, d') ]

-- `true` stands for the result 0.
pub fat_set_entry : Fs → ℕ → ℕ → Disk → Bool × Disk
fat_set_entry fs cluster value d = set_copies fs cluster value fs.num_fats 0 d

abbrev pub entries_per_sector : Fs → ℕ
entries_per_sector fs = fs.bytes_per_sector / 4

abbrev pub total_clusters : Fs → ℕ
total_clusters fs = fs.fat_size * entries_per_sector fs % word

-- The first free cluster among the `n` entries from `i` on of the table's sector `sector`.
pub find_free_entry : Fs → Sector → ℕ → ℕ → ℕ → Option ℕ
find_free_entry fs s sector zero i = none
find_free_entry fs s sector (suc n) i =
    let rest = find_free_entry fs s sector n (i + 1) in
    let cluster = (sector * entries_per_sector fs + i) % word in
    if ltb cluster 2 || leb (total_clusters fs) cluster
    then rest
    else if not (le32 s (i * 4) % 2 ^ 28 == 0)
    then rest
    else some cluster

-- The cluster, or 0 where its entry could not be written.
abbrev pub claimed : ℕ → Bool × Disk → ℕ × Disk
claimed cluster (true, d) = (cluster, d)
claimed cluster (false, d) = (0, d)

pub claim : Fs → ℕ → Disk → ℕ × Disk
claim fs cluster d = claimed cluster (fat_set_entry fs cluster 0x0FFFFFFF d)

-- The loop over the table's sectors, with `n` left.
pub alloc_from : Fs → ℕ → ℕ → Disk → ℕ × Disk
alloc_from fs zero sector d = (0, d)
alloc_from fs (suc n) sector d =
    let (o, d') = read_sector d ((fs.reserved_sectors + sector) % word) in
    elim o [
      | none ↦ (0, d')
      | some s ↦ elim (find_free_entry fs s sector (entries_per_sector fs) 0) [
        | none ↦ alloc_from fs n (sector + 1) d'
        | some cluster ↦ claim fs cluster d'
      ]
    ]

pub fat_alloc_cluster : Fs → Disk → ℕ × Disk
fat_alloc_cluster fs d = alloc_from fs fs.fat_size 0 d

-- The loop ends by itself on every chain, but a chain's length has no bound here: `none` where the
-- fuel runs out.
pub fat_free_chain : ℕ → Fs → ℕ → Disk → Option Bool × Disk
fat_free_chain zero fs cluster d = (none, d)
fat_free_chain (suc fuel) fs cluster d =
    let (next, d') = fat_next_cluster fs cluster d in
    let (done, d'') = fat_set_entry fs cluster 0 d' in
    let rest : Option Bool × Disk = elim done [
      | true ↦ fat_free_chain fuel fs next d''
      | false ↦ (some false, d'')
    ] in
    if in_chain cluster then rest else (some true, d)

-- The fields that fat32_init takes from the boot sector.
abbrev pub boot_fields : Fs → Sector → Fs
boot_fields fs s = record fs {
  bytes_per_sector = le16 s 11;
  sectors_per_cluster = s 13;
  reserved_sectors = le16 s 14;
  num_fats = s 16;
  fat_size = le32 s 36;
  root_cluster = le32 s 44;
}

pub mount_boot : Fs → Option Sector → Bool × Fs
mount_boot fs none = (false, fs)
mount_boot fs (some s) =
    let fs' = boot_fields fs s in
    if not (s 510 == 0x55) || not (s 511 == 0xAA)
    then (false, fs)
    else if not (le16 s 11 == sector_size)
    then (false, fs)
    else if (fs'.sectors_per_cluster == 0) || (fs'.fat_size == 0)
    then (false, fs')
    else (
      true,
      record fs' {
        first_data_sector = (fs'.reserved_sectors + fs'.num_fats * fs'.fat_size) % word;
        mounted = true;
      },
    )

-- `present` is what ata_present reports.
pub fat32_init : Bool → Fs → Disk → Bool × Fs × Disk
fat32_init present fs d =
    let (boot, d') = read_sector d 0 in
    let (done, fs') = mount_boot (record fs { mounted = false }) boot in
    if present then (done, fs', d') else (false, record fs { mounted = false }, d)

-- The free entries among the `n` from `i` on of the table's sector `sector`.
pub count_free : Fs → Sector → ℕ → ℕ → ℕ → ℕ
count_free fs s sector zero i = 0
count_free fs s sector (suc n) i =
    (if ltb ((sector * entries_per_sector fs + i) % word) 2
      then 0
      else if le32 s (i * 4) % 2 ^ 28 == 0
      then 1
      else 0)
    + count_free fs s sector n (i + 1)

pub count_sectors : Fs → ℕ → ℕ → ℕ → Disk → ℕ × Disk
count_sectors fs zero sector free d = (free, d)
count_sectors fs (suc n) sector free d =
    let (o, d') = read_sector d ((fs.reserved_sectors + sector) % word) in
    elim o [
      | none ↦ (free, d')
      | some s ↦
          count_sectors fs n (sector + 1) (free + count_free fs s sector (entries_per_sector fs) 0)
            d'
    ]

-- A uint64_t.
pub fat32_free_space : Fs → Disk → ℕ × Disk
fat32_free_space fs d =
    let (free, d') = count_sectors fs fs.fat_size 0 0 d in
    if fs.mounted
    then (free * fs.sectors_per_cluster * fs.bytes_per_sector % 2 ^ 64, d')
    else (0, d)
