-- ===== src/Fat32/Tests.antt =====
-- A small volume, and the theorems on its table.
use gravityos.Base.{
  ℕ, ◌%◌, ◌^◌, ◌≡◌, ◌⊎◌, refl, arith, true, false, ◌&&◌, ◌||◌, [], ◌∷◌, leb, ◌==◌, if◌then◌else◌,
}
use gravityos.Fat32.{Sector, Disk, Fs, fat_set_entry, fat_alloc_cluster, fat_free_chain}
use gravityos.Fat32.Table.{IsVolume, InTable, entry, Faulty, set_entry_lem}
use gravityos.Fat32.Alloc.{Taken, alloc_cluster-Taken}
use gravityos.Fat32.Chain.{Healthy, Freed, free_chain-Freed}

-- Two copies of a table of one sector, clusters of one sector, the directory in cluster 2.
abbrev pub small : Fs
small = record {
  mounted = true;
  bytes_per_sector = 512;
  sectors_per_cluster = 1;
  reserved_sectors = 1;
  num_fats = 2;
  fat_size = 1;
  root_cluster = 2;
  first_data_sector = 3;
}

-- Cluster 2 ends its chain, 3 is followed by 4, and 4 ends the chain.
abbrev pub small_table : Sector
small_table i =
    if i == 12
    then 4
    else if (leb 8 i && leb i 11) || (leb 16 i && leb i 19)
    then (if i % 4 == 3 then 0x0F else 0xFF)
    else 0

-- One entry: the file A of 600 bytes from cluster 3 on.
abbrev pub small_root : Sector
small_root i =
    if i == 0
    then b'A'
    else if leb 1 i && leb i 10
    then b' '
    else if i == 11
    then 0x20
    else if i == 26
    then 3
    else if i == 28
    then 88
    else if i == 29
    then 2
    else 0

abbrev pub small_drive : Disk
small_drive = record {
  sectors =
      λ l. if (l == 1) || (l == 2) then small_table else if l == 3 then small_root else λ i. l;
  commands = 0;
  fault = λ n. false;
  late = λ n. false;
}

pub small-IsVolume : IsVolume small
small-IsVolume = record {
  sector = refl;
  copies = omega arith;
  layout = omega arith;
  table = omega arith;
}

pub small-Healthy : Healthy small_drive
small-Healthy n = refl

set_entry_lem_example :
    let r = fat_set_entry small 5 0x0FFFFFFF small_drive in
    (r.1.fault ≡ small_drive.fault)
    × ((r.0 ≡ true) ⊎ Faulty small_drive)
    × ((x : ℕ)
        → InTable small x
        → ((r.0 ≡ false) × (entry small r.1 x ≡ entry small small_drive x))
          ⊎ (entry small r.1 x
              ≡ (if 5 == x then 0x0FFFFFFF % 2 ^ 28 else entry small small_drive x)))
set_entry_lem_example = set_entry_lem small small-IsVolume 5 0x0FFFFFFF (omega arith) small_drive

alloc_cluster-Taken_example :
    Taken small small-IsVolume small_drive 0 (fat_alloc_cluster small small_drive)
alloc_cluster-Taken_example = alloc_cluster-Taken small small-IsVolume small_drive small-Healthy

free_chain-Freed_example :
    Freed small small-IsVolume small_drive (3 ∷ 4 ∷ []) (fat_free_chain 3 small 3 small_drive)
free_chain-Freed_example =
    free_chain-Freed small small-IsVolume 3 3 (3 ∷ 4 ∷ []) small_drive small-Healthy
      (refl, refl, omega arith, refl, (refl, refl, omega arith, refl, refl)) (omega arith)
