-- ===== src/Fat32/Files.antt =====
-- drivers/fat32.c: reading and writing files. A result code is an integer, as in the code; `none` in
-- its place says that a chain was longer than the fuel.
pub mod Read
mod Tests
use gravityos.Base.{
  ℕ, zero, suc, ◌+◌, ◌-◌, ◌*◌, ◌/◌, ◌%◌, ◌^◌, Bool, true, false, not, ◌&&◌, ◌||◌, List, [], ◌∷◌,
  ◌++◌, Option, none, some, ltb, leb, ◌==◌, if◌then◌else◌, min, map,
}
use gravityos.Base.Int.{ℤ, pos, negsuc}
use gravityos.Fat32.{
  word, sector_size, Sector, Disk, Fs, read_sector, write_sector, le16, cluster_to_lba, in_chain,
  fat_next_cluster, fat_set_entry, fat_alloc_cluster, fat_free_chain,
}
use gravityos.Fat32.Directory.{
  to_short_name, Place, at, missing, beyond, find_entry_location, find_entry, entry_cluster,
  find_free_dir_slot, write_dir_entry,
}

-- The result -n of the code, for n from 1 on.
abbrev pub failed : ℕ → ℤ
failed n = negsuc (n - 1)

-- fat32_file_size; a size of 2 ^ 31 or more is a negative int.
abbrev pub int_of : ℕ → ℤ
int_of n = if ltb n (2 ^ 31) then pos n else negsuc (word - 1 - n)

pub fat32_file_size : ℕ → Fs → List ℕ → Disk → Option ℤ × Disk
fat32_file_size fuel fs name d =
    let (r, d') = find_entry fuel fs name d in
    if fs.mounted
    then elim r [
      | none ↦ (none, d')
      | some e ↦ elim e [
        | none ↦ (some (failed 1), d')
        | some (cluster, size) ↦ (some (int_of size), d')
      ]
    ]
    else (some (failed 1), d)

-- The first `n` bytes of a sector from `i` on.
abbrev pub bytes_of : Sector → ℕ → ℕ → List ℕ
bytes_of s zero i = []
bytes_of s (suc n) i = s i ∷ bytes_of s n (i + 1)

-- Read up to `remaining` bytes from the `n` sectors of a cluster from `s` on: whether no read
-- failed, the bytes, and how many are still to be read.
pub read_cluster : Fs → ℕ → ℕ → ℕ → ℕ → Disk → Bool × List ℕ × ℕ × Disk
read_cluster fs cluster zero s remaining d = (true, [], remaining, d)
read_cluster fs cluster (suc n) s remaining d =
    let (o, d') = read_sector d ((cluster_to_lba fs cluster + s) % word) in
    let more : Bool × List ℕ × ℕ × Disk = elim o [
      | none ↦ (false, [], remaining, d')
      | some c ↦
          let chunk = if ltb remaining sector_size then remaining else sector_size in
          let (done, bytes, left, d'') = read_cluster fs cluster n (s + 1) (remaining - chunk) d' in
          (done, bytes_of c chunk 0 ++ bytes, left, d'')
    ] in
    if ltb 0 remaining then more else (true, [], remaining, d)

-- The loop of fat32_read_file over the chain.
pub read_chain : ℕ → Fs → ℕ → ℕ → Disk → Option (Bool × List ℕ × ℕ) × Disk
read_chain zero fs cluster remaining d = (none, d)
read_chain (suc fuel) fs cluster remaining d =
    let (done, bytes, left, d') = read_cluster fs cluster fs.sectors_per_cluster 0 remaining d in
    let (next, d'') = fat_next_cluster fs cluster d' in
    let (rest, d''') = read_chain fuel fs next left d'' in
    let more : Option (Bool × List ℕ × ℕ) × Disk = elim done [
      | false ↦ (some (false, bytes, left), d')
      | true ↦ elim rest [
        | none ↦ (none, d''')
        | some (done', bytes', left') ↦ (some (done', bytes ++ bytes', left'), d''')
      ]
    ] in
    if in_chain cluster && ltb 0 remaining then more else (some (true, [], remaining), d)

-- The result, and the bytes that were stored from the buffer's start on.
abbrev pub read_result : ℕ → Option (Bool × List ℕ × ℕ) → Option (ℤ × List ℕ)
read_result size none = none
read_result size (some (true, bytes, left)) = some (int_of (size - left), bytes)
read_result size (some (false, bytes, left)) = some (failed 1, bytes)

pub read_entry : ℕ → Fs → ℕ → Option (Option (ℕ × ℕ)) → Disk → Option (ℤ × List ℕ) × Disk
read_entry fuel fs room none d = (none, d)
read_entry fuel fs room (some none) d = (some (failed 1, []), d)
read_entry fuel fs room (some (some (cluster, size))) d =
    let (r, d') = read_chain fuel fs cluster size d in
    if ltb room size then (some (failed 2, []), d) else (read_result size r, d')

-- `room` is the size of the buffer.
pub fat32_read_file : ℕ → Fs → List ℕ → ℕ → Disk → Option (ℤ × List ℕ) × Disk
fat32_read_file fuel fs name room d =
    let (e, d') = find_entry fuel fs name d in
    if fs.mounted then read_entry fuel fs room e d' else (some (failed 1, []), d)

-- The sector for the next `chunk` bytes of the contents, filled up with zeros.
abbrev pub sector_of : (ℕ → ℕ) → ℕ → ℕ → Sector
sector_of contents written chunk i = if ltb i chunk then contents (written + i) else 0

-- Write the `n` sectors of a cluster from `s` on, as long as bytes are left.
pub write_cluster : Fs → (ℕ → ℕ) → ℕ → ℕ → ℕ → ℕ → ℕ → Disk → Bool × ℕ × Disk
write_cluster fs contents size cluster zero s written d = (true, written, d)
write_cluster fs contents size cluster (suc n) s written d =
    let chunk = if ltb sector_size (size - written) then sector_size else size - written in
    let (done, d') =
      write_sector d ((cluster_to_lba fs cluster + s) % word) (sector_of contents written chunk) in
    let more : Bool × ℕ × Disk = elim done [
      | true ↦ write_cluster fs contents size cluster n (s + 1) (written + chunk) d'
      | false ↦ (false, written, d')
    ] in
    if ltb written size then more else (true, written, d)

-- What the loop of fat32_write_file ends with: the first cluster and the bytes written, or a result.
pub data Written : Type 0 where
  complete : (first written : ℕ) → Written
  stopped : ℤ → Written

-- The chain from `first` on is given back before the loop ends with a result.
pub give_back : ℕ → Fs → ℕ → ℤ → Disk → Option Written × Disk
give_back fuel fs first code d =
    let (r, d') = fat_free_chain fuel fs first d in
    elim r [ none ↦ (none, d') | some freed ↦ (some (stopped code), d') ]

-- Hang the new cluster on the chain: the first one starts it.
pub hang : Fs → ℕ → ℕ → ℕ → Disk → Bool × Disk
hang fs first prev cluster d = if first == 0 then (true, d) else fat_set_entry fs prev cluster d

-- The loop over the clusters that are needed, with `n` left.
pub write_clusters : ℕ → Fs → (ℕ → ℕ) → ℕ → ℕ → ℕ → ℕ → ℕ → Disk → Option Written × Disk
write_clusters fuel fs contents size zero first prev written d = (some (complete first written), d)
write_clusters fuel fs contents size (suc n) first prev written d =
    let (cluster, d1) = fat_alloc_cluster fs d in
    let (hung, d2) = hang fs first prev cluster d1 in
    let first' = if first == 0 then cluster else first in
    let (done, written', d3) =
      write_cluster fs contents size cluster fs.sectors_per_cluster 0 written d2 in
    let more = write_clusters fuel fs contents size n first' cluster written' d3 in
    if cluster == 0
    then (if first == 0
        then (some (stopped (failed 5)), d1)
        else give_back fuel fs first (failed 5) d1)
    else if not hung
    then (some (stopped (failed 6)), d2)
    else if not done
    then give_back fuel fs first' (failed 7) d3
    else more

-- Write the entry of the file whose contents are on the disk.
pub finish_write : ℕ → ℕ → List ℕ → ℕ → Option Written → Disk → Option ℤ × Disk
finish_write lba off name size none d = (none, d)
finish_write lba off name size (some (stopped code)) d = (some code, d)
finish_write lba off name size (some (complete first written)) d =
    let (done, d') = write_dir_entry lba off name first size d in
    (some (if done then int_of written else failed 8), d')

abbrev pub clusters_needed : Fs → ℕ → ℕ
clusters_needed fs size =
    let cluster_bytes = fs.sectors_per_cluster * fs.bytes_per_sector % word in
    (size + cluster_bytes + word - 1) % word / cluster_bytes

-- An entry's place is known: an empty file has no cluster.
pub write_at : ℕ → Fs → List ℕ → (ℕ → ℕ) → ℕ → ℕ → ℕ → Disk → Option ℤ × Disk
write_at fuel fs name contents size lba off d =
    let (done, d') = write_dir_entry lba off (to_short_name name) 0 0 d in
    let (w, d'') = write_clusters fuel fs contents size (clusters_needed fs size) 0 0 0 d in
    if size == 0
    then (some (if done then pos 0 else failed 4), d')
    else finish_write lba off (to_short_name name) size w d''

-- The old chain of an entry that is written again is given back.
pub replace_at : ℕ → Fs → List ℕ → (ℕ → ℕ) → ℕ → ℕ → ℕ → Option Sector → Disk → Option ℤ × Disk
replace_at fuel fs name contents size lba off none d = (some (failed 1), d)
replace_at fuel fs name contents size lba off (some s) d =
    let (r, d') = fat_free_chain fuel fs (entry_cluster s off) d in
    if leb 2 (entry_cluster s off)
    then elim r [
      | none ↦ (none, d')
      | some freed ↦
          if freed then write_at fuel fs name contents size lba off d' else (some (failed 2), d')
    ]
    else write_at fuel fs name contents size lba off d

-- No entry has the name: a free one is taken.
pub create_at : ℕ → Fs → List ℕ → (ℕ → ℕ) → ℕ → Disk → Option ℤ × Disk
create_at fuel fs name contents size d =
    let (slot, d') = find_free_dir_slot fuel fs d in
    elim slot [
      | none ↦ (none, d')
      | some o ↦ elim o [
        | none ↦ (some (failed 3), d')
        | some (lba, off) ↦ write_at fuel fs name contents size lba off d'
      ]
    ]

pub write_found : ℕ → Fs → List ℕ → (ℕ → ℕ) → ℕ → Option (Place × ℕ) → Disk → Option ℤ × Disk
write_found fuel fs name contents size none d = (none, d)
write_found fuel fs name contents size (some (at lba off _, _)) d =
    let (o, d') = read_sector d lba in replace_at fuel fs name contents size lba off o d'
write_found fuel fs name contents size (some (missing, _)) d =
    create_at fuel fs name contents size d
write_found fuel fs name contents size (some (beyond, _)) d = create_at fuel fs name contents size d

pub fat32_write_file : ℕ → Fs → List ℕ → (ℕ → ℕ) → ℕ → Disk → Option ℤ × Disk
fat32_write_file fuel fs name contents size d =
    let (r, d') = find_entry_location fuel fs name d in
    if fs.mounted then write_found fuel fs name contents size r d' else (some (failed 1), d)
