-- ===== src/Fat32/Remove.antt =====
-- drivers/fat32.c: deleting a file. The entry is marked first, then its chain is given back.
use gravityos.Base.{ℕ, List, Option, none, some, leb, if◌then◌else◌, update}
use gravityos.Base.Int.{ℤ, pos}
use gravityos.Fat32.{Sector, Disk, Fs, read_sector, write_sector, fat_free_chain}
use gravityos.Fat32.Directory.{Place, at, missing, beyond, find_entry_location, entry_cluster}
use gravityos.Fat32.Files.{failed}

-- The first byte of a deleted entry.
abbrev pub deleted_mark : ℕ
deleted_mark = 0xE5

-- The result of fat_free_chain is not looked at.
pub free_contents : ℕ → Fs → ℕ → Disk → Option ℤ × Disk
free_contents fuel fs cluster d =
    let (r, d') = fat_free_chain fuel fs cluster d in
    if leb 2 cluster
    then (elim r [ none ↦ none | some freed ↦ some (pos 0) ], d')
    else (some (pos 0), d)

pub mark_deleted : ℕ → Fs → ℕ → ℕ → Option Sector → Disk → Option ℤ × Disk
mark_deleted fuel fs lba off none d = (some (failed 2), d)
mark_deleted fuel fs lba off (some s) d =
    let (done, d') = write_sector d lba (update s off deleted_mark) in
    if done then free_contents fuel fs (entry_cluster s off) d' else (some (failed 3), d')

pub delete_found : ℕ → Fs → Option (Place × ℕ) → Disk → Option ℤ × Disk
delete_found fuel fs none d = (none, d)
delete_found fuel fs (some (at lba off _, _)) d =
    let (o, d') = read_sector d lba in mark_deleted fuel fs lba off o d'
delete_found fuel fs (some (missing, _)) d = (some (failed 1), d)
delete_found fuel fs (some (beyond, _)) d = (some (failed 1), d)

pub fat32_delete_file : ℕ → Fs → List ℕ → Disk → Option ℤ × Disk
fat32_delete_file fuel fs name d =
    let (r, d') = find_entry_location fuel fs name d in
    if fs.mounted then delete_found fuel fs r d' else (some (failed 1), d)
