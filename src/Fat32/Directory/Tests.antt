-- ===== src/Fat32/Directory/Tests.antt =====
-- The directory of the small volume.
use gravityos.Base.{ℕ, ◌+◌, ◌<◌, ◌≤◌, ◌≡◌, ◌≢◌, ◌⊎◌, refl, arith, true, false, List, [], ◌∷◌, some}
use gravityos.Fat32.{read_sector, fat_next_cluster}
use gravityos.Fat32.Tests.{small, small_drive}
use gravityos.Fat32.Directory.{
  base_part, after_dot, ext_part, to_short_name, name_matches, scan_entries, search_cluster,
  search_chain, find_entry_location, find_entry, write_dir_entry,
}
use gravityos.Fat32.Directory.Entry.{Shows, write_dir_entry_lem}

pub found_a : (find_entry 3 small (b'a' ∷ []) small_drive).0 ≡ some (some (3, 600))
unfolding find_entry find_entry_location search_chain search_cluster scan_entries name_matches
    to_short_name base_part after_dot ext_part fat_next_cluster read_sector
found_a = refl

abbrev name_b : List ℕ
name_b = b' ' ∷ b' ' ∷ b' ' ∷ b' ' ∷ b' ' ∷ b' ' ∷ b' ' ∷ b'T' ∷ b'X' ∷ b'T' ∷ []

write_dir_entry_lem_example :
    let r = write_dir_entry 3 32 (b'B' ∷ name_b) 5 70000 small_drive in
    ((r.0 ≡ false)
      × (r.1.sectors ≡ small_drive.sectors)
      × ((small_drive.fault small_drive.commands ≡ true)
          ⊎ (small_drive.fault (small_drive.commands + 1) ≡ true)))
    ⊎ (Shows (r.1.sectors 3) 32 (b'B' ∷ name_b) 5 70000
        × ((l i : ℕ)
            → (l ≢ 3) ⊎ ((i < 32) ⊎ (32 + 32 ≤ i))
            → r.1.sectors l i ≡ small_drive.sectors l i)
        × ((r.0 ≡ true) ⊎ (small_drive.fault (small_drive.commands + 1) ≡ true)))
write_dir_entry_lem_example =
    write_dir_entry_lem 3 32 b'B' name_b 5 70000 small_drive refl (omega arith) (omega arith)
      (omega arith) (omega arith)
