-- ===== src/Fat32/Files/Tests.antt =====
-- Reading the file of the small volume.
use gravityos.Base.{◌≡◌, refl, arith, [], ◌∷◌, some, length, take}
use gravityos.Fat32.Tests.{small, small_drive, small-IsVolume, small-Healthy}
use gravityos.Fat32.Directory.Tests.{found_a}
use gravityos.Fat32.Files.{int_of, fat32_read_file}
use gravityos.Fat32.Files.Read.{sector_bytes, chain_bytes, read_file_lem}

long : length (chain_bytes small small_drive.sectors (3 ∷ 4 ∷ [])) ≡ 1024
unfolding sector_bytes
long = refl

read_file_lem_example :
    let r = fat32_read_file 3 small (b'a' ∷ []) 1000 small_drive in
    (r.0 ≡ some (int_of 600, take 600 (chain_bytes small small_drive.sectors (3 ∷ 4 ∷ []))))
    × (r.1.sectors ≡ small_drive.sectors)
read_file_lem_example =
    read_file_lem small small-IsVolume 3 1000 3 600 (b'a' ∷ []) (3 ∷ 4 ∷ []) small_drive
      small-Healthy refl found_a
      (refl, refl, omega arith, refl, (refl, refl, omega arith, refl, refl)) (omega arith)
      (omega (arith, long)) (omega arith)
