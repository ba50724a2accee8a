-- ===== src/Ata/Tests.antt =====
-- One sector with the word 0x55AA in each place, at 0x01234567.
use gravityos.Base.{refl, arith, true, []}
use gravityos.Ata.{Ata, ata_write_sectors}
use gravityos.Ata.Transfer.{Written, write_sectors-Written}

abbrev drive : Ata
drive = record {
  disk_present = true;
  disk_sectors = 0x02000000;
  disk_model = λ _. 0;
  polls = 0;
  taken = 0;
  writes = [];
}

write_sectors-Written_example :
    Written
      (λ _. 0x48)
      (λ _. 0)
      0x01234567
      1
      (λ _. 0x55AA)
      drive
      (ata_write_sectors (λ _. 0x48) (λ _. 0) 0x01234567 1 (λ _. 0x55AA) drive)
write_sectors-Written_example =
    write_sectors-Written (λ _. 0x48) (λ _. 0) 0x01234567 1 (λ _. 0x55AA) drive
      (λ k. (refl, refl, refl)) refl (omega arith) (omega arith)
