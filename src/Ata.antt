-- ===== src/Ata.antt =====
-- drivers/ata.c: the drive's commands. `statuses` are what the reads of the status port give, in their
-- order, and `words` what the reads of the data port give; the state counts both, and has the writes to
-- ports in their order.
pub mod Transfer
mod Tests
use gravityos.Base.{
  ℕ, zero, suc, ◌+◌, ◌-◌, ◌*◌, ◌/◌, ◌%◌, ◌^◌, Bool, true, false, not, ◌&&◌, ◌||◌, List, [], ◌∷◌,
  ◌++◌, ◌==◌, if◌then◌else◌, update,
}

pub record Ata : Type 0 where
  pub disk_present : Bool
  pub disk_sectors : ℕ
  pub disk_model : ℕ → ℕ
  pub polls : ℕ
  pub taken : ℕ
  pub writes : List (ℕ × ℕ)

abbrev pub outb : ℕ → ℕ → Ata → Ata
outb port value s = record s { writes = s.writes ++ ((port, value) ∷ []) }

-- ATA_SR_BSY, ATA_SR_DRQ and ATA_SR_ERR.
abbrev pub busy : ℕ → Bool
busy status = not (status / 128 % 2 == 0)

abbrev pub data_ready : ℕ → Bool
data_ready status = not (status / 8 % 2 == 0)

abbrev pub in_error : ℕ → Bool
in_error status = not (status % 2 == 0)

module _ (statuses : ℕ → ℕ) (words : ℕ → ℕ) where
  -- The loops that wait, with `n` rounds left; false is -1.
  pub wait_not_busy : ℕ → Ata → Bool × Ata
  wait_not_busy zero s = (false, s)
  wait_not_busy (suc n) s =
      let next = record s { polls = s.polls + 1 } in
      let rest = wait_not_busy n next in
      if not (busy (statuses s.polls)) then (true, next) else rest

  pub wait_drq : ℕ → Ata → Bool × Ata
  wait_drq zero s = (false, s)
  wait_drq (suc n) s =
      let next = record s { polls = s.polls + 1 } in
      let rest = wait_drq n next in
      if in_error (statuses s.polls)
      then (false, next)
      else if not (busy (statuses s.polls)) && data_ready (statuses s.polls)
      then (true, next)
      else rest

  pub ata_wait_not_busy : Ata → Bool × Ata
  ata_wait_not_busy = wait_not_busy 4000000

  pub ata_wait_drq : Ata → Bool × Ata
  ata_wait_drq = wait_drq 4000000

  -- `0xE0 | ((lba >> 24) & 0x0F)`, and the writes of a command.
  pub command_writes : ℕ → ℕ → ℕ → List (ℕ × ℕ)
  command_writes lba count command =
      (0x1F6, 0xE0 + lba / 2 ^ 24 % 16)
      ∷ (0x1F1, 0)
      ∷ (0x1F2, count)
      ∷ (0x1F3, lba % 256)
      ∷ (0x1F4, lba / 2 ^ 8 % 256)
      ∷ (0x1F5, lba / 2 ^ 16 % 256)
      ∷ (0x1F7, command)
      ∷ []

  pub ata_issue : ℕ → ℕ → ℕ → Ata → Bool × Ata
  ata_issue lba count command s =
      let (ready, s') = ata_wait_not_busy s in
      (
        ready,
        if ready then record s' { writes = s'.writes ++ command_writes lba count command } else s',
      )

  -- The next `n` words from the data port, stored from word `i` of the buffer on.
  pub take_words : ℕ → ℕ → Ata → (ℕ → ℕ) → Ata × (ℕ → ℕ)
  take_words zero i s buffer = (s, buffer)
  take_words (suc n) i s buffer =
      take_words n (i + 1) (record s { taken = s.taken + 1 }) (update buffer i (words s.taken))

  pub read_sectors : ℕ → ℕ → Ata → (ℕ → ℕ) → Bool × Ata × (ℕ → ℕ)
  read_sectors zero i s buffer = (true, s, buffer)
  read_sectors (suc n) i s buffer =
      let (ready, s') = ata_wait_drq s in
      let (s'', buffer') = take_words 256 i s' buffer in
      let rest = read_sectors n (i + 256) s'' buffer' in if ready then rest else (false, s', buffer)

  -- The buffer is an array of words of sixteen bits.
  pub ata_read_sectors : ℕ → ℕ → Ata → (ℕ → ℕ) → Bool × Ata × (ℕ → ℕ)
  ata_read_sectors lba count s buffer =
      let (issued, s') = ata_issue lba count 0x20 s in
      let result = read_sectors count 0 s' buffer in
      if not s.disk_present
      then (false, s, buffer)
      else if count == 0
      then (false, s, buffer)
      else if issued
      then result
      else (false, s', buffer)

  -- The writes of `n` words of the buffer from word `i` on.
  pub put_words : (ℕ → ℕ) → ℕ → ℕ → List (ℕ × ℕ)
  put_words buffer zero i = []
  put_words buffer (suc n) i = (0x1F0, buffer i) ∷ put_words buffer n (i + 1)

  pub write_sectors : (ℕ → ℕ) → ℕ → ℕ → Ata → Bool × Ata
  write_sectors buffer zero i s = (true, s)
  write_sectors buffer (suc n) i s =
      let (ready, s') = ata_wait_drq s in
      let sent = record s' { writes = s'.writes ++ put_words buffer 256 i } in
      let rest = write_sectors buffer n (i + 256) sent in if ready then rest else (false, s')

  -- The wait, the flush, and the wait behind it.
  pub flush : Ata → Bool × Ata
  flush s =
      let (ready, s') = ata_wait_not_busy s in
      if ready then ata_wait_not_busy (outb 0x1F7 0xE7 s') else (false, s')

  pub ata_write_sectors : ℕ → ℕ → (ℕ → ℕ) → Ata → Bool × Ata
  ata_write_sectors lba count buffer s =
      let (issued, s') = ata_issue lba count 0x30 s in
      let (sent, s'') = write_sectors buffer count 0 s' in
      if not s.disk_present
      then (false, s)
      else if count == 0
      then (false, s)
      else if not issued
      then (false, s')
      else if not sent
      then (false, s'')
      else flush s''

-- The model's name from the words 27 to 46 of the drive's answer, two characters in each, and its last
-- blanks cut off.
pub model_chars : (ℕ → ℕ) → ℕ → ℕ → (ℕ → ℕ) → ℕ → ℕ
model_chars identify zero i model = update model 40 0
model_chars identify (suc n) i model = model_chars identify n (i + 1) (
    update (update model (i * 2) (identify (27 + i) / 256 % 256)) (i * 2 + 1)
      (identify (27 + i) % 256))

pub cut_blanks : ℕ → (ℕ → ℕ) → ℕ → ℕ
cut_blanks zero model = model
cut_blanks (suc i) model =
    let rest = cut_blanks i (update model i 0) in if model i == 32 then rest else model

module _ (statuses : ℕ → ℕ) (words : ℕ → ℕ) where
  -- The drive's answer to IDENTIFY is taken word by word.
  pub identified : Ata → Bool × Ata
  identified s =
      let (taken, identify) = take_words statuses words 256 0 s (λ _. 0) in
      (
        true,
        record taken {
          disk_model = cut_blanks 40 (model_chars identify 20 0 s.disk_model);
          disk_sectors = identify 61 * 2 ^ 16 + identify 60;
          disk_present = true;
        },
      )

  -- What follows the wait, where `mid` and `high` are what the two address ports give.
  pub identify_ready : ℕ → ℕ → Bool × Ata → Bool × Ata
  identify_ready mid high (ready, s) =
      let (there, s') = ata_wait_drq statuses words s in
      if not ready
      then (false, s)
      else if not (mid == 0) || not (high == 0)
      then (false, s)
      else if there
      then identified s'
      else (false, s')

  pub ata_init : ℕ → ℕ → Ata → Bool × Ata
  ata_init mid high s =
      let asked = record s {
        disk_present = false;
        polls = s.polls + 1;
        writes =
            s.writes
            ++ ((0x1F6, 0xA0)
                ∷ (0x1F2, 0)
                ∷ (0x1F3, 0)
                ∷ (0x1F4, 0)
                ∷ (0x1F5, 0)
                ∷ (0x1F7, 0xEC)
                ∷ []);
      } in
      if statuses s.polls == 0
      then (false, asked)
      else identify_ready mid high (ata_wait_not_busy statuses words asked)
