-- ===== src/Ata/Transfer.antt =====
-- What a write sends to the drive.
use gravityos.Base.{
  ℕ, zero, suc, ◌+◌, ◌*◌, ◌/◌, ◌%◌, ◌^◌, ◌<◌, ◌≤◌, ◌≡◌, refl, arith, Bool, true, false, not, ◌&&◌,
  List, some, length, get_elem?, [], ◌∷◌, ◌++◌, ◌==◌, if◌then◌else◌, ap, ap₂, sym, ◌∙◌,
  append_assoc, append-nil,
}
use gravityos.Ata.{
  Ata, outb, busy, wait_not_busy, wait_drq, ata_wait_not_busy, ata_wait_drq, in_error, data_ready,
  command_writes, ata_issue, put_words, write_sectors, flush, ata_write_sectors,
}

-- Whenever it is polled, the drive is not busy, reports no error, and is ready for data.
abbrev pub IsReady : (ℕ → ℕ) → Type 0
IsReady statuses =
    (k : ℕ)
    → (busy (statuses k) ≡ false)
      × (in_error (statuses k) ≡ false)
      × (data_ready (statuses k) ≡ true)

abbrev after_poll : Ata → Ata
after_poll s = record s { polls = s.polls + 1 }

-- The state once words were sent after a number of polls.
abbrev sent_after : Ata → ℕ → List (ℕ × ℕ) → Ata
sent_after s n writes = record s { polls = s.polls + n; writes = s.writes ++ writes }

module _ (statuses : ℕ → ℕ) (words : ℕ → ℕ) (ready : IsReady statuses) where
  not_busy_at_once :
      (n : ℕ) (s : Ata) → 1 ≤ n → wait_not_busy statuses words n s ≡ (true, after_poll s)
  unfolding wait_not_busy
  not_busy_at_once zero s le = absurd (omega arith)
  not_busy_at_once (suc n) s le =
      let (idle, _, _) = ready s.polls in
      ap
        (λ b. if not b then (true, after_poll s) else wait_not_busy statuses words n (after_poll s))
        idle

  drq_at_once : (n : ℕ) (s : Ata) → 1 ≤ n → wait_drq statuses words n s ≡ (true, after_poll s)
  unfolding wait_drq
  drq_at_once zero s le = absurd (omega arith)
  drq_at_once (suc n) s le =
      let (idle, fine, data_there) = ready s.polls in
      ap
        (λ b.
          if b
          then (false, after_poll s)
          else if not (busy (statuses s.polls)) && data_ready (statuses s.polls)
          then (true, after_poll s)
          else wait_drq statuses words n (after_poll s))
        fine
      ∙ ap₂
          (λ a b.
            if not a && b then (true, after_poll s) else wait_drq statuses words n (after_poll s))
          idle data_there

  put_words-append :
      (buffer : ℕ → ℕ) (a b i : ℕ)
      → put_words statuses words buffer (a + b) i
        ≡ put_words statuses words buffer a i ++ put_words statuses words buffer b (i + a)
  unfolding put_words
  put_words-append buffer zero b i =
      ap₂ (put_words statuses words buffer) (omega arith) (omega arith)
  put_words-append buffer (suc a) b i =
      let shift : i + 1 + a ≡ i + suc a = omega arith in
      let more : suc a + b ≡ suc (a + b) = omega arith in
      ap (λ n. put_words statuses words buffer n i) more
      ∙ ap (◌∷◌ (0x1F0, buffer i)) (
          put_words-append buffer a b (i + 1)
          ∙ ap
              (λ j.
                put_words statuses words buffer a (i + 1) ++ put_words statuses words buffer b j)
              shift)

  put_words_none : (buffer : ℕ → ℕ) (n i : ℕ) → n ≡ 0 → put_words statuses words buffer n i ≡ []
  unfolding put_words
  put_words_none buffer zero i e = refl
  put_words_none buffer (suc n) i e = absurd (omega arith)

  write_sectors_lem :
      (buffer : ℕ → ℕ) (n i : ℕ) (s : Ata)
      → write_sectors statuses words buffer n i s
        ≡ (true, sent_after s n (put_words statuses words buffer (n * 256) i))
  unfolding write_sectors ata_wait_drq
  write_sectors_lem buffer zero i s =
      ap₂ (λ k w. (true, record s { polls = k; writes = w })) (omega arith)
        (sym (
          ap (λ l. s.writes ++ l) (put_words_none buffer (0 * 256) i (omega arith))
          ∙ append-nil s.writes))
  write_sectors_lem buffer (suc n) i s =
      let first = put_words statuses words buffer 256 i in
      let others = put_words statuses words buffer (n * 256) (i + 256) in
      let count : suc n * 256 ≡ 256 + n * 256 = omega arith in
      ap
        (λ (r : Bool × Ata).
          if r.0
          then write_sectors statuses words buffer n (i + 256)
              (record r.1 { writes = r.1.writes ++ first })
          else (false, r.1))
        (drq_at_once 4000000 s (omega arith))
      ∙ (write_sectors_lem buffer n (i + 256) (record (after_poll s) { writes = s.writes ++ first })
          ∙ ap₂ (λ k w. (true, record s { polls = k; writes = w })) (omega arith)
              (append_assoc s.writes first others
                ∙ ap (λ l. s.writes ++ l)
                    (sym (
                      ap (λ c. put_words statuses words buffer c i) count
                      ∙ put_words-append buffer 256 (n * 256) i))))

  issue_lem :
      (lba count command : ℕ) (s : Ata)
      → ata_issue statuses words lba count command s
        ≡ (true, sent_after s 1 (command_writes statuses words lba count command))
  unfolding ata_issue ata_wait_not_busy
  issue_lem lba count command s =
      let cw = command_writes statuses words lba count command in
      ap (λ (r : Bool × Ata). (r.0, if r.0 then record r.1 { writes = r.1.writes ++ cw } else r.1))
        (not_busy_at_once 4000000 s (omega arith))

  flush_lem : (s : Ata) → flush statuses words s ≡ (true, sent_after s 2 ((0x1F7, 0xE7) ∷ []))
  unfolding flush ata_wait_not_busy
  flush_lem s =
      ap
        (λ (r : Bool × Ata).
          if r.0 then wait_not_busy statuses words 4000000 (outb 0x1F7 0xE7 r.1) else (false, r.1))
        (not_busy_at_once 4000000 s (omega arith))
      ∙ (not_busy_at_once 4000000 (outb 0x1F7 0xE7 (after_poll s)) (omega arith)
          ∙ ap (λ k. (true, record s { polls = k; writes = s.writes ++ ((0x1F7, 0xE7) ∷ []) }))
              (omega arith))

-- The sector that the drive takes from the writes of a command: bytes 3 to 5, and four bits of byte 0.
abbrev pub addressed : List (ℕ × ℕ) → ℕ
addressed ((_, drive) ∷ _ ∷ _ ∷ (_, low) ∷ (_, mid) ∷ (_, high) ∷ _) =
    drive % 16 * 2 ^ 24 + high * 2 ^ 16 + mid * 2 ^ 8 + low
addressed _ = 0

-- The seven writes of a command: the drive and the upper four bits of the sector's number, the count, the
-- number's lower 24 bits, and the command.
abbrev pub asks : ℕ → ℕ → ℕ → List (ℕ × ℕ)
asks lba count command =
    (0x1F6, 224 + lba / 16777216 % 16)
    ∷ (0x1F1, 0)
    ∷ (0x1F2, count)
    ∷ (0x1F3, lba % 256)
    ∷ (0x1F4, lba / 256 % 256)
    ∷ (0x1F5, lba / 65536 % 256)
    ∷ (0x1F7, command)
    ∷ []

-- `sent` hands the drive's data port `n` words, which are the buffer's from word `i` on.
abbrev pub HandsOver : (ℕ → ℕ) → ℕ → ℕ → List (ℕ × ℕ) → Type 0
HandsOver buffer i n sent =
    (length sent ≡ n) × ((k : ℕ) → k < n → get_elem? sent k ≡ some (0x1F0, buffer (i + k)))

module _ (statuses : ℕ → ℕ) (words : ℕ → ℕ) (ready : IsReady statuses) where
  put_words-HandsOver :
      (buffer : ℕ → ℕ) (n i : ℕ) → HandsOver buffer i n (put_words statuses words buffer n i)
  unfolding put_words
  put_words-HandsOver buffer zero i = (refl, λ k lt. absurd (omega arith))
  put_words-HandsOver buffer (suc n) i =
      let (len, rest) = put_words-HandsOver buffer n (i + 1) in (ap suc len, at rest)
    where
      at :
          ((k : ℕ)
            → k < n
            → get_elem? (put_words statuses words buffer n (i + 1)) k
              ≡ some (0x1F0, buffer (i + 1 + k)))
          → (k : ℕ) → k < suc n
          → get_elem? ((0x1F0, buffer i) ∷ put_words statuses words buffer n (i + 1)) k
            ≡ some (0x1F0, buffer (i + k))
      at rest zero lt = let e : i ≡ i + 0 = omega arith in ap (λ j. some (0x1F0, buffer j)) e
      at rest (suc k) lt =
          let e : i + 1 + k ≡ i + suc k = omega arith in
          rest k (omega arith) ∙ ap (λ j. some (0x1F0, buffer j)) e

-- What a write of `count` sectors sends: the command, the words of the buffer, and the flush.
abbrev pub Written : (ℕ → ℕ) → (ℕ → ℕ) → ℕ → ℕ → (ℕ → ℕ) → Ata → Bool × Ata → Type 0
Written statuses words lba count buffer s r =
    (r.0 ≡ true)
    × (addressed (asks lba count 0x30) ≡ lba)
    × ((sent : List (ℕ × ℕ)) × HandsOver buffer 0 (count * 256) sent
        × (r.1.writes ≡ s.writes ++ (asks lba count 0x30 ++ (sent ++ ((0x1F7, 0xE7) ∷ [])))))

-- On a drive that is there and ready whenever it is polled, for at least one sector and a sector's
-- number of 28 bits: ata_write_sectors succeeds; it sends one command that addresses the sector, then
-- the words of the buffer in their order, 256 for each sector, then the flush, and nothing else.
pub write_sectors-Written :
    (statuses words : ℕ → ℕ) (lba count : ℕ) (buffer : ℕ → ℕ) (s : Ata)
    → IsReady statuses
    → s.disk_present ≡ true
    → 1 ≤ count
    → lba < 2 ^ 28
    → Written statuses words lba count buffer s
        (ata_write_sectors statuses words lba count buffer s)
unfolding ata_write_sectors command_writes
write_sectors-Written statuses words lba count buffer s ready on le low =
    let command = command_writes statuses words lba count 0x30 in
    let data_words = put_words statuses words buffer (count * 256) 0 in
    let issued = sent_after s 1 command in
    let sent = sent_after issued count data_words in
    let some_sectors : (count == 0) ≡ false = ground arith in
    let done =
      ap₂
        (λ a b.
          if not a
          then (false, s)
          else if b
          then (false, s)
          else (λ (r : Bool × Ata).
                let t = write_sectors statuses words buffer count 0 r.1 in
                if not r.0
                then (false, r.1)
                else if not t.0
                then (false, t.1)
                else flush statuses words t.1)
              (ata_issue statuses words lba count 0x30 s))
        on some_sectors
      ∙ (ap
            (λ (r : Bool × Ata).
              let t = write_sectors statuses words buffer count 0 r.1 in
              if not r.0
              then (false, r.1)
              else if not t.0
              then (false, t.1)
              else flush statuses words t.1)
            (issue_lem statuses words ready lba count 0x30 s)
          ∙ (ap (λ (t : Bool × Ata). if not t.0 then (false, t.1) else flush statuses words t.1)
                (write_sectors_lem statuses words ready buffer count 0 issued)
              ∙ flush_lem statuses words ready sent)) in
    (
      ap (λ r. r.0) done,
      omega arith,
      (
        data_words,
        put_words-HandsOver statuses words ready buffer (count * 256) 0,
        ap (λ r. r.1.writes) done
            ∙ (append_assoc (s.writes ++ command) data_words ((0x1F7, 0xE7) ∷ [])
                ∙ append_assoc s.writes command (data_words ++ ((0x1F7, 0xE7) ∷ []))),
      ),
    )
