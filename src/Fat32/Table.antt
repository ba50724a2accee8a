-- ===== src/Fat32/Table.antt =====
-- fat_set_entry and fat_next_cluster against the table as a function from clusters to entries.
use gravityos.Base.{
  ℕ, zero, suc, ◌+◌, ◌*◌, ◌/◌, ◌%◌, ◌^◌, ◌<◌, ◌≤◌, ◌≡◌, ◌≢◌, ◌⊎◌, refl, arith, Bool, true, false,
  update, ◌==◌, if◌then◌else◌, Bool-cases, inl, inr, ap, sym, ◌∙◌, ℕ_discrete, dec_lt,
}
use gravityos.Fat32.{
  word, Sector, Disk, Fs, read_sector, le32, fat_eoc, sector_in_fat, entry_off, fat_next_cluster,
  patch_entry, write_patched, set_copy, set_copies, fat_set_entry,
}
use gravityos.Fat32.Sectors.{
  patch_entry_self, patch_entry_other, read_value, read_sector_lem, read_sector-none,
  write_sector_lem, write_sector_done,
}

-- What a mounted volume promises: sectors of 512 bytes, at least one copy of the table, and all
-- copies within the range of a sector's number.
pub record IsVolume (fs : Fs) : Type 0 where
  pub sector : fs.bytes_per_sector ≡ 512
  pub copies : 0 < fs.num_fats
  pub layout : fs.reserved_sectors + fs.num_fats * fs.fat_size < word
  pub table : fs.fat_size * 512 ≤ word

-- The clusters that have an entry.
abbrev pub InTable : Fs → ℕ → Type 0
InTable fs x = x * 4 < fs.fat_size * 512

-- The table, as its first copy has it.
abbrev pub entry : Fs → Disk → ℕ → ℕ
entry fs d x = le32 (d.sectors (fs.reserved_sectors + x * 4 / 512)) (x * 4 % 512) % 2 ^ 28

-- Some command of the drive fails.
abbrev pub Faulty : Disk → Type 0
Faulty d = (k : ℕ) × (d.fault k ≡ true)

Faulty-same :
    {b : Bool} (d d' : Disk)
    → d'.fault ≡ d.fault
    → (b ≡ true) ⊎ (d'.fault d'.commands ≡ true)
    → (b ≡ true) ⊎ Faulty d
Faulty-same d d' e (inl done) = inl done
Faulty-same d d' e (inr bad) = inr (d'.commands, sym (ap (λ (f : ℕ → Bool). f d'.commands) e) ∙ bad)

copy_bounds :
    (copy n size : ℕ) → 1 ≤ copy → copy < n → (size ≤ copy * size) × (copy * size + size ≤ n * size)
copy_bounds copy n size lo hi = (grind arith, grind arith)

module _ (fs : Fs) (v : IsVolume fs) where
  sector_in_fat_lem : (x : ℕ) → InTable fs x → sector_in_fat fs x ≡ x * 4 / 512
  sector_in_fat_lem x h = ap (λ b. x * 4 % word / b) v.sector ∙ omega (arith, v.table)

  entry_off_lem : (x : ℕ) → InTable fs x → entry_off fs x ≡ x * 4 % 512
  entry_off_lem x h = ap (λ b. x * 4 % word % b) v.sector ∙ omega (arith, v.table)

  first_copy : 1 * fs.fat_size ≤ fs.num_fats * fs.fat_size
  first_copy = let h = v.copies in grind arith

  -- A read in the table: the entry, or the end of the chain where the command failed.
  pub next_cluster_lem :
      (x : ℕ) (d : Disk)
      → InTable fs x
      → let r = fat_next_cluster fs x d in
        (r.1.sectors ≡ d.sectors)
        × (r.1.fault ≡ d.fault)
        × (r.0 ≡ (if d.fault d.commands then fat_eoc else entry fs d x))
  unfolding fat_next_cluster
  next_cluster_lem x d h =
      let at : (fs.reserved_sectors + sector_in_fat fs x) % word
          ≡ fs.reserved_sectors + x * 4 / 512 =
        rw (sector_in_fat_lem x h) (omega (arith, first_copy, v.layout)) in
      let r = read_sector_lem d (fs.reserved_sectors + x * 4 / 512) in
      rw (at, entry_off_lem x h)
        (
          r.0,
          r.1,
          rw (read_value d (fs.reserved_sectors + x * 4 / 512))
              (elim (Bool-cases (d.fault d.commands)) [
                | inl bad ↦ rw bad refl
                | inr good ↦ rw good refl
              ]),
        )

  module _ (cluster value : ℕ) (inside : InTable fs cluster) where
    abbrev copy_lba : ℕ → ℕ
    copy_lba copy = (fs.reserved_sectors + copy * fs.fat_size + sector_in_fat fs cluster) % word

    set_copy_lem :
        (copy : ℕ) (d : Disk)
        → let r = set_copy fs cluster value copy d in
          ((r.1.sectors
              ≡ update d.sectors
                  (copy_lba copy)
                  (patch_entry (d.sectors (copy_lba copy)) (entry_off fs cluster) value))
            ⊎ ((r.0 ≡ false) × (r.1.sectors ≡ d.sectors)))
          × (r.1.fault ≡ d.fault)
          × ((r.0 ≡ true) ⊎ Faulty d)
    unfolding set_copy write_patched
    set_copy_lem copy d =
        let r = read_sector_lem d (copy_lba copy) in
        elim r.2 [
          | inl bad ↦
              rw (bad, write_patched)
                (inr (refl, r.0), r.1, inr (d.commands, read_sector-none d (copy_lba copy) bad))
          | inr good ↦
              let w =
                write_sector_lem (read_sector d (copy_lba copy)).1 (copy_lba copy)
                  (patch_entry (d.sectors (copy_lba copy)) (entry_off fs cluster) value) in
              rw (good, write_patched)
                (
                  rw r.0 at w.0,
                  w.1 ∙ r.1,
                  Faulty-same d (read_sector d (copy_lba copy)).1 r.1 (
                      write_sector_done (read_sector d (copy_lba copy)).1 (copy_lba copy)
                        (patch_entry (d.sectors (copy_lba copy)) (entry_off fs cluster) value)),
                )
        ]

    copies_done :
        (n copy : ℕ) (d : Disk) → ((set_copies fs cluster value n copy d).0 ≡ true) ⊎ Faulty d
    unfolding set_copies
    copies_done zero copy d = inl refl
    copies_done (suc n) copy d =
        let (_, fault, ok) = set_copy_lem copy d in
        elim ok [
          | inr bad ↦ inr bad
          | inl done ↦ elim (copies_done n (copy + 1) (set_copy fs cluster value copy d).1) [
            | inl rest ↦ rw (done, set_copies) (inl rest)
            | inr (k, bad) ↦ inr (k, sym (ap (λ (f : ℕ → Bool). f k) fault) ∙ bad)
          ]
        ]

    -- A later copy lies behind the first one.
    later_copy :
        (copy : ℕ) (d : Disk) (l : ℕ)
        → 1 ≤ copy
        → copy < fs.num_fats
        → l < fs.reserved_sectors + fs.fat_size
        → (set_copy fs cluster value copy d).1.sectors l ≡ d.sectors l
    later_copy copy d l lo hi first =
        let b = copy_bounds copy fs.num_fats fs.fat_size lo hi in
        let behind : copy_lba copy ≢ l =
          rw (sector_in_fat_lem cluster inside) (omega (arith, b.0, b.1, v.layout)) in
        elim (set_copy_lem copy d).0 [
          | inl set ↦ ap (λ (f : ℕ → Sector). f l) set ∙ ground (arith, behind)
          | inr (_, same) ↦ ap (λ (f : ℕ → Sector). f l) same
        ]

    later_copies :
        (n copy : ℕ) (d : Disk) (l : ℕ)
        → 1 ≤ copy
        → copy + n ≤ fs.num_fats
        → l < fs.reserved_sectors + fs.fat_size
        → (set_copies fs cluster value n copy d).1.sectors l ≡ d.sectors l
    unfolding set_copies
    later_copies zero copy d l lo hi first = refl
    later_copies (suc n) copy d l lo hi first =
        let step = later_copy copy d l lo (omega arith) first in
        elim (Bool-cases (set_copy fs cluster value copy d).0) [
          | inl done ↦
              rw (done, set_copies)
                (later_copies n (copy + 1) (set_copy fs cluster value copy d).1 l (omega arith)
                    (omega arith) first
                  ∙ step)
          | inr stop ↦ rw (stop, set_copies) step
        ]

    copies-fault :
        (n copy : ℕ) (d : Disk) → (set_copies fs cluster value n copy d).1.fault ≡ d.fault
    unfolding set_copies
    copies-fault zero copy d = refl
    copies-fault (suc n) copy d = elim (Bool-cases (set_copy fs cluster value copy d).0) [
      | inl done ↦
          rw (done, set_copies)
            (copies-fault n (copy + 1) (set_copy fs cluster value copy d).1
              ∙ (set_copy_lem copy d).1)
      | inr stop ↦ rw (stop, set_copies) (set_copy_lem copy d).1
    ]

    -- The first copy of the table, once the others are written too.
    abbrev first_lba : ℕ
    first_lba = fs.reserved_sectors + cluster * 4 / 512

    all_copies :
        (n : ℕ) (d : Disk) (l : ℕ)
        → suc n ≡ fs.num_fats
        → l < fs.reserved_sectors + fs.fat_size
        → let r = set_copies fs cluster value (suc n) 0 d in
          ((r.0 ≡ false) × (r.1.sectors l ≡ d.sectors l))
          ⊎ (r.1.sectors l
              ≡ update d.sectors first_lba
                  (patch_entry (d.sectors first_lba) (cluster * 4 % 512) value)
                  l)
    unfolding set_copies
    all_copies n d l e first =
        let at : copy_lba 0 ≡ first_lba =
          rw (sector_in_fat_lem cluster inside) (omega (arith, first_copy, v.layout)) in
        let c = rw (at, entry_off_lem cluster inside) at (set_copy_lem 0 d).0 in
        elim c [
          | inr (stop, same) ↦ rw (stop, set_copies) (inl (refl, ap (λ (f : ℕ → Sector). f l) same))
          | inl set ↦ elim (Bool-cases (set_copy fs cluster value 0 d).0) [
            | inl done ↦
                rw (done, set_copies)
                  (inr (
                    later_copies n 1 (set_copy fs cluster value 0 d).1 l (omega arith) (omega arith)
                      first
                    ∙ ap (λ (f : ℕ → Sector). f l) set))
            | inr stop ↦ rw (stop, set_copies) (inr (ap (λ (f : ℕ → Sector). f l) set))
          ]
        ]

    patched_entry :
        (d : Disk) (x : ℕ) (f : ℕ → Sector)
        → f (fs.reserved_sectors + x * 4 / 512)
          ≡ update d.sectors first_lba
              (patch_entry (d.sectors first_lba) (cluster * 4 % 512) value)
              (fs.reserved_sectors + x * 4 / 512)
        → le32 (f (fs.reserved_sectors + x * 4 / 512)) (x * 4 % 512) % 2 ^ 28
          ≡ (if cluster == x then value % 2 ^ 28 else entry fs d x)
    patched_entry d x f e = rw e (elim (ℕ_discrete cluster x) [
      | yes same ↦
          rw (← same)
            (ground (arith, patch_entry_self (d.sectors first_lba) (cluster * 4 % 512) value))
      | no other ↦ elim (ℕ_discrete (cluster * 4 / 512) (x * 4 / 512)) [
        | yes here ↦
            let away =
              patch_entry_other (d.sectors first_lba) (cluster * 4 % 512) value (x * 4 % 512)
                (apart x other here) in
            rw (← here) (ground (arith, away))
        | no there ↦ ground arith
      ]
    ])
      where
        apart :
            (x : ℕ)
            → cluster ≢ x
            → cluster * 4 / 512 ≡ x * 4 / 512
            → (x * 4 % 512 + 4 ≤ cluster * 4 % 512) ⊎ (cluster * 4 % 512 + 4 ≤ x * 4 % 512)
        apart x ne e = elim (dec_lt x cluster) [
          | yes lt ↦ inl (omega arith)
          | no ge ↦ inr (omega arith)
        ]

    -- On a volume fat_set_entry succeeds unless a command of the drive fails, gives the cluster its new
    -- entry where it reports success, and leaves
    -- every other entry as it is, whatever commands fail, writes that fail at the flush included.
    pub set_entry_lem :
        (d : Disk)
        → let r = fat_set_entry fs cluster value d in
          (r.1.fault ≡ d.fault)
          × ((r.0 ≡ true) ⊎ Faulty d)
          × ((x : ℕ)
              → InTable fs x
              → ((r.0 ≡ false) × (entry fs r.1 x ≡ entry fs d x))
                ⊎ (entry fs r.1 x ≡ (if cluster == x then value % 2 ^ 28 else entry fs d x)))
    unfolding fat_set_entry
    set_entry_lem d = (
      copies-fault fs.num_fats 0 d,
      copies_done fs.num_fats 0 d,
      λ x h. table x h fs.num_fats refl,
    )
      where
        table :
            (x : ℕ)
            → InTable fs x
            → (n : ℕ) → n ≡ fs.num_fats
            → let r = set_copies fs cluster value n 0 d in
              ((r.0 ≡ false) × (entry fs r.1 x ≡ entry fs d x))
              ⊎ (entry fs r.1 x ≡ (if cluster == x then value % 2 ^ 28 else entry fs d x))
        table x h zero e = absurd (omega (arith, v.copies))
        table x h (suc n) e =
            elim (all_copies n d (fs.reserved_sectors + x * 4 / 512) e (omega arith)) [
              | inl (f, same) ↦ inl (f, ap (λ (s : Sector). le32 s (x * 4 % 512) % 2 ^ 28) same)
              | inr set ↦
                  inr (patched_entry d x (set_copies fs cluster value (suc n) 0 d).1.sectors set)
            ]

-- Reading an entry changes no sector, whatever the cluster is.
pub next_cluster-Same :
    (fs : Fs) (x : ℕ) (d : Disk)
    → ((fat_next_cluster fs x d).1.sectors ≡ d.sectors)
      × ((fat_next_cluster fs x d).1.fault ≡ d.fault)
unfolding fat_next_cluster
next_cluster-Same fs x d =
    let (a, b, _) = read_sector_lem d ((fs.reserved_sectors + sector_in_fat fs x) % word) in (a, b)
