-- ===== src/Fat32/Alloc.antt =====
-- fat_alloc_cluster: the cluster it takes is the lowest free one.
use gravityos.Base.{
  ℕ, zero, suc, ◌+◌, ◌-◌, ◌*◌, ◌/◌, ◌%◌, ◌^◌, ◌<◌, ◌≤◌, ◌≡◌, ◌≢◌, ◌⊎◌, refl, arith, Bool, true,
  false, Option, none, some, ltb, leb, ◌==◌, if◌then◌else◌, Bool-cases, Option-cases, inl, inr, ap,
  sym, ◌∙◌, dec_lt, subst,
}
use gravityos.Fat32.{
  word, Sector, Disk, Fs, read_sector, le32, entries_per_sector, total_clusters, find_free_entry,
  claim, alloc_from, fat_alloc_cluster,
}
use gravityos.Fat32.Sectors.{read_sector_lem, read_value}
use gravityos.Fat32.Table.{IsVolume, InTable, entry, set_entry_lem}
use gravityos.Fat32.Chain.{Healthy, set_entry-Healthy}

module _ (fs : Fs) (v : IsVolume fs) where
  per_sector : entries_per_sector fs ≡ 128
  per_sector = ap (λ b. b / 4) v.sector

  total_lem : total_clusters fs ≡ fs.fat_size * 128
  total_lem = ap (λ n. fs.fat_size * n % word) per_sector ∙ omega (arith, v.table)

  -- The search in one sector of the table ends at the first free entry from `i` on, and finds
  -- none where every entry is in use.
  pub FirstFree : Sector → ℕ → ℕ → ℕ → Option ℕ → Type 0
  FirstFree s sector n i none =
      (j : ℕ) → i ≤ j → j < i + n → 2 ≤ sector * 128 + j → le32 s (j * 4) % 2 ^ 28 ≢ 0
  FirstFree s sector n i (some c) =
      (j : ℕ) × (c ≡ sector * 128 + j)
      × (i ≤ j)
      × (j < i + n)
      × (2 ≤ c)
      × (le32 s (j * 4) % 2 ^ 28 ≡ 0)
      × ((k : ℕ) → i ≤ k → k < j → 2 ≤ sector * 128 + k → le32 s (k * 4) % 2 ^ 28 ≢ 0)

  FirstFree-skip :
      (s : Sector) (sector n i : ℕ) (o : Option ℕ)
      → ((2 ≤ sector * 128 + i) → le32 s (i * 4) % 2 ^ 28 ≢ 0)
      → FirstFree s sector n (i + 1) o
      → FirstFree s sector (suc n) i o
  unfolding FirstFree
  FirstFree-skip s sector n i none h r = λ j lo hi two. elim (Bool-cases (i == j)) [
    | inl same ↦ let e : i ≡ j = ground arith in rw (← e) (h (omega arith))
    | inr other ↦ r j (ground arith) (omega arith) two
  ]
  FirstFree-skip s sector n i (some c) h (j, e, lo, hi, two, free, before) = (
    j,
    e,
    omega arith,
    omega arith,
    two,
    free,
    λ k klo khi ktwo. elim (Bool-cases (i == k)) [
      | inl same ↦ let e' : i ≡ k = ground arith in rw (← e') (h (omega arith))
      | inr other ↦ before k (ground arith) khi ktwo
    ],
  )

  find_free_entry_lem :
      (s : Sector) (sector n i : ℕ)
      → sector < fs.fat_size
      → i + n ≤ 128
      → FirstFree s sector n i (find_free_entry fs s sector n i)
  unfolding find_free_entry FirstFree
  find_free_entry_lem s sector zero i inside small = λ j lo hi two. absurd (omega arith)
  find_free_entry_lem s sector (suc n) i inside small =
      let ih = find_free_entry_lem s sector n (i + 1) inside (omega arith) in
      let at : (sector * entries_per_sector fs + i) % word ≡ sector * 128 + i =
        ap (λ p. (sector * p + i) % word) per_sector ∙ omega (arith, v.table) in
      let below : leb (total_clusters fs) (sector * 128 + i) ≡ false =
        rw total_lem (ground (arith)) in
      elim (Bool-cases (ltb (sector * 128 + i) 2)) [
        | inl low ↦
            rw (at, below, low)
              (FirstFree-skip s sector n i (find_free_entry fs s sector n (i + 1))
                (λ two. absurd (ground arith)) ih)
        | inr high ↦ elim (Bool-cases (le32 s (i * 4) % 2 ^ 28 == 0)) [
          | inl free ↦
              rw (at, below, high, free)
                (
                  i,
                  refl,
                  omega arith,
                  omega arith,
                  ground arith,
                  ground arith,
                  λ k lo hi two. absurd (omega arith),
                )
          | inr busy ↦
              rw (at, below, high, busy)
                (FirstFree-skip s sector n i (find_free_entry fs s sector n (i + 1))
                  (λ two. ground arith) ih)
        ]
      ]

  entry_at :
      (d : Disk) (sector j : ℕ)
      → j < 128
      → entry fs d (sector * 128 + j)
        ≡ le32 (d.sectors (fs.reserved_sectors + sector)) (j * 4) % 2 ^ 28
  entry_at d sector j h =
      let a : (sector * 128 + j) * 4 / 512 ≡ sector = omega arith in
      let b : (sector * 128 + j) * 4 % 512 ≡ j * 4 = omega arith in rw (a, b) refl

  -- The lowest free cluster in the table's sectors from `sector` on.
  abbrev pub Lowest : Disk → ℕ → ℕ → Type 0
  Lowest d sector c =
      (2 ≤ c)
      × InTable fs c
      × (entry fs d c ≡ 0)
      × ((x : ℕ) → sector * 128 ≤ x → 2 ≤ x → x < c → entry fs d x ≢ 0)

  -- What an allocation leaves: the lowest free cluster is marked as a chain's end and no other entry
  -- has changed; or none is free, and no entry has changed.
  abbrev pub Taken : Disk → ℕ → ℕ × Disk → Type 0
  Taken d sector r =
      ((r.0 ≡ 0)
        × ((x : ℕ) → sector * 128 ≤ x → 2 ≤ x → InTable fs x → entry fs d x ≢ 0)
        × ((x : ℕ) → InTable fs x → entry fs r.1 x ≡ entry fs d x))
      ⊎ (Lowest d sector r.0
          × ((x : ℕ)
              → InTable fs x
              → entry fs r.1 x ≡ (if r.0 == x then 0x0FFFFFFF else entry fs d x)))

  same_entries : (d d' : Disk) → d'.sectors ≡ d.sectors → (x : ℕ) → entry fs d' x ≡ entry fs d x
  same_entries d d' e x =
      ap (λ (f : ℕ → Sector). le32 (f (fs.reserved_sectors + x * 4 / 512)) (x * 4 % 512) % 2 ^ 28) e

  set_value : {b : Bool} {m n k : ℕ} → ((b ≡ false) × (m ≡ n)) ⊎ (m ≡ k) → b ≡ true → m ≡ k
  set_value (inl (f, _)) t = cc
  set_value (inr k) t = k

  claim_lem :
      (d d' : Disk) (sector c : ℕ)
      → Healthy d'
      → d'.sectors ≡ d.sectors
      → Lowest d sector c
      → Taken d sector (claim fs c d')
  unfolding claim
  claim_lem d d' sector c h same (two, inside, free, least) =
      let done = set_entry-Healthy fs c 0x0FFFFFFF d' h in
      let (_, _, table) = set_entry_lem fs v c 0x0FFFFFFF inside d' in
      rw done (
        inr (
          (two, inside, free, least),
          λ x w. set_value (table x w) done ∙ rw (same_entries d d' same x) refl,
        ))

  -- One sector is searched before the others.
  Taken-later :
      (d d' : Disk) (sector : ℕ) (r : ℕ × Disk)
      → d'.sectors ≡ d.sectors
      → ((j : ℕ) → j < 128 → 2 ≤ sector * 128 + j → entry fs d (sector * 128 + j) ≢ 0)
      → Taken d' (sector + 1) r
      → Taken d sector r
  Taken-later d d' sector (c, d'') same none_here k = elim k [
    | inl (e, full, kept) ↦ inl (
      e,
      λ x lo two inside. upper x lo two (λ hi. moved x (full x hi two inside)),
      λ x inside. kept x inside ∙ same_entries d d' same x,
    )
    | inr ((two, inside, free, least), kept) ↦ inr (
      (
        two,
        inside,
        sym (same_entries d d' same c) ∙ free,
        λ x lo xtwo lt. upper x lo xtwo (λ hi. moved x (least x hi xtwo lt)),
      ),
      λ x w. kept x w ∙ rw (same_entries d d' same x) refl,
    )
  ]
    where
      moved : (x : ℕ) → entry fs d' x ≢ 0 → entry fs d x ≢ 0
      moved x h e = h (same_entries d d' same x ∙ e)

      upper :
          (x : ℕ)
          → sector * 128 ≤ x
          → 2 ≤ x
          → ((sector + 1) * 128 ≤ x → entry fs d x ≢ 0)
          → entry fs d x ≢ 0
      upper x lo two later = elim (dec_lt x ((sector + 1) * 128)) [
        | yes lt ↦
            let e : sector * 128 + (x - sector * 128) ≡ x = omega arith in
            subst (λ y. entry fs d y ≢ 0) e
              (none_here (x - sector * 128) (omega arith) (omega arith))
        | no ge ↦ later (omega arith)
      ]

  none_in_sector :
      (d : Disk) (sector : ℕ) (o : Option ℕ)
      → o ≡ none
      → FirstFree (d.sectors (fs.reserved_sectors + sector)) sector 128 0 o
      → (j : ℕ) → j < 128
      → 2 ≤ sector * 128 + j
      → entry fs d (sector * 128 + j) ≢ 0
  unfolding FirstFree
  none_in_sector d sector none e r j lt two = rw (entry_at d sector j lt) (r j (omega arith) lt two)
  none_in_sector d sector (some c) e r j lt two = absurd (ground arith)

  Lowest-in_sector :
      (d : Disk) (sector : ℕ) (o : Option ℕ) (c : ℕ)
      → sector < fs.fat_size
      → o ≡ some c
      → FirstFree (d.sectors (fs.reserved_sectors + sector)) sector 128 0 o
      → Lowest d sector c
  unfolding FirstFree
  Lowest-in_sector d sector none c inside e r = absurd (ground arith)
  Lowest-in_sector d sector (some c') c inside e (j, at, lo, hi, two, free, before) =
      let same : c ≡ sector * 128 + j = ground arith in
      (
        ground arith,
        omega arith,
        subst (λ y. entry fs d y ≡ 0) (sym same) (entry_at d sector j hi ∙ free),
        λ x xlo xtwo lt.
            let back : sector * 128 + (x - sector * 128) ≡ x = omega arith in
            subst (λ y. entry fs d y ≢ 0) back
              (rw (entry_at d sector (x - sector * 128) (omega arith))
                (before (x - sector * 128) (omega arith) (omega arith) (omega arith))),
      )

  alloc_from_lem :
      (n sector : ℕ) (d : Disk)
      → Healthy d
      → sector + n ≡ fs.fat_size
      → Taken d sector (alloc_from fs n sector d)
  unfolding alloc_from
  alloc_from_lem zero sector d h e =
      inl (refl, λ x lo two inside. absurd (omega arith), λ x inside. refl)
  alloc_from_lem (suc n) sector d h e =
      let l = fs.reserved_sectors + sector in
      let at : (fs.reserved_sectors + sector) % word ≡ l = omega (arith, fits) in
      let (same, fault, _) = read_sector_lem d l in
      let value : (read_sector d l).0 ≡ some (d.sectors l) =
        read_value d l ∙ rw (h d.commands) refl in
      let d' = (read_sector d l).1 in
      let h' : Healthy d' = λ k. ap (λ (f : ℕ → Bool). f k) fault ∙ h k in
      let found = find_free_entry_lem (d.sectors l) sector 128 0 (omega arith) (omega arith) in
      elim (Option-cases (find_free_entry fs (d.sectors l) sector 128 0)) [
        | inl full ↦
            rw (at, value, per_sector, full, alloc_from, at)
              (Taken-later d d' sector (alloc_from fs n (sector + 1) d') same
                (none_in_sector d sector (find_free_entry fs (d.sectors l) sector 128 0) full found)
                (alloc_from_lem n (sector + 1) d' h' (omega arith)))
        | inr (c, free) ↦
            rw (at, value, per_sector, free, alloc_from, at)
              (claim_lem d d' sector c h' same (
                Lowest-in_sector d sector (find_free_entry fs (d.sectors l) sector 128 0) c
                  (omega arith) free found))
      ]
    where
      fits : fs.reserved_sectors + fs.fat_size < word
      fits = let c = v.copies in let l = v.layout in grind arith

  -- On a volume whose drive fails no command, fat_alloc_cluster takes the lowest free cluster from 2 on,
  -- marks it as the end of a chain and changes no other entry; or it returns 0 and changes no entry,
  -- and no cluster of the table from 2 on is free.
  pub alloc_cluster-Taken : (d : Disk) → Healthy d → Taken d 0 (fat_alloc_cluster fs d)
  unfolding fat_alloc_cluster
  alloc_cluster-Taken d h = alloc_from_lem fs.fat_size 0 d h (omega arith)
