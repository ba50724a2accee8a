-- ===== src/Fat32/Chain.antt =====
-- fat_free_chain on a chain of the table, with a drive that fails no command.
use gravityos.Base.{
  ℕ, zero, suc, ◌+◌, ◌*◌, ◌/◌, ◌%◌, ◌^◌, ◌<◌, ◌≡◌, ◌⊎◌, refl, arith, Bool, true, false, ◌||◌, List,
  [], ◌∷◌, Option, some, ◌==◌, if◌then◌else◌, inl, inr, ap, ◌∙◌, length,
}
use gravityos.Fat32.{
  Sector, Disk, Fs, read_sector, write_sector, in_chain, le32, fat_next_cluster, write_patched,
  set_copy, set_copies, fat_set_entry, fat_free_chain,
}
use gravityos.Fat32.Table.{IsVolume, InTable, entry, next_cluster_lem, set_entry_lem}

-- No command fails.
abbrev pub Healthy : Disk → Type 0
Healthy d = (n : ℕ) → d.fault n ≡ false

set_copy-Healthy :
    (fs : Fs) (cluster value copy : ℕ) (d : Disk)
    → Healthy d
    → ((set_copy fs cluster value copy d).0 ≡ true)
      × ((set_copy fs cluster value copy d).1.fault ≡ d.fault)
unfolding set_copy write_patched read_sector write_sector
set_copy-Healthy fs cluster value copy d h = rw (h d.commands, h (d.commands + 1)) (refl, refl)

set_copies-Healthy :
    (fs : Fs) (cluster value n copy : ℕ) (d : Disk)
    → Healthy d
    → (set_copies fs cluster value n copy d).0 ≡ true
unfolding set_copies
set_copies-Healthy fs cluster value zero copy d h = refl
set_copies-Healthy fs cluster value (suc n) copy d h =
    let (done, same) = set_copy-Healthy fs cluster value copy d h in
    rw (done, set_copies)
      (set_copies-Healthy fs cluster value n (copy + 1) (set_copy fs cluster value copy d).1
        (λ k. ap (λ (f : ℕ → Bool). f k) same ∙ h k))

pub set_entry-Healthy :
    (fs : Fs) (cluster value : ℕ) (d : Disk)
    → Healthy d
    → (fat_set_entry fs cluster value d).0 ≡ true
unfolding fat_set_entry
set_entry-Healthy fs cluster value d h = set_copies-Healthy fs cluster value fs.num_fats 0 d h

abbrev pub elem : ℕ → List ℕ → Bool
elem x [] = false
elem x (y ∷ ys) = (y == x) || elem x ys

-- The chain that starts with `c` runs through the clusters of the list, each of them once.
abbrev pub Linked : Fs → Disk → ℕ → List ℕ → Type 0
Linked fs d c [] = in_chain c ≡ false
Linked fs d c (x ∷ xs) =
    (c ≡ x)
    × (in_chain x ≡ true)
    × InTable fs x
    × (elem x xs ≡ false)
    × Linked fs d (entry fs d x) xs

-- Only the entries of the list matter to it.
Linked-same :
    (fs : Fs) (d d' : Disk) (c : ℕ) (xs : List ℕ)
    → ((x : ℕ) → InTable fs x → elem x xs ≡ true → entry fs d' x ≡ entry fs d x)
    → Linked fs d c xs
    → Linked fs d' c xs
Linked-same fs d d' c [] same k = k
Linked-same fs d d' c (x ∷ xs) same (e, on, within, once, rest) =
    let here : entry fs d' x ≡ entry fs d x = same x within (ground arith) in
    (
      e,
      on,
      within,
      once,
      rw here (Linked-same fs d d' (entry fs d x) xs (λ y w m. same y w (ground arith)) rest),
    )

module _ (fs : Fs) (v : IsVolume fs) where
  -- What fat_free_chain leaves: the chain's clusters are free, and no other entry has changed.
  abbrev pub Freed : Disk → List ℕ → Option Bool × Disk → Type 0
  Freed d xs r =
      (r.0 ≡ some true)
      × ((x : ℕ) → InTable fs x → entry fs r.1 x ≡ (if elem x xs then 0 else entry fs d x))

  free_step :
      (x : ℕ) (xs : List ℕ) (d d1 d2 : Disk) (r : Option Bool × Disk)
      → elem x xs ≡ false
      → ((y : ℕ) → InTable fs y → entry fs d1 y ≡ entry fs d y)
      → ((y : ℕ) → InTable fs y → entry fs d2 y ≡ (if x == y then 0 else entry fs d1 y))
      → Freed d2 xs r
      → Freed d (x ∷ xs) r
  free_step x xs d d1 d2 (o, d') once a b (e, f) = (e, λ y w. ground (arith, a y w, b y w, f y w))

  set_done : {b : Bool} {m n k : ℕ} → ((b ≡ false) × (m ≡ n)) ⊎ (m ≡ k) → b ≡ true → m ≡ k
  set_done (inl (f, _)) t = cc
  set_done (inr k) t = k

  no_chain :
      (fuel c : ℕ) (d : Disk) → in_chain c ≡ false → Freed d [] (fat_free_chain (suc fuel) fs c d)
  unfolding fat_free_chain
  no_chain fuel c d off = rw off (refl, λ x w. refl)

  -- One round of the loop, on the chain's first cluster.
  free_round :
      (fuel x : ℕ) (xs : List ℕ) (d : Disk)
      → Healthy d
      → InTable fs x
      → in_chain x ≡ true
      → elem x xs ≡ false
      → Linked fs d (entry fs d x) xs
      → ((d2 : Disk)
          → Healthy d2
          → Linked fs d2 (entry fs d x) xs
          → Freed d2 xs (fat_free_chain fuel fs (entry fs d x) d2))
      → Freed d (x ∷ xs) (fat_free_chain (suc fuel) fs x d)
  unfolding fat_free_chain
  free_round fuel x xs d h within on once rest ih =
      let (same1, fault1, next) = next_cluster_lem fs v x d within in
      let d1 = (fat_next_cluster fs x d).1 in
      let h1 : Healthy d1 = λ k. ap (λ (f : ℕ → Bool). f k) fault1 ∙ h k in
      let (fault2, _, table2) = set_entry_lem fs v x 0 within d1 in
      let done = set_entry-Healthy fs x 0 d1 h1 in
      let d2 = (fat_set_entry fs x 0 d1).1 in
      let h2 : Healthy d2 = λ k. ap (λ (f : ℕ → Bool). f k) fault2 ∙ h1 k in
      let a : ((y : ℕ) → InTable fs y → entry fs d1 y ≡ entry fs d y) = λ y w.
        ap (λ (f : ℕ → Sector). le32 (f (fs.reserved_sectors + y * 4 / 512)) (y * 4 % 512) % 2 ^ 28)
          same1 in
      let b : ((y : ℕ) → InTable fs y → entry fs d2 y ≡ (if x == y then 0 else entry fs d1 y)) =
        λ y w. set_done (table2 y w) done in
      let link : Linked fs d2 (entry fs d x) xs =
        Linked-same fs d d2 (entry fs d x) xs (λ y w m. ground (arith, a y w, b y w, m, once))
          rest in
      let next' : (fat_next_cluster fs x d).0 ≡ entry fs d x = rw (h d.commands) at next in
      rw (on, done, next', fat_free_chain)
        (free_step x xs d d1 d2 (fat_free_chain fuel fs (entry fs d x) d2) once a b (ih d2 h2 link))

  -- On a volume whose drive fails no command, and a chain of the table that passes through each of its
  -- clusters once, fat_free_chain comes to an end with fuel above the chain's length, reports
  -- success, frees the chain's clusters, and changes no other entry.
  pub free_chain-Freed :
      (fuel c : ℕ) (xs : List ℕ) (d : Disk)
      → Healthy d
      → Linked fs d c xs
      → length xs < fuel
      → Freed d xs (fat_free_chain fuel fs c d)
  free_chain-Freed zero c xs d h k lt = elim lt [ ]
  free_chain-Freed (suc fuel) c [] d h k lt = no_chain fuel c d k
  free_chain-Freed (suc fuel) c (x ∷ xs) d h (e, on, within, once, rest) lt = rw e (
      free_round fuel x xs d h within on once rest
        (λ d2 h2 k. free_chain-Freed fuel (entry fs d x) xs d2 h2 k (omega arith)))
