-- ===== src/Fat32/Files/Read.antt =====
-- Reading a file: the bytes that reach the buffer, and that the disk is left as it is.
use gravityos.Base.{
  ℕ, zero, suc, ◌+◌, ◌-◌, ◌*◌, ◌/◌, ◌%◌, ◌^◌, ◌<◌, ◌≤◌, ◌≡◌, ◌⊎◌, refl, arith, Bool, true, false,
  List, [], ◌∷◌, ◌++◌, Option, some, ltb, if◌then◌else◌, Bool-cases, inl, inr, ap, sym, ◌∙◌, length,
  take, length-append, append-nil,
}
use gravityos.Fat32.{
  word, sector_size, le32, Sector, Disk, Fs, read_sector, cluster_to_lba, in_chain,
  fat_next_cluster,
}
use gravityos.Fat32.Sectors.{read_sector_lem, read_value}
use gravityos.Fat32.Table.{IsVolume, InTable, entry, next_cluster_lem}
use gravityos.Fat32.Chain.{Healthy, Linked}
use gravityos.Fat32.Directory.{find_entry}
use gravityos.Fat32.Directory.Search.{find_entry-Same}
use gravityos.Fat32.Files.{
  failed, int_of, bytes_of, read_cluster, read_chain, read_result, read_entry, fat32_read_file,
}

length-bytes_of : (s : Sector) (n i : ℕ) → length (bytes_of s n i) ≡ n
length-bytes_of s zero i = refl
length-bytes_of s (suc n) i = ap suc (length-bytes_of s n (i + 1))

-- The `n` bytes of a sector from `i` on.
unfoldable pub sector_bytes : Sector → ℕ → ℕ → List ℕ
sector_bytes s zero i = []
sector_bytes s (suc n) i = s i ∷ sector_bytes s n (i + 1)

bytes_of-sector_bytes : (s : Sector) (n i : ℕ) → bytes_of s n i ≡ sector_bytes s n i
unfolding sector_bytes
bytes_of-sector_bytes s zero i = refl
bytes_of-sector_bytes s (suc n) i = ap (◌∷◌ (s i)) (bytes_of-sector_bytes s n (i + 1))

bytes_of-take : (s : Sector) (k n i : ℕ) → k ≤ n → bytes_of s k i ≡ take k (bytes_of s n i)
bytes_of-take s zero n i h = refl
bytes_of-take s (suc k) zero i h = absurd (omega arith)
bytes_of-take s (suc k) (suc n) i h = ap (◌∷◌ (s i)) (bytes_of-take s k n (i + 1) (omega arith))

take-append_long :
    (n : ℕ) (xs ys : List ℕ) → length xs ≤ n → take n (xs ++ ys) ≡ xs ++ take (n - length xs) ys
take-append_long n [] ys h = let e : n - 0 ≡ n = omega arith in rw e refl
take-append_long zero (x ∷ xs) ys h = absurd (omega arith)
take-append_long (suc n) (x ∷ xs) ys h =
    let same : suc n - suc (length xs) ≡ n - length xs = omega arith in
    rw same (ap (◌∷◌ x) (take-append_long n xs ys (omega arith)))

take-append_short : (n : ℕ) (xs ys : List ℕ) → n ≤ length xs → take n (xs ++ ys) ≡ take n xs
take-append_short zero xs ys h = refl
take-append_short (suc n) [] ys h = absurd (omega arith)
take-append_short (suc n) (x ∷ xs) ys h = ap (◌∷◌ x) (take-append_short n xs ys (omega arith))

-- The sector of a cluster of a chain: clusters are numbered from 2 on.
lba_lem :
    (fs : Fs) (cluster s : ℕ)
    → in_chain cluster ≡ true
    → (cluster_to_lba fs cluster + s) % word
      ≡ (fs.first_data_sector + (cluster - 2) * fs.sectors_per_cluster + s) % 2 ^ 32
lba_lem fs cluster s on =
    let number : (cluster + word - 2) % word ≡ cluster - 2 = ground arith in
    let base = fs.first_data_sector + (cluster - 2) * fs.sectors_per_cluster in
    let once : (base % word + s) % word ≡ (base + s) % 2 ^ 32 = omega arith in rw number once

-- The bytes of the `n` sectors of a cluster from `s` on, and of a list of clusters.
abbrev pub cluster_bytes : Fs → (ℕ → Sector) → ℕ → ℕ → ℕ → List ℕ
cluster_bytes fs sectors cluster zero s = []
cluster_bytes fs sectors cluster (suc n) s =
    sector_bytes
      (sectors ((fs.first_data_sector + (cluster - 2) * fs.sectors_per_cluster + s) % 2 ^ 32)) 512 0
    ++ cluster_bytes fs sectors cluster n (s + 1)

abbrev pub chain_bytes : Fs → (ℕ → Sector) → List ℕ → List ℕ
chain_bytes fs sectors [] = []
chain_bytes fs sectors (x ∷ xs) =
    cluster_bytes fs sectors x fs.sectors_per_cluster 0 ++ chain_bytes fs sectors xs

length-cluster_bytes :
    (fs : Fs) (sectors : ℕ → Sector) (cluster n s : ℕ)
    → length (cluster_bytes fs sectors cluster n s) ≡ n * 512
length-cluster_bytes fs sectors cluster zero s = refl
length-cluster_bytes fs sectors cluster (suc n) s =
    let c =
      sectors ((fs.first_data_sector + (cluster - 2) * fs.sectors_per_cluster + s) % 2 ^ 32) in
    length-append (sector_bytes c 512 0) (cluster_bytes fs sectors cluster n (s + 1))
    ∙ omega (
      arith,
      ap length (sym (bytes_of-sector_bytes c 512 0)) ∙ length-bytes_of c 512 0,
      length-cluster_bytes fs sectors cluster n (s + 1),
    )

-- One sector's share, and what is left for the others.
take_sector :
    (c : Sector) (rest : List ℕ) (remaining : ℕ)
    → let chunk = if ltb remaining sector_size then remaining else sector_size in
      take remaining (sector_bytes c 512 0 ++ rest)
      ≡ bytes_of c chunk 0 ++ take (remaining - chunk) rest
take_sector c rest remaining =
    rw⁻¹ (bytes_of-sector_bytes c 512 0) (elim (Bool-cases (ltb remaining sector_size)) [
      | inl short ↦ rw short (
          take-append_short remaining (bytes_of c 512 0) rest
            (ground (arith, length-bytes_of c 512 0))
          ∙ (sym (bytes_of-take c remaining 512 0 (ground arith))
              ∙ no_more (bytes_of c remaining 0) rest remaining))
      | inr long ↦ rw long (
          take-append_long remaining (bytes_of c 512 0) rest
            (ground (arith, length-bytes_of c 512 0))
          ∙ ap (λ k. bytes_of c 512 0 ++ take (remaining - k) rest) (length-bytes_of c 512 0))
    ])
  where
    no_more : (xs ys : List ℕ) (n : ℕ) → xs ≡ xs ++ take (n - n) ys
    no_more xs ys n = let e : n - n ≡ 0 = omega arith in rw e (sym (append-nil xs))

take_nil : (n : ℕ) → take {A = ℕ} n [] ≡ []
take_nil zero = refl
take_nil (suc n) = refl

take_parts :
    (size n : ℕ) (xs ys : List ℕ)
    → length xs ≡ n
    → take size xs ++ take (size - n) ys ≡ take size (xs ++ ys)
take_parts size n [] ys e =
    let same : size - n ≡ size = omega arith in rw (same, take_nil size) refl
take_parts zero n (x ∷ xs) ys e = let same : 0 - n ≡ 0 = omega arith in rw same refl
take_parts (suc size) zero (x ∷ xs) ys e = absurd (omega arith)
take_parts (suc size) (suc n) (x ∷ xs) ys e =
    let same : suc size - suc n ≡ size - n = omega arith in
    rw same (ap (◌∷◌ x) (take_parts size n xs ys (omega arith)))

-- What reading a cluster gives on a drive that fails no command.
abbrev ReadAll : Fs → Disk → ℕ → ℕ → ℕ → ℕ → Bool × List ℕ × ℕ × Disk → Type 0
ReadAll fs d cluster n s remaining (done, bytes, left, d') =
    (done ≡ true)
    × (bytes ≡ take remaining (cluster_bytes fs d.sectors cluster n s))
    × (left ≡ remaining - n * 512)
    × (d'.sectors ≡ d.sectors)
    × Healthy d'

take_none : (xs : List ℕ) (n : ℕ) → n ≡ 0 → take n xs ≡ []
take_none xs n e = rw e refl

read_cluster_lem :
    (fs : Fs) (cluster n s remaining : ℕ) (d : Disk)
    → in_chain cluster ≡ true
    → Healthy d
    → ReadAll fs d cluster n s remaining (read_cluster fs cluster n s remaining d)
unfolding read_cluster
read_cluster_lem fs cluster zero s remaining d on h =
    (refl, sym (take_nil remaining), omega arith, refl, h)
read_cluster_lem fs cluster (suc n) s remaining d on h = elim (Bool-cases (ltb 0 remaining)) [
  | inr stop ↦
      let e : remaining ≡ 0 = ground arith in
      rw (stop, read_cluster)
        (
          refl,
          sym (take_none (cluster_bytes fs d.sectors cluster (suc n) s) remaining e),
          omega arith,
          refl,
          h,
        )
  | inl more ↦
      let l = (cluster_to_lba fs cluster + s) % word in
      let at = lba_lem fs cluster s on in
      let (same, fault, _) = read_sector_lem d l in
      let value : (read_sector d l).0 ≡ some (d.sectors l) =
        read_value d l ∙ rw (h d.commands) refl in
      let d' = (read_sector d l).1 in
      let h' : Healthy d' = λ k. ap (λ (f : ℕ → Bool). f k) fault ∙ h k in
      let chunk = if ltb remaining sector_size then remaining else sector_size in
      let (done, bytes, left, same', healthy) =
        read_cluster_lem fs cluster n (s + 1) (remaining - chunk) d' on h' in
      rw (more, value, read_cluster)
        (
          done,
          ap (◌++◌ (bytes_of (d.sectors l) chunk 0)) (
                bytes
                ∙ ap (λ f. take (remaining - chunk) (cluster_bytes fs f cluster n (s + 1))) same)
              ∙ (sym (
                    take_sector (d.sectors l) (cluster_bytes fs d.sectors cluster n (s + 1))
                      remaining)
                  ∙ ap
                      (λ x. take remaining (
                        sector_bytes (d.sectors x) 512 0
                        ++ cluster_bytes fs d.sectors cluster n (s + 1)))
                      at),
          left ∙ ground arith,
          same' ∙ same,
          healthy,
        )
]

-- The same bytes on two disks with the same sectors.
Linked-sectors :
    (fs : Fs) (d d' : Disk) (c : ℕ) (xs : List ℕ)
    → d'.sectors ≡ d.sectors
    → Linked fs d c xs
    → Linked fs d' c xs
Linked-sectors fs d d' c [] e k = k
Linked-sectors fs d d' c (x ∷ xs) e (a, on, within, once, rest) =
    let next : entry fs d' x ≡ entry fs d x =
      ap (λ (f : ℕ → Sector). le32 (f (fs.reserved_sectors + x * 4 / 512)) (x * 4 % 512) % 2 ^ 28)
        e in
    (a, on, within, once, rw next (Linked-sectors fs d d' (entry fs d x) xs e rest))

module _ (fs : Fs) (v : IsVolume fs) where
  -- The bytes of a chain that is long enough, up to the file's size.
  abbrev pub ReadChain : Disk → List ℕ → ℕ → Option (Bool × List ℕ × ℕ) × Disk → Type 0
  ReadChain d xs size (o, d') =
      (o ≡ some (true, take size (chain_bytes fs d.sectors xs), 0)) × (d'.sectors ≡ d.sectors)

  same_entry : (d d' : Disk) (x : ℕ) → d.sectors ≡ d'.sectors → entry fs d x ≡ entry fs d' x
  same_entry d d' x e =
      ap (λ (f : ℕ → Sector). le32 (f (fs.reserved_sectors + x * 4 / 512)) (x * 4 % 512) % 2 ^ 28) e

  read_chain_done :
      (fuel c size : ℕ) (xs : List ℕ) (d : Disk)
      → (in_chain c ≡ false) ⊎ (ltb 0 size ≡ false)
      → size ≡ 0
      → ReadChain d xs size (read_chain (suc fuel) fs c size d)
  unfolding read_chain
  read_chain_done fuel c size xs d (inl off) z = rw (off, z) (refl, refl)
  read_chain_done fuel c size xs d (inr stop) z = elim (Bool-cases (in_chain c)) [
    | inl on ↦ rw (on, z) (refl, refl)
    | inr off ↦ rw (off, z) (refl, refl)
  ]

  -- One round of the loop, on the chain's first cluster.
  read_chain_round :
      (fuel x : ℕ) (xs : List ℕ) (size : ℕ) (d : Disk)
      → Healthy d
      → in_chain x ≡ true
      → InTable fs x
      → Linked fs d (entry fs d x) xs
      → size ≤ length (chain_bytes fs d.sectors (x ∷ xs))
      → ltb 0 size ≡ true
      → ((size : ℕ) (d' : Disk)
          → Healthy d'
          → Linked fs d' (entry fs d x) xs
          → size ≤ length (chain_bytes fs d'.sectors xs)
          → ReadChain d' xs size (read_chain fuel fs (entry fs d x) size d'))
      → ReadChain d (x ∷ xs) size (read_chain (suc fuel) fs x size d)
  unfolding read_chain
  read_chain_round fuel x xs size d h on within rest big more ih =
      let (done, bytes, left, same, h') =
        read_cluster_lem fs x fs.sectors_per_cluster 0 size d on h in
      let d1 = (read_cluster fs x fs.sectors_per_cluster 0 size d).3 in
      let (same2, fault2, value) = next_cluster_lem fs v x d1 within in
      let d2 = (fat_next_cluster fs x d1).1 in
      let h2 : Healthy d2 = λ k. ap (λ (f : ℕ → Bool). f k) fault2 ∙ h' k in
      let both = same2 ∙ same in
      let next : (fat_next_cluster fs x d1).0 ≡ entry fs d x =
        value ∙ rw (h' d1.commands) (same_entry d1 d x same) in
      let n = fs.sectors_per_cluster * 512 in
      let first = cluster_bytes fs d.sectors x fs.sectors_per_cluster 0 in
      let len = length-cluster_bytes fs d.sectors x fs.sectors_per_cluster 0 in
      let total = length-append first (chain_bytes fs d.sectors xs) in
      let (value', same3) =
        ih (size - n) d2 h2 (Linked-sectors fs d d2 (entry fs d x) xs both rest)
          (rw both (omega (arith, total, len, big))) in
      rw (on, more, done, left, next, value', bytes)
        (
          ap (λ bs. some (true, bs, 0))
              (ap (λ f. take size first ++ take (size - n) (chain_bytes fs f xs)) both
                ∙ take_parts size n first (chain_bytes fs d.sectors xs) len),
          rw (left, next) (same3 ∙ both),
        )

  read_chain_lem :
      (fuel c : ℕ) (xs : List ℕ) (size : ℕ) (d : Disk)
      → Healthy d
      → Linked fs d c xs
      → length xs < fuel
      → size ≤ length (chain_bytes fs d.sectors xs)
      → ReadChain d xs size (read_chain fuel fs c size d)
  read_chain_lem zero c xs size d h k lt big = absurd (omega arith)
  read_chain_lem (suc fuel) c [] size d h k lt big =
      read_chain_done fuel c size [] d (inl k) (omega arith)
  read_chain_lem (suc fuel) c (x ∷ xs) size d h (e, on, within, once, rest) lt big =
      elim (Bool-cases (ltb 0 size)) [
        | inr stop ↦ read_chain_done fuel c size (x ∷ xs) d (inr stop) (ground arith)
        | inl more ↦ rw e (
            read_chain_round fuel x xs size d h on within rest big more (λ size' d' h' k big'.
              read_chain_lem fuel (entry fs d x) xs size' d' h' k (omega arith) big'))
      ]

  read_mounted :
      (fuel room : ℕ) (name : List ℕ) (d : Disk)
      → fs.mounted ≡ true
      → fat32_read_file fuel fs name room d
        ≡ read_entry fuel fs room (find_entry fuel fs name d).0 (find_entry fuel fs name d).1
  unfolding fat32_read_file
  read_mounted fuel room name d on =
      let (e, d') = find_entry fuel fs name d in
      ap (λ b. if b then read_entry fuel fs room e d' else (some (failed 1, []), d)) on

  read_entry_lem :
      (fuel room cluster size : ℕ) (d : Disk)
      → ltb room size ≡ false
      → read_entry fuel fs room (some (some (cluster, size))) d ≡ (
        read_result size (read_chain fuel fs cluster size d).0,
        (read_chain fuel fs cluster size d).1,
      )
  unfolding read_entry
  read_entry_lem fuel room cluster size d enough = rw enough refl

  -- On a volume whose drive fails no command, fat32_read_file gives the first bytes of the file's chain, as
  -- many as the entry's size says, where the chain is linked and holds as many, its length is below
  -- the fuel, and the buffer has room for them; and no sector changes.
  pub read_file_lem :
      (fuel room cluster size : ℕ) (name : List ℕ) (xs : List ℕ) (d : Disk)
      → Healthy d
      → fs.mounted ≡ true
      → (find_entry fuel fs name d).0 ≡ some (some (cluster, size))
      → Linked fs d cluster xs
      → length xs < fuel
      → size ≤ length (chain_bytes fs d.sectors xs)
      → size ≤ room
      → let r = fat32_read_file fuel fs name room d in
        (r.0 ≡ some (int_of size, take size (chain_bytes fs d.sectors xs)))
        × (r.1.sectors ≡ d.sectors)
  read_file_lem fuel room cluster size name xs d h on found k lt big fits =
      let (same, fault) = find_entry-Same fuel fs name d in
      let d' = (find_entry fuel fs name d).1 in
      let (value, kept) =
        read_chain_lem fuel cluster xs size d' (λ n. ap (λ (f : ℕ → Bool). f n) fault ∙ h n)
          (Linked-sectors fs d d' cluster xs same k) lt (rw same big) in
      let enough : ltb room size ≡ false = ground arith in
      let all : size - 0 ≡ size = omega arith in
      rw
        (
          read_mounted fuel room name d on,
          found,
          read_entry_lem fuel room cluster size d' enough,
          value,
          all,
        )
        (ap (λ f. some (int_of size, take size (chain_bytes fs f xs))) same, kept ∙ same)
