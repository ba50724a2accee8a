-- ===== src/Fat32/Directory/Search.antt =====
-- A search through the directory changes no sector.
use gravityos.Base.{
  ℕ, zero, suc, ◌+◌, ◌%◌, ◌≡◌, refl, List, Option, some, Bool-cases, inl, inr, ◌∙◌,
}
use gravityos.Fat32.{
  word, Sector, Disk, Fs, read_sector, cluster_to_lba, in_chain, fat_next_cluster,
}
use gravityos.Fat32.Sectors.{read_sector_lem}
use gravityos.Fat32.Table.{next_cluster-Same}
use gravityos.Fat32.Directory.{
  Scan, Place, at, missing, beyond, look, search_cluster, search_chain, find_entry_location,
  find_entry,
}

-- The same sectors, and the same commands that fail.
abbrev pub Same : Disk → Disk → Type 0
Same d d' = (d'.sectors ≡ d.sectors) × (d'.fault ≡ d.fault)

Same-trans : (a b c : Disk) → Same a b → Same b c → Same a c
Same-trans a b c (s, f) (s', f') = (s' ∙ s, f' ∙ f)

read-Same : (d : Disk) (lba : ℕ) → Same d (read_sector d lba).1
read-Same d lba = let (a, b, _) = read_sector_lem d lba in (a, b)

search_cluster-Same :
    (scan : Sector → Scan) (fs : Fs) (cluster n s : ℕ) (d : Disk)
    → Same d (search_cluster scan fs cluster n s d).1
unfolding search_cluster
search_cluster-Same scan fs cluster zero s d = (refl, refl)
search_cluster-Same scan fs cluster (suc n) s d =
    let l = (cluster_to_lba fs cluster + s) % word in
    let r = read_sector d l in
    go r.1 (look scan l r.0) (read-Same d l) (search_cluster-Same scan fs cluster n (s + 1) r.1)
  where
    go :
        (d' : Disk) (p : Place)
        → Same d d'
        → Same d' (search_cluster scan fs cluster n (s + 1) d').1
        → Same d
            (elim p as (λ _. Place × Disk) [
              | at l off c ↦ (at l off c, d')
              | missing ↦ (missing, d')
              | beyond ↦ search_cluster scan fs cluster n (s + 1) d'
            ]).1
    go d' (at l off c) a b = a
    go d' missing a b = a
    go d' beyond a b = Same-trans d d' (search_cluster scan fs cluster n (s + 1) d').1 a b

search_chain-Same :
    (fuel : ℕ) (scan : Sector → Scan) (fs : Fs) (cluster last : ℕ) (d : Disk)
    → Same d (search_chain fuel scan fs cluster last d).1
unfolding search_chain
search_chain-Same zero scan fs cluster last d = (refl, refl)
search_chain-Same (suc fuel) scan fs cluster last d =
    let (p, d') = search_cluster scan fs cluster fs.sectors_per_cluster 0 d in
    let (next, d'') = fat_next_cluster fs cluster d' in
    let a = search_cluster-Same scan fs cluster fs.sectors_per_cluster 0 d in
    let b : Same d' d'' = next_cluster-Same fs cluster d' in
    let ih = search_chain-Same fuel scan fs next cluster d'' in
    elim (Bool-cases (in_chain cluster)) [
      | inr off ↦ rw off (refl, refl)
      | inl on ↦ rw on (go d' d'' next p a (Same-trans d d' d'' a b) ih)
    ]
  where
    go :
        (d' d'' : Disk) (next : ℕ) (p : Place)
        → Same d d'
        → Same d d''
        → Same d'' (search_chain fuel scan fs next cluster d'').1
        → Same d
            (elim p as (λ _. Option (Place × ℕ) × Disk) [
              | at l off c ↦ (some (at l off c, cluster), d')
              | missing ↦ (some (missing, cluster), d')
              | beyond ↦ search_chain fuel scan fs next cluster d''
            ]).1
    go d' d'' next (at l off c) a b ih = a
    go d' d'' next missing a b ih = a
    go d' d'' next beyond a b ih =
        Same-trans d d'' (search_chain fuel scan fs next cluster d'').1 b ih

pub find_entry_location-Same :
    (fuel : ℕ) (fs : Fs) (name : List ℕ) (d : Disk) → Same d (find_entry_location fuel fs name d).1
unfolding find_entry_location
find_entry_location-Same fuel fs name d =
    search_chain-Same fuel _ fs fs.root_cluster fs.root_cluster d

pub find_entry-Same :
    (fuel : ℕ) (fs : Fs) (name : List ℕ) (d : Disk) → Same d (find_entry fuel fs name d).1
unfolding find_entry
find_entry-Same fuel fs name d = find_entry_location-Same fuel fs name d
