-- ===== src/Vmm/Store.antt =====
-- A store into an address's entry: what it is for that page, and for every other one.
use gravityos.Base.{
  ℕ, ◌/◌, ◌%◌, ◌^◌, ◌≤◌, ◌≡◌, ◌≢◌, arith, true, false, some, ◌==◌, Bool-cases, inl, inr, ap, sym,
  ◌∙◌,
}
use gravityos.Vmm.{Vm, index, present, write_entry}
use gravityos.Vmm.Tree.{Label, IsTree}
use gravityos.Vmm.Walk.{
  IsWalk, entry_of, entry_of-IsWalk, entry_of-some, IsWalk-label, IsWalk-kept, table_prefix,
}

-- The pages of two addresses differ, in the 48 bits that are translated.
abbrev pub OtherPage : ℕ → ℕ → Type 0
OtherPage virt virt' = virt / 4096 % 2 ^ 36 ≢ virt' / 4096 % 2 ^ 36

-- A store of `e` into the entry of `virt`: it is the page's entry, and every other page has the entry
-- of before.
module _ (l : Label) (s : Vm) (root virt pt e : ℕ) (top : l.level root ≡ 4)
    (tree : IsTree l s.tables) (walk : IsWalk s.tables root virt pt) where
  abbrev pub stored : Vm
  stored = record s { tables = write_entry s.tables pt (index 0 virt) e }

  above :
      (t i : ℕ) → 2 ≤ l.level t → present (s.tables t i) ≡ true → stored.tables t i ≡ s.tables t i
  above t i high on =
      let (low, _) = IsWalk-label l s.tables root virt pt top tree walk in
      let other : pt ≢ t = λ h. omega (arith, low, ap (λ x. l.level x) h) in ground arith

  pub stored_entry : entry_of root virt stored ≡ some e
  stored_entry =
      entry_of-IsWalk root virt pt stored
        (IsWalk-kept l s.tables root virt pt top tree walk stored.tables above)
      ∙ ap some (ground arith)

  pub stored_other :
      (virt' e' : ℕ)
      → OtherPage virt virt'
      → entry_of root virt' s ≡ some e'
      → entry_of root virt' stored ≡ some e'
  stored_other virt' e' other h =
      let (pt', walk', value) = entry_of-some root virt' e' s h in
      let (_, here) = IsWalk-label l s.tables root virt pt top tree walk in
      let (_, there) = IsWalk-label l s.tables root virt' pt' top tree walk' in
      entry_of-IsWalk root virt' pt' stored
        (IsWalk-kept l s.tables root virt' pt' top tree walk' stored.tables above)
      ∙ ap some (apart pt' here there ∙ value)
    where
      apart :
          (pt' : ℕ)
          → l.prefix pt ≡ table_prefix (l.prefix root) virt
          → l.prefix pt' ≡ table_prefix (l.prefix root) virt'
          → stored.tables pt' (index 0 virt') ≡ s.tables pt' (index 0 virt')
      apart pt' here there = elim (Bool-cases (pt == pt')) [
        | inr off ↦ ground arith
        | inl same ↦
            let e1 : pt ≡ pt' = ground arith in
            let prefixes = ap (λ x. l.prefix x) e1 in
            let off : (index 0 virt == index 0 virt') ≡ false =
              differ (sym here ∙ (prefixes ∙ there)) in
            rw (same, off) (ap (λ x. s.tables x (index 0 virt')) e1)
      ]
        where
          differ :
              table_prefix (l.prefix root) virt ≡ table_prefix (l.prefix root) virt'
              → (index 0 virt == index 0 virt') ≡ false
          differ h = let ne : index 0 virt ≢ index 0 virt' = omega arith in ground arith

  pub stored-IsTree : IsTree l stored.tables
  stored-IsTree t i high on =
      let (low, _) = IsWalk-label l s.tables root virt pt top tree walk in
      let other : pt ≢ t = λ h. omega (arith, low, ap (λ x. l.level x) h) in
      let same : stored.tables t i ≡ s.tables t i = ground arith in
      rw same (tree t i high (ap present (sym same) ∙ on))
