-- ===== src/Vmm/Mapped.antt =====
-- vmm_is_mapped by the entry of an address, and what unmapping leaves alone.
use gravityos.Base.{
  ℕ, ◌≤◌, ◌≡◌, ◌≢◌, refl, arith, Bool, false, Option, none, some, Bool-cases, Option-cases, inl,
  inr, ap, sym, ◌∙◌, update_ne,
}
use gravityos.Vmm.{
  Vm, index, present, huge, step_down, directory, vmm_is_mapped, clear_page, vmm_unmap_page,
}
use gravityos.Vmm.Tree.{Label, IsTree}
use gravityos.Vmm.Walk.{
  entry_of, entry_of-some, entry_of-IsWalk, IsWalk-label, IsWalk-kept, down_from-some,
  step_down-label,
}
use gravityos.Vmm.Store.{OtherPage}
use gravityos.Vmm.Map.{unmap_page_lem}

-- No entry of the tables of level 2 stands for a large page.
abbrev pub NoHuge : Label → (ℕ → ℕ → ℕ) → Type 0
NoHuge l tables = (t i : ℕ) → l.level t ≡ 2 → huge (tables t i) ≡ false

abbrev pub present_in : Option ℕ → Bool
present_in none = false
present_in (some e) = present e

module _ (l : Label) (root : ℕ) (top : l.level root ≡ 4) (s : Vm) (tree : IsTree l s.tables)
    (plain : NoHuge l s.tables) where
  directory-level : (virt pd : ℕ) → directory root virt s ≡ some pd → l.level pd ≡ 2
  directory-level virt pd e =
      let (a, e3, e2) =
        down_from-some s.tables (step_down s.tables root (index 3 virt)) (index 2 virt) pd e in
      let (la, _) = step_down-label l s.tables root (index 3 virt) a tree (omega arith) e3 in
      let (lb, _) = step_down-label l s.tables a (index 2 virt) pd tree (omega arith) e2 in
      omega arith

  -- A page is mapped where its entry is present.
  pub is_mapped_lem : (virt : ℕ) → vmm_is_mapped root virt s ≡ present_in (entry_of root virt s)
  unfolding vmm_is_mapped
  is_mapped_lem virt = elim (Option-cases (directory root virt s)) [
    | inl missing ↦ rw (vmm_is_mapped, missing) refl
    | inr (pd, e) ↦
        let small = plain pd (index 1 virt) (directory-level virt pd e) in
        elim (Bool-cases (present (s.tables pd (index 1 virt)))) [
          | inl on ↦ rw (vmm_is_mapped, e, on, small) refl
          | inr off ↦ rw (vmm_is_mapped, e, off) refl
        ]
  ]

-- What the clearing of an entry leaves: the same tree, no large pages, and every other page as it was.
abbrev pub Unmapped : Label → ℕ → ℕ → Vm → Vm → Type 0
Unmapped l root virt s s' =
    IsTree l s'.tables
    × NoHuge l s'.tables
    × (vmm_is_mapped root virt s' ≡ false)
    × ((virt' : ℕ)
        → OtherPage virt virt'
        → vmm_is_mapped root virt' s ≡ false
        → vmm_is_mapped root virt' s' ≡ false)
    × ((virt' e : ℕ)
        → OtherPage virt virt'
        → entry_of root virt' s ≡ some e
        → entry_of root virt' s' ≡ some e)

module _ (l : Label) (root : ℕ) (top : l.level root ≡ 4) (s : Vm) (tree : IsTree l s.tables)
    (plain : NoHuge l s.tables) where
  -- Only a table of the lowest level changes.
  unmapped_high :
      (virt e : ℕ)
      → entry_of root virt s ≡ some e
      → (t i : ℕ) → 2 ≤ l.level t
      → (vmm_unmap_page root virt s).tables t i ≡ s.tables t i
  unfolding vmm_unmap_page clear_page
  unmapped_high virt e h t i high =
      let (pt, walk, value) = entry_of-some root virt e s h in
      let (a, b, e3, e2, e1) = walk in
      let (low, _) = IsWalk-label l s.tables root virt pt top tree walk in
      let other : pt ≢ t = λ q. omega (arith, low, ap (λ x. l.level x) q) in
      rw (e3, e2, e1) (ap (λ f. f i) (update_ne s.tables pt t _ other))

  pub unmap-Unmapped :
      (virt e : ℕ)
      → entry_of root virt s ≡ some e
      → Unmapped l root virt s (vmm_unmap_page root virt s)
  unmap-Unmapped virt e h =
      let s' = vmm_unmap_page root virt s in
      let high = unmapped_high virt e h in
      let (gone, kept, tree') = unmap_page_lem l s root top tree virt e h in
      let plain' : NoHuge l s'.tables =
        λ t i level. ap huge (high t i (omega arith)) ∙ plain t i level in
      let mapped' : (v : ℕ) → vmm_is_mapped root v s' ≡ present_in (entry_of root v s') =
        λ v. is_mapped_lem l root top s' tree' plain' v in
      (
        tree',
        plain',
        mapped' virt ∙ ap present_in gone,
        λ virt' other clear. mapped' virt' ∙ still virt' other clear high kept tree',
        kept,
      )
    where
      still :
          (virt' : ℕ)
          → OtherPage virt virt'
          → vmm_is_mapped root virt' s ≡ false
          → ((t i : ℕ) → 2 ≤ l.level t → (vmm_unmap_page root virt s).tables t i ≡ s.tables t i)
          → ((v' e' : ℕ)
              → OtherPage virt v'
              → entry_of root v' s ≡ some e'
              → entry_of root v' (vmm_unmap_page root virt s) ≡ some e')
          → IsTree l (vmm_unmap_page root virt s).tables
          → present_in (entry_of root virt' (vmm_unmap_page root virt s)) ≡ false
      still virt' other clear high kept tree' =
          let s' = vmm_unmap_page root virt s in
          elim (Option-cases (entry_of root virt' s')) [
            | inl none_left ↦ ap present_in none_left
            | inr (e', there) ↦
                let (pt, walk, value) = entry_of-some root virt' e' s' there in
                let before =
                  IsWalk-kept l s'.tables root virt' pt top tree' walk s.tables
                    (λ t i up on. sym (high t i up)) in
                let old = s.tables pt (index 0 virt') in
                let was : entry_of root virt' s ≡ some old =
                  entry_of-IsWalk root virt' pt s before in
                ap present_in (kept virt' old other was)
                ∙ (sym (ap present_in was)
                    ∙ (sym (is_mapped_lem l root top s tree plain virt') ∙ clear))
          ]
