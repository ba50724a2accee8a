-- ===== src/Vmm/Map.antt =====
-- vmm_map_page and vmm_unmap_page against the translation of addresses.
use gravityos.Base.{ℕ, ◌≤◌, ◌≡◌, arith, some, inl, inr, length, ap, ◌∙◌}
use Prim.Native.Nat.{bit_or}
use gravityos.Vmm.{Vm, index, vmm_map_page, clear_page, vmm_unmap_page}
use gravityos.Vmm.Tree.{Label, IsTree, IsFresh, Extends, Keeps}
use gravityos.Vmm.Walk.{entry_of, entry_of-IsWalk, entry_of-some, IsWalk-label, IsWalk-kept}
use gravityos.Vmm.Store.{OtherPage, stored_entry, stored_other, stored-IsTree}
use gravityos.Vmm.Descent.{level1, descends, put_page-some}

module _ (l : Label) (s : Vm) (root : ℕ) (top : l.level root ≡ 4) (tree : IsTree l s.tables) where
  -- While three pages are left, vmm_map_page gives the page of the address its entry; every other page
  -- that had one keeps it; and the tables are a tree as before, with pages that are fresh.
  pub map_page_lem :
      (phys virt flags : ℕ)
      → IsFresh l s.supply
      → 3 ≤ length s.supply
      → let s' = vmm_map_page root phys virt flags s in
        (entry_of root virt s' ≡ some (bit_or (bit_or phys flags) 1))
        × ((virt' e : ℕ)
            → OtherPage virt virt'
            → entry_of root virt' s ≡ some e
            → entry_of root virt' s' ≡ some e)
        × ((l' : Label) × Extends l l' × IsTree l' s'.tables × IsFresh l' s'.supply)
  unfolding vmm_map_page
  map_page_lem phys virt flags fresh left =
      let (pt, e, l', more, tree', fresh', keeps, walk) =
        descends l s root top tree fresh virt flags left in
      let r = level1 l s root top tree fresh virt flags in
      let top' : l'.level root ≡ 4 = omega (arith, (more root (omega arith)).0) in
      let leaf = bit_or (bit_or phys flags) 1 in
      rw (put_page-some l s root top tree fresh phys virt flags pt r e) (
        stored_entry l' r.1 root virt pt leaf top' tree' walk,
        λ virt' e' other h.
            stored_other l' r.1 root virt pt leaf top' tree' walk virt' e' other
              (kept r.1 virt' e' keeps h),
        (l', more, stored-IsTree l' r.1 root virt pt leaf top' tree' walk, fresh'),
      )
    where
      kept :
          (s' : Vm) (virt' e : ℕ)
          → Keeps l s.tables s'.tables
          → entry_of root virt' s ≡ some e
          → entry_of root virt' s' ≡ some e
      kept s' virt' e keeps h =
          let (pt', walk', value) = entry_of-some root virt' e s h in
          let (low, _) = IsWalk-label l s.tables root virt' pt' top tree walk' in
          entry_of-IsWalk root virt' pt' s' (
            IsWalk-kept l s.tables root virt' pt' top tree walk' s'.tables
              (λ t i high on. keeps t i (omega arith) (inl on)))
          ∙ ap some (keeps pt' (index 0 virt') (omega arith) (inr low) ∙ value)

  -- vmm_unmap_page clears the entry of a page that has one; every other page keeps its entry, and the
  -- tables are the same tree.
  pub unmap_page_lem :
      (virt e : ℕ)
      → entry_of root virt s ≡ some e
      → let s' = vmm_unmap_page root virt s in
        (entry_of root virt s' ≡ some 0)
        × ((virt' e' : ℕ)
            → OtherPage virt virt'
            → entry_of root virt' s ≡ some e'
            → entry_of root virt' s' ≡ some e')
        × IsTree l s'.tables
  unfolding vmm_unmap_page clear_page
  unmap_page_lem virt e h =
      let (pt, walk, value) = entry_of-some root virt e s h in
      let (a, b, e3, e2, e1) = walk in
      rw (e3, e2, e1)
        (
          stored_entry l s root virt pt 0 top tree walk,
          stored_other l s root virt pt 0 top tree walk,
          stored-IsTree l s root virt pt 0 top tree walk,
        )
