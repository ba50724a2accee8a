-- ===== src/Vmm/Tests.antt =====
-- Tables with one page, at the address 0x5000.
use gravityos.Base.{ℕ, ◌≡◌, refl, arith, ◌&&◌, [], ◌∷◌, some, ◌==◌, if◌then◌else◌}
use Prim.Native.Nat.{bit_or}
use gravityos.Vmm.{Vm, vmm_map_page, vmm_unmap_page}
use gravityos.Vmm.Tree.{Label, IsTree, IsFresh, Extends}
use gravityos.Vmm.Walk.{entry_of}
use gravityos.Vmm.Store.{OtherPage}
use gravityos.Vmm.Map.{map_page_lem, unmap_page_lem}

abbrev tables : ℕ → ℕ → ℕ
tables t i =
    if (t == 0x1000) && (i == 0)
    then 0x2003
    else if (t == 0x2000) && (i == 0)
    then 0x3003
    else if (t == 0x3000) && (i == 0)
    then 0x4003
    else if (t == 0x4000) && (i == 5)
    then 0x9003
    else 0

abbrev label : Label
label = record {
  level = λ t.
      if t == 0x1000
      then 4
      else if t == 0x2000
      then 3
      else if t == 0x3000
      then 2
      else if t == 0x4000
      then 1
      else 0;
  prefix = λ t. 0;
}

abbrev memory : Vm
memory = record { tables = tables; supply = 0x5000 ∷ 0x6000 ∷ 0x7000 ∷ [] }

tables-IsTree : IsTree label tables
tables-IsTree t i high on = ground arith

map_page_lem_example :
    let s' = vmm_map_page 0x1000 0x8000 0x40000000 3 memory in
    (entry_of 0x1000 0x40000000 s' ≡ some (bit_or (bit_or 0x8000 3) 1))
    × ((virt' e : ℕ)
        → OtherPage 0x40000000 virt'
        → entry_of 0x1000 virt' memory ≡ some e
        → entry_of 0x1000 virt' s' ≡ some e)
    × ((l' : Label) × Extends label l' × IsTree l' s'.tables × IsFresh l' s'.supply)
map_page_lem_example =
    map_page_lem label memory 0x1000 refl tables-IsTree 0x8000 0x40000000 3
      (refl, refl, refl, (refl, refl, refl, (refl, refl, refl, tt))) (omega arith)

unmap_page_lem_example :
    let s' = vmm_unmap_page 0x1000 0x5000 memory in
    (entry_of 0x1000 0x5000 s' ≡ some 0)
    × ((virt' e : ℕ)
        → OtherPage 0x5000 virt'
        → entry_of 0x1000 virt' memory ≡ some e
        → entry_of 0x1000 virt' s' ≡ some e)
    × IsTree label s'.tables
unmap_page_lem_example = unmap_page_lem label memory 0x1000 refl tables-IsTree 0x5000 0x9003 refl
