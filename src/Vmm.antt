-- ===== src/Vmm.antt =====
-- kernel/vmm.c: the four levels of page tables. Physical memory is the entries of each page by the
-- page's address, as the kernel sees them through the direct map; pmm_alloc_page hands out the pages of
-- `supply` in their order, and NULL where none is left. The processor's cache of translations is left out.
pub mod Tree
pub mod Walk
pub mod Store
pub mod Descent
pub mod Map
pub mod Mapped
mod Tests
use gravityos.Base.{
  ℕ, zero, suc, ◌+◌, ◌-◌, ◌*◌, ◌/◌, ◌%◌, ◌^◌, Bool, true, false, not, List, [], ◌∷◌, Option, none,
  some, ◌==◌, if◌then◌else◌, update,
}
use Prim.Native.Nat.{bit_or}

pub record Vm : Type 0 where
  pub tables : ℕ → ℕ → ℕ
  pub supply : List ℕ

-- `(virt_addr >> shift) & 0x1FF`, for the tables from level 3 down to level 0.
abbrev pub index : ℕ → ℕ → ℕ
index level virt = virt / 2 ^ (12 + 9 * level) % 512

-- PAGE_PRESENT, and the address of the next table.
abbrev pub present : ℕ → Bool
present e = not (e % 2 == 0)

abbrev pub frame_of_entry : ℕ → ℕ
frame_of_entry e = e / 4096 * 4096

-- PAGE_HUGE.
abbrev pub huge : ℕ → Bool
huge e = not (e / 128 % 2 == 0)

-- `PAGE_PRESENT | PAGE_WRITABLE | (flags & PAGE_USER)`.
abbrev pub table_flags : ℕ → ℕ
table_flags flags = 3 + flags / 4 % 2 * 4

abbrev pub write_entry : (ℕ → ℕ → ℕ) → ℕ → ℕ → ℕ → ℕ → ℕ → ℕ
write_entry tables table i e = update tables table (update (tables table) i e)

-- A new table is a page of zeros; the low bits of its address are free for the flags.
abbrev pub add_table : ℕ → ℕ → ℕ → Vm → Option ℕ × Vm
add_table table i flags s = elim s.supply [
  | [] ↦ (none, s)
  | page ∷ rest ↦ (
    some page,
    record {
      tables = write_entry (update s.tables page (λ _. 0)) table i (page + table_flags flags);
      supply = rest;
    },
  )
]

-- The table behind an entry, which is made where there is none.
pub next_table : ℕ → ℕ → ℕ → Vm → Option ℕ × Vm
next_table table i flags s =
    if present (s.tables table i)
    then (some (frame_of_entry (s.tables table i)), s)
    else add_table table i flags s

-- The block of the next level, unless the one before it ran out of memory and returned.
pub deeper : ℕ → ℕ → Option ℕ × Vm → Option ℕ × Vm
deeper i flags (none, s) = (none, s)
deeper i flags (some table, s) = next_table table i flags s

pub put_page : ℕ → ℕ → ℕ → Option ℕ × Vm → Vm
put_page phys virt flags (none, s) = s
put_page phys virt flags (some pt, s) = record s {
  tables = write_entry s.tables pt (index 0 virt) (bit_or (bit_or phys flags) 1);
}

-- `root` is current_pml4.
pub vmm_map_page : ℕ → ℕ → ℕ → ℕ → Vm → Vm
vmm_map_page root phys virt flags s = put_page phys virt flags (
    deeper (index 1 virt) flags
      (deeper (index 2 virt) flags (next_table root (index 3 virt) flags s)))

-- The table behind an entry, or none.
abbrev pub step_down : (ℕ → ℕ → ℕ) → ℕ → ℕ → Option ℕ
step_down tables table i =
    if present (tables table i) then some (frame_of_entry (tables table i)) else none

abbrev pub down_from : (ℕ → ℕ → ℕ) → Option ℕ → ℕ → Option ℕ
down_from tables none i = none
down_from tables (some table) i = step_down tables table i

abbrev pub directory : ℕ → ℕ → Vm → Option ℕ
directory root virt s = down_from s.tables (step_down s.tables root (index 3 virt)) (index 2 virt)

pub vmm_is_mapped : ℕ → ℕ → Vm → Bool
vmm_is_mapped root virt s = elim (directory root virt s) [
  | none ↦ false
  | some pd ↦
      let e = s.tables pd (index 1 virt) in
      if not (present e)
      then false
      else if huge e
      then true
      else present (s.tables (frame_of_entry e) (index 0 virt))
]

abbrev pub page_table : ℕ → ℕ → Vm → Option ℕ
page_table root virt s = down_from s.tables (directory root virt s) (index 1 virt)

pub clear_page : ℕ → Option ℕ → Vm → Vm
clear_page virt none s = s
clear_page virt (some pt) s = record s { tables = write_entry s.tables pt (index 0 virt) 0 }

pub vmm_unmap_page : ℕ → ℕ → Vm → Vm
vmm_unmap_page root virt s = clear_page virt (page_table root virt s) s
