-- ===== src/User.antt =====
-- kernel/usermode.c and kernel/elf_loader.c: the address space of a user program. What memory holds is no
-- part of the state: the calls of memset and memcpy with their virtual addresses are kept in their order,
-- the last one first. The tables that vmm_map_page writes and the process's table are states of their own.
pub mod Elf
pub mod Reset
pub mod Stores
pub mod Syscall
mod Tests
use gravityos.Base.{
  ℕ, zero, suc, ◌+◌, ◌-◌, ◌*◌, ◌/◌, ◌%◌, ◌^◌, Bool, true, false, not, List, [], ◌∷◌, Option, none,
  some, if◌then◌else◌,
}
use gravityos.Vmm.{Vm, vmm_is_mapped, vmm_map_page, vmm_unmap_page}
use gravityos.Process.{Scheduler}
use gravityos.Process.Lifetime.{process_track_allocation, process_get_current_pid}

abbrev pub user_region_start : ℕ
user_region_start = 0x400000

abbrev pub user_region_end : ℕ
user_region_end = 0x600000

abbrev pub user_stack_virt : ℕ
user_stack_virt = 0x500000

abbrev pub user_stack_size : ℕ
user_stack_size = 0x4000

-- memset of a block with zeros, by its address and size, and memcpy, by its destination, source and size.
pub data Store : Type 0 where
  fill : ℕ → ℕ → Store
  copy : ℕ → ℕ → ℕ → Store

pub record Space : Type 0 where
  pub vm : Vm
  pub scheduler : Scheduler
  pub stores : List Store

-- One round of the loop of usermode_reset_address_space; `root` is current_pml4.
pub unmap_if_mapped : ℕ → ℕ → Vm → Vm
unmap_if_mapped root v vm = if vmm_is_mapped root v vm then vmm_unmap_page root v vm else vm

-- The loop from address `v` on, with `n` rounds left.
pub reset_pages : ℕ → ℕ → ℕ → Vm → Vm
reset_pages root zero v vm = vm
reset_pages root (suc n) v vm = reset_pages root n (v + 4096) (unmap_if_mapped root v vm)

pub usermode_reset_address_space : ℕ → Space → Space
usermode_reset_address_space root s = record s {
  vm = reset_pages root ((user_region_end - user_region_start) / 4096) user_region_start s.vm;
}

-- A new page for `v`: it is tracked, mapped with PAGE_PRESENT, PAGE_WRITABLE and PAGE_USER, and zeroed.
pub give_page : ℕ → ℕ → ℕ → List ℕ → Space → Space
give_page root v phys rest s = record {
  vm = vmm_map_page root phys v 7 (record s.vm { supply = rest });
  scheduler = process_track_allocation s.scheduler (process_get_current_pid s.scheduler) phys;
  stores = fill v 4096 ∷ s.stores;
}

-- What follows pmm_alloc_page, whose pages are the supply's.
pub map_new : ℕ → ℕ → List ℕ → Space → Bool × Space
map_new root v [] s = (false, s)
map_new root v (phys ∷ rest) s = (true, give_page root v phys rest s)

-- One round of the loop of usermode_map_range: whether it goes on.
pub map_one : ℕ → ℕ → Space → Bool × Space
map_one root v s = if vmm_is_mapped root v s.vm then (true, s) else map_new root v s.vm.supply s

pub map_from : ℕ → ℕ → ℕ → Space → Bool × Space
map_from root zero v s = (true, s)
map_from root (suc n) v s =
    let (ok, s') = map_one root v s in
    let rest = map_from root n (v + 4096) s' in if ok then rest else (false, s')

-- The addresses wrap at 2^64. Whether the range is mapped stands for the results 0 and -1.
pub usermode_map_range : ℕ → ℕ → ℕ → Space → Bool × Space
usermode_map_range root virt_start size s =
    let first = virt_start / 4096 * 4096 in
    let last = (virt_start + size + 4095) % 2 ^ 64 / 4096 * 4096 in
    map_from root ((last - first) / 4096) first s

-- usermode_enter as the registers that iretq loads.
pub record Frame : Type 0 where
  pub ss : ℕ
  pub rsp : ℕ
  pub rflags : ℕ
  pub cs : ℕ
  pub rip : ℕ

pub usermode_enter : ℕ → ℕ → Frame
usermode_enter entry user_stack_top = record {
  ss = 0x1B;
  rsp = user_stack_top;
  rflags = 0x202;
  cs = 0x23;
  rip = entry;
}

-- The built-in program, of `prog_size` bytes at `prog_start`: the frame it is entered with, or none where
-- the pages run out.
pub usermode_run_test : ℕ → ℕ → ℕ → Space → Option Frame × Space
usermode_run_test root prog_start prog_size s =
    let (ok, s') =
      usermode_map_range root 0x400000 prog_size (usermode_reset_address_space root s) in
    let (ok', s'') = usermode_map_range root user_stack_virt user_stack_size s' in
    if not ok then (none, s') else if not ok' then (none, s'') else (
      some (usermode_enter 0x400000 (user_stack_virt + user_stack_size - 16)),
      record s'' { stores = copy 0x400000 prog_start prog_size ∷ s''.stores },
    )
