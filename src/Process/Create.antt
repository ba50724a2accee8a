-- ===== src/Process/Create.antt =====
-- process_create: which slot a new process takes, and with what it starts.
use gravityos.Base.{ℕ, ◌+◌, ◌%◌, ◌^◌, ◌<◌, ◌≤◌, ◌≡◌, ◌≢◌, refl, arith, Option, none, some}
use gravityos.Process.{
  Process, dead, ready, Scheduler, Memory, stack_size, stack_top, find_dead, reserve, start,
  abandon, finish_create, create_in, process_create,
}
use gravityos.Process.Search.{FirstDead, find_dead-FirstDead}

-- A process that is ready to run from its first instruction, on a stack of its own.
pub record Fresh (s : Scheduler) (entry base : ℕ) (p : Process) : Type 0 where
  pub pid : p.pid ≡ s.next_pid
  pub state : p.state ≡ ready
  pub rip : p.context.rip ≡ entry
  pub rsp : p.context.rsp ≡ p.kernel_stack
  pub cs : p.context.cs ≡ s.kernel_cs
  pub ss : p.context.ss ≡ s.kernel_ss
  pub rflags : p.context.rflags ≡ 0x202
  pub top : p.kernel_stack ≡ stack_top base
  pub stack : p.stack_base ≡ base
  pub owns_nothing : p.alloc_count ≡ 0

abbrev pub Outcome : (s : Scheduler) (entry k : ℕ) → Option ℕ → ℕ → Scheduler → Type 0
Outcome s entry k none pid s' = (pid ≡ 0) × ((s'.processes k).state ≡ dead)
Outcome s entry k (some base) pid s' = (pid ≡ s.next_pid) × Fresh s entry base (s'.processes k)

-- What process_create does, by the slot that its search finds.
abbrev pub Created :
    (m : Memory) → Scheduler → ℕ → m.State → Option ℕ → ℕ × Scheduler × m.State → Type 0
Created m s entry mem none r = (r.0 ≡ 0) × (r.1 ≡ s) × (r.2 ≡ mem)
Created m s entry mem (some k) r =
    (r.2 ≡ (m.kmalloc stack_size mem).1)
    × (r.1.current ≡ s.current)
    × ((j : ℕ) → k ≢ j → r.1.processes j ≡ s.processes j)
    × Outcome s entry k (m.kmalloc stack_size mem).0 r.0 r.1

module _ (m : Memory) (s : Scheduler) (entry : ℕ) (mem : m.State) where
  finish_others :
      (k : ℕ) (o : Option ℕ) (mem' : m.State)
      → ((finish_create m s k entry o mem').2 ≡ mem')
        × ((finish_create m s k entry o mem').1.current ≡ s.current)
        × ((j : ℕ) → k ≢ j → (finish_create m s k entry o mem').1.processes j ≡ s.processes j)
  unfolding finish_create reserve start abandon
  finish_others k none mem' = (refl, refl, λ j ne. ground arith)
  finish_others k (some base) mem' = (refl, refl, λ j ne. ground arith)

  finish-Outcome :
      (k : ℕ) (o : Option ℕ) (mem' : m.State)
      → let r = finish_create m s k entry o mem' in Outcome s entry k o r.0 r.1
  unfolding finish_create reserve start abandon
  finish-Outcome k none mem' = (refl, ground arith)
  finish-Outcome k (some base) mem' = (
    refl,
    record {
      pid = ground arith;
      state = ground arith;
      rip = ground arith;
      rsp = ground arith;
      cs = ground arith;
      ss = ground arith;
      rflags = ground arith;
      top = ground arith;
      stack = ground arith;
      owns_nothing = ground arith;
    },
  )

  Created-in :
      (o : Option ℕ)
      → o ≡ find_dead s.processes 63 1
      → Created m s entry mem o (process_create m s entry mem)
  unfolding process_create create_in
  Created-in none e = rw (← e, process_create) (refl, refl, refl)
  Created-in (some k) e =
      let (stack, mem') = m.kmalloc stack_size mem in
      let others = finish_others k stack mem' in
      rw (← e, process_create) (others.0, others.1, others.2, finish-Outcome k stack mem')

  -- process_create takes the lowest dead slot above the kernel's. With a stack from kmalloc the slot
  -- is ready at the entry point under the returned pid; without one it is dead again and the pid is
  -- 0. No other slot changes. Where no slot is dead nothing happens and the pid is 0.
  pub create-Created :
      FirstDead s.processes 63 1 (find_dead s.processes 63 1)
      × Created m s entry mem (find_dead s.processes 63 1) (process_create m s entry mem)
  create-Created = (find_dead-FirstDead s.processes 63 1, Created-in _ refl)

-- For a block that does not reach the end of the address space, the stack's top is 16-aligned and lies
-- within the block that kmalloc gave, at most 15 bytes below its end.
pub stack_top_aligned :
    (base : ℕ)
    → base + stack_size < 2 ^ 64
    → (stack_top base % 16 ≡ 0)
      × (stack_top base ≤ base + stack_size)
      × (base + stack_size < stack_top base + 16)
stack_top_aligned base h = omega arith
