-- ===== src/Process.antt =====
-- kernel/process.c and kernel/process.h: the process table and the round-robin scheduler.
-- `Scheduler` holds the static variables; `current` is `none` for the index -1. The heap and the
-- page allocator that the code calls are an interface, `Memory`, whose state is passed along.
pub mod Search
pub mod Reap
pub mod Schedule
pub mod Fair
pub mod Create
pub mod Lifetime
mod Tests
use gravityos.Base.{
  ℕ, zero, suc, ◌+◌, ◌-◌, ◌/◌, ◌*◌, ◌%◌, ◌^◌, Bool, true, false, not, ◌&&◌, ◌||◌, List, [], ◌∷◌,
  Option, none, some, ltb, ◌==◌, if◌then◌else◌, update,
}

abbrev pub max_processes : ℕ
max_processes = 64

abbrev pub max_allocations : ℕ
max_allocations = 128

abbrev pub stack_size : ℕ
stack_size = 16384

pub data ProcessState : Type 0 where
  dead ready running sleeping : ProcessState

-- cpu_state_t: the five registers that process_create sets, and the others by their place.
pub record CpuState : Type 0 where
  pub rip : ℕ
  pub cs : ℕ
  pub rflags : ℕ
  pub rsp : ℕ
  pub ss : ℕ
  pub others : ℕ → ℕ

pub record Process : Type 0 where
  pub pid : ℕ
  pub state : ProcessState
  pub context : CpuState
  pub kernel_stack : ℕ
  pub stack_base : ℕ
  pub allocations : ℕ → ℕ
  pub alloc_count : ℕ

pub record Scheduler : Type 0 where
  pub processes : ℕ → Process
  pub current : Option ℕ
  pub next_pid : ℕ
  pub kernel_cs : ℕ
  pub kernel_ss : ℕ

-- kmalloc, kfree and pmm_free_page, over the state of the two allocators.
pub record Memory : Type 1 where
  pub State : Type 0
  pub kmalloc : ℕ → State → Option ℕ × State
  pub kfree : ℕ → State → State
  pub free_page : ℕ → State → State

abbrev pub is_dead : ProcessState → Bool
is_dead dead = true
is_dead _ = false

abbrev pub is_ready : ProcessState → Bool
is_ready ready = true
is_ready _ = false

abbrev pub zero_context : CpuState
zero_context = record { rip = 0; cs = 0; rflags = 0; rsp = 0; ss = 0; others = λ _. 0 }

abbrev pub zero_process : Process
zero_process = record {
  pid = 0;
  state = dead;
  context = zero_context;
  kernel_stack = 0;
  stack_base = 0;
  allocations = λ _. 0;
  alloc_count = 0;
}

-- `cs` and `ss` are the selectors that the processor holds at the call.
pub process_init : Scheduler → ℕ → ℕ → Scheduler
process_init s cs ss = record s {
  processes = update (λ _. zero_process) 0 (record zero_process { state = running });
  current = some 0;
  kernel_cs = cs;
  kernel_ss = ss;
}

-- The first dead slot from `i` on, among `n`.
pub find_dead : (ℕ → Process) → ℕ → ℕ → Option ℕ
find_dead table zero i = none
find_dead table (suc n) i =
    let rest = find_dead table n (i + 1) in if is_dead (table i).state then some i else rest

-- The slot is reserved under a new pid, asleep, before its stack is there.
pub reserve : Scheduler → ℕ → Scheduler
reserve s i = record s {
  processes =
      update s.processes i
        (record (s.processes i) { pid = s.next_pid; state = sleeping; alloc_count = 0 });
  next_pid = (s.next_pid + 1) % 2 ^ 32;
}

abbrev pub stack_top : ℕ → ℕ
stack_top base = (base + stack_size) % 2 ^ 64 / 16 * 16

-- The slot with its stack and first context, ready to run.
pub start : Scheduler → ℕ → ℕ → ℕ → Scheduler
start s i entry stack = record s {
  processes = update s.processes i (record (s.processes i) {
    stack_base = stack;
    kernel_stack = stack_top stack;
    context = record zero_context {
      rip = entry;
      rsp = stack_top stack;
      cs = s.kernel_cs;
      ss = s.kernel_ss;
      rflags = 0x202;
    };
    state = ready;
  });
}

-- The reservation is taken back.
pub abandon : Scheduler → ℕ → Scheduler
abandon s i = record s {
  processes = update s.processes i (record (s.processes i) { state = dead });
}

-- The search of process_schedule: the first ready slot from `i` on, round the table, in `n` rounds.
pub find_ready : (ℕ → Process) → ℕ → ℕ → Option ℕ
find_ready table zero i = none
find_ready table (suc n) i =
    let rest = find_ready table n ((i + 1) % max_processes) in
    if is_ready (table i).state then some i else rest

-- The process that is left: its context is saved, and if it was running it is ready.
pub save : Process → CpuState → Process
save p context = record p {
  context = context;
  state = elim p.state [ running ↦ ready | other ↦ other ];
}

-- The table once the interrupted process is saved.
unfoldable pub saved : Scheduler → ℕ → CpuState → ℕ → Process
saved s c context = update s.processes c (save (s.processes c) context)

pub or_kernel : Option ℕ → ℕ
or_kernel none = 0
or_kernel (some i) = i

module _ (m : Memory) where
  -- What follows the call of kmalloc, by its result: the slot is started, or given up.
  pub finish_create : Scheduler → ℕ → ℕ → Option ℕ → m.State → ℕ × Scheduler × m.State
  finish_create s i entry none mem = (0, abandon (reserve s i) i, mem)
  finish_create s i entry (some base) mem = (s.next_pid, start (reserve s i) i entry base, mem)

  pub create_in : Scheduler → ℕ → ℕ → m.State → ℕ × Scheduler × m.State
  create_in s i entry mem =
      let (stack, mem') = m.kmalloc stack_size mem in finish_create s i entry stack mem'

  -- The pid of the new process, or 0.
  pub process_create : Scheduler → ℕ → m.State → ℕ × Scheduler × m.State
  process_create s entry mem = elim (find_dead s.processes (max_processes - 1) 1) [
    | none ↦ (0, s, mem)
    | some i ↦ create_in s i entry mem
  ]

  -- One round of the loop that gives back the stacks of dead processes.
  pub reap_one : ℕ → ℕ → (ℕ → Process) × m.State → (ℕ → Process) × m.State
  reap_one current i (table, mem) =
      if not (i == current) && (is_dead (table i).state && not ((table i).stack_base == 0))
      then (
        update table i (record (table i) { stack_base = 0; kernel_stack = 0 }),
        m.kfree (table i).stack_base mem,
      )
      else (table, mem)

  pub reap : ℕ → ℕ → ℕ → (ℕ → Process) × m.State → (ℕ → Process) × m.State
  reap current zero i r = r
  reap current (suc n) i r = reap current n (i + 1) (reap_one current i r)

  -- The switch to slot `next`: the context that is loaded, and the new state.
  pub dispatch : Scheduler → (ℕ → Process) → ℕ → m.State → CpuState × Scheduler × m.State
  dispatch s table next mem =
      let chosen = update table next (record (table next) { state = running }) in
      let (reaped, mem') = reap next (max_processes - 1) 1 (chosen, mem) in
      ((table next).context, record s { processes = reaped; current = some next }, mem')

  -- What process_schedule does where slot `c` is the running one.
  pub switch_from : Scheduler → ℕ → CpuState → m.State → CpuState × Scheduler × m.State
  switch_from s c context mem =
      let table = saved s c context in
      dispatch s table (or_kernel (find_ready table max_processes ((c + 1) % max_processes))) mem

  pub process_schedule : Scheduler → CpuState → m.State → CpuState × Scheduler × m.State
  process_schedule s context mem = elim s.current [
    | none ↦ (context, s, mem)
    | some c ↦ switch_from s c context mem
  ]
