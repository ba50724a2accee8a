-- ===== src/Process/Schedule.antt =====
-- process_schedule: who runs next, whose context is loaded, and what becomes of the others.
use gravityos.Base.{
  ℕ, ◌+◌, ◌%◌, ◌<◌, ◌≤◌, ◌≡◌, ◌≢◌, ◌↔◌, arith, Bool, true, false, ◌&&◌, ◌==◌, leb, ltb,
  if◌then◌else◌, Option, some, update, ap, ◌∙◌,
}
use gravityos.Process.{
  Process, ProcessState, dead, ready, running, CpuState, Scheduler, Memory, max_processes,
  find_ready, save, saved, or_kernel, dispatch, switch_from, process_schedule,
}
use gravityos.Process.Search.{FirstReady, find_ready-FirstReady}
use gravityos.Process.Reap.{reapable, reaped, reap-table}

-- What a slot keeps of another's content: all but its stack.
pub record SameButStack (p q : Process) : Type 0 where
  pub state : q.state ≡ p.state
  pub context : q.context ≡ p.context
  pub pid : q.pid ≡ p.pid
  pub count : q.alloc_count ≡ p.alloc_count

reaped_same : (b : Bool) (p q : Process) → q ≡ (if b then reaped p else p) → SameButStack p q
reaped_same true p q e = record {
  state = ap (λ (x : Process). x.state) e;
  context = ap (λ (x : Process). x.context) e;
  pid = ap (λ (x : Process). x.pid) e;
  count = ap (λ (x : Process). x.alloc_count) e;
}
reaped_same false p q e = record {
  state = ap (λ (x : Process). x.state) e;
  context = ap (λ (x : Process). x.context) e;
  pid = ap (λ (x : Process). x.pid) e;
  count = ap (λ (x : Process). x.alloc_count) e;
}

-- A slot of the table in which `next` runs.
abbrev pub chosen : (ℕ → Process) → ℕ → ℕ → Process
chosen table next j = if next == j then record (table j) { state = running } else table j

chosen-update :
    (table : ℕ → Process) (next j : ℕ)
    → update table next (record (table next) { state = running }) j ≡ chosen table next j
chosen-update table next j = ground arith

module _ (m : Memory) (s : Scheduler) (table : ℕ → Process) (next : ℕ) (mem : m.State) where
  dispatch-table :
      (j : ℕ)
      → (dispatch m s table next mem).1.processes j ≡ (
          if (leb 1 j && ltb j max_processes) && reapable next j (chosen table next j)
          then reaped (chosen table next j)
          else chosen table next j)
  unfolding dispatch
  dispatch-table j =
      rw (← chosen-update table next j)
        (reap-table m next 63 1 j (update table next (record (table next) { state = running })) mem)

  -- Slot `next` runs; every other slot keeps its state, and all keep context and pid.
  pub dispatch_same :
      (j : ℕ) → SameButStack (chosen table next j) ((dispatch m s table next mem).1.processes j)
  dispatch_same j = reaped_same _ _ _ (dispatch-table j)

  -- No dead process but the chosen one keeps a stack.
  pub dispatch_reaps :
      (j : ℕ)
      → 1 ≤ j
      → j < max_processes
      → j ≢ next
      → (table j).state ≡ dead
      → ((dispatch m s table next mem).1.processes j).stack_base ≡ 0
  unfolding reapable
  dispatch_reaps j lo hi ne e = ap (λ (x : Process). x.stack_base) (dispatch-table j) ∙ reaped_stack
    where
      reaped_stack :
          (if (leb 1 j && ltb j max_processes) && reapable next j (chosen table next j)
            then reaped (chosen table next j)
            else chosen table next j).stack_base
          ≡ 0
      reaped_stack = ground arith

abbrev pub demoted : ProcessState → ProcessState
demoted running = ready
demoted other = other

module _ (s : Scheduler) (c : ℕ) (context : CpuState) (j : ℕ) where
  saved-context :
      (saved s c context j).context ≡ (if c == j then context else (s.processes j).context)
  unfolding saved save
  saved-context = ground arith

  saved-pid : (saved s c context j).pid ≡ (s.processes j).pid
  unfolding saved save
  saved-pid = ground arith

  pub saved-state :
      (saved s c context j).state
      ≡ (if c == j then demoted (s.processes j).state else (s.processes j).state)
  unfolding saved save
  saved-state = ground arith

demoted-ne-running : (t : ProcessState) → demoted t ≢ running
demoted-ne-running t = ground arith

running_iff :
    (next c j : ℕ) (t : ProcessState)
    → (t ≡ running → j ≡ c)
    → ((if next == j then running else if c == j then demoted t else t) ≡ running)
      ↔ (some next ≡ some j)
running_iff next c j t only = (forth, λ e. ground arith)
  where
    forth :
        (if next == j then running else if c == j then demoted t else t) ≡ running
        → some next ≡ some j
    forth h = ground (arith, demoted-ne-running t)

abbrev pub search_start : ℕ → ℕ
search_start c = (c + 1) % max_processes

abbrev pub found : Scheduler → ℕ → CpuState → Option ℕ
found s c context = find_ready (saved s c context) max_processes (search_start c)

abbrev pub next_slot : Scheduler → ℕ → CpuState → ℕ
next_slot s c context = or_kernel (found s c context)

module _ (m : Memory) (s : Scheduler) (c : ℕ) (context : CpuState) (mem : m.State)
    (on : s.current ≡ some c) where
  schedule-dispatch :
      process_schedule m s context mem
      ≡ dispatch m s (saved s c context) (next_slot s c context) mem
  unfolding process_schedule switch_from
  schedule-dispatch = rw on

  -- Where slot `c` is the current one, the slot that runs next is the first ready one behind the
  -- interrupted slot, round the table and back to that slot itself; with no slot ready it is the
  -- kernel's, 0.
  pub schedule_round_robin :
      FirstReady (saved s c context) max_processes (search_start c) (found s c context)
      × ((process_schedule m s context mem).1.current ≡ some (or_kernel (found s c context)))
  unfolding dispatch
  schedule_round_robin = (
    find_ready-FirstReady (saved s c context) max_processes (search_start c) (omega arith),
    ap (λ (r : CpuState × Scheduler × m.State). r.1.current) schedule-dispatch,
  )

  -- Where slot `c` is the current one, the processor gets the context of the slot that runs next. The
  -- table keeps the interrupted context in its slot, and every other context, and every pid.
  pub schedule-contexts :
      ((process_schedule m s context mem).0 ≡ (
        if c == next_slot s c context
        then context
        else (s.processes (next_slot s c context)).context))
      × ((j : ℕ)
          → (((process_schedule m s context mem).1.processes j).context
              ≡ (if c == j then context else (s.processes j).context))
            × (((process_schedule m s context mem).1.processes j).pid ≡ (s.processes j).pid))
  schedule-contexts = rw schedule-dispatch (
    unfold dispatch in saved-context s c context (next_slot s c context),
    λ j.
        let same = dispatch_same m s (saved s c context) (next_slot s c context) mem j in
        (
          same.context ∙ chosen-context (next_slot s c context) j ∙ saved-context s c context j,
          same.pid ∙ chosen-pid (next_slot s c context) j ∙ saved-pid s c context j,
        ),
  )
    where
      chosen-context :
          (next j : ℕ) → (chosen (saved s c context) next j).context ≡ (saved s c context j).context
      chosen-context next j = ground arith

      chosen-pid :
          (next j : ℕ) → (chosen (saved s c context) next j).pid ≡ (saved s c context j).pid
      chosen-pid next j = ground arith

  -- The states after a switch away from slot `c`, the current one: the chosen slot runs, and of the
  -- others only the interrupted one may have changed, from running to ready.
  pub schedule-states :
      (j : ℕ)
      → ((process_schedule m s context mem).1.processes j).state ≡ (
          if next_slot s c context == j
          then running
          else if c == j
          then demoted (s.processes j).state
          else (s.processes j).state)
  schedule-states j = rw schedule-dispatch (
      (dispatch_same m s (saved s c context) (next_slot s c context) mem j).state
      ∙ ground (arith, saved-state s c context j))

  -- Where slot `c` is the current one and no other slot was running, exactly one slot runs after the
  -- switch, the one that is current then.
  pub schedule_one_running :
      ((j : ℕ) → (s.processes j).state ≡ running → j ≡ c)
      → (j : ℕ)
      → (((process_schedule m s context mem).1.processes j).state ≡ running)
        ↔ ((process_schedule m s context mem).1.current ≡ some j)
  schedule_one_running only j =
      rw (schedule-states j, schedule_round_robin.1)
        (running_iff (next_slot s c context) c j (s.processes j).state (only j))
