-- ===== src/Process/Fair.antt =====
-- The scheduler is fair: a ready process waits for at most 64 ticks of the timer.
use gravityos.Base.{
  ℕ, zero, suc, ◌+◌, ◌-◌, ◌%◌, ◌<◌, ◌≡◌, ◌≢◌, arith, true, Option, none, some, ℕ_discrete, dec_lt,
  ap, ◌∙◌,
}
use gravityos.Process.{
  Process, ready, CpuState, Scheduler, Memory, is_ready, max_processes, or_kernel, saved,
  process_schedule,
}
use gravityos.Process.Search.{FirstReady, behind}
use gravityos.Process.Schedule.{
  found, next_slot, search_start, saved-state, schedule-states, schedule_round_robin,
}

-- How many slots the search passes over before it meets slot `i`.
abbrev pub distance : ℕ → ℕ → ℕ
distance c i = (i + (max_processes - 1) - c) % max_processes

here :
    (c i : ℕ) → c < max_processes → i < max_processes → behind (search_start c) (distance c i) ≡ i
here c i hc hi = omega arith

ready_here :
    (table : ℕ → Process) (c i : ℕ)
    → c < max_processes
    → i < max_processes
    → is_ready (table i).state ≡ true
    → is_ready (table (behind (search_start c) (distance c i))).state ≡ true
ready_here table c i hc hi on = rw (here c i hc hi) on

-- A search that misses a ready slot `i` stops before it.
nearer :
    (table : ℕ → Process) (c i : ℕ) (o : Option ℕ)
    → c < max_processes
    → i < max_processes
    → is_ready (table i).state ≡ true
    → FirstReady table max_processes (search_start c) o
    → or_kernel o ≢ i
    → (or_kernel o < max_processes) × (distance (or_kernel o) i < distance c i)
unfolding or_kernel
nearer table c i none hc hi on miss ne =
    cc (miss (distance c i) (omega arith), ready_here table c i hc hi on)
nearer table c i (some k) hc hi on (d, hd, e, _, before) ne = elim (dec_lt (distance c i) d) [
  | yes early ↦ cc (before (distance c i) early, ready_here table c i hc hi on)
  | no late ↦ (omega arith, omega arith)
]

module _ (m : Memory) where
  -- The state after `n` timer interrupts; `contexts k` is the context that the k-th one finds.
  pub after_ticks : (ℕ → CpuState) → ℕ → Scheduler → m.State → Scheduler × m.State
  after_ticks contexts zero s mem = (s, mem)
  after_ticks contexts (suc n) s mem =
      let (_, s', mem') = process_schedule m s (contexts 0) mem in
      after_ticks (λ k. contexts (suc k)) n s' mem'

  -- One tick either runs the waiting process or brings it nearer.
  tick_nearer :
      (s : Scheduler) (c i : ℕ) (context : CpuState) (mem : m.State)
      → s.current ≡ some c
      → c < max_processes
      → i < max_processes
      → (s.processes i).state ≡ ready
      → next_slot s c context ≢ i
      → let s' = (process_schedule m s context mem).1 in
        (s'.current ≡ some (next_slot s c context))
        × (next_slot s c context < max_processes)
        × (distance (next_slot s c context) i < distance c i)
        × ((s'.processes i).state ≡ ready)
  tick_nearer s c i context mem on hc hi wait ne =
      let r = schedule_round_robin m s c context mem on in
      let still : is_ready (saved s c context i).state ≡ true =
        ground (arith, saved-state s c context i) in
      let n = nearer (saved s c context) c i (found s c context) hc hi still r.0 ne in
      (r.1, n.0, n.1, ground (arith, schedule-states m s c context mem on i))

  -- With the distance below `n`, the process runs within `n` ticks.
  runs_within :
      (n : ℕ) (contexts : ℕ → CpuState) (s : Scheduler) (c i : ℕ) (mem : m.State)
      → s.current ≡ some c
      → c < max_processes
      → i < max_processes
      → (s.processes i).state ≡ ready
      → distance c i < n
      → (k : ℕ) × (k < n) × ((after_ticks contexts (suc k) s mem).0.current ≡ some i)
  unfolding after_ticks
  runs_within zero contexts s c i mem on hc hi wait h = elim h [ ]
  runs_within (suc n) contexts s c i mem on hc hi wait h =
      elim (ℕ_discrete (next_slot s c (contexts 0)) i) [
        | yes now ↦
            (0, omega arith, (schedule_round_robin m s c (contexts 0) mem on).1 ∙ ap some now)
        | no other ↦
            let t = tick_nearer s c i (contexts 0) mem on hc hi wait other in
            let r = process_schedule m s (contexts 0) mem in
            let (k, hk, e) =
              runs_within n (λ j. contexts (suc j)) r.1 (next_slot s c (contexts 0)) i r.2 t.0 t.1
                hi t.3 (omega arith) in
            (suc k, omega arith, e)
      ]

  -- Where slot `c` of the table is the current one, a ready process in slot `i` of the table is the
  -- current one after at most 64 ticks, whatever the others are and whatever contexts the interrupts
  -- find.
  pub ready_runs :
      (contexts : ℕ → CpuState) (s : Scheduler) (c i : ℕ) (mem : m.State)
      → s.current ≡ some c
      → c < max_processes
      → i < max_processes
      → (s.processes i).state ≡ ready
      → (k : ℕ) × (k < max_processes) × ((after_ticks contexts (suc k) s mem).0.current ≡ some i)
  ready_runs contexts s c i mem on hc hi wait =
      runs_within max_processes contexts s c i mem on hc hi wait (omega arith)
