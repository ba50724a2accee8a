-- ===== src/Process/Tests.antt =====
-- The scheduler with a kernel slot, a running process, a ready one and a dead one.
use gravityos.Base.{
  ℕ, suc, ◌+◌, ◌<◌, ◌≡◌, ◌≢◌, ◌↔◌, refl, arith, [], ◌∷◌, some, if◌then◌else◌, ◌==◌, update, take,
}
use gravityos.Process.{
  ProcessState, dead, ready, running, Process, Scheduler, Memory, zero_context, zero_process,
  max_processes, find_dead, process_create, process_schedule, max_allocations,
}
use gravityos.Process.Search.{FirstDead}
use gravityos.Process.Schedule.{schedule_one_running}
use gravityos.Process.Fair.{after_ticks, ready_runs}
use gravityos.Process.Create.{Created, create-Created}
use gravityos.Process.Lifetime.{
  find_alive, track, track_all, process_exit, free_each, exit_frees_tracked,
}

-- An allocator that hands out blocks upwards; what is given back is forgotten.
abbrev bump : Memory
bump = record {
  State = ℕ;
  kmalloc = λ size next. (some next, next + size);
  kfree = λ base next. next;
  free_page = λ page next. next;
}

-- One that counts the pages given back.
abbrev counting : Memory
counting = record bump { free_page = λ page count. suc count }

abbrev with_state : ℕ → ProcessState → Process
with_state pid state = record zero_process { pid = pid; state = state }

-- Slot 1 runs, slot 5 is ready, slot 63 is ready too.
abbrev busy : Scheduler
busy = record {
  processes = λ j.
      if j == 1
      then with_state 1 running
      else if j == 5
      then with_state 2 ready
      else if j == 63
      then with_state 3 ready
      else zero_process;
  current = some 1;
  next_pid = 4;
  kernel_cs = 0x28;
  kernel_ss = 0x30;
}

only_one : (j : ℕ) → (busy.processes j).state ≡ running → j ≡ 1
only_one j e = ground arith

one_running_example :
    (((process_schedule bump busy zero_context 0).1.processes 5).state ≡ running)
    ↔ ((process_schedule bump busy zero_context 0).1.current ≡ some 5)
one_running_example = schedule_one_running bump busy 1 zero_context 0 refl only_one 5

ready_runs_example :
    (k : ℕ) × (k < 64) × ((after_ticks bump (λ _. zero_context) (suc k) busy 0).0.current ≡ some 63)
ready_runs_example =
    ready_runs bump (λ _. zero_context) busy 1 63 0 refl (omega arith) (omega arith) refl

create-Created_example :
    FirstDead busy.processes 63 1 (find_dead busy.processes 63 1)
    × Created bump busy 0x1000 0x4000
        (find_dead busy.processes 63 1)
        (process_create bump busy 0x1000 0x4000)
create-Created_example = create-Created bump busy 0x1000 0x4000

-- Slot 5 has put three pages on its list; its process ends.
abbrev holding : Scheduler
holding = record busy {
  processes =
      update busy.processes 5 (track_all (with_state 2 ready) (0x1000 ∷ 0x2000 ∷ 0x3000 ∷ []));
}

alive : find_alive holding.processes 2 max_processes 0 ≡ some 5
unfolding find_alive track_all track
alive = refl

exit_frees_tracked_example :
    let r = process_exit counting holding 2 0 in
    (r.2 ≡ free_each counting (take max_allocations (0x1000 ∷ 0x2000 ∷ 0x3000 ∷ [])) 0)
    × ((r.1.processes 5).state ≡ dead)
    × ((r.1.processes 5).alloc_count ≡ 0)
    × ((j : ℕ) → 5 ≢ j → r.1.processes j ≡ holding.processes j)
exit_frees_tracked_example =
    exit_frees_tracked counting holding 2 5 (with_state 2 ready) (0x1000 ∷ 0x2000 ∷ 0x3000 ∷ []) 0
      alive refl refl
