-- ===== src/Process/Lifetime.antt =====
-- What a process owns and what its end gives back: process_track_allocation, process_exit and the
-- two queries.
use gravityos.Base.{
  ℕ, zero, suc, ◌+◌, ◌≤◌, ◌≡◌, ◌≢◌, refl, arith, Bool, false, not, ◌&&◌, ◌==◌, ltb, if◌then◌else◌,
  List, [], ◌∷◌, ◌++◌, Option, none, some, update, take, length, ap, take_all, take-append,
  take-take_append, length-append, append_assoc, append-nil, dec_lt, lt→ltb, ◌∙◌, sym,
}
use gravityos.Process.{Process, dead, Scheduler, Memory, is_dead, max_processes, max_allocations}

abbrev pub is_alive_as : ℕ → Process → Bool
is_alive_as pid p = (p.pid == pid) && not (is_dead p.state)

-- The first slot from `i` on, among `n`, that is alive under the pid.
unfoldable pub find_alive : (ℕ → Process) → ℕ → ℕ → ℕ → Option ℕ
find_alive table pid zero i = none
find_alive table pid (suc n) i =
    let rest = find_alive table pid n (i + 1) in if is_alive_as pid (table i) then some i else rest

-- A page that does not fit into the list any more is passed over.
unfoldable pub track : Process → ℕ → Process
track p addr =
    if ltb p.alloc_count max_allocations
    then record p {
      allocations = update p.allocations p.alloc_count addr;
      alloc_count = p.alloc_count + 1;
    }
    else p

pub process_track_allocation : Scheduler → ℕ → ℕ → Scheduler
process_track_allocation s pid addr = elim (find_alive s.processes pid max_processes 0) [
  | none ↦ s
  | some i ↦ record s { processes = update s.processes i (track (s.processes i) addr) }
]

pub process_count_alive : ℕ → ℕ → (ℕ → Process) → ℕ
process_count_alive zero i table = 0
process_count_alive (suc n) i table =
    (if is_dead (table i).state then 0 else 1) + process_count_alive n (i + 1) table

pub process_get_current_pid : Scheduler → ℕ
process_get_current_pid s = elim s.current [ none ↦ 0 | some i ↦ (s.processes i).pid ]

module _ (m : Memory) where
  pub free_pages : ℕ → ℕ → (ℕ → ℕ) → m.State → m.State
  free_pages zero j allocations mem = mem
  free_pages (suc n) j allocations mem =
      free_pages n (j + 1) allocations (m.free_page (allocations j) mem)

  -- The Boolean says that the process ended itself: the call then waits for ever.
  pub exit_slot : Scheduler → ℕ → m.State → Bool × Scheduler × m.State
  exit_slot s i mem =
      let p = s.processes i in
      (
        elim s.current [ none ↦ false | some c ↦ c == i ],
        record s { processes = update s.processes i (record p { alloc_count = 0; state = dead }) },
        free_pages p.alloc_count 0 p.allocations mem,
      )

  pub process_exit : Scheduler → ℕ → m.State → Bool × Scheduler × m.State
  process_exit s pid mem = elim (find_alive s.processes pid max_processes 0) [
    | none ↦ (false, s, mem)
    | some i ↦ exit_slot s i mem
  ]

-- The process after its pages were tracked one by one.
unfoldable pub track_all : Process → List ℕ → Process
track_all p [] = p
track_all p (a ∷ rest) = track_all (track p a) rest

-- The pages on the list, from place `i` on.
unfoldable pub owned : (ℕ → ℕ) → ℕ → ℕ → List ℕ
owned allocations i zero = []
owned allocations i (suc n) = allocations i ∷ owned allocations (i + 1) n

owned-update :
    (allocations : ℕ → ℕ) (i n k a : ℕ)
    → k ≡ i + n
    → owned (update allocations k a) i (suc n) ≡ owned allocations i n ++ a ∷ []
unfolding owned
owned-update allocations i zero k a e = ground arith
owned-update allocations i (suc n) k a e =
    ground (arith, owned-update allocations (i + 1) n k a (omega arith))

length-owned : (f : ℕ → ℕ) (i n : ℕ) → length (owned f i n) ≡ n
unfolding owned
length-owned f i zero = refl
length-owned f i (suc n) = ap suc (length-owned f (i + 1) n)

-- The pages that the process has on its list.
abbrev pub pages_of : Process → List ℕ
pages_of p = owned p.allocations 0 p.alloc_count

track-pages_of :
    (p : Process) (a : ℕ)
    → p.alloc_count ≤ max_allocations
    → ((track p a).alloc_count ≤ max_allocations)
      × (pages_of (track p a) ≡ take max_allocations (pages_of p ++ a ∷ []))
unfolding track
track-pages_of p a h = elim (dec_lt p.alloc_count max_allocations) [
  | yes room ↦
      let next : p.alloc_count + 1 ≡ suc p.alloc_count = omega arith in
      rw (lt→ltb _ _ room, next)
        (
          omega arith,
          owned-update p.allocations 0 p.alloc_count p.alloc_count a (omega arith)
              ∙ sym (take_all max_allocations (pages_of p ++ a ∷ []) (omega (arith, one_more))),
        )
  | no full ↦
      let test : ltb p.alloc_count max_allocations ≡ false = ground arith in
      rw test (
        h,
        sym (
            take-append max_allocations (pages_of p) (a ∷ []) (omega (arith, all_there))
            ∙ take_all max_allocations (pages_of p) (omega (arith, all_there))),
      )
]
  where
    all_there : length (pages_of p) ≡ p.alloc_count
    all_there = length-owned p.allocations 0 p.alloc_count

    one_more : length (pages_of p ++ a ∷ []) ≡ p.alloc_count + 1
    one_more = omega (arith, length-append (pages_of p) (a ∷ []), all_there)

track_all-pages_of :
    (p : Process) (addrs : List ℕ)
    → p.alloc_count ≤ max_allocations
    → pages_of (track_all p addrs) ≡ take max_allocations (pages_of p ++ addrs)
unfolding track_all
track_all-pages_of p [] h = sym (
    rw append-nil (
      take_all max_allocations (pages_of p)
        (omega (arith, length-owned p.allocations 0 p.alloc_count))))
track_all-pages_of p (a ∷ rest) h =
    let t = track-pages_of p a h in
    track_all-pages_of (track p a) rest t.0 ∙ rw (t.1, take-take_append, append_assoc) refl

module _ (m : Memory) where
  unfoldable pub free_each : List ℕ → m.State → m.State
  free_each [] mem = mem
  free_each (a ∷ rest) mem = free_each rest (m.free_page a mem)

  free_pages-owned :
      (n j : ℕ) (allocations : ℕ → ℕ) (mem : m.State)
      → free_pages m n j allocations mem ≡ free_each (owned allocations j n) mem
  unfolding free_pages free_each owned
  free_pages-owned zero j allocations mem = refl
  free_pages-owned (suc n) j allocations mem =
      free_pages-owned n (j + 1) allocations (m.free_page (allocations j) mem)

  exit_slot_frees :
      (s : Scheduler) (i : ℕ) (p : Process) (addrs : List ℕ) (mem : m.State)
      → p.alloc_count ≡ 0
      → s.processes i ≡ track_all p addrs
      → (exit_slot m s i mem).2 ≡ free_each (take max_allocations addrs) mem
  unfolding exit_slot owned
  exit_slot_frees s i p addrs mem none_yet e =
      free_pages-owned (s.processes i).alloc_count 0 (s.processes i).allocations mem
      ∙ ap (λ (l : List ℕ). free_each l mem) listed
    where
      listed : pages_of (s.processes i) ≡ take max_allocations addrs
      listed = ap pages_of e ∙ track_all-pages_of p addrs (omega arith) ∙ rw (none_yet, owned) refl

  -- process_exit on the pid of a live process whose pages were tracked one by one: it gives back the
  -- first 128 of them, in their order, and leaves the slot dead with an empty list; no other slot
  -- changes. Pages behind the 128th are not given back: they were never put on the list.
  pub exit_frees_tracked :
      (s : Scheduler) (pid i : ℕ) (p : Process) (addrs : List ℕ) (mem : m.State)
      → find_alive s.processes pid max_processes 0 ≡ some i
      → p.alloc_count ≡ 0
      → s.processes i ≡ track_all p addrs
      → let r = process_exit m s pid mem in
        (r.2 ≡ free_each (take max_allocations addrs) mem)
        × ((r.1.processes i).state ≡ dead)
        × ((r.1.processes i).alloc_count ≡ 0)
        × ((j : ℕ) → i ≢ j → r.1.processes j ≡ s.processes j)
  unfolding exit_slot process_exit free_each
  exit_frees_tracked s pid i p addrs mem found none_yet e =
      rw (found, process_exit)
        (
          exit_slot_frees s i p addrs mem none_yet e,
          ground arith,
          ground arith,
          λ j ne. ground arith,
        )
