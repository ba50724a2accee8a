-- ===== src/Process/Search.antt =====
-- The two searches over the process table.
use gravityos.Base.{
  ℕ, zero, suc, ◌+◌, ◌%◌, ◌<◌, ◌≤◌, ◌≡◌, arith, true, false, Option, none, some, Bool-cases, inl,
  inr, ℕ_discrete,
}
use gravityos.Process.{Process, is_ready, is_dead, find_ready, find_dead, max_processes}

-- The slot that is `d` places behind `i`, round the table.
abbrev pub behind : ℕ → ℕ → ℕ
behind i d = (i + d) % max_processes

-- What the search from `i` over `n` slots finds.
abbrev pub FirstReady : (ℕ → Process) → ℕ → ℕ → Option ℕ → Type 0
FirstReady table n i none = (d : ℕ) → d < n → is_ready (table (behind i d)).state ≡ false
FirstReady table n i (some k) =
    (d : ℕ) × (d < n)
    × (k ≡ behind i d)
    × (is_ready (table k).state ≡ true)
    × ((e : ℕ) → e < d → is_ready (table (behind i e)).state ≡ false)

not_ready_from :
    (table : ℕ → Process) (i n : ℕ)
    → i < max_processes
    → is_ready (table i).state ≡ false
    → ((d : ℕ) → d < n → is_ready (table (behind ((i + 1) % max_processes) d)).state ≡ false)
    → (d : ℕ) → d < suc n
    → is_ready (table (behind i d)).state ≡ false
not_ready_from table i n lt here rest zero h =
    let same : behind i 0 ≡ i = omega arith in rw same here
not_ready_from table i n lt here rest (suc d) h =
    let same : behind i (suc d) ≡ behind ((i + 1) % max_processes) d = omega arith in
    rw same (rest d (omega arith))

FirstReady-step :
    (table : ℕ → Process) (n i : ℕ) (o : Option ℕ)
    → i < max_processes
    → is_ready (table i).state ≡ false
    → FirstReady table n ((i + 1) % max_processes) o
    → FirstReady table (suc n) i o
FirstReady-step table n i none lt here h = not_ready_from table i n lt here h
FirstReady-step table n i (some k) lt here (d, hd, e, on, before) =
    (suc d, omega arith, omega arith, on, not_ready_from table i d lt here before)

pub find_ready-FirstReady :
    (table : ℕ → Process) (n i : ℕ)
    → i < max_processes
    → FirstReady table n i (find_ready table n i)
unfolding find_ready
find_ready-FirstReady table zero i lt = λ d h. elim h [ ]
find_ready-FirstReady table (suc n) i lt = elim (Bool-cases (is_ready (table i).state)) [
  | inl on ↦ rw on (0, omega arith, omega arith, on, λ e h. elim h [ ])
  | inr off ↦ rw off (
      FirstReady-step table n i _ lt off
        (find_ready-FirstReady table n ((i + 1) % max_processes) (omega arith)))
]

-- The same for the lowest dead slot.
abbrev pub FirstDead : (ℕ → Process) → ℕ → ℕ → Option ℕ → Type 0
FirstDead table n i none = (j : ℕ) → i ≤ j → j < i + n → is_dead (table j).state ≡ false
FirstDead table n i (some k) =
    (i ≤ k)
    × (k < i + n)
    × (is_dead (table k).state ≡ true)
    × ((j : ℕ) → i ≤ j → j < k → is_dead (table j).state ≡ false)

alive_from :
    (table : ℕ → Process) (i : ℕ) (P : ℕ → Type 0)
    → is_dead (table i).state ≡ false
    → ((j : ℕ) → i + 1 ≤ j → P j → is_dead (table j).state ≡ false)
    → (j : ℕ) → i ≤ j
    → P j
    → is_dead (table j).state ≡ false
alive_from table i P e h j lo p = elim (ℕ_discrete i j) [
  | yes same ↦ rw (← same) e
  | no other ↦ h j (omega arith) p
]

FirstDead-step :
    (table : ℕ → Process) (n i : ℕ) (o : Option ℕ)
    → is_dead (table i).state ≡ false
    → FirstDead table n (i + 1) o
    → FirstDead table (suc n) i o
FirstDead-step table n i none e h =
    alive_from table i (λ j. j < i + suc n) e (λ j lo hi. h j lo (omega arith))
FirstDead-step table n i (some k) e (lo, hi, found, before) =
    (omega arith, omega arith, found, alive_from table i (λ j. j < k) e before)

pub find_dead-FirstDead :
    (table : ℕ → Process) (n i : ℕ) → FirstDead table n i (find_dead table n i)
unfolding find_dead
find_dead-FirstDead table zero i = λ j lo hi. absurd (omega arith)
find_dead-FirstDead table (suc n) i = elim (Bool-cases (is_dead (table i).state)) [
  | inl found ↦ rw found (omega arith, omega arith, found, λ j l u. absurd (omega arith))
  | inr alive ↦ rw alive (FirstDead-step table n i _ alive (find_dead-FirstDead table n (i + 1)))
]
