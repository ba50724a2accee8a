-- ===== src/Process/Reap.antt =====
-- The loop at the end of process_schedule, which gives back the stacks of dead processes.
use gravityos.Base.{
  ℕ, zero, suc, ◌+◌, ◌<◌, ◌≡◌, refl, arith, Bool, not, ◌&&◌, ◌==◌, leb, ltb, if◌then◌else◌, List,
  [], ◌∷◌,
}
use gravityos.Process.{Process, Memory, is_dead, reap, reap_one}

-- The slot holds the stack of a dead process that the processor is not on.
unfoldable pub reapable : ℕ → ℕ → Process → Bool
reapable current i p = not (i == current) && (is_dead p.state && not (p.stack_base == 0))

abbrev pub reaped : Process → Process
reaped p = record p { stack_base = 0; kernel_stack = 0 }

-- The stacks that the loop gives back, in its order.
unfoldable pub stacks : ℕ → ℕ → ℕ → (ℕ → Process) → List ℕ
stacks current zero i table = []
stacks current (suc n) i table =
    let rest = stacks current n (i + 1) table in
    if reapable current i (table i) then (table i).stack_base ∷ rest else rest

module _ (m : Memory) where
  pub free_all : List ℕ → m.State → m.State
  free_all [] mem = mem
  free_all (b ∷ bs) mem = free_all bs (m.kfree b mem)

  reap_one-table :
      (current i j : ℕ) (table : ℕ → Process) (mem : m.State)
      → (reap_one m current i (table, mem)).0 j
        ≡ (if (i == j) && reapable current j (table j) then reaped (table j) else table j)
  unfolding reap_one reapable
  reap_one-table current i j table mem = ground arith

  -- The loop clears the stack fields of the slots that it reaps, and changes nothing else.
  pub reap-table :
      (current n i j : ℕ) (table : ℕ → Process) (mem : m.State)
      → (reap m current n i (table, mem)).0 j ≡ (
          if (leb i j && ltb j (i + n)) && reapable current j (table j)
          then reaped (table j)
          else table j)
  unfolding reap
  reap-table current zero i j table mem = ground arith
  reap-table current (suc n) i j table mem = ground (
    arith,
    reap-table current n (i + 1) j (reap_one m current i (table, mem)).0
        (reap_one m current i (table, mem)).1,
    reap_one-table current i j table mem,
  )

  stacks_above :
      (current n i k : ℕ) (table : ℕ → Process) (mem : m.State)
      → k < i
      → stacks current n i (reap_one m current k (table, mem)).0 ≡ stacks current n i table
  unfolding stacks
  stacks_above current zero i k table mem h = refl
  stacks_above current (suc n) i k table mem h =
      ground
        (arith, stacks_above current n (i + 1) k table mem, reap_one-table current k i table mem)

  reap_one-memory :
      (current i : ℕ) (table : ℕ → Process) (mem : m.State)
      → (reap_one m current i (table, mem)).1
        ≡ (if reapable current i (table i) then m.kfree (table i).stack_base mem else mem)
  unfolding reap_one reapable
  reap_one-memory current i table mem = ground arith

  -- It calls kfree once for each of those stacks, and for nothing else.
  pub reap-memory :
      (current n i : ℕ) (table : ℕ → Process) (mem : m.State)
      → (reap m current n i (table, mem)).1 ≡ free_all (stacks current n i table) mem
  unfolding reap free_all stacks
  reap-memory current zero i table mem = refl
  reap-memory current (suc n) i table mem = ground (
    arith,
    reap-memory current n (i + 1) (reap_one m current i (table, mem)).0
        (reap_one m current i (table, mem)).1,
    stacks_above current n (i + 1) i table mem,
    reap_one-memory current i table mem,
  )
