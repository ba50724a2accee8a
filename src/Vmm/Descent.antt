-- ===== src/Vmm/Descent.antt =====
-- The descent of vmm_map_page through the three levels above the page tables.
use gravityos.Base.{ℕ, ◌≤◌, ◌≡◌, refl, arith, Option, none, some, inl, length, ap, ◌∙◌}
use Prim.Native.Nat.{bit_or}
use gravityos.Vmm.{Vm, index, write_entry, next_table, step_down, deeper, put_page}
use gravityos.Vmm.Tree.{Label, IsTree, IsFresh, Extends, Keeps, next_table-Descends}
use gravityos.Vmm.Walk.{IsWalk, Keeps-trans, Extends-trans, step_down-same, step_down-some}

-- The whole descent, while three pages are left.
abbrev pub Descended : Label → ℕ → ℕ → Vm → Option ℕ × Vm → Type 0
Descended l root virt s r =
    (pt : ℕ) × (r.0 ≡ some pt)
    × (l' : Label) × Extends l l'
    × IsTree l' r.1.tables
    × IsFresh l' r.1.supply
    × Keeps l s.tables r.1.tables
    × IsWalk r.1.tables root virt pt

module _ (l : Label) (s : Vm) (root : ℕ) (top : l.level root ≡ 4) (tree : IsTree l s.tables)
    (fresh : IsFresh l s.supply) where
  abbrev pub level3 : ℕ → ℕ → Option ℕ × Vm
  level3 virt flags = next_table root (index 3 virt) flags s

  abbrev pub level2 : ℕ → ℕ → Option ℕ × Vm
  level2 virt flags = deeper (index 2 virt) flags (level3 virt flags)

  abbrev pub level1 : ℕ → ℕ → Option ℕ × Vm
  level1 virt flags = deeper (index 1 virt) flags (level2 virt flags)

  deeper-some :
      (i flags a : ℕ) (r : Option ℕ × Vm)
      → r.0 ≡ some a
      → deeper i flags r ≡ next_table a i flags r.1
  unfolding deeper
  deeper-some i flags a (none, s') e = absurd (ground arith)
  deeper-some i flags a (some b, s') e = let same : b ≡ a = ground arith in rw same refl

  kept_step :
      (l1 : Label) (a b : ℕ → ℕ → ℕ) (t i c : ℕ)
      → Keeps l1 a b
      → 1 ≤ l1.level t
      → step_down a t i ≡ some c
      → step_down b t i ≡ some c
  kept_step l1 a b t i c k up h =
      let (on, _) = step_down-some a t i c h in step_down-same a b t i c (k t i up (inl on)) h

  pub descends :
      (virt flags : ℕ) → 3 ≤ length s.supply → Descended l root virt s (level1 virt flags)
  descends virt flags left =
      let (c3, e3, (l3, x3, t3, f3, k3, v3, p3, w3, n3)) =
        next_table-Descends l root (index 3 virt) flags s (omega arith) tree fresh (omega arith) in
      let s3 = (level3 virt flags).1 in
      let up3 : l3.level c3 ≡ 3 = omega arith in
      let d2 = deeper-some (index 2 virt) flags c3 (level3 virt flags) e3 in
      let (c2, e2, (l2, x2, t2, f2, k2, v2, p2, w2, n2)) =
        next_table-Descends l3 c3 (index 2 virt) flags s3 (omega arith) t3 f3 (omega arith) in
      let s2 = (next_table c3 (index 2 virt) flags s3).1 in
      let up2 : l2.level c2 ≡ 2 = omega arith in
      let d1 = deeper-some (index 1 virt) flags c2 (level2 virt flags) (ap (λ r. r.0) d2 ∙ e2) in
      let (c1, e1, (l1, x1, t1, f1, k1, v1, p1, w1, n1)) =
        next_table-Descends l2 c2 (index 1 virt) flags s2 (omega arith) t2 f2 (omega arith) in
      let (root3, _) = x3 root (omega arith) in
      let (root2, _) = x2 root (omega arith) in
      let (mid2, _) = x2 c3 (omega arith) in
      rw (d1, d2)
        (
          c1,
          e1,
          l1,
          Extends-trans l l2 l1 (Extends-trans l l3 l2 x3 x2) x1,
          t1,
          f1,
          Keeps-trans l l2 s.tables s2.tables (next_table c2 (index 1 virt) flags s2).1.tables
              (Extends-trans l l3 l2 x3 x2) (Keeps-trans l l3 s.tables s3.tables s2.tables x3 k3 k2)
              k1,
          (
            c3,
            c2,
            kept_step l2 s2.tables (next_table c2 (index 1 virt) flags s2).1.tables root
                (index 3 virt) c3 k1 (omega arith)
                (kept_step l3 s3.tables s2.tables root (index 3 virt) c3 k2 (omega arith) w3),
            kept_step l2 s2.tables (next_table c2 (index 1 virt) flags s2).1.tables c3
                (index 2 virt) c2 k1 (omega arith) w2,
            w1,
          ),
        )

  pub put_page-some :
      (phys virt flags pt : ℕ) (r : Option ℕ × Vm)
      → r.0 ≡ some pt
      → put_page phys virt flags r ≡ record (r.1) {
        tables = write_entry r.1.tables pt (index 0 virt) (bit_or (bit_or phys flags) 1);
      }
  unfolding put_page
  put_page-some phys virt flags pt (none, s') e = absurd (ground arith)
  put_page-some phys virt flags pt (some b, s') e = let same : b ≡ pt = ground arith in rw same refl
