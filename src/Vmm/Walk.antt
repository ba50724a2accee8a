-- ===== src/Vmm/Walk.antt =====
-- The way through the tables to an address's entry, and what keeps it.
use gravityos.Base.{
  ℕ, suc, ◌+◌, ◌*◌, ◌≤◌, ◌≡◌, ◌⊎◌, refl, arith, true, Option, none, some, if◌then◌else◌, Bool-cases,
  inl, inr, ap, ◌∙◌, subst,
}
use gravityos.Vmm.{Vm, index, present, frame_of_entry, step_down, down_from, directory, page_table}
use gravityos.Vmm.Tree.{Label, IsTree, Extends, Keeps}

abbrev pub entry_in : (ℕ → ℕ → ℕ) → Option ℕ → ℕ → Option ℕ
entry_in tables none i = none
entry_in tables (some pt) i = some (tables pt i)

-- The entry for an address at the lowest level, where the tables lead to one.
abbrev pub entry_of : ℕ → ℕ → Vm → Option ℕ
entry_of root virt s = entry_in s.tables (page_table root virt s) (index 0 virt)

-- The tables on the way to an address.
abbrev pub IsWalk : (ℕ → ℕ → ℕ) → ℕ → ℕ → ℕ → Type 0
IsWalk tables root virt pt =
    (a b : ℕ) × (step_down tables root (index 3 virt) ≡ some a)
    × (step_down tables a (index 2 virt) ≡ some b)
    × (step_down tables b (index 1 virt) ≡ some pt)

pub entry_of-IsWalk :
    (root virt pt : ℕ) (s : Vm)
    → IsWalk s.tables root virt pt
    → entry_of root virt s ≡ some (s.tables pt (index 0 virt))
entry_of-IsWalk root virt pt s (a, b, e3, e2, e1) = rw (e3, e2, e1) refl

pub down_from-some :
    (tables : ℕ → ℕ → ℕ) (o : Option ℕ) (i c : ℕ)
    → down_from tables o i ≡ some c
    → (t : ℕ) × (o ≡ some t) × (step_down tables t i ≡ some c)
down_from-some tables none i c e = absurd (ground arith)
down_from-some tables (some t) i c e = (t, refl, e)

entry_in-some :
    (tables : ℕ → ℕ → ℕ) (o : Option ℕ) (i e : ℕ)
    → entry_in tables o i ≡ some e
    → (pt : ℕ) × (o ≡ some pt) × (tables pt i ≡ e)
entry_in-some tables none i e h = absurd (ground arith)
entry_in-some tables (some pt) i e h = (pt, refl, ground arith)

pub entry_of-some :
    (root virt e : ℕ) (s : Vm)
    → entry_of root virt s ≡ some e
    → (pt : ℕ) × IsWalk s.tables root virt pt × (s.tables pt (index 0 virt) ≡ e)
entry_of-some root virt e s h =
    let (pt, o, v) = entry_in-some s.tables (page_table root virt s) (index 0 virt) e h in
    let (b, o', e1) = down_from-some s.tables (directory root virt s) (index 1 virt) pt o in
    let (a, e3, e2) =
      down_from-some s.tables (step_down s.tables root (index 3 virt)) (index 2 virt) b o' in
    (pt, (a, b, e3, e2, e1), v)

-- A step shows its entry.
pub step_down-some :
    (tables : ℕ → ℕ → ℕ) (t i c : ℕ)
    → step_down tables t i ≡ some c
    → (present (tables t i) ≡ true) × (frame_of_entry (tables t i) ≡ c)
step_down-some tables t i c h = elim (Bool-cases (present (tables t i))) [
  | inl on ↦ (on, some_same (rw on at h))
  | inr off ↦ absurd (none_some (rw off at h))
]
  where
    some_same : {a b : ℕ} → ◌≡◌ {A = Option ℕ} (some a) (some b) → a ≡ b
    some_same e = cc

    none_some : {a : ℕ} → ◌≡◌ {A = Option ℕ} none (some a) → ⊥
    none_some e = cc

pub step_down-same :
    (tables tables' : ℕ → ℕ → ℕ) (t i c : ℕ)
    → tables' t i ≡ tables t i
    → step_down tables t i ≡ some c
    → step_down tables' t i ≡ some c
step_down-same tables tables' t i c e h =
    ap (λ x. if present x then some (frame_of_entry x) else none) e ∙ h

-- The label of the next table.
pub step_down-label :
    (l : Label) (tables : ℕ → ℕ → ℕ) (t i c : ℕ)
    → IsTree l tables
    → 2 ≤ l.level t
    → step_down tables t i ≡ some c
    → (suc (l.level c) ≡ l.level t) × (l.prefix c ≡ l.prefix t * 512 + i)
step_down-label l tables t i c tree high h =
    let (on, e) = step_down-some tables t i c h in
    subst (λ x. (suc (l.level x) ≡ l.level t) × (l.prefix x ≡ l.prefix t * 512 + i)) e
      (tree t i high on)

-- The prefix of the addresses that an address's page table serves.
abbrev pub table_prefix : ℕ → ℕ → ℕ
table_prefix root_prefix virt =
    ((root_prefix * 512 + index 3 virt) * 512 + index 2 virt) * 512 + index 1 virt

-- Where the tables on the way keep their entries, so does the way.
module _ (l : Label) (tables : ℕ → ℕ → ℕ) (root virt pt : ℕ) (top : l.level root ≡ 4)
    (tree : IsTree l tables) (walk : IsWalk tables root virt pt) where
  pub IsWalk-label : (l.level pt ≡ 1) × (l.prefix pt ≡ table_prefix (l.prefix root) virt)
  IsWalk-label =
      let (a, b, e3, e2, e1) = walk in
      let (la, pa) = step_down-label l tables root (index 3 virt) a tree (omega arith) e3 in
      let (lb, pb) = step_down-label l tables a (index 2 virt) b tree (omega arith) e2 in
      let (lc, pc) = step_down-label l tables b (index 1 virt) pt tree (omega arith) e1 in
      (omega arith, omega arith)

  pub IsWalk-kept :
      (tables' : ℕ → ℕ → ℕ)
      → ((t i : ℕ) → 2 ≤ l.level t → present (tables t i) ≡ true → tables' t i ≡ tables t i)
      → IsWalk tables' root virt pt
  IsWalk-kept tables' same =
      let (a, b, e3, e2, e1) = walk in
      let (la, _) = step_down-label l tables root (index 3 virt) a tree (omega arith) e3 in
      let (lb, _) = step_down-label l tables a (index 2 virt) b tree (omega arith) e2 in
      let (p3, _) = step_down-some tables root (index 3 virt) a e3 in
      let (p2, _) = step_down-some tables a (index 2 virt) b e2 in
      let (p1, _) = step_down-some tables b (index 1 virt) pt e1 in
      (
        a,
        b,
        step_down-same tables tables' root (index 3 virt) a
            (same root (index 3 virt) (omega arith) p3) e3,
        step_down-same tables tables' a (index 2 virt) b (same a (index 2 virt) (omega arith) p2)
            e2,
        step_down-same tables tables' b (index 1 virt) pt (same b (index 1 virt) (omega arith) p1)
            e1,
      )

pub Keeps-trans :
    (l l' : Label) (a b c : ℕ → ℕ → ℕ) → Extends l l' → Keeps l a b → Keeps l' b c → Keeps l a c
Keeps-trans l l' a b c more k k' t i up h =
    let same = k t i up h in
    let (level, _) = more t up in k' t i (omega arith) (later same level h) ∙ same
  where
    later :
        b t i ≡ a t i
        → l'.level t ≡ l.level t
        → (present (a t i) ≡ true) ⊎ (l.level t ≡ 1)
        → (present (b t i) ≡ true) ⊎ (l'.level t ≡ 1)
    later same level (inl p) = inl (ap present same ∙ p)
    later same level (inr p) = inr (level ∙ p)

pub Extends-trans : (l l' l'' : Label) → Extends l l' → Extends l' l'' → Extends l l''
Extends-trans l l' l'' h k x up =
    let (a, b) = h x up in let (c, d) = k x (omega arith) in (c ∙ a, d ∙ b)
