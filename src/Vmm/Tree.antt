-- ===== src/Vmm/Tree.antt =====
-- The tables as a tree, and one level of the descent.
use gravityos.Base.{
  ℕ, suc, ◌+◌, ◌-◌, ◌*◌, ◌%◌, ◌<◌, ◌≤◌, ◌≡◌, ◌≢◌, ◌⊎◌, refl, arith, Bool, true, false, ◌||◌, List,
  [], ◌∷◌, some, ◌==◌, if◌then◌else◌, Bool-cases, inl, inr, update, length, ap, sym, ◌∙◌, subst,
}
use gravityos.Vmm.{
  Vm, present, frame_of_entry, table_flags, write_entry, add_table, next_table, step_down,
}

-- What a page is used for: a table of a level from 4, the root, down to 1, for the addresses with a
-- prefix; the level 0 stands for a page that is no table.
pub record Label : Type 0 where
  pub level : ℕ → ℕ
  pub prefix : ℕ → ℕ

-- Every entry of a table above level 1 that is present leads to the table of the entry's addresses.
abbrev pub IsTree : Label → (ℕ → ℕ → ℕ) → Type 0
IsTree l tables =
    (t i : ℕ)
    → 2 ≤ l.level t
    → present (tables t i) ≡ true
    → (suc (l.level (frame_of_entry (tables t i))) ≡ l.level t)
      × (l.prefix (frame_of_entry (tables t i)) ≡ l.prefix t * 512 + i)

abbrev pub elem : ℕ → List ℕ → Bool
elem x [] = false
elem x (y ∷ ys) = (y == x) || elem x ys

-- The pages that are handed out are whole pages, no tables, and each is handed out once.
abbrev pub IsFresh : Label → List ℕ → Type 0
IsFresh l [] = Unit {0}
IsFresh l (p ∷ ps) = (l.level p ≡ 0) × (p % 4096 ≡ 0) × (elem p ps ≡ false) × IsFresh l ps

-- Tables stay what they are.
abbrev pub Extends : Label → Label → Type 0
Extends l l' = (x : ℕ) → 1 ≤ l.level x → (l'.level x ≡ l.level x) × (l'.prefix x ≡ l.prefix x)

-- In a table, an entry that is present is kept, and so is every entry of the lowest level.
abbrev pub Keeps : Label → (ℕ → ℕ → ℕ) → (ℕ → ℕ → ℕ) → Type 0
Keeps l tables tables' =
    (t i : ℕ)
    → 1 ≤ l.level t
    → (present (tables t i) ≡ true) ⊎ (l.level t ≡ 1)
    → tables' t i ≡ tables t i

abbrev pub named : Label → ℕ → ℕ → ℕ → Label
named l page level prefix = record {
  level = update l.level page level;
  prefix = update l.prefix page prefix;
}

IsFresh-named :
    (l : Label) (page level prefix : ℕ) (ps : List ℕ)
    → elem page ps ≡ false
    → IsFresh l ps
    → IsFresh (named l page level prefix) ps
IsFresh-named l page level prefix [] h k = tt
IsFresh-named l page level prefix (p ∷ ps) h (free, whole, once, rest) =
    (ground arith, whole, once, IsFresh-named l page level prefix ps (ground arith) rest)

-- The entries once a table was added.
added :
    (tables : ℕ → ℕ → ℕ) (page t i e t' i' : ℕ)
    → page ≢ t
    → write_entry (update tables page (λ _. 0)) t i e t' i' ≡ (
        if t == t'
        then (if i == i' then e else tables t i')
        else if page == t'
        then 0
        else tables t' i')
added tables page t i e t' i' h = ground arith

entry_flags :
    (page flags : ℕ)
    → page % 4096 ≡ 0
    → (present (page + table_flags flags) ≡ true)
      × (frame_of_entry (page + table_flags flags) ≡ page)
entry_flags page flags h = (ground arith, omega arith)

-- What one level of the descent gives: the next table, for the addresses with the entry's index behind
-- the prefix, in a tree with the tables and the present entries of before.
abbrev pub Descends : Label → ℕ → ℕ → Vm → ℕ → Vm → Type 0
Descends l t i s c s' =
    (l' : Label) × Extends l l'
    × IsTree l' s'.tables
    × IsFresh l' s'.supply
    × Keeps l s.tables s'.tables
    × (suc (l'.level c) ≡ l.level t)
    × (l'.prefix c ≡ l.prefix t * 512 + i)
    × (step_down s'.tables t i ≡ some c)
    × (length s.supply ≤ suc (length s'.supply))

-- The law of a tree at one entry that leads to `f`.
abbrev Leads : Label → ℕ → ℕ → ℕ → Type 0
Leads l t i f = (suc (l.level f) ≡ l.level t) × (l.prefix f ≡ l.prefix t * 512 + i)

Leads-named :
    (l : Label) (page level prefix t i f : ℕ)
    → l.level page ≡ 0
    → page ≢ t
    → 2 ≤ l.level t
    → Leads l t i f
    → Leads (named l page level prefix) t i f
Leads-named l page level prefix t i f free apart high (a, b) =
    let other : page ≢ f = λ e. omega (arith, ap (λ x. l.level x) e) in (ground arith, ground arith)

Leads-new :
    (l : Label) (page t i : ℕ)
    → page ≢ t
    → 2 ≤ l.level t
    → Leads (named l page (l.level t - 1) (l.prefix t * 512 + i)) t i page
Leads-new l page t i apart high = (ground arith, ground arith)

added-IsTree :
    (l : Label) (tables : ℕ → ℕ → ℕ) (page t i flags : ℕ)
    → 2 ≤ l.level t
    → l.level page ≡ 0
    → page % 4096 ≡ 0
    → IsTree l tables
    → IsTree
        (named l page (l.level t - 1) (l.prefix t * 512 + i))
        (write_entry (update tables page (λ _. 0)) t i (page + table_flags flags))
added-IsTree l tables page t i flags high free whole tree t' i' up on =
    elim (Bool-cases (page == t')) [
      | inl same ↦ absurd (ground (arith, now))
      | inr other ↦
          let far : page ≢ t' = ground arith in
          let up' : 2 ≤ l.level t' = ground arith in
          elim (Bool-cases (t == t')) [
            | inl here ↦ elim (Bool-cases (i == i')) [
              | inl this ↦
                  let e : t ≡ t' = ground arith in
                  let e' : i ≡ i' = ground arith in
                  let w : write_entry (update tables page (λ _. 0)) t i (page + table_flags flags)
                        t' i'
                      ≡ page + table_flags flags =
                    now ∙ ground arith in
                  let back = (entry_flags page flags whole).1 in
                  subst (Leads (named l page (l.level t - 1) (l.prefix t * 512 + i)) t' i')
                    (sym (ap frame_of_entry w ∙ back))
                    (subst
                      (λ x. Leads (named l page (l.level t - 1) (l.prefix t * 512 + i)) x i' page) e
                      (subst
                        (λ y. Leads (named l page (l.level t - 1) (l.prefix t * 512 + i)) t y page)
                        e' (Leads-new l page t i apart high)))
              | inr off ↦ kept (now ∙ same_table here off) far up'
            ]
            | inr off ↦ kept (now ∙ ground arith) far up'
          ]
    ]
  where
    apart : page ≢ t
    apart e = omega (arith, ap (λ x. l.level x) e)

    now : write_entry (update tables page (λ _. 0)) t i (page + table_flags flags) t' i' ≡ (
        if t == t'
        then (if i == i' then page + table_flags flags else tables t i')
        else if page == t'
        then 0
        else tables t' i')
    now = added tables page t i (page + table_flags flags) t' i' apart

    same_table :
        (t == t') ≡ true
        → (i == i') ≡ false
        → (if t == t'
            then (if i == i' then page + table_flags flags else tables t i')
            else if page == t'
            then 0
            else tables t' i')
          ≡ tables t' i'
    same_table here off = let e : t ≡ t' = ground arith in rw (here, off) (ap (λ x. tables x i') e)

    kept :
        write_entry (update tables page (λ _. 0)) t i (page + table_flags flags) t' i'
          ≡ tables t' i'
        → page ≢ t'
        → 2 ≤ l.level t'
        → Leads (named l page (l.level t - 1) (l.prefix t * 512 + i)) t' i' (
            frame_of_entry
              (write_entry (update tables page (λ _. 0)) t i (page + table_flags flags) t' i'))
    kept w far up' =
        subst
          (λ e.
            Leads (named l page (l.level t - 1) (l.prefix t * 512 + i)) t' i' (frame_of_entry e))
          (sym w)
          (Leads-named l page (l.level t - 1) (l.prefix t * 512 + i) t' i'
            (frame_of_entry (tables t' i')) free far up' (tree t' i' up' (ap present (sym w) ∙ on)))

descend_old :
    (l : Label) (t i : ℕ) (s : Vm)
    → 2 ≤ l.level t
    → IsTree l s.tables
    → IsFresh l s.supply
    → present (s.tables t i) ≡ true
    → Descends l t i s (frame_of_entry (s.tables t i)) s
descend_old l t i s high tree fresh on =
    let (a, b) = tree t i high on in
    (l, λ x h. (refl, refl), tree, fresh, λ t' i' h k. refl, a, b, rw on refl, omega arith)

descend_new :
    (l : Label) (t i flags page : ℕ) (rest : List ℕ) (tables : ℕ → ℕ → ℕ)
    → 2 ≤ l.level t
    → IsTree l tables
    → IsFresh l (page ∷ rest)
    → present (tables t i) ≡ false
    → Descends l t i
        (record { tables = tables; supply = page ∷ rest })
        page
        (record {
          tables = write_entry (update tables page (λ _. 0)) t i (page + table_flags flags);
          supply = rest;
        })
descend_new l t i flags page rest tables high tree (free, whole, once, fresh) off =
    let (on, back) = entry_flags page flags whole in
    let apart : page ≢ t = λ e. omega (arith, ap (λ x. l.level x) e) in
    let here : write_entry (update tables page (λ _. 0)) t i (page + table_flags flags) t i
        ≡ page + table_flags flags =
      ground arith in
    (
      named l page (l.level t - 1) (l.prefix t * 512 + i),
      λ x h.
          let other : page ≢ x = λ e. omega (arith, ap (λ y. l.level y) e) in
          (ground arith, ground arith),
      added-IsTree l tables page t i flags high free whole tree,
      IsFresh-named l page (l.level t - 1) (l.prefix t * 512 + i) rest once fresh,
      λ t' i' h k.
          let other : page ≢ t' = λ e. omega (arith, ap (λ y. l.level y) e) in
          added tables page t i (page + table_flags flags) t' i' apart ∙ unchanged t' i' other k,
      ground arith,
      ground arith,
      rw here (rw on (ap some back)),
      omega arith,
    )
  where
    unchanged :
        (t' i' : ℕ)
        → page ≢ t'
        → (present (tables t' i') ≡ true) ⊎ (l.level t' ≡ 1)
        → (if t == t'
            then (if i == i' then page + table_flags flags else tables t i')
            else if page == t'
            then 0
            else tables t' i')
          ≡ tables t' i'
    unchanged t' i' other k = elim (Bool-cases (t == t')) [
      | inr away ↦ ground arith
      | inl here ↦
          let e : t ≡ t' = ground arith in
          elim (Bool-cases (i == i')) [
            | inr off' ↦ rw (here, off') (ap (λ x. tables x i') e)
            | inl this ↦
                let e' : i ≡ i' = ground arith in
                let off' : present (tables t' i') ≡ false =
                  subst (λ x. present (tables x i') ≡ false) e
                    (subst (λ y. present (tables t y) ≡ false) e' off) in
                elim k [
                  | inl p ↦ absurd (clash p off')
                  | inr p ↦ absurd (omega (arith, ap (λ x. l.level x) e))
                ]
          ]
    ]
      where
        clash : {b : Bool} → b ≡ true → b ≡ false → ⊥
        clash p q = cc

-- One level of the descent, while a page is left.
pub next_table-Descends :
    (l : Label) (t i flags : ℕ) (s : Vm)
    → 2 ≤ l.level t
    → IsTree l s.tables
    → IsFresh l s.supply
    → 0 < length s.supply
    → (c : ℕ) × ((next_table t i flags s).0 ≡ some c)
      × Descends l t i s c (next_table t i flags s).1
unfolding next_table
next_table-Descends l t i flags s high tree fresh left =
    elim (Bool-cases (present (s.tables t i))) [
      | inl on ↦ rw on (frame_of_entry (s.tables t i), refl, descend_old l t i s high tree fresh on)
      | inr off ↦ rw off (go off s.supply refl)
    ]
  where
    go :
        present (s.tables t i) ≡ false
        → (pages : List ℕ) → s.supply ≡ pages
        → (c : ℕ) × ((add_table t i flags s).0 ≡ some c)
          × Descends l t i s c (add_table t i flags s).1
    go off [] e = absurd (omega (arith, ap length e))
    go off (page ∷ rest) e =
        let fresh' = subst (IsFresh l) e fresh in
        rw e (page, refl, descend_new l t i flags page rest s.tables high tree fresh' off)
