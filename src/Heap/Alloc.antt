-- ===== src/Heap/Alloc.antt =====
-- kmalloc: what a caller may count on.
use gravityos.Base.{
  ℕ, ◌+◌, ◌*◌, ◌/◌, ◌%◌, ◌<◌, ◌≤◌, ◌≡◌, refl, arith, Bool, true, false, List, Option, none, some,
  ◌==◌, if◌then◌else◌, inl, inr, ◌⊎◌, subst, dec_le,
}
use gravityos.Heap.{
  Block, Heap, Pages, word, header, heap_start, page_size, align_up, hand_over, retry, first_pass,
  kmalloc_aligned, kmalloc,
}
use gravityos.Heap.Chain.{used, NoneFits, FitResult, Fitted, first_fit-FitResult}
use gravityos.Heap.Expand.{IsSound, SameUse, RunsOut, Expanded, expand-Expanded}

-- The block that kmalloc hands out: it lies in the heap, is aligned and large enough, was not in use
-- and is now, and no other block's use has changed.
pub record Handed (h h' : Heap) (size p : ℕ) : Type 0 where
  pub q : ℕ
  pub got : ℕ
  pub pointer : p ≡ q + header
  pub aligned : p % 16 ≡ 0
  pub above : heap_start ≤ q
  pub enough : size ≤ got
  pub inside : p + got ≤ h'.mapped_limit
  pub fresh : used q h.blocks ≡ none
  pub users : (a : ℕ) → used a h'.blocks ≡ (if q == a then some got else used a h.blocks)

abbrev pub HandedResult : Heap → Heap → ℕ → Option ℕ → Type 0
HandedResult h h' size none = (a : ℕ) → used a h'.blocks ≡ used a h.blocks
HandedResult h h' size (some p) = Handed h h' size p

handed :
    (h : Heap) (size p : ℕ) (bs : List Block)
    → IsSound h
    → Fitted heap_start h.mapped_limit size h.blocks p bs
    → IsSound (record h { blocks = bs }) × Handed h (record h { blocks = bs }) size p
handed h size p bs s f = (
  record {
    chain = f.chain;
    small = s.small;
    whole_pages = s.whole_pages;
    coalesced = f.coalesced s.coalesced;
  },
  record {
    q = f.q;
    got = f.got;
    pointer = f.pointer;
    aligned = omega (arith, f.aligned, f.pointer);
    above = f.above;
    enough = f.enough;
    inside = omega (arith, f.pointer, f.inside);
    fresh = f.fresh;
    users = f.users;
  },
)

-- The same of a heap whose blocks in use are those of `h`.
transfer : (h g h' : Heap) (size p : ℕ) → SameUse h g → Handed g h' size p → Handed h h' size p
transfer h g h' size p same t = record {
  q = t.q;
  got = t.got;
  pointer = t.pointer;
  aligned = t.aligned;
  above = t.above;
  enough = t.enough;
  inside = t.inside;
  fresh = ground (arith, t.fresh, same.users t.q);
  users = λ a. ground (arith, t.users a, same.users a);
}

-- NULL is returned only where no free block has `size` bytes, and the pages run out among the next that
-- hold them and a header of 32 bytes.
abbrev pub OnlyIf : (pg : Pages) → Heap → ℕ → pg.State → Option ℕ → Type 0
OnlyIf pg h size st none =
    NoneFits size h.blocks × RunsOut pg ((size + 32 + 4095) / 4096) h.mapped_limit st
OnlyIf pg h size st (some p) = Unit {0}

module _ (pg : Pages) (h : Heap) (size : ℕ) (s : IsSound h) (al : size % 16 ≡ 0)
    (room : h.mapped_limit + size + 2 * page_size < word) where
  abbrev Served : pg.State → Option ℕ × Heap × pg.State → Type 0
  Served st0 r = IsSound r.1 × HandedResult h r.1 size r.0 × OnlyIf pg h size st0 r.0

  hand_over-Served :
      (g : Heap) (st0 st : pg.State) (o : Option (ℕ × List Block))
      → IsSound g
      → SameUse h g
      → (NoneFits size g.blocks → ⊥)
      → FitResult heap_start g.mapped_limit size g.blocks o
      → Served st0 (hand_over pg g st o)
  unfolding hand_over
  hand_over-Served g st0 st none sg same serves no_fit = absurd (serves no_fit)
  hand_over-Served g st0 st (some (p, bs)) sg same serves f =
      let (t, r) = handed g size p bs sg f in (t, transfer h g _ size p same r, tt)

  retry-Served :
      (st0 : pg.State) (r : Bool × Heap × pg.State)
      → NoneFits size h.blocks
      → Expanded pg h size st0 r
      → Served st0 (retry pg size r)
  unfolding retry
  retry-Served st0 (true, g, st) no_fit e =
      hand_over-Served g st0 st _ e.sound e.same (e.serves refl) (
        first_fit-FitResult heap_start g.mapped_limit size g.blocks e.sound.small al (omega arith)
          e.sound.chain)
  retry-Served st0 (false, g, st) no_fit e = (e.sound, e.same.users, (no_fit, e.out refl))

  first_pass-Served :
      (st : pg.State) (o : Option (ℕ × List Block))
      → FitResult heap_start h.mapped_limit size h.blocks o
      → Served st (first_pass pg h size st o)
  unfolding first_pass hand_over
  first_pass-Served st none no_fit =
      retry-Served st _ no_fit (expand-Expanded pg h size s al room st)
  first_pass-Served st (some (p, bs)) f = let (t, r) = handed h size p bs s f in (t, r, tt)

  aligned-Served : (st : pg.State) → Served st (kmalloc_aligned pg h size st)
  unfolding kmalloc_aligned
  aligned-Served st =
      first_pass-Served st _ (
        first_fit-FitResult heap_start h.mapped_limit size h.blocks s.small al (omega arith)
          s.chain)

-- For a number of the word, align_up gives the least multiple of 16 that is not below `n`, up to the
-- last 15 numbers of the word: there it wraps to 0.
pub align_up_lem :
    (n : ℕ)
    → n < word
    → ((n + 16 ≤ word) × (n ≤ align_up n) × (align_up n < n + 16) × (align_up n % 16 ≡ 0))
      ⊎ ((word < n + 16) × (align_up n ≡ 0))
unfolding align_up
align_up_lem n h = elim (dec_le (n + 16) word) [
  | yes le ↦ inl (le, ground arith, ground arith, ground arith)
  | no gt ↦ inr (omega arith, ground arith)
]

align_up_small :
    (n : ℕ) → n + 16 ≤ word → (n ≤ align_up n) × (align_up n < n + 16) × (align_up n % 16 ≡ 0)
unfolding align_up
align_up_small n h = ground arith

weaken :
    (h h' : Heap) (n size : ℕ) (o : Option ℕ)
    → n ≤ size
    → HandedResult h h' size o
    → HandedResult h h' n o
weaken h h' n size none le r = r
weaken h h' n size (some p) le r = record {
  q = r.q;
  got = r.got;
  pointer = r.pointer;
  aligned = r.aligned;
  above = r.above;
  enough = omega (arith, r.enough);
  inside = r.inside;
  fresh = r.fresh;
  users = r.users;
}

-- On a sound heap, for a positive size that leaves room in the address space, kmalloc keeps the heap
-- sound. What it returns
-- lies in the heap, is 16-aligned, at least as large as asked for, and the only block whose use has
-- changed. It returns NULL only if no free block has the size, rounded up to a multiple of 16, and
-- pmm_alloc_page finds no page in one of the calls that the block and its header ask for; the blocks in
-- use are then as before.
pub kmalloc-Served :
    (pg : Pages) (h : Heap) (size : ℕ) (st : pg.State)
    → IsSound h
    → 0 < size
    → h.mapped_limit + size + 3 * page_size < word
    → let r = kmalloc pg h size st in
      IsSound r.1 × HandedResult h r.1 size r.0 × OnlyIf pg h ((size + 15) / 16 * 16) st r.0
unfolding kmalloc
kmalloc-Served pg h size st s pos room =
    let a = align_up_small size (omega arith) in
    let r = aligned-Served pg h (align_up size) s a.2 (omega (arith, a.1)) st in
    let test : (size == 0) ≡ false = ground arith in
    let rounded : align_up size ≡ (size + 15) / 16 * 16 = omega (arith, a.0, a.1, a.2) in
    rw test (
      r.0,
      weaken h _ size (align_up size) _ a.0 r.1,
      subst (λ n. OnlyIf pg h n st (kmalloc_aligned pg h (align_up size) st).0) rounded r.2,
    )
