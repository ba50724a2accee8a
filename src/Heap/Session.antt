-- ===== src/Heap/Session.antt =====
-- The heap from heap_init on, and kmalloc and kfree one after the other.
use gravityos.Base.{
  ℕ, ◌+◌, ◌*◌, ◌<◌, ◌≡◌, refl, arith, Option, false, true, sym, ◌∙◌, [], none, some,
}
use gravityos.Heap.{
  Heap, Pages, word, heap_start, page_size, heap_init, kmalloc, FreeStatus, freed, null, bad_magic,
  double_free, faulted, forged, kfree,
}
use gravityos.Heap.Chain.{used}
use gravityos.Heap.Expand.{IsSound, expand-Expanded}
use gravityos.Heap.Alloc.{Handed, kmalloc-Served}
use gravityos.Heap.Free.{
  FreeResult, header_of, header_at, free_block_at, no_header-used, free_block-used,
  kfree-FreeResult,
}

abbrev empty_heap : Heap
empty_heap = record { mapped_limit = heap_start; blocks = [] }

empty-IsSound : IsSound empty_heap
empty-IsSound = record {
  chain = omega arith;
  small = omega arith;
  whole_pages = refl;
  coalesced = tt;
}

-- heap_init leaves a sound heap with no block in use, also where the pages run out.
pub init-Expanded :
    (pg : Pages) (st : pg.State)
    → IsSound (heap_init pg st).1 × ((a : ℕ) → used a (heap_init pg st).1.blocks ≡ none)
unfolding heap_init
init-Expanded pg st =
    let e = expand-Expanded pg empty_heap page_size empty-IsSound refl (omega arith) st in
    (e.sound, e.same.users)

-- From `h` to `h'` no block's use has changed, and `s` says that a block was freed.
pub record Restored (h : Heap) (s : FreeStatus) (h' : Heap) : Type 0 where
  pub status : s ≡ freed
  pub sound : IsSound h'
  pub users : (a : ℕ) → used a h'.blocks ≡ used a h.blocks

freed_again :
    (stray : ℕ → Option ℕ) (h h' : Heap) (size p : ℕ) (r : FreeStatus × Heap)
    → Handed h h' size p
    → IsSound h'
    → FreeResult stray h' p r
    → Restored h r.0 r.1
freed_again stray h h' size p (s', g) t sound f =
    let at : header_of p ≡ t.q = omega (arith, t.pointer, t.inside, sound.small) in after s' f at
  where
    here : header_of p ≡ t.q → used (header_of p) h'.blocks ≡ some t.got
    here at = ground (arith, t.users t.q, at)

    some_none : {n : ℕ} → ◌≡◌ {A = Option ℕ} (some n) none → ⊥
    some_none q = cc

    in_list : header_of p ≡ t.q → header_at (header_of p) h'.blocks ≡ false → ⊥
    in_list at off = some_none (sym (here at) ∙ no_header-used (header_of p) h'.blocks off)

    not_free : header_of p ≡ t.q → free_block_at (header_of p) h'.blocks ≡ true → ⊥
    not_free at on = some_none (
        sym (here at)
        ∙ free_block-used heap_start h'.mapped_limit (header_of p) h'.blocks sound.chain on)

    after : (s : FreeStatus) → FreeResult stray h' p (s, g) → header_of p ≡ t.q → Restored h s g
    after freed (sound, _, _, _, users) at = record {
      status = refl;
      sound = sound;
      users = λ a. ground (arith, users a, t.users a, t.fresh, at);
    }
    after null (_, z) at = absurd (omega (arith, t.pointer, z))
    after bad_magic (_, (_, no_header), _) at = absurd (in_list at no_header)
    after faulted ((_, no_header), _) at = absurd (in_list at no_header)
    after forged ((_, no_header), _) at = absurd (in_list at no_header)
    after double_free (_, free) at = absurd (not_free at free)

-- On a sound heap, a block that kmalloc has just handed out, for a positive size that leaves room in
-- the address space, can be freed: kfree reports no error, keeps the heap
-- sound, and the blocks in use are those of before the kmalloc.
pub kfree-kmalloc :
    (stray : ℕ → Option ℕ) (pg : Pages) (h : Heap) (size p : ℕ) (st : pg.State)
    → IsSound h
    → 0 < size
    → h.mapped_limit + size + 3 * page_size < word
    → (kmalloc pg h size st).0 ≡ some p
    → let r = kfree stray (kmalloc pg h size st).1 p in Restored h r.0 r.1
kfree-kmalloc stray pg h size p st s pos room e =
    let (sound, result, _) = kmalloc-Served pg h size st s pos room in
    freed_again stray h _ size p _ (rw e at result) sound (kfree-FreeResult stray _ p sound)
