-- ===== src/Heap/Tests.antt =====
-- The heap over an allocator with a number of pages left.
use gravityos.Base.{ℕ, zero, suc, ◌+◌, ◌*◌, ◌≡◌, refl, arith, Option, none, some}
use gravityos.Heap.{
  Heap, Pages, heap_start, page_size, align_up, first_fit, append_block, map_pages, grow,
  heap_expand, heap_init, hand_over, first_pass, kmalloc_aligned, kmalloc, kfree,
}
use gravityos.Heap.Expand.{IsSound}
use gravityos.Heap.Alloc.{HandedResult, OnlyIf, kmalloc-Served}
use gravityos.Heap.Free.{FreeResult, kfree-FreeResult}
use gravityos.Heap.Session.{init-Expanded, Restored, kfree-kmalloc}

-- The state is how many pages are left.
abbrev take_one : ℕ → Option ℕ × ℕ
take_one zero = (none, zero)
take_one (suc n) = (some (n * page_size), n)

abbrev some_pages : Pages
some_pages = record { State = ℕ; alloc_page = take_one; map_page = λ phys virt left. left }

-- The heap that heap_init makes: three pages in one free block.
abbrev fresh_heap : Heap
fresh_heap = (heap_init some_pages 8).1

fresh : IsSound fresh_heap
fresh = (init-Expanded some_pages 8).0

limit : fresh_heap.mapped_limit ≡ heap_start + 2 * page_size
unfolding heap_init heap_expand map_pages grow align_up
limit = refl

kmalloc-Served_example :
    let r = kmalloc some_pages fresh_heap 100 5 in
    IsSound r.1 × HandedResult fresh_heap r.1 100 r.0 × OnlyIf some_pages fresh_heap 112 5 r.0
kmalloc-Served_example =
    kmalloc-Served some_pages fresh_heap 100 5 fresh (omega arith) (omega (arith, limit))

handed_out : (kmalloc some_pages fresh_heap 100 5).0 ≡ some (heap_start + 32)
unfolding heap_init heap_expand map_pages grow align_up kmalloc kmalloc_aligned first_pass first_fit
    hand_over append_block
handed_out = refl

-- No memory outside the heap's headers.
abbrev unmapped : ℕ → Option ℕ
unmapped a = none

kfree-kmalloc_example :
    let r = kfree unmapped (kmalloc some_pages fresh_heap 100 5).1 (heap_start + 32) in
    Restored fresh_heap r.0 r.1
kfree-kmalloc_example =
    kfree-kmalloc unmapped some_pages fresh_heap 100 (heap_start + 32) 5 fresh (omega arith)
      (omega (arith, limit)) handed_out

kfree-FreeResult_example :
    FreeResult unmapped
      (kmalloc some_pages fresh_heap 100 5).1
      (heap_start + 32)
      (kfree unmapped (kmalloc some_pages fresh_heap 100 5).1 (heap_start + 32))
kfree-FreeResult_example =
    kfree-FreeResult unmapped (kmalloc some_pages fresh_heap 100 5).1 (heap_start + 32)
      (kmalloc-Served some_pages fresh_heap 100 5 fresh (omega arith) (omega (arith, limit))).0
