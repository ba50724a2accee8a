-- ===== src/Pmm/Tests.antt =====
-- The page allocator on the memory map of a small machine.
use gravityos.Base.{◌≡◌, refl, arith, List, [], ◌∷◌, some, not, ◌&&◌, ltb, leb}
use gravityos.Pmm.{
  MemmapEntry, scan, free_page_at, free_range, free_usable, reserve_page, reserve_low, all_taken,
  pmm_init, bitmap_set, bitmap_clear, bitmap_test, find_clear, take_page, pmm_alloc_page,
  pmm_free_page,
}
use gravityos.Pmm.Alloc.{IsSound, Allocated, alloc-Allocated}
use gravityos.Pmm.Free.{Freed, free-Freed}
use gravityos.Pmm.Init.{LaidOut, done, skip, next, init-IsSound}
use gravityos.Pmm.Usable.{covered, init-pages}

-- Two pages below the first megabyte, a reserved range, and two pages above.
abbrev small_machine : List MemmapEntry
small_machine =
    record { base = 0x1000; length = 0x2000; kind = 0 }
    ∷ record { base = 0x3000; length = 0x1000; kind = 1 }
    ∷ record { base = 0x100000; length = 0x2000; kind = 0 }
    ∷ []

small_machine-LaidOut : LaidOut 0 small_machine
small_machine-LaidOut =
    next refl (omega arith) refl refl (omega arith)
      (skip refl (next refl (omega arith) refl refl (omega arith) done))

init-IsSound_example : IsSound (pmm_init small_machine)
init-IsSound_example = init-IsSound small_machine small_machine-LaidOut

init-pages_example :
    bitmap_test (pmm_init small_machine).bitmap 256
    ≡ not (covered small_machine 256 && (leb 256 256 && ltb 256 131072))
init-pages_example = init-pages small_machine 256 small_machine-LaidOut

sound : IsSound (pmm_init small_machine)
sound = init-IsSound small_machine small_machine-LaidOut

total : (pmm_init small_machine).total_pages ≡ 258
unfolding pmm_init all_taken scan free_usable free_range free_page_at reserve_low reserve_page
    bitmap_test bitmap_set bitmap_clear
total = refl

first_page : (pmm_alloc_page (pmm_init small_machine)).0 ≡ some 0x100000
unfolding pmm_init all_taken scan free_usable free_range free_page_at reserve_low reserve_page
    bitmap_test bitmap_set bitmap_clear pmm_alloc_page take_page find_clear
first_page = refl

alloc-Allocated_example :
    Allocated (pmm_init small_machine) (pmm_alloc_page (pmm_init small_machine))
alloc-Allocated_example = alloc-Allocated (pmm_init small_machine) sound

free-Freed_example :
    Freed (pmm_init small_machine) 257 (pmm_free_page (pmm_init small_machine) 0x101000)
free-Freed_example =
    free-Freed (pmm_init small_machine) 0x101000 sound (omega arith) (omega (arith, total))
