-- ===== src/Pmm/Free.antt =====
-- pmm_free_page on the pages that the allocator manages, and its meeting with pmm_alloc_page.
use gravityos.Base.{
  ℕ, ◌+◌, ◌/◌, ◌<◌, ◌≤◌, ◌≡◌, refl, arith, true, false, not, ◌&&◌, ◌||◌, ◌==◌, if◌then◌else◌,
  Option, none, some, Bool-cases, inl, inr, dec_lt, ◌∙◌,
}
use gravityos.Pmm.{Pmm, page_size, bitmap_test, pmm_alloc_page, pmm_free_page, add_page}
use gravityos.Pmm.Bitmap.{bitmap_clear-AreBytes, bitmap_test-clear}
use gravityos.Pmm.Count.{free_pages-le, free_pages-clear}
use gravityos.Pmm.Alloc.{IsSound, Allocated, low_pages, alloc-Allocated, alloc-IsSound}

-- What pmm_free_page makes of the state: the page is free, and counted once.
pub record Freed (p : Pmm) (page : ℕ) (q : Pmm) : Type 0 where
  pub pages : (j : ℕ) → bitmap_test q.bitmap j ≡ (not (page == j) && bitmap_test p.bitmap j)
  pub free : q.free_memory ≡ p.free_memory + (if bitmap_test p.bitmap page then page_size else 0)
  pub total_pages : q.total_pages ≡ p.total_pages
  pub total_memory : q.total_memory ≡ p.total_memory

module _ (p : Pmm) (addr : ℕ) (s : IsSound p) (lo : low_pages ≤ addr / page_size)
    (hi : addr / page_size < p.total_pages) where
  free_memory-add :
      bitmap_test p.bitmap (addr / page_size) ≡ true
      → add_page p.free_memory ≡ p.free_memory + page_size
  free_memory-add taken =
      omega (arith, s.capacity, s.accounted, free_pages-le p.bitmap p.total_pages)

  -- In a sound state, for a managed page above the first megabyte, pmm_free_page frees exactly the
  -- page of the address, and adds it to the free memory where it
  -- was taken. On a page that is free already it changes nothing.
  pub free-Freed : Freed p (addr / page_size) (pmm_free_page p addr)
  unfolding pmm_free_page
  free-Freed = elim (Bool-cases (bitmap_test p.bitmap (addr / page_size))) [
    | inl taken ↦ rw taken (record {
      pages = λ j. bitmap_test-clear p.bitmap (addr / page_size) j s.bytes;
      free = rw taken (free_memory-add taken);
      total_pages = refl;
      total_memory = refl;
    })
    | inr clear ↦ rw clear (record {
      pages = λ j. ground (arith, clear);
      free = rw clear (omega arith);
      total_pages = refl;
      total_memory = refl;
    })
  ]

  -- In a sound state, for a managed page above the first megabyte, pmm_free_page keeps the free memory
  -- equal to the free pages, and leaves the first megabyte taken.
  pub free-IsSound : IsSound (pmm_free_page p addr)
  unfolding pmm_free_page
  free-IsSound = elim (Bool-cases (bitmap_test p.bitmap (addr / page_size))) [
    | inl taken ↦ rw taken (record {
      bytes = bitmap_clear-AreBytes p.bitmap (addr / page_size) s.bytes;
      capacity = s.capacity;
      accounted = omega (
        arith,
        s.accounted,
        free_memory-add taken,
        free_pages-clear p.bitmap (addr / page_size) s.bytes p.total_pages hi taken,
      );
      low = λ i l u.
          ground (arith, bitmap_test-clear p.bitmap (addr / page_size) i s.bytes, s.low i l u);
    })
    | inr clear ↦ rw clear s
  ]

module _ (p : Pmm) (addr : ℕ) (q : Pmm) (h : Allocated p (some addr, q)) (t : IsSound q) where
  page : addr / page_size ≡ h.0
  page = omega (arith, h.1)

  back : Freed q (addr / page_size) (pmm_free_page q addr)
  back = free-Freed q addr t (omega (arith, page, h.2)) (omega (arith, page, h.3, h.8))

  same_pages : (j : ℕ) → bitmap_test (pmm_free_page q addr).bitmap j ≡ bitmap_test p.bitmap j
  same_pages j = ground (arith, back.pages j, page, h.6 j, h.4)

  same_free : (pmm_free_page q addr).free_memory ≡ p.free_memory
  same_free = ground (arith, back.free, page, h.6 h.0, h.7)

  same_total : (pmm_free_page q addr).total_pages ≡ p.total_pages
  same_total = back.total_pages ∙ h.8

-- The managed pages that are free, and how much memory they are.
pub record SameMemory (p q : Pmm) : Type 0 where
  pub pages : (j : ℕ) → bitmap_test q.bitmap j ≡ bitmap_test p.bitmap j
  pub free : q.free_memory ≡ p.free_memory
  pub total_pages : q.total_pages ≡ p.total_pages

free_of_Allocated :
    (p : Pmm) (r : Option ℕ × Pmm) (addr : ℕ)
    → Allocated p r
    → IsSound r.1
    → r.0 ≡ some addr
    → SameMemory p (pmm_free_page r.1 addr)
free_of_Allocated p (none, q) addr h t e = cc
free_of_Allocated p (some a, q) addr h t e =
    let same : a ≡ addr = ground arith in
    rw (← same) (record {
      pages = same_pages p a q h t;
      free = same_free p a q h t;
      total_pages = same_total p a q h t;
    })

-- In a sound state, freeing the page that pmm_alloc_page has just returned gives back the same free
-- pages and the same free memory.
pub free-alloc :
    (p : Pmm) (addr : ℕ)
    → IsSound p
    → (pmm_alloc_page p).0 ≡ some addr
    → SameMemory p (pmm_free_page (pmm_alloc_page p).1 addr)
free-alloc p addr s e = free_of_Allocated p _ addr (alloc-Allocated p s) (alloc-IsSound p s) e

later :
    (p q : Pmm) (i j : ℕ)
    → ((k : ℕ) → k < i → bitmap_test p.bitmap k ≡ true)
    → bitmap_test q.bitmap j ≡ ((i == j) || bitmap_test p.bitmap j)
    → bitmap_test q.bitmap j ≡ false
    → i < j
later p q i j below pages free = elim (dec_lt j i) [
  | yes lt ↦ ground (arith, below j lt)
  | no ge ↦ ground arith
]

ascending :
    (p : Pmm) (r t : Option ℕ × Pmm) (a b : ℕ)
    → Allocated p r
    → Allocated r.1 t
    → r.0 ≡ some a
    → t.0 ≡ some b
    → a < b
ascending p (none, q) t a b h k ea eb = cc
ascending p (some a', q) (none, u) a b h k ea eb = cc
ascending p (some a', q) (some b', u) a b h k ea eb =
    ground (arith, later p q h.0 k.0 h.5 (h.6 k.0) k.4, h.1, k.1)

-- From a sound state, two calls of pmm_alloc_page in a row never return the same page: the second lies
-- higher.
pub alloc-alloc_lt :
    (p : Pmm) (a b : ℕ)
    → IsSound p
    → (pmm_alloc_page p).0 ≡ some a
    → (pmm_alloc_page (pmm_alloc_page p).1).0 ≡ some b
    → a < b
alloc-alloc_lt p a b s =
    ascending p _ _ a b (alloc-Allocated p s) (alloc-Allocated _ (alloc-IsSound p s))
