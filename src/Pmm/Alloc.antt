-- ===== src/Pmm/Alloc.antt =====
-- pmm_alloc_page and pmm_free_page against the set of free pages.
use gravityos.Base.{
  ℕ, zero, suc, ◌+◌, ◌*◌, ◌<◌, ◌≤◌, ◌≡◌, refl, arith, true, false, ◌||◌, ◌==◌, Option, none, some,
  Bool, Bool-cases, inl, inr, ℕ_discrete, dec_lt,
}
use gravityos.Pmm.{
  Pmm, page_size, bitmap_size, bitmap_test, find_clear, take_page, pmm_alloc_page, sub_page,
}
use gravityos.Pmm.Bitmap.{AreBytes, bitmap_set-AreBytes, bitmap_test-set}
use gravityos.Pmm.Count.{free_pages, free_pages-le, free_pages-set, free_pages_pos}

abbrev pub low_pages : ℕ
low_pages = 256

-- The free memory is the free pages, and the first megabyte is never free.
pub record IsSound (p : Pmm) : Type 0 where
  pub bytes : AreBytes p.bitmap
  pub capacity : p.total_pages ≤ bitmap_size * 8
  pub accounted : p.free_memory ≡ page_size * free_pages p.bitmap p.total_pages
  pub low : (i : ℕ) → i < low_pages → i < p.total_pages → bitmap_test p.bitmap i ≡ true

or_true : (b : Bool) → (b || true) ≡ true
or_true b = ground arith

-- What the search from page `i` over `n` pages finds: the lowest free page, or that all are taken.
abbrev pub FirstClear : (ℕ → ℕ) → ℕ → ℕ → Option ℕ → Type 0
FirstClear bm n i none = (j : ℕ) → i ≤ j → j < i + n → bitmap_test bm j ≡ true
FirstClear bm n i (some k) =
    (i ≤ k)
    × (k < i + n)
    × (bitmap_test bm k ≡ false)
    × ((j : ℕ) → i ≤ j → j < k → bitmap_test bm j ≡ true)

-- A property of all `j` from `i` on is one of `i`, and of all `j` from `i + 1` on.
from_first :
    (bm : ℕ → ℕ) (i : ℕ) (P : ℕ → Type 0)
    → bitmap_test bm i ≡ true
    → ((j : ℕ) → i + 1 ≤ j → P j → bitmap_test bm j ≡ true)
    → (j : ℕ) → i ≤ j
    → P j
    → bitmap_test bm j ≡ true
from_first bm i P e h j lo p = elim (ℕ_discrete i j) [
  | yes same ↦ rw (← same) e
  | no other ↦ h j (omega arith) p
]

FirstClear-step :
    (bm : ℕ → ℕ) (n i : ℕ) (o : Option ℕ)
    → bitmap_test bm i ≡ true
    → FirstClear bm n (i + 1) o
    → FirstClear bm (suc n) i o
FirstClear-step bm n i none e h =
    from_first bm i (λ j. j < i + suc n) e (λ j lo hi. h j lo (omega arith))
FirstClear-step bm n i (some k) e (lo, hi, clear, below) =
    (omega arith, omega arith, clear, from_first bm i (λ j. j < k) e below)

find_clear-FirstClear : (bm : ℕ → ℕ) (n i : ℕ) → FirstClear bm n i (find_clear bm n i)
unfolding find_clear
find_clear-FirstClear bm zero i = λ j lo hi. absurd (omega arith)
find_clear-FirstClear bm (suc n) i = elim (Bool-cases (bitmap_test bm i)) [
  | inl taken ↦ rw taken (FirstClear-step bm n i _ taken (find_clear-FirstClear bm n (i + 1)))
  | inr clear ↦ rw clear (omega arith, omega arith, clear, λ j l u. absurd (omega arith))
]

-- The page that pmm_alloc_page takes, and the state that it leaves.
abbrev pub Allocated : Pmm → Option ℕ × Pmm → Type 0
Allocated p (none, q) = (q ≡ p) × ((j : ℕ) → j < p.total_pages → bitmap_test p.bitmap j ≡ true)
Allocated p (some addr, q) =
    (k : ℕ) × (addr ≡ k * page_size)
    × (low_pages ≤ k)
    × (k < p.total_pages)
    × (bitmap_test p.bitmap k ≡ false)
    × ((j : ℕ) → j < k → bitmap_test p.bitmap j ≡ true)
    × ((j : ℕ) → bitmap_test q.bitmap j ≡ ((k == j) || bitmap_test p.bitmap j))
    × (q.free_memory + page_size ≡ p.free_memory)
    × (q.total_pages ≡ p.total_pages)
    × (q.total_memory ≡ p.total_memory)

not_low :
    (p : Pmm) (k : ℕ)
    → IsSound p
    → k < p.total_pages
    → bitmap_test p.bitmap k ≡ false
    → low_pages ≤ k
not_low p k s lt clear = elim (dec_lt k low_pages) [
  | yes low ↦ cc (s.low k low lt)
  | no high ↦ omega arith
]

free_memory-sub :
    (p : Pmm) (k : ℕ)
    → IsSound p
    → k < p.total_pages
    → bitmap_test p.bitmap k ≡ false
    → sub_page p.free_memory + page_size ≡ p.free_memory
free_memory-sub p k s lt clear = omega (
  arith,
  s.capacity,
  s.accounted,
  free_pages-le p.bitmap p.total_pages,
  free_pages_pos p.bitmap k s.bytes p.total_pages lt clear,
)

take_page-Allocated :
    (p : Pmm) (o : Option ℕ)
    → IsSound p
    → FirstClear p.bitmap p.total_pages 0 o
    → Allocated p (take_page p o)
unfolding take_page
take_page-Allocated p none s h = (refl, λ j lt. h j (omega arith) (omega arith))
take_page-Allocated p (some k) s (lo, hi, clear, below) = (
  k,
  refl,
  not_low p k s (omega arith) clear,
  omega arith,
  clear,
  λ j lt. below j (omega arith) lt,
  λ j. bitmap_test-set p.bitmap k j s.bytes,
  free_memory-sub p k s (omega arith) clear,
  refl,
  refl,
)

take_page-IsSound :
    (p : Pmm) (o : Option ℕ)
    → IsSound p
    → FirstClear p.bitmap p.total_pages 0 o
    → IsSound (take_page p o).1
unfolding take_page
take_page-IsSound p none s h = s
take_page-IsSound p (some k) s (lo, hi, clear, below) = record {
  bytes = bitmap_set-AreBytes p.bitmap k s.bytes;
  capacity = s.capacity;
  accounted = omega (
    arith,
    s.accounted,
    free_memory-sub p k s (omega arith) clear,
    free_pages-set p.bitmap k s.bytes p.total_pages (omega arith) clear,
  );
  low = λ i l u. rw (bitmap_test-set p.bitmap k i s.bytes, s.low i l u) (or_true (k == i));
}

-- In a sound state pmm_alloc_page takes the lowest free page: it marks that page and no other, accounts
-- for it, and returns its address, which lies above the first megabyte. It returns NULL only where every
-- page is taken, and then changes nothing.
pub alloc-Allocated : (p : Pmm) → IsSound p → Allocated p (pmm_alloc_page p)
unfolding pmm_alloc_page
alloc-Allocated p s = take_page-Allocated p _ s (find_clear-FirstClear p.bitmap p.total_pages 0)

-- From a sound state pmm_alloc_page leaves a sound one: the free memory is the free pages, and the
-- first megabyte is taken.
pub alloc-IsSound : (p : Pmm) → IsSound p → IsSound (pmm_alloc_page p).1
unfolding pmm_alloc_page
alloc-IsSound p s = take_page-IsSound p _ s (find_clear-FirstClear p.bitmap p.total_pages 0)
