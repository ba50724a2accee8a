-- ===== src/Pmm/Init.antt =====
-- pmm_init on a memory map as the boot protocol hands it over: the usable entries are made of whole
-- pages, stand in ascending order and do not overlap.
use gravityos.Base.{
  ℕ, zero, suc, ◌+◌, ◌-◌, ◌*◌, ◌/◌, ◌%◌, ◌<◌, ◌≤◌, ◌≡◌, refl, arith, true, false, ltb, List, [],
  ◌∷◌, Bool-cases, inl, inr, ℕ_discrete, ltb→lt,
}
use gravityos.Base.Bits.{every_below, every_below-lt, test_bit}
use gravityos.Pmm.{
  Pmm, MemmapEntry, usable, page_size, bitmap_size, word, bitmap_test, scan, free_page_at,
  free_range, free_usable, reserve_page, reserve_low, all_taken, clamp_pages, pmm_init,
}
use gravityos.Pmm.Bitmap.{
  AreBytes, bitmap_set-AreBytes, bitmap_clear-AreBytes, bitmap_test-set, bitmap_test-clear,
}
use gravityos.Pmm.Count.{
  free_pages, free_pages-le, free_pages-set, free_pages-clear, free_pages_none,
}
use gravityos.Pmm.Alloc.{IsSound, low_pages}

-- The usable entries from address `lo` on.
pub data LaidOut : ℕ → List MemmapEntry → Type 0 where
  done : {lo : ℕ} → LaidOut lo []
  skip :
      {lo : ℕ} {e : MemmapEntry} {es : List MemmapEntry}
      → usable e ≡ false
      → LaidOut lo es
      → LaidOut lo (e ∷ es)
  next :
      {lo : ℕ} {e : MemmapEntry} {es : List MemmapEntry}
      → usable e ≡ true
      → lo ≤ e.base
      → e.base % page_size ≡ 0
      → e.length % page_size ≡ 0
      → e.base + e.length < word
      → LaidOut (e.base + e.length) es
      → LaidOut lo (e ∷ es)

-- The loops' invariant: the accounts hold, and no page from address `lo` on is free yet.
record Building (lo : ℕ) (p : Pmm) : Type 0 where
  bytes : AreBytes p.bitmap
  capacity : p.total_pages ≤ bitmap_size * 8
  accounted : p.free_memory ≡ page_size * free_pages p.bitmap p.total_pages
  untouched : (j : ℕ) → lo ≤ j * page_size → bitmap_test p.bitmap j ≡ true

all_set_table : every_below (λ k. test_bit 255 k) 8 ≡ true
unfolding every_below
all_set_table = refl

pub all_set : (j : ℕ) → bitmap_test (λ _. 255) j ≡ true
unfolding bitmap_test
all_set j = every_below-lt _ all_set_table (j % 8) (omega arith)

all_taken-Building : (es : List MemmapEntry) → Building 0 (all_taken es)
unfolding all_taken
all_taken-Building es = record {
  bytes = λ i. omega arith;
  capacity = ground arith;
  accounted =
      omega (arith, free_pages_none (λ _. 255) (clamp_pages ((scan es 0 0).0 / page_size)) all_set);
  untouched = λ j h. all_set j;
}

free_page_at-Building :
    (p : Pmm) (page : ℕ)
    → Building (page * page_size) p
    → Building (suc page * page_size) (free_page_at p page)
unfolding free_page_at
free_page_at-Building p page b = elim (Bool-cases (ltb page p.total_pages)) [
  | inl within ↦ rw within (record {
    bytes = bitmap_clear-AreBytes p.bitmap page b.bytes;
    capacity = b.capacity;
    accounted = ground (
      arith,
      within,
      b.capacity,
      b.accounted,
      b.untouched page,
      free_pages-le p.bitmap p.total_pages,
      free_pages-clear p.bitmap page b.bytes p.total_pages,
    );
    untouched = λ j h. ground (arith, bitmap_test-clear p.bitmap page j b.bytes, b.untouched j);
  })
  | inr beyond ↦ rw beyond (record {
    bytes = b.bytes;
    capacity = b.capacity;
    accounted = b.accounted;
    untouched = λ j h. b.untouched j (omega arith);
  })
]

-- `at` is the page that the round writes.
free_range-Building :
    (n base j at : ℕ) (p : Pmm)
    → base + j ≡ at * page_size
    → base + j + n * page_size < word
    → Building (at * page_size) p
    → Building ((at + n) * page_size) (free_range n base j p)
unfolding free_range
free_range-Building zero base j at p e w b = let same : at + 0 ≡ at = omega arith in rw same b
free_range-Building (suc n) base j at p e w b =
    let here : (base + j) % word / page_size ≡ at = omega arith in
    let shift : at + suc n ≡ suc at + n = omega arith in
    rw (here, shift)
      (free_range-Building n base (j + page_size) (suc at) (free_page_at p at) (omega arith)
        (omega arith) (free_page_at-Building p at b))

Building-mono : {lo hi : ℕ} (p : Pmm) → lo ≤ hi → Building lo p → Building hi p
Building-mono p h b = record {
  bytes = b.bytes;
  capacity = b.capacity;
  accounted = b.accounted;
  untouched = λ j l. b.untouched j (omega arith);
}

free_entry-Building :
    (e : MemmapEntry) (p : Pmm) {lo : ℕ}
    → lo ≤ e.base
    → e.base % page_size ≡ 0
    → e.length % page_size ≡ 0
    → e.base + e.length < word
    → Building lo p
    → Building
        (e.base + e.length)
        (free_range ((e.length + (page_size - 1)) / page_size) e.base 0 p)
free_entry-Building e p l hb hl hw b =
    let start : e.base / page_size * page_size ≡ e.base = omega arith in
    let n : ℕ = (e.length + (page_size - 1)) / page_size in
    let stop : (e.base / page_size + n) * page_size ≡ e.base + e.length = omega arith in
    rw (← stop) (
      free_range-Building n e.base 0 (e.base / page_size) p (omega arith) (omega arith)
        (rw start (Building-mono p l b)))

free_usable-Building :
    {lo : ℕ} {es : List MemmapEntry} (p : Pmm)
    → LaidOut lo es
    → Building lo p
    → (hi : ℕ) × Building hi (free_usable es p)
unfolding free_usable
free_usable-Building {lo} p done b = (lo, b)
free_usable-Building p (skip off rest) b = rw off (free_usable-Building p rest b)
free_usable-Building p (next {e = e} on l hb hl hw rest) b =
    rw on (free_usable-Building _ rest (free_entry-Building e p l hb hl hw b))

-- What the reserving loop keeps, with the pages below `done` taken.
record Reserving (done : ℕ) (p : Pmm) : Type 0 where
  bytes : AreBytes p.bitmap
  capacity : p.total_pages ≤ bitmap_size * 8
  accounted : p.free_memory ≡ page_size * free_pages p.bitmap p.total_pages
  taken : (i : ℕ) → i < done → i < p.total_pages → bitmap_test p.bitmap i ≡ true

reserve_page-Reserving :
    (p : Pmm) (page : ℕ)
    → page < p.total_pages
    → Reserving page p
    → Reserving (page + 1) (reserve_page p page)
unfolding reserve_page
reserve_page-Reserving p page lt r = elim (Bool-cases (bitmap_test p.bitmap page)) [
  | inl old ↦ rw old (record {
    bytes = r.bytes;
    capacity = r.capacity;
    accounted = r.accounted;
    taken = λ i l u. elim (ℕ_discrete page i) [
      | yes e ↦ rw (← e) old
      | no ne ↦ r.taken i (omega arith) u
    ];
  })
  | inr new ↦ rw new (record {
    bytes = bitmap_set-AreBytes p.bitmap page r.bytes;
    capacity = r.capacity;
    accounted = omega (
      arith,
      r.capacity,
      r.accounted,
      free_pages-le p.bitmap p.total_pages,
      free_pages-set p.bitmap page r.bytes p.total_pages lt new,
    );
    taken = λ i l u. ground (arith, bitmap_test-set p.bitmap page i r.bytes, r.taken i);
  })
]

reserve_low-Reserving :
    (n page : ℕ) (p : Pmm) → Reserving page p → Reserving (page + n) (reserve_low n page p)
unfolding reserve_low
reserve_low-Reserving zero page p r = let e : page + 0 ≡ page = omega arith in rw e r
reserve_low-Reserving (suc n) page p r =
    let shift : page + suc n ≡ page + 1 + n = omega arith in
    elim (Bool-cases (ltb page p.total_pages)) [
      | inl within ↦
          rw (within, shift)
            (reserve_low-Reserving n (page + 1) (reserve_page p page)
              (reserve_page-Reserving p page (ltb→lt _ _ within) r))
      | inr beyond ↦
          rw (beyond, shift)
            (reserve_low-Reserving n (page + 1) p (record {
              bytes = r.bytes;
              capacity = r.capacity;
              accounted = r.accounted;
              taken = λ i l u. r.taken i (ground arith) u;
            }))
    ]

-- After pmm_init the free memory is the free pages, no page of the first megabyte is free, and the
-- bitmap's bounds hold, for every memory map that is laid out as the boot protocol promises.
pub init-IsSound : (es : List MemmapEntry) → LaidOut 0 es → IsSound (pmm_init es)
unfolding pmm_init
init-IsSound es l =
    let (hi, b) = free_usable-Building (all_taken es) l (all_taken-Building es) in
    let r = reserve_low-Reserving low_pages 0 (free_usable es (all_taken es)) (record {
      bytes = b.bytes;
      capacity = b.capacity;
      accounted = b.accounted;
      taken = λ i l u. elim l [ ];
    }) in
    record {
      bytes = r.bytes;
      capacity = r.capacity;
      accounted = r.accounted;
      low = λ i l u. r.taken i (omega arith) u;
    }
