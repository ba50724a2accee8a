-- ===== src/Pmm/Usable.antt =====
-- Which pages pmm_init leaves free.
use gravityos.Base.{
  ℕ, zero, suc, ◌+◌, ◌-◌, ◌*◌, ◌/◌, ◌%◌, ◌<◌, ◌≤◌, ◌≡◌, refl, arith, Bool, true, false, not, ◌&&◌,
  ◌||◌, ◌==◌, if◌then◌else◌, ltb, leb, List, [], ◌∷◌, Bool-cases, inl, inr, ◌∙◌,
}
use gravityos.Pmm.{
  Pmm, MemmapEntry, usable, page_size, word, bitmap_test, free_page_at, free_range, free_usable,
  scan, reserve_page, reserve_low, all_taken, pmm_init,
}
use gravityos.Pmm.Bitmap.{
  AreBytes, bitmap_set-AreBytes, bitmap_clear-AreBytes, bitmap_test-set, bitmap_test-clear,
}
use gravityos.Pmm.Alloc.{low_pages}
use gravityos.Pmm.Init.{LaidOut, done, skip, next, all_set}

-- The page lies in a usable entry.
unfoldable pub covered : List MemmapEntry → ℕ → Bool
covered [] page = false
covered (e ∷ es) page =
    ((e.kind == 0) && (leb (e.base / 4096) page && ltb page ((e.base + e.length) / 4096)))
    || covered es page

-- From `p` to `q` the pages that `f` names are given free, as far as they are managed.
record Clears (f : ℕ → Bool) (p q : Pmm) : Type 0 where
  bytes : AreBytes q.bitmap
  total : q.total_pages ≡ p.total_pages
  pages :
      (x : ℕ)
      → bitmap_test q.bitmap x ≡ (bitmap_test p.bitmap x && not (f x && ltb x p.total_pages))

free_page_at-Clears :
    (p : Pmm) (page : ℕ) → AreBytes p.bitmap → Clears (λ x. page == x) p (free_page_at p page)
unfolding free_page_at
free_page_at-Clears p page b = elim (Bool-cases (ltb page p.total_pages)) [
  | inl within ↦ rw within (record {
    bytes = bitmap_clear-AreBytes p.bitmap page b;
    total = refl;
    pages = λ x. ground (arith, within, bitmap_test-clear p.bitmap page x b);
  })
  | inr beyond ↦ rw beyond (record { bytes = b; total = refl; pages = λ x. ground (arith, beyond) })
]

abbrev within_range : ℕ → ℕ → ℕ → Bool
within_range from n x = leb from x && ltb x (from + n)

free_range-Clears :
    (n base j at : ℕ) (p : Pmm)
    → base + j ≡ at * page_size
    → base + j + n * page_size < word
    → AreBytes p.bitmap
    → Clears (within_range at n) p (free_range n base j p)
unfolding free_range
free_range-Clears zero base j at p e w b = record {
  bytes = b;
  total = refl;
  pages = λ x. ground arith;
}
free_range-Clears (suc n) base j at p e w b =
    let here : (base + j) % word / page_size ≡ at = omega arith in
    let c = free_page_at-Clears p at b in
    let d =
      free_range-Clears n base (j + page_size) (suc at) (free_page_at p at) (omega arith)
        (omega arith) c.bytes in
    rw here (record {
      bytes = d.bytes;
      total = d.total ∙ c.total;
      pages = λ x. ground (arith, d.pages x, c.pages x, c.total);
    })

Clears-ext : {f g : ℕ → Bool} (p q : Pmm) → ((x : ℕ) → f x ≡ g x) → Clears f p q → Clears g p q
Clears-ext p q same c = record {
  bytes = c.bytes;
  total = c.total;
  pages = λ x. rw (← same x) (c.pages x);
}

covered_skip :
    (e : MemmapEntry) (es : List MemmapEntry) (x : ℕ)
    → usable e ≡ false
    → covered es x ≡ covered (e ∷ es) x
unfolding covered
covered_skip e es x off = rw off

free_usable-Clears :
    {lo : ℕ} {es : List MemmapEntry} (p : Pmm)
    → LaidOut lo es
    → AreBytes p.bitmap
    → Clears (covered es) p (free_usable es p)
unfolding free_usable covered
free_usable-Clears p done b = record { bytes = b; total = refl; pages = λ x. ground arith }
free_usable-Clears p (skip {e = e} {es = es} off rest) b =
    let same : (x : ℕ) → covered es x ≡ covered (e ∷ es) x = λ x. covered_skip e es x off in
    Clears-ext p (free_usable (e ∷ es) p) same (rw off (free_usable-Clears p rest b))
free_usable-Clears p (next {e = e} {es = es} on l hb hl hw rest) b =
    let n : ℕ = (e.length + (page_size - 1)) / page_size in
    let c = free_range-Clears n e.base 0 (e.base / page_size) p (omega arith) (omega arith) b in
    let d = free_usable-Clears (free_range n e.base 0 p) rest c.bytes in
    let top : (e.base + e.length) / page_size ≡ e.base / page_size + n = omega arith in
    rw on (record {
      bytes = d.bytes;
      total = d.total ∙ c.total;
      pages = λ x.
          rw (d.pages x, c.pages x, c.total, top, on)
            (split (bitmap_test p.bitmap x) (within_range (e.base / page_size) n x) (covered es x)
              (ltb x p.total_pages));
    })
  where
    split : (t f g u : Bool) → ((t && not (f && u)) && not (g && u)) ≡ (t && not ((f || g) && u))
    split t f g u = ground arith

-- The loop over the first megabyte takes the pages from `page` on, `n` of them, and no other.
record Reserves (from n : ℕ) (p q : Pmm) : Type 0 where
  total : q.total_pages ≡ p.total_pages
  pages :
      (x : ℕ)
      → bitmap_test q.bitmap x
        ≡ ((within_range from n x && ltb x p.total_pages) || bitmap_test p.bitmap x)

reserve_page-bitmap :
    (p : Pmm) (page x : ℕ)
    → AreBytes p.bitmap
    → bitmap_test (reserve_page p page).bitmap x ≡ ((page == x) || bitmap_test p.bitmap x)
unfolding reserve_page
reserve_page-bitmap p page x b = ground (arith, bitmap_test-set p.bitmap page x b, at_page)
  where
    at_page : (page == x) ≡ true → bitmap_test p.bitmap x ≡ bitmap_test p.bitmap page
    at_page e = ground arith

reserve_page-AreBytes :
    (p : Pmm) (page : ℕ) → AreBytes p.bitmap → AreBytes (reserve_page p page).bitmap
unfolding reserve_page
reserve_page-AreBytes p page b x = ground (arith, b x, bitmap_set-AreBytes p.bitmap page b x)

reserve_page-total_pages : (p : Pmm) (page : ℕ) → (reserve_page p page).total_pages ≡ p.total_pages
unfolding reserve_page
reserve_page-total_pages p page = ground arith

reserve_low-Reserves :
    (n page : ℕ) (p : Pmm) → AreBytes p.bitmap → Reserves page n p (reserve_low n page p)
unfolding reserve_low
reserve_low-Reserves zero page p b = record { total = refl; pages = λ x. ground arith }
reserve_low-Reserves (suc n) page p b = elim (Bool-cases (ltb page p.total_pages)) [
  | inl within ↦
      let q = reserve_page p page in
      let r = reserve_low-Reserves n (page + 1) q (reserve_page-AreBytes p page b) in
      rw within (record {
        total = r.total ∙ reserve_page-total_pages p page;
        pages = λ x. ground (
          arith,
          r.pages x,
          reserve_page-bitmap p page x b,
          reserve_page-total_pages p page,
          within,
        );
      })
  | inr beyond ↦
      let r = reserve_low-Reserves n (page + 1) p b in
      rw beyond (record { total = r.total; pages = λ x. ground (arith, r.pages x, beyond) })
]

-- The first loop of pmm_init never lowers the highest address.
scan-above : (es : List MemmapEntry) (highest total : ℕ) → highest ≤ (scan es highest total).0
unfolding scan
scan-above [] highest total = omega arith
scan-above (e ∷ es) highest total =
    let top = (e.base + e.length) % word in
    let next = if usable e then if ltb highest top then top else highest else highest in
    let up : highest ≤ next = ground arith in
    let rest = scan-above es next (if usable e then (total + e.length) % word else total) in
    omega (arith, up, rest)

-- A page of a usable entry lies below the highest address that the loop finds.
covered-scan :
    {lo : ℕ} {es : List MemmapEntry} (page highest total : ℕ)
    → LaidOut lo es
    → covered es page ≡ true
    → page < (scan es highest total).0 / page_size
unfolding scan covered
covered-scan page highest total done c = absurd (ground arith)
covered-scan page highest total (skip {e = e} {es = es} off rest) c =
    rw (off, scan) (covered-scan page highest total rest (rw off at c))
covered-scan page highest total (next {e = e} {es = es} on l hb hl hw rest) c =
    let top = (e.base + e.length) % word in
    let whole : top ≡ e.base + e.length = omega arith in
    let high = if ltb highest top then top else highest in
    let up : top ≤ high = ground arith in
    let above = scan-above es high ((total + e.length) % word) in
    rw (on, scan)
      (elim (Bool-cases (covered es page)) [
        | inl later ↦ covered-scan page high ((total + e.length) % word) rest later
        | inr here ↦
            let within : page < (e.base + e.length) / page_size = ground (arith, c, on, here) in
            omega (arith, up, above, within, whole)
      ])

-- The bitmap's end is the only bound on the pages of usable entries that are managed.
covered-managed :
    (es : List MemmapEntry) (page : ℕ)
    → LaidOut 0 es
    → (covered es page && ltb page (all_taken es).total_pages)
      ≡ (covered es page && ltb page 131072)
unfolding all_taken
covered-managed es page l = elim (Bool-cases (covered es page)) [
  | inr off ↦ rw off refl
  | inl on ↦ let below = covered-scan page 0 0 l on in rw on (ground (arith, below))
]

-- For every memory map that is laid out as the boot protocol promises, pmm_init leaves free exactly
-- the pages of the usable entries that lie above the first megabyte (256 pages) and below the end of
-- the bitmap's 16384 bytes (131072 pages).
pub init-pages :
    (es : List MemmapEntry) (page : ℕ)
    → LaidOut 0 es
    → bitmap_test (pmm_init es).bitmap page
      ≡ not (covered es page && (leb 256 page && ltb page 131072))
unfolding pmm_init all_taken
init-pages es page l =
    let c = free_usable-Clears (all_taken es) l (λ i. omega arith) in
    let r = reserve_low-Reserves low_pages 0 (free_usable es (all_taken es)) c.bytes in
    ground (arith, r.pages page, c.pages page, c.total, all_set page, covered-managed es page l)
