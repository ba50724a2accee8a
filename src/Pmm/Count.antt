-- ===== src/Pmm/Count.antt =====
-- How many pages are free, and what one bit operation does to that number.
use gravityos.Base.{ℕ, zero, suc, ◌+◌, ◌<◌, ◌≤◌, ◌≡◌, refl, arith, true, false, if◌then◌else◌}
use gravityos.Pmm.{bitmap_set, bitmap_clear, bitmap_test}
use gravityos.Pmm.Bitmap.{AreBytes, bitmap_test-set, bitmap_test-clear}

-- The pages below `n` whose bit is clear.
unfoldable pub free_pages : (ℕ → ℕ) → ℕ → ℕ
free_pages bm zero = 0
free_pages bm (suc n) = (if bitmap_test bm n then 0 else 1) + free_pages bm n

pub free_pages-le : (bm : ℕ → ℕ) (n : ℕ) → free_pages bm n ≤ n
unfolding free_pages
free_pages-le bm zero = omega arith
free_pages-le bm (suc n) = ground (arith, free_pages-le bm n)

module _ (bm : ℕ → ℕ) (i : ℕ) (bytes : AreBytes bm) where
  free_pages-set_above : (n : ℕ) → n ≤ i → free_pages (bitmap_set bm i) n ≡ free_pages bm n
  unfolding free_pages
  free_pages-set_above zero h = refl
  free_pages-set_above (suc n) h =
      ground (arith, free_pages-set_above n, bitmap_test-set bm i n bytes)

  -- Taking a free page leaves one free page fewer.
  pub free_pages-set :
      (n : ℕ)
      → i < n
      → bitmap_test bm i ≡ false
      → free_pages (bitmap_set bm i) n + 1 ≡ free_pages bm n
  unfolding free_pages
  free_pages-set zero h e = elim h [ ]
  free_pages-set (suc n) h e =
      ground (arith, free_pages-set n, free_pages-set_above n, bitmap_test-set bm i n bytes)

  pub free_pages-clear_above : (n : ℕ) → n ≤ i → free_pages (bitmap_clear bm i) n ≡ free_pages bm n
  unfolding free_pages
  free_pages-clear_above zero h = refl
  free_pages-clear_above (suc n) h =
      ground (arith, free_pages-clear_above n, bitmap_test-clear bm i n bytes)

  -- Giving a taken page back leaves one free page more.
  pub free_pages-clear :
      (n : ℕ)
      → i < n
      → bitmap_test bm i ≡ true
      → free_pages (bitmap_clear bm i) n ≡ free_pages bm n + 1
  unfolding free_pages
  free_pages-clear zero h e = elim h [ ]
  free_pages-clear (suc n) h e =
      ground (arith, free_pages-clear n, free_pages-clear_above n, bitmap_test-clear bm i n bytes)

  pub free_pages_pos : (n : ℕ) → i < n → bitmap_test bm i ≡ false → 0 < free_pages bm n
  free_pages_pos n h e = omega (arith, free_pages-set n h e)

-- With every bit set no page is free.
pub free_pages_none :
    (bm : ℕ → ℕ) (n : ℕ) → ((j : ℕ) → bitmap_test bm j ≡ true) → free_pages bm n ≡ 0
unfolding free_pages
free_pages_none bm zero h = refl
free_pages_none bm (suc n) h = ground (arith, h n, free_pages_none bm n h)
