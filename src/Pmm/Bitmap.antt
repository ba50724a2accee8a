-- ===== src/Pmm/Bitmap.antt =====
-- The three bit operations of kernel/pmm.c as a set of page numbers.
use gravityos.Base.{ℕ, ◌/◌, ◌%◌, ◌<◌, ◌≡◌, arith, not, ◌&&◌, ◌||◌, ◌==◌}
use gravityos.Base.Bits.{byte_set-lt, byte_clear-lt, test_bit-byte_set, test_bit-byte_clear}
use gravityos.Pmm.{bitmap_set, bitmap_clear, bitmap_test}

abbrev pub AreBytes : (ℕ → ℕ) → Type 0
AreBytes bitmap = (i : ℕ) → bitmap i < 256

pub bitmap_set-AreBytes : (bm : ℕ → ℕ) (i : ℕ) → AreBytes bm → AreBytes (bitmap_set bm i)
unfolding bitmap_set
bitmap_set-AreBytes bm i h j =
    ground (arith, h j, byte_set-lt (bm (i / 8)) (i % 8) (h (i / 8)) (omega arith))

pub bitmap_clear-AreBytes : (bm : ℕ → ℕ) (i : ℕ) → AreBytes bm → AreBytes (bitmap_clear bm i)
unfolding bitmap_clear
bitmap_clear-AreBytes bm i h j =
    ground (arith, h j, byte_clear-lt (bm (i / 8)) (i % 8) (h (i / 8)) (omega arith))

-- A page is in the set after bitmap_set exactly when it was, or is the one that was set.
pub bitmap_test-set :
    (bm : ℕ → ℕ) (i j : ℕ)
    → AreBytes bm
    → bitmap_test (bitmap_set bm i) j ≡ ((i == j) || bitmap_test bm j)
unfolding bitmap_set bitmap_test
bitmap_test-set bm i j h =
    ground (
      arith,
      test_bit-byte_set (bm (i / 8)) (i % 8) (j % 8) (h (i / 8)) (omega arith) (omega arith),
    )

pub bitmap_test-clear :
    (bm : ℕ → ℕ) (i j : ℕ)
    → AreBytes bm
    → bitmap_test (bitmap_clear bm i) j ≡ (not (i == j) && bitmap_test bm j)
unfolding bitmap_clear bitmap_test
bitmap_test-clear bm i j h = ground (
  arith,
  test_bit-byte_clear (bm (i / 8)) (i % 8) (j % 8) (h (i / 8)) (omega arith) (omega arith),
)
