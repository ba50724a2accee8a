-- ===== src/Console/Scroll.antt =====
-- What the loops over the cells come to.
use gravityos.Base.{
  ℕ, zero, suc, ◌+◌, ◌-◌, ◌<◌, ◌≡◌, arith, ◌&&◌, ltb, leb, ◌==◌, if◌then◌else◌, ◌∙◌,
}
use gravityos.Console.{Grid, word, before, put_cell, fill_row, copy_row, copy_rows, scroll_grid}

fill_row_lem :
    (v n r c : ℕ) (g : Grid) (i j : ℕ)
    → fill_row v n r c g i j ≡ (if (i == r) && (leb c j && ltb j (c + n)) then v else g i j)
unfolding fill_row
fill_row_lem v zero r c g i j = ground arith
fill_row_lem v (suc n) r c g i j = fill_row_lem v n r (c + 1) (put_cell g r c v) i j ∙ ground arith

copy_row_lem :
    (n r c : ℕ) (g : Grid) (i j : ℕ)
    → copy_row n r c g i j ≡ (if (i == r) && (leb c j && ltb j (c + n)) then g (r + 1) j else g i j)
unfolding copy_row
copy_row_lem zero r c g i j = ground arith
copy_row_lem (suc n) r c g i j =
    copy_row_lem n r (c + 1) (put_cell g r c (g (r + 1) c)) i j ∙ ground arith

copy_rows_lem :
    (cols n r : ℕ) (g : Grid) (i j : ℕ)
    → copy_rows cols n r g i j
      ≡ (if (leb r i && ltb i (r + n)) && ltb j cols then g (i + 1) j else g i j)
unfolding copy_rows
copy_rows_lem cols zero r g i j = ground arith
copy_rows_lem cols (suc n) r g i j =
    copy_rows_lem cols n (r + 1) (copy_row cols r 0 g) i j
    ∙ ground (arith, copy_row_lem cols r 0 g i j, copy_row_lem cols r 0 g (i + 1) j)

-- On a grid of at least one row, and fewer than 2 ^ 32, scrolling moves every row up by one, drops the
-- first, and blanks the last; cells outside the grid stay.
pub scroll_grid_lem :
    (blank cols rows : ℕ) (g : Grid) (i j : ℕ)
    → 0 < rows
    → rows < word
    → scroll_grid blank cols rows g i j ≡ (
        if ltb i rows && ltb j cols
        then (if ltb (i + 1) rows then g (i + 1) j else blank)
        else g i j)
unfolding scroll_grid
scroll_grid_lem blank cols rows g i j pos small =
    let last : before rows ≡ rows - 1 = omega arith in
    rw last (
      fill_row_lem blank cols (rows - 1) 0 (copy_rows cols (rows - 1) 0 g) i j
      ∙ ground (arith, copy_rows_lem cols (rows - 1) 0 g i j))
