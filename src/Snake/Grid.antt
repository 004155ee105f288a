-- ===== src/Snake/Grid.antt =====
-- The size of the grid of kernel/core/snake.c, and the food on it.
use flare_os.Prelude.{
  ℕ, zero, suc, ◌+◌, ◌*◌, ◌%◌, ◌≤◌, ◌<◌, ◌≡◌, refl, ◌⊎◌, inl, inr, false, arith, length, Bool-cases,
}
use flare_os.Snake.{
  Snake, Cell, occupied, rng_next, place_from, place_food, compute_grid, max_cells,
}
use native.Mathlib.Nat.{le_trans, mul-le-mul_left, mul-le-mul_right}

-- A grid of 10 to 96 columns and 10 to 64 rows, of cells of 8 to 32 pixels.
pub record Grid (s : Snake) : Type 0 where
  pub some_cols : 10 ≤ s.cols
  pub cols_fit : s.cols ≤ 96
  pub some_rows : 10 ≤ s.rows
  pub rows_fit : s.rows ≤ 64
  pub some_size : 8 ≤ s.cell_size
  pub size_fit : s.cell_size ≤ 32

-- Whatever the size of the screen, the grid fits the arrays.
pub compute_grid-Grid : (aw ah : ℕ) (s : Snake) → Grid (compute_grid aw ah s)
unfolding compute_grid
compute_grid-Grid aw ah s = ground arith

pub Grid-resized :
    (s t : Snake) → Grid s → t.cols ≡ s.cols → t.rows ≡ s.rows → t.cell_size ≡ s.cell_size → Grid t
Grid-resized s t g c r z = ground arith

product_below : (m n k l : ℕ) → m ≤ k → n ≤ l → m * n ≤ k * l
product_below m n k l a b = le_trans (mul-le-mul_right n a) (mul-le-mul_left k b)

pub Grid-max_cells : (s : Snake) → Grid s → max_cells s ≡ s.cols * s.rows
Grid-max_cells s g =
    let small : s.cols * s.rows ≤ 96 * 64 = product_below _ _ _ _ g.cols_fit g.rows_fit in
    omega (arith, small)

pub Grid-cells : (s : Snake) → Grid s → (100 ≤ s.cols * s.rows) × (s.cols * s.rows ≤ 6144)
Grid-cells s g =
    (product_below 10 10 _ _ g.some_cols g.some_rows, product_below _ _ 96 64 g.cols_fit g.rows_fit)

abbrev pub On : Snake → Cell → Type 0
On s c = (c.0 < s.cols) × (c.1 < s.rows)

-- Food is put on a free cell, or else in the corner.
abbrev pub Free : Snake → Cell → Type 0
Free s c = On s c × ((occupied c s.body ≡ false) ⊎ (c ≡ (0, 0)))

rem-below : (n k : ℕ) → 10 ≤ k → k ≤ 96 → n % k % 256 < k
rem-below n k low high = omega arith

place_from-Free :
    (ticks : ℕ → ℕ) (s : Snake) (calls rng left : ℕ)
    → Grid s
    → Free s (place_from ticks s calls rng left).0
unfolding place_from
place_from-Free ticks s calls rng zero g =
    ((omega (arith, g.some_cols), omega (arith, g.some_rows)), inr refl)
place_from-Free ticks s calls rng (suc left) g =
    let rng1 = rng_next rng (ticks calls) in
    let rng2 = rng_next rng1 (ticks (calls + 1)) in
    let c : Cell = (rng1 % s.cols % 256, rng2 % s.rows % 256) in
    let rest = place_from-Free ticks s (calls + 2) rng2 left g in
    elim (Bool-cases (occupied c s.body)) [
      | inl taken ↦ rw taken rest
      | inr free ↦ rw free (
        (
          rem-below rng1 s.cols g.some_cols g.cols_fit,
          rem-below rng2 s.rows g.some_rows (omega (arith, g.rows_fit)),
        ),
        inl free,
      )
    ]

-- While the snake does not fill the grid, food is placed on the grid, on a cell that the snake does
-- not cover or in the corner when 4096 attempts have found none.
pub place_food-Free :
    (ticks : ℕ → ℕ) (s : Snake)
    → Grid s
    → length s.body < s.cols * s.rows
    → Free s (place_food ticks s).food
unfolding place_food
place_food-Free ticks s g room =
    ground (arith, place_from-Free ticks s 0 s.rng 4096 g, Grid-max_cells s g)

-- Placing food changes nothing but the food and the random state.
pub place_food_changes :
    (ticks : ℕ → ℕ) (s : Snake)
    → Grid s
    → length s.body < s.cols * s.rows
    → (c : Cell) × (rng : ℕ) × (place_food ticks s ≡ record s { food = c; rng = rng }) × On s c
unfolding place_food
place_food_changes ticks s g room =
    let placed = place_from ticks s 0 s.rng 4096 in
    (
      placed.0,
      placed.1,
      ground (arith, Grid-max_cells s g),
      (place_from-Free ticks s 0 s.rng 4096 g).0,
    )
