-- ===== src/Mapping/Area/Frame.antt =====
-- The cells of a W x H plane that are less than `b` from its edge, and the blocks that work on them:
-- the strips along x first, then what is left of those along y. The guard is the frame of the whole
-- grid, and the border is the frame of the grid without its guard.
use piconalpaka.Prelude.{
  ℕ, ◌+◌, ◌-◌, ◌*◌, ◌/◌, ◌%◌, ◌<◌, ◌≤◌, ◌≡◌, ◌⊎◌, arith, ltb, leb, if◌then◌else◌,
}
use piconalpaka.Mapping.Area.Strip.{strip_cases}

abbrev pub frame : ℕ → ℕ → ℕ → ℕ → ℕ → ℕ × ℕ
frame b w h i j =
    if ltb i w then (i, j / 2 + j % 2 * (h - b)) else (j / 2 + j % 2 * (w - b), b + i - w)

abbrev pub frame_block : ℕ → ℕ → ℕ → ℕ → ℕ → ℕ × ℕ
frame_block b w h x y =
    if ltb y b
    then (x, 2 * y)
    else (if leb (h - b) y
        then (x, 2 * (y - (h - b)) + 1)
        else (if ltb x b then (y - b + w, 2 * x) else (y - b + w, 2 * (x - (w - b)) + 1)))

abbrev pub InFrame : ℕ → ℕ → ℕ → ℕ → ℕ → Type 0
InFrame b w h x y = (x < w) × (y < h) × ((x < b) ⊎ (w ≤ x + b) ⊎ (y < b) ⊎ (h ≤ y + b))

module _ (b w h i j : ℕ) (wide : 2 * b ≤ w) (high : 2 * b ≤ h) where
  pub frame-InFrame :
      i < w + h - 2 * b → j < 2 * b → InFrame b w h (frame b w h i j).0 (frame b w h i j).1
  frame-InFrame hi hj = ground (arith, strip_cases j (h - b), strip_cases j (w - b))

  pub frame_block-frame :
      i < w + h - 2 * b
      → j < 2 * b
      → frame_block b w h (frame b w h i j).0 (frame b w h i j).1 ≡ (i, j)
  frame_block-frame hi hj = ground (arith, strip_cases j (h - b), strip_cases j (w - b))

module _ (b w h x y : ℕ) (wide : 2 * b ≤ w) (high : 2 * b ≤ h) where
  pub frame_block-lt :
      InFrame b w h x y
      → ((frame_block b w h x y).0 < w + h - 2 * b) × ((frame_block b w h x y).1 < 2 * b)
  frame_block-lt f = ground arith

  pub frame-frame_block :
      InFrame b w h x y → frame b w h (frame_block b w h x y).0 (frame_block b w h x y).1 ≡ (x, y)
  frame-frame_block f = ground (
    arith,
    strip_cases (frame_block b w h x y).1 (h - b),
    strip_cases (frame_block b w h x y).1 (w - b),
  )
