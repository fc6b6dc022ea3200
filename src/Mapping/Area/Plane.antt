-- ===== src/Mapping/Area/Plane.antt =====
-- Two dimensions: the blocks of a kernel on the guard, and on the border, are in one-to-one
-- correspondence with the supercells there.
use piconalpaka.Prelude.{
  ℕ, ◌+◌, ◌-◌, ◌*◌, ◌<◌, ◌≤◌, ◌≡◌, ◌∙◌, ap, arith, pos, sub_ℕ_pos, ltb_ℤ, true,
}
use piconalpaka.Dimensions.{DataSpace2, cell2, cell2_ext}
use piconalpaka.Mapping.Area.Strip.{strip, strip_at_zero}
use piconalpaka.Mapping.Area.Frame.{
  frame, frame_block, InFrame, frame-InFrame, frame_block-frame, frame_block-lt, frame-frame_block,
}
use piconalpaka.Mapping.Area.{guard_dim2, guard_index2, border_dim2, border_index2}

-- The cell of a pair, moved by `g` in each dimension.
abbrev pub moved2 : ℕ → ℕ × ℕ → DataSpace2
moved2 g p = cell2 (g + p.0) (g + p.1)

abbrev pub of_pair : ℕ × ℕ → DataSpace2
of_pair p = cell2 p.0 p.1

at_zero : (p : ℕ × ℕ) → of_pair p ≡ moved2 0 p
at_zero p = cell2_ext (ap pos (omega arith)) (ap pos (omega arith))

module _ (g gx gy i j : ℕ) (bx : gx < 2147483648) (by : gy < 2147483648) where
  guard_index2-frame :
      2 * g ≤ gx
      → 2 * g ≤ gy
      → j < 2 * g
      → guard_index2 (pos g) (pos 0) (cell2 gx gy) (cell2 i j) ≡ of_pair (frame g gx gy i j)
  unfolding guard_index2
  guard_index2-frame hx hy hj =
      rw
        (
          sub_ℕ_pos gy g (omega arith),
          sub_ℕ_pos gx g (omega arith),
          strip_at_zero j (gy - g) (omega arith) (omega arith),
          strip_at_zero j (gx - g) (omega arith) (omega arith),
        )
        (ground arith)

  border_index2-frame :
      (b : ℕ)
      → 2 * g + 2 * b ≤ gx
      → 2 * g + 2 * b ≤ gy
      → j < 2 * b
      → i < gx - 2 * g + (gy - 2 * g) - 2 * b
      → i < 2147483648
      → border_index2 (pos g) (pos b) (cell2 gx gy) (cell2 i j)
        ≡ moved2 g (frame b (gx - 2 * g) (gy - 2 * g) i j)
  unfolding border_index2
  border_index2-frame b hx hy hj hi bi =
      let e : gx - b - 2 * g ≡ gx - 2 * g - b = omega arith in
      rw
        (
          sub_ℕ_pos gx (2 * g) (omega arith),
          sub_ℕ_pos gy (2 * g) (omega arith),
          sub_ℕ_pos (gy - 2 * g) b (omega arith),
          sub_ℕ_pos gx b (omega arith),
          sub_ℕ_pos (gx - b) (2 * g) (omega arith),
          e,
          strip g j (gy - 2 * g - b) (omega arith) (omega arith),
          strip g j (gx - 2 * g - b) (omega arith) (omega arith),
        )
        (ground arith)

-- The extents of the kernel's grid.
pub guard_dim2-cell :
    (g gx gy : ℕ)
    → 2 * g ≤ gx
    → 2 * g ≤ gy
    → guard_dim2 (pos g) (pos 0) (cell2 gx gy) ≡ cell2 (gx + gy - 2 * g) (2 * g)
unfolding guard_dim2
guard_dim2-cell g gx gy hx hy = ground arith

pub border_dim2-cell :
    (g b gx gy : ℕ)
    → 2 * g + 2 * b ≤ gx
    → 2 * g + 2 * b ≤ gy
    → gx + gy < 2147483648
    → border_dim2 (pos g) (pos b) (cell2 gx gy) ≡ cell2 (gx - 2 * g + (gy - 2 * g) - 2 * b) (2 * b)
unfolding border_dim2
border_dim2-cell g b gx gy hx hy h = ground arith

-- A kernel whose grid has the extents `dim` starts block (i, j).
abbrev pub Starts2 : DataSpace2 → ℕ → ℕ → Type 0
Starts2 dim i j = (ltb_ℤ (pos i) dim.x ≡ true) × (ltb_ℤ (pos j) dim.y ≡ true)

starts-lt : (dim : DataSpace2) (w h i j : ℕ) → dim ≡ cell2 w h → Starts2 dim i j → (i < w) × (j < h)
starts-lt dim w h i j e s = let s' : Starts2 (cell2 w h) i j = rw e at s in ground arith

lt-starts : (dim : DataSpace2) (w h i j : ℕ) → dim ≡ cell2 w h → (i < w) × (j < h) → Starts2 dim i j
lt-starts dim w h i j e l = rw e (ground arith)

-- Blocks and the cells of a w x h frame of thickness `b`, which begins at (g, g).
module _ (index : DataSpace2 → DataSpace2) (dim : DataSpace2) (g b w h : ℕ) where
  -- Block (i, j) works on a cell `c` of the frame, from which `frame_block` finds the block again.
  abbrev pub IntoFrame : ℕ → ℕ → Type 0
  IntoFrame i j =
      (c : ℕ × ℕ) × (index (cell2 i j) ≡ moved2 g c)
      × InFrame b w h c.0 c.1
      × (frame_block b w h c.0 c.1 ≡ (i, j))

  -- Some block that the kernel starts works on cell (x, y) of the frame.
  abbrev pub OntoFrame : ℕ → ℕ → Type 0
  OntoFrame x y = (i : ℕ) × (j : ℕ) × Starts2 dim i j × (index (cell2 i j) ≡ moved2 g (x, y))

module _ (g gx gy : ℕ) (hx : 2 * g ≤ gx) (hy : 2 * g ≤ gy) (small : gx + gy < 2147483648) where
  -- In a plane whose extents are at least twice the guard and sum to less than 2^31, each block
  -- that a kernel on the guard starts works on a supercell of the guard, and no two blocks work on
  -- one: the block is a function of the supercell.
  pub guard2_into :
      (i j : ℕ)
      → Starts2 (guard_dim2 (pos g) (pos 0) (cell2 gx gy)) i j
      → IntoFrame
          (guard_index2 (pos g) (pos 0) (cell2 gx gy))
          (guard_dim2 (pos g) (pos 0) (cell2 gx gy))
          0
          g
          gx
          gy
          i
          j
  guard2_into i j s =
      let l = starts-lt _ _ _ i j (guard_dim2-cell g gx gy hx hy) s in
      (
        frame g gx gy i j,
        guard_index2-frame g gx gy i j (omega arith) (omega arith) hx hy l.1
            ∙ at_zero (frame g gx gy i j),
        frame-InFrame g gx gy i j hx hy l.0 l.1,
        frame_block-frame g gx gy i j hx hy l.0 l.1,
      )

  -- In a plane whose extents are at least twice the guard and sum to less than 2^31, each supercell
  -- of the guard is worked on by a block.
  pub guard2_onto :
      (x y : ℕ)
      → InFrame g gx gy x y
      → OntoFrame
          (guard_index2 (pos g) (pos 0) (cell2 gx gy))
          (guard_dim2 (pos g) (pos 0) (cell2 gx gy))
          0
          g
          gx
          gy
          x
          y
  guard2_onto x y f =
      let l = frame_block-lt g gx gy x y hx hy f in
      let p = frame_block g gx gy x y in
      (
        p.0,
        p.1,
        lt-starts _ _ _ p.0 p.1 (guard_dim2-cell g gx gy hx hy) l,
        guard_index2-frame g gx gy p.0 p.1 (omega arith) (omega arith) hx hy l.1
            ∙ ap of_pair (frame-frame_block g gx gy x y hx hy f)
            ∙ at_zero (x, y),
      )

module _ (g b gx gy : ℕ) (hx : 2 * g + 2 * b ≤ gx) (hy : 2 * g + 2 * b ≤ gy)
    (small : gx + gy < 2147483648) where
  -- In a plane whose extents are at least twice the guard and the border together and sum to less
  -- than 2^31, each block that a kernel on the border starts works on a supercell of the border,
  -- which is the frame of the plane without its guard, and no two blocks work on one.
  pub border2_into :
      (i j : ℕ)
      → Starts2 (border_dim2 (pos g) (pos b) (cell2 gx gy)) i j
      → IntoFrame
          (border_index2 (pos g) (pos b) (cell2 gx gy))
          (border_dim2 (pos g) (pos b) (cell2 gx gy))
          g
          b
          (gx - 2 * g)
          (gy - 2 * g)
          i
          j
  border2_into i j s =
      let l = starts-lt _ _ _ i j (border_dim2-cell g b gx gy hx hy small) s in
      let w : ℕ = gx - 2 * g in
      let h : ℕ = gy - 2 * g in
      (
        frame b w h i j,
        border_index2-frame g gx gy i j (omega arith) (omega arith) b hx hy l.1 l.0 (omega arith),
        frame-InFrame b w h i j (omega arith) (omega arith) l.0 l.1,
        frame_block-frame b w h i j (omega arith) (omega arith) l.0 l.1,
      )

  -- In a plane whose extents are at least twice the guard and the border together and sum to less
  -- than 2^31, each supercell of the border is worked on by a block.
  pub border2_onto :
      (x y : ℕ)
      → InFrame b (gx - 2 * g) (gy - 2 * g) x y
      → OntoFrame
          (border_index2 (pos g) (pos b) (cell2 gx gy))
          (border_dim2 (pos g) (pos b) (cell2 gx gy))
          g
          b
          (gx - 2 * g)
          (gy - 2 * g)
          x
          y
  border2_onto x y f =
      let w : ℕ = gx - 2 * g in
      let h : ℕ = gy - 2 * g in
      let l = frame_block-lt b w h x y (omega arith) (omega arith) f in
      let p = frame_block b w h x y in
      (
        p.0,
        p.1,
        lt-starts _ _ _ p.0 p.1 (border_dim2-cell g b gx gy hx hy small) l,
        border_index2-frame g gx gy p.0 p.1 (omega arith) (omega arith) b hx hy l.1 l.0
              (omega arith)
            ∙ ap (moved2 g) (frame-frame_block b w h x y (omega arith) (omega arith) f),
      )
