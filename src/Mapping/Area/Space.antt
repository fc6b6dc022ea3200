-- ===== src/Mapping/Area/Space.antt =====
-- Three dimensions: the blocks of a kernel on the guard, and on the border, are in one-to-one
-- correspondence with the supercells there.
use piconalpaka.Prelude.{
  ℕ, ◌+◌, ◌-◌, ◌*◌, ◌<◌, ◌≤◌, ◌≡◌, ◌∙◌, ap, arith, pos, sub_ℕ_pos, ltb_ℤ, true, refl,
}
use piconalpaka.Dimensions.{DataSpace3, cell3, cell3_ext}
use piconalpaka.Mapping.Area.Strip.{strip, strip_at_zero}
use piconalpaka.Mapping.Area.Shell.{
  Triple, shell, shell_block, shell_size, InShell, shell-InShell, shell-shell_block,
}
use piconalpaka.Mapping.Area.{guard_dim3, guard_index3, border_dim3, border_index3}

-- The cell of a triple, moved by `g` in each dimension.
abbrev pub moved3 : ℕ → Triple → DataSpace3
moved3 g p = cell3 (g + p.0) (g + p.1) (g + p.2)

abbrev pub of_triple : Triple → DataSpace3
of_triple p = cell3 p.0 p.1 p.2

module _ (g X Y Z i j : ℕ) (bx : X < 2147483648) (by : Y < 2147483648) (bz : Z < 2147483648)
    (wide : 2 * g ≤ X) (high : 2 * g ≤ Y) (deep : 2 * g ≤ Z) (hj : j < 2 * g) where
  guard_index3-shell :
      guard_index3 (pos g) (pos 0) (cell3 X Y Z) (cell3 i j 0) ≡ of_triple (shell g X Y Z i j)
  unfolding guard_index3
  guard_index3-shell =
      rw
        (
          sub_ℕ_pos Z g (omega arith),
          sub_ℕ_pos X g (omega arith),
          sub_ℕ_pos Y g (omega arith),
          sub_ℕ_pos Z (2 * g) deep,
          sub_ℕ_pos X (2 * g) wide,
          strip_at_zero j (Z - g) (omega arith) (omega arith),
          strip_at_zero j (X - g) (omega arith) (omega arith),
          strip_at_zero j (Y - g) (omega arith) (omega arith),
        )
        (ground arith)

at_zero : (p : Triple) → of_triple p ≡ moved3 0 p
at_zero p = cell3_ext (ap pos (omega arith)) (ap pos (omega arith)) (ap pos (omega arith))

module _ (g b X Y Z i j : ℕ) (bx : X < 2147483648) (by : Y < 2147483648) (bz : Z < 2147483648)
    (wide : 2 * g + 2 * b ≤ X) (high : 2 * g + 2 * b ≤ Y) (deep : 2 * g + 2 * b ≤ Z)
    (hj : j < 2 * b) where
  border_index3-shell :
      border_index3 (pos g) (pos b) (cell3 X Y Z) (cell3 i j 0)
      ≡ moved3 g (shell b (X - 2 * g) (Y - 2 * g) (Z - 2 * g) i j)
  unfolding border_index3
  border_index3-shell =
      rw
        (
          sub_ℕ_pos X (2 * g) (omega arith),
          sub_ℕ_pos Y (2 * g) (omega arith),
          sub_ℕ_pos Z (2 * g) (omega arith),
          sub_ℕ_pos (X - 2 * g) (2 * b) (omega arith),
          sub_ℕ_pos (Z - 2 * g) (2 * b) (omega arith),
          sub_ℕ_pos (Z - 2 * g) b (omega arith),
          sub_ℕ_pos (X - 2 * g) b (omega arith),
          sub_ℕ_pos (Y - 2 * g) b (omega arith),
          strip g j (Z - 2 * g - b) (omega arith) (omega arith),
          strip g j (X - 2 * g - b) (omega arith) (omega arith),
          strip g j (Y - 2 * g - b) (omega arith) (omega arith),
        )
        (ground arith)

guard_dim3-cell :
    (g X Y Z : ℕ)
    → 2 * g ≤ X
    → 2 * g ≤ Y
    → 2 * g ≤ Z
    → guard_dim3 (pos g) (pos 0) (cell3 X Y Z) ≡ cell3 (shell_size g X Y Z) (2 * g) 1
unfolding guard_dim3
guard_dim3-cell g X Y Z hx hy hz = rw (sub_ℕ_pos X (2 * g) hx, sub_ℕ_pos Z (2 * g) hz) refl

border_dim3-cell :
    (g b X Y Z : ℕ)
    → 2 * g + 2 * b ≤ X
    → 2 * g + 2 * b ≤ Y
    → 2 * g + 2 * b ≤ Z
    → border_dim3 (pos g) (pos b) (cell3 X Y Z)
      ≡ cell3 (shell_size b (X - 2 * g) (Y - 2 * g) (Z - 2 * g)) (2 * b) 1
unfolding border_dim3
border_dim3-cell g b X Y Z hx hy hz =
    rw
      (
        sub_ℕ_pos X (2 * g) (omega arith),
        sub_ℕ_pos Y (2 * g) (omega arith),
        sub_ℕ_pos Z (2 * g) (omega arith),
        sub_ℕ_pos (X - 2 * g) (2 * b) (omega arith),
        sub_ℕ_pos (Z - 2 * g) (2 * b) (omega arith),
      )
      refl

-- A kernel whose grid has the extents `dim` starts block (i, j, k).
abbrev pub Starts3 : DataSpace3 → ℕ → ℕ → ℕ → Type 0
Starts3 dim i j k =
    (ltb_ℤ (pos i) dim.x ≡ true) × (ltb_ℤ (pos j) dim.y ≡ true) × (ltb_ℤ (pos k) dim.z ≡ true)

starts-lt :
    (dim : DataSpace3) (w h d i j k : ℕ)
    → dim ≡ cell3 w h d
    → Starts3 dim i j k
    → (i < w) × (j < h) × (k < d)
starts-lt dim w h d i j k e s = let s' : Starts3 (cell3 w h d) i j k = rw e at s in ground arith

lt-starts :
    (dim : DataSpace3) (w h d i j k : ℕ)
    → dim ≡ cell3 w h d
    → (i < w) × (j < h) × (k < d)
    → Starts3 dim i j k
lt-starts dim w h d i j k e l = rw e (ground arith)

-- Blocks and the cells of a shell of thickness `b` of an X x Y x Z grid, which begins at (g, g, g).
module _ (index : DataSpace3 → DataSpace3) (dim : DataSpace3) (g b X Y Z : ℕ) where
  -- Block (i, j, k) works on a cell `c` of the shell, from which `shell_block` finds the block again;
  -- k is 0.
  abbrev pub IntoShell : ℕ → ℕ → ℕ → Type 0
  IntoShell i j k =
      (c : Triple) × (index (cell3 i j k) ≡ moved3 g c)
      × InShell b X Y Z c
      × (shell_block b X Y Z c ≡ (i, j))
      × (k ≡ 0)

  -- Some block that the kernel starts works on cell `c` of the shell.
  abbrev pub OntoShell : Triple → Type 0
  OntoShell c = (i : ℕ) × (j : ℕ) × Starts3 dim i j 0 × (index (cell3 i j 0) ≡ moved3 g c)

module _ (g X Y Z : ℕ) (hx : 2 * g ≤ X) (hy : 2 * g ≤ Y) (hz : 2 * g ≤ Z) (bx : X < 2147483648)
    (by : Y < 2147483648) (bz : Z < 2147483648) where
  -- In a grid of extents below 2^31 and of at least twice the guard, each block that a kernel on
  -- the guard starts works on a supercell of the guard, and no two blocks work on one: the block is
  -- a function of the supercell.
  pub guard3_into :
      (i j k : ℕ)
      → Starts3 (guard_dim3 (pos g) (pos 0) (cell3 X Y Z)) i j k
      → IntoShell
          (guard_index3 (pos g) (pos 0) (cell3 X Y Z))
          (guard_dim3 (pos g) (pos 0) (cell3 X Y Z))
          0
          g
          X
          Y
          Z
          i
          j
          k
  guard3_into i j k s =
      let l = starts-lt _ _ _ _ i j k (guard_dim3-cell g X Y Z hx hy hz) s in
      let k0 : k ≡ 0 = omega arith in
      let r = shell-InShell g X Y Z i j hx hy hz l.1 l.0 in
      (
        shell g X Y Z i j,
        rw k0 (guard_index3-shell g X Y Z i j bx by bz hx hy hz l.1 ∙ at_zero (shell g X Y Z i j)),
        r.0,
        r.1,
        k0,
      )

  -- In a grid of extents below 2^31 and of at least twice the guard, each supercell of the guard is
  -- worked on by a block.
  pub guard3_onto :
      (c : Triple)
      → InShell g X Y Z c
      → OntoShell
          (guard_index3 (pos g) (pos 0) (cell3 X Y Z))
          (guard_dim3 (pos g) (pos 0) (cell3 X Y Z))
          0
          g
          X
          Y
          Z
          c
  guard3_onto (x, y, z) inside =
      let r = shell-shell_block g X Y Z x y z hx hy hz inside in
      let p = shell_block g X Y Z (x, y, z) in
      (
        p.0,
        p.1,
        lt-starts _ _ _ _ p.0 p.1 0 (guard_dim3-cell g X Y Z hx hy hz) (r.0, r.1, omega arith),
        guard_index3-shell g X Y Z p.0 p.1 bx by bz hx hy hz r.1
            ∙ ap of_triple r.2
            ∙ at_zero (x, y, z),
      )

module _ (g b X Y Z : ℕ) (hx : 2 * g + 2 * b ≤ X) (hy : 2 * g + 2 * b ≤ Y) (hz : 2 * g + 2 * b ≤ Z)
    (bx : X < 2147483648) (by : Y < 2147483648) (bz : Z < 2147483648) where
  -- In a grid of extents below 2^31 and of at least twice the guard and the border together, each
  -- block that a kernel on the border starts works on a supercell of the border, which is the shell
  -- of the grid without its guard, and no two blocks work on one.
  pub border3_into :
      (i j k : ℕ)
      → Starts3 (border_dim3 (pos g) (pos b) (cell3 X Y Z)) i j k
      → IntoShell
          (border_index3 (pos g) (pos b) (cell3 X Y Z))
          (border_dim3 (pos g) (pos b) (cell3 X Y Z))
          g
          b
          (X - 2 * g)
          (Y - 2 * g)
          (Z - 2 * g)
          i
          j
          k
  border3_into i j k s =
      let l = starts-lt _ _ _ _ i j k (border_dim3-cell g b X Y Z hx hy hz) s in
      let k0 : k ≡ 0 = omega arith in
      let r =
        shell-InShell b (X - 2 * g) (Y - 2 * g) (Z - 2 * g) i j (omega arith) (omega arith)
          (omega arith) l.1 l.0 in
      (
        shell b (X - 2 * g) (Y - 2 * g) (Z - 2 * g) i j,
        rw k0 (border_index3-shell g b X Y Z i j bx by bz hx hy hz l.1),
        r.0,
        r.1,
        k0,
      )

  -- In a grid of extents below 2^31 and of at least twice the guard and the border together, each
  -- supercell of the border is worked on by a block.
  pub border3_onto :
      (c : Triple)
      → InShell b (X - 2 * g) (Y - 2 * g) (Z - 2 * g) c
      → OntoShell
          (border_index3 (pos g) (pos b) (cell3 X Y Z))
          (border_dim3 (pos g) (pos b) (cell3 X Y Z))
          g
          b
          (X - 2 * g)
          (Y - 2 * g)
          (Z - 2 * g)
          c
  border3_onto (x, y, z) inside =
      let r =
        shell-shell_block b (X - 2 * g) (Y - 2 * g) (Z - 2 * g) x y z (omega arith) (omega arith)
          (omega arith) inside in
      let p = shell_block b (X - 2 * g) (Y - 2 * g) (Z - 2 * g) (x, y, z) in
      (
        p.0,
        p.1,
        lt-starts _ _ _ _ p.0 p.1 0 (border_dim3-cell g b X Y Z hx hy hz) (r.0, r.1, omega arith),
        border_index3-shell g b X Y Z p.0 p.1 bx by bz hx hy hz r.1 ∙ ap (moved3 g) r.2,
      )
