-- ===== src/Mapping/Stride/Cover.antt =====
-- The kernels at all offsets together work on each supercell of the area once.
use native.Mathlib.Nat.{div-add-mod', mod-lt, le-div_iff_mul-le}
use piconalpaka.Prelude.{
  ℕ, ◌+◌, ◌-◌, ◌*◌, ◌/◌, ◌%◌, ◌<◌, ◌≤◌, ◌≡◌, ap, arith, ℤ, pos, ◌+ℤ◌, ◌*ℤ◌, ltb_ℤ, true, ◌-ℤ◌, quot,
  pos-injective, lt→ltb,
}
use piconalpaka.Dimensions.{DataSpace3, cell3, cell3_ext}
use piconalpaka.Dimensions.Linear.{div_unique, mod_unique}
use piconalpaka.Mapping.Area.Space.{Starts3}
use piconalpaka.Mapping.Stride.{
  StrideMapping, Area, core_border_guard, core, core_border, area_dim, shift, strided,
  stride_grid_dim, stride_index,
}

-- One dimension.
module _ (s n : ℕ) (positive : 0 < s) where
  numerator : (o : ℕ) → o < s → pos n -ℤ pos o +ℤ pos s -ℤ pos 1 ≡ pos (n + s - o - 1)
  numerator o h = ground arith

  strided-pos : (o : ℕ) → o < s → strided s (pos n) (pos o) ≡ pos ((n + s - o - 1) / s)
  strided-pos o h = ap (λ t. quot t (pos s)) (numerator o h)

  digit_unique : (o i x : ℕ) → o < s → pos i *ℤ pos s +ℤ pos o ≡ pos x → (o ≡ x % s) × (i ≡ x / s)
  digit_unique o i x h e =
      let e' : i * s + o ≡ x = pos-injective e in
      (
        omega (arith, ap (λ t. t % s) e', mod_unique i s o h),
        omega (arith, ap (λ t. t / s) e', div_unique i s o h),
      )

  digit_starts : (x : ℕ) → x < n → ltb_ℤ (pos (x / s)) (strided s (pos n) (pos (x % s))) ≡ true
  digit_starts x h =
      let m = mod-lt x positive in
      let room : x / s + 1 ≤ (n + s - x % s - 1) / s =
        (le-div_iff_mul-le positive).1 (omega (arith, div-add-mod' x s)) in
      rw (strided-pos (x % s) m) (lt→ltb _ _ (omega arith))

+ℤ-injective : (a b : ℤ) (c : ℕ) → a +ℤ pos c ≡ b +ℤ pos c → a ≡ b
+ℤ-injective (pos a) (pos b) c e = ground arith
+ℤ-injective a b c e = ground arith

shift-injective :
    (area : Area) (g b : ℕ) (u v : DataSpace3)
    → shift area (pos g) (pos b) u ≡ shift area (pos g) (pos b) v
    → (u.x ≡ v.x) × (u.y ≡ v.y) × (u.z ≡ v.z)
unfolding shift
shift-injective core_border_guard g b u v e = ground arith
shift-injective core g b u v e = (
  +ℤ-injective u.x v.x (g + b) (ap (λ (c : DataSpace3). c.x) e),
  +ℤ-injective u.y v.y (g + b) (ap (λ (c : DataSpace3). c.y) e),
  +ℤ-injective u.z v.z (g + b) (ap (λ (c : DataSpace3). c.z) e),
)
shift-injective core_border g b u v e = (
  +ℤ-injective u.x v.x g (ap (λ (c : DataSpace3). c.x) e),
  +ℤ-injective u.y v.y g (ap (λ (c : DataSpace3). c.y) e),
  +ℤ-injective u.z v.z g (ap (λ (c : DataSpace3). c.z) e),
)

-- A mapping at an offset.
abbrev pub at_offset : Area → ℕ → DataSpace3 → ℕ → ℕ → ℕ → ℕ → ℕ → StrideMapping
at_offset area s grid g b ox oy oz = record {
  area = area;
  stride = s;
  grid_super_cells = grid;
  guarding_super_cells = pos g;
  border_super_cells = pos b;
  offset = cell3 ox oy oz;
}

module _ (area : Area) (s g b X Y Z : ℕ) (grid : DataSpace3) (positive : 0 < s)
    (extents : area_dim area (pos g) (pos b) grid ≡ cell3 X Y Z) where
  -- For a positive stride, and at any offset below it, a block can work on cell (x, y, z) of the
  -- area only if the offset is the cell's remainder by the stride, and then the block is its
  -- quotient.
  pub stride_block :
      (ox oy oz i j k x y z : ℕ)
      → ox < s
      → oy < s
      → oz < s
      → stride_index (at_offset area s grid g b ox oy oz) (cell3 i j k)
        ≡ shift area (pos g) (pos b) (cell3 x y z)
      → (cell3 ox oy oz ≡ cell3 (x % s) (y % s) (z % s))
        × (cell3 i j k ≡ cell3 (x / s) (y / s) (z / s))
  unfolding stride_index
  stride_block ox oy oz i j k x y z hx hy hz e =
      let c = shift-injective area g b _ (cell3 x y z) e in
      let p = digit_unique s X positive ox i x hx c.0 in
      let q = digit_unique s Y positive oy j y hy c.1 in
      let r = digit_unique s Z positive oz k z hz c.2 in
      (
        cell3_ext (ap pos p.0) (ap pos q.0) (ap pos r.0),
        cell3_ext (ap pos p.1) (ap pos q.1) (ap pos r.1),
      )

  -- For a positive stride, and at the offset of its remainders, a cell of the area is worked on by
  -- a block that is started.
  pub stride_cell :
      (x y z : ℕ)
      → x < X
      → y < Y
      → z < Z
      → let m = at_offset area s grid g b (x % s) (y % s) (z % s) in
        Starts3 (stride_grid_dim m) (x / s) (y / s) (z / s)
        × (stride_index m (cell3 (x / s) (y / s) (z / s))
            ≡ shift area (pos g) (pos b) (cell3 x y z))
  unfolding stride_index stride_grid_dim
  stride_cell x y z hx hy hz = (
    rw extents (
      digit_starts s X positive x hx,
      digit_starts s Y positive y hy,
      digit_starts s Z positive z hz,
    ),
    ap (shift area (pos g) (pos b)) (
        cell3_ext (ap pos (div-add-mod' x s)) (ap pos (div-add-mod' y s))
          (ap pos (div-add-mod' z s))),
  )
