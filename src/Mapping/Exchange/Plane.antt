-- ===== src/Mapping/Exchange/Plane.antt =====
-- The same in two dimensions.
use piconalpaka.Prelude.{ℕ, ◌+◌, ◌-◌, ◌*◌, ◌/◌, ◌<◌, ◌≤◌, ◌≡◌, ap, pos}
use piconalpaka.Dimensions.{DataSpace2, cell2, cell2_ext}
use piconalpaka.Mask.{relative_directions2}
use piconalpaka.Mapping.Exchange.{
  exchange_guard_dim2, exchange_guard_index2, exchange_border_dim2, exchange_border_index2,
}
use piconalpaka.Mapping.Exchange.Bands.{place, guard_band, guard_place, border_band, border_place}
use piconalpaka.Mapping.Exchange.Partition.{
  guard_exchange2, border_exchange2, Block2, digits2, undigits2, band-le,
}

module _ (g X Y ex x y : ℕ) (hx : 2 * g ≤ X) (hy : 2 * g ≤ Y) (hex : ex < 9) (inx : x < X)
    (iny : y < Y) where
  -- A block of the kernel on the guard in direction `ex` works on a supercell of the grid only if
  -- `ex` is the direction of the supercell's bands, and then the block is determined.
  pub exchange_guard2_block :
      (i j : ℕ)
      → Block2
          (exchange_guard_dim2 (pos g) (pos 0) (cell2 X Y) ex)
          (λ c. exchange_guard_index2 (pos g) (pos 0) (cell2 X Y) c ex)
          x
          y
          i
          j
      → (ex ≡ guard_exchange2 g X Y x y) × (i ≡ place 0 g (X - g) x) × (j ≡ place 0 g (Y - g) y)
  unfolding exchange_guard_dim2 exchange_guard_index2 relative_directions2
  exchange_guard2_block i j w =
      let p = guard_band g X hx ex i x inx (w.0.0, ap (λ (c : DataSpace2). c.x) w.1) in
      let q = guard_band g Y hy (ex / 3) j y iny (w.0.1, ap (λ (c : DataSpace2). c.y) w.1) in
      (digits2 ex _ _ hex p.0 q.0, p.1, q.1)

  -- In the direction of its bands, a supercell of the grid is worked on.
  pub exchange_guard2_cell :
      ex ≡ guard_exchange2 g X Y x y
      → Block2
          (exchange_guard_dim2 (pos g) (pos 0) (cell2 X Y) ex)
          (λ c. exchange_guard_index2 (pos g) (pos 0) (cell2 X Y) c ex)
          x
          y
          (place 0 g (X - g) x)
          (place 0 g (Y - g) y)
  unfolding exchange_guard_dim2 exchange_guard_index2 relative_directions2
  exchange_guard2_cell e =
      let d = undigits2 ex _ _ (band-le g (X - g) x) (band-le g (Y - g) y) e in
      let p = guard_place g X hx ex x inx d.0 in
      let q = guard_place g Y hy (ex / 3) y iny d.1 in ((p.0, q.0), cell2_ext p.1 q.1)

module _ (g b X Y ex x y : ℕ) (hx : 2 * g + 2 * b ≤ X) (hy : 2 * g + 2 * b ≤ Y) (hex : ex < 9)
    (sx : X < 2147483648) (sy : Y < 2147483648) (lx : g ≤ x) (ly : g ≤ y) (inx : x < X - g)
    (iny : y < Y - g) where
  -- In a plane of extents below 2^31 and of at least twice the guard and the border together, and
  -- for a direction `ex` below 9: a block of the kernel on the border in direction `ex` works on a
  -- supercell inside the guard only if `ex` is the direction of the supercell's bands, and then the
  -- block is determined.
  pub exchange_border2_block :
      (i j : ℕ)
      → Block2
          (exchange_border_dim2 (pos g) (pos b) (cell2 X Y) ex)
          (λ c. exchange_border_index2 (pos g) (pos b) (cell2 X Y) c ex)
          x
          y
          i
          j
      → (ex ≡ border_exchange2 g b X Y x y)
        × (i ≡ place g (g + b) (X - g - b) x)
        × (j ≡ place g (g + b) (Y - g - b) y)
  unfolding exchange_border_dim2 exchange_border_index2 relative_directions2
  exchange_border2_block i j w =
      let p = border_band g b X hx sx ex i x lx inx (w.0.0, ap (λ (c : DataSpace2). c.x) w.1) in
      let q =
        border_band g b Y hy sy (ex / 3) j y ly iny (w.0.1, ap (λ (c : DataSpace2). c.y) w.1) in
      (digits2 ex _ _ hex p.0 q.0, p.1, q.1)

  -- In a plane of extents below 2^31 and of at least twice the guard and the border together, a
  -- supercell inside the guard is worked on by a block that is started in the direction of its
  -- bands.
  pub exchange_border2_cell :
      ex ≡ border_exchange2 g b X Y x y
      → Block2
          (exchange_border_dim2 (pos g) (pos b) (cell2 X Y) ex)
          (λ c. exchange_border_index2 (pos g) (pos b) (cell2 X Y) c ex)
          x
          y
          (place g (g + b) (X - g - b) x)
          (place g (g + b) (Y - g - b) y)
  unfolding exchange_border_dim2 exchange_border_index2 relative_directions2
  exchange_border2_cell e =
      let d = undigits2 ex _ _ (band-le (g + b) (X - g - b) x) (band-le (g + b) (Y - g - b) y) e in
      let p = border_place g b X hx sx ex x lx inx d.0 in
      let q = border_place g b Y hy sy (ex / 3) y ly iny d.1 in ((p.0, q.0), cell2_ext p.1 q.1)
