-- ===== src/Mapping/Exchange/Partition.antt =====
-- The exchange directions divide the supercells among them: each one belongs to exactly one
-- direction, and is worked on by exactly one block of that direction's kernel.
use piconalpaka.Prelude.{ℕ, ◌+◌, ◌-◌, ◌*◌, ◌/◌, ◌%◌, ◌<◌, ◌≤◌, ◌≡◌, ap, arith, pos}
use piconalpaka.Dimensions.{DataSpace2, DataSpace3, cell2, cell3, cell3_ext}
use piconalpaka.Mask.{relative_directions3}
use piconalpaka.Mapping.Area.Plane.{Starts2}
use piconalpaka.Mapping.Area.Space.{Starts3}
use piconalpaka.Mapping.Exchange.{
  exchange_guard_dim3, exchange_guard_index3, exchange_border_dim3, exchange_border_index3,
}
use piconalpaka.Mapping.Exchange.Bands.{
  band, place, guard_band, guard_place, border_band, border_place,
}

-- The exchange direction of a cell, from its bands.
abbrev pub guard_exchange2 : ℕ → ℕ → ℕ → ℕ → ℕ → ℕ
guard_exchange2 g X Y x y = band g (X - g) x + 3 * band g (Y - g) y

abbrev pub guard_exchange3 : ℕ → ℕ → ℕ → ℕ → ℕ → ℕ → ℕ → ℕ
guard_exchange3 g X Y Z x y z = band g (X - g) x + 3 * band g (Y - g) y + 9 * band g (Z - g) z

abbrev pub border_exchange2 : ℕ → ℕ → ℕ → ℕ → ℕ → ℕ → ℕ
border_exchange2 g b X Y x y = band (g + b) (X - g - b) x + 3 * band (g + b) (Y - g - b) y

abbrev pub border_exchange3 : ℕ → ℕ → ℕ → ℕ → ℕ → ℕ → ℕ → ℕ → ℕ
border_exchange3 g b X Y Z x y z =
    band (g + b) (X - g - b) x + 3 * band (g + b) (Y - g - b) y + 9 * band (g + b) (Z - g - b) z

-- A kernel of grid `dim` starts block (i, j, k), which works on cell (x, y, z).
abbrev pub Block2 : DataSpace2 → (DataSpace2 → DataSpace2) → ℕ → ℕ → ℕ → ℕ → Type 0
Block2 dim index x y i j = Starts2 dim i j × (index (cell2 i j) ≡ cell2 x y)

abbrev pub Block3 : DataSpace3 → (DataSpace3 → DataSpace3) → ℕ → ℕ → ℕ → ℕ → ℕ → ℕ → Type 0
Block3 dim index x y z i j k = Starts3 dim i j k × (index (cell3 i j k) ≡ cell3 x y z)

-- Three digits to the base 3.
digits3 :
    (ex a b c : ℕ)
    → ex < 27
    → ex % 3 ≡ a
    → ex / 3 % 3 ≡ b
    → ex / 3 / 3 % 3 ≡ c
    → ex ≡ a + 3 * b + 9 * c
digits3 ex a b c h p q r = omega arith

undigits3 :
    (ex a b c : ℕ)
    → a ≤ 2
    → b ≤ 2
    → c ≤ 2
    → ex ≡ a + 3 * b + 9 * c
    → (ex % 3 ≡ a) × (ex / 3 % 3 ≡ b) × (ex / 3 / 3 % 3 ≡ c)
undigits3 ex a b c ha hb hc e = omega arith

pub digits2 : (ex a b : ℕ) → ex < 9 → ex % 3 ≡ a → ex / 3 % 3 ≡ b → ex ≡ a + 3 * b
digits2 ex a b h p q = omega arith

pub undigits2 : (ex a b : ℕ) → a ≤ 2 → b ≤ 2 → ex ≡ a + 3 * b → (ex % 3 ≡ a) × (ex / 3 % 3 ≡ b)
undigits2 ex a b ha hb e = omega arith

pub band-le : (lo hi x : ℕ) → band lo hi x ≤ 2
band-le lo hi x = ground arith

module _ (g X Y Z ex x y z : ℕ) (hx : 2 * g ≤ X) (hy : 2 * g ≤ Y) (hz : 2 * g ≤ Z) (hex : ex < 27)
    (inx : x < X) (iny : y < Y) (inz : z < Z) where
  -- In a grid of extents of at least twice the guard, and for a direction `ex` below 27: a block of
  -- the kernel on the guard in direction `ex` works on supercell (x, y, z) of the grid only if `ex`
  -- is the direction of the supercell's bands, and then the block is determined.
  pub exchange_guard3_block :
      (i j k : ℕ)
      → Block3
          (exchange_guard_dim3 (pos g) (pos 0) (cell3 X Y Z) ex)
          (λ c. exchange_guard_index3 (pos g) (pos 0) (cell3 X Y Z) c ex)
          x
          y
          z
          i
          j
          k
      → (ex ≡ guard_exchange3 g X Y Z x y z)
        × (i ≡ place 0 g (X - g) x)
        × (j ≡ place 0 g (Y - g) y)
        × (k ≡ place 0 g (Z - g) z)
  unfolding exchange_guard_dim3 exchange_guard_index3 relative_directions3
  exchange_guard3_block i j k w =
      let p = guard_band g X hx ex i x inx (w.0.0, ap (λ (c : DataSpace3). c.x) w.1) in
      let q = guard_band g Y hy (ex / 3) j y iny (w.0.1, ap (λ (c : DataSpace3). c.y) w.1) in
      let r = guard_band g Z hz (ex / 3 / 3) k z inz (w.0.2, ap (λ (c : DataSpace3). c.z) w.1) in
      (digits3 ex _ _ _ hex p.0 q.0 r.0, p.1, q.1, r.1)

  -- In a grid of extents of at least twice the guard, a supercell of the grid is worked on by a
  -- block that is started in the direction of its bands.
  pub exchange_guard3_cell :
      ex ≡ guard_exchange3 g X Y Z x y z
      → Block3
          (exchange_guard_dim3 (pos g) (pos 0) (cell3 X Y Z) ex)
          (λ c. exchange_guard_index3 (pos g) (pos 0) (cell3 X Y Z) c ex)
          x
          y
          z
          (place 0 g (X - g) x)
          (place 0 g (Y - g) y)
          (place 0 g (Z - g) z)
  unfolding exchange_guard_dim3 exchange_guard_index3 relative_directions3
  exchange_guard3_cell e =
      let d =
        undigits3 ex _ _ _ (band-le g (X - g) x) (band-le g (Y - g) y) (band-le g (Z - g) z) e in
      let p = guard_place g X hx ex x inx d.0 in
      let q = guard_place g Y hy (ex / 3) y iny d.1 in
      let r = guard_place g Z hz (ex / 3 / 3) z inz d.2 in ((p.0, q.0, r.0), cell3_ext p.1 q.1 r.1)

module _ (g b X Y Z ex x y z : ℕ) (hx : 2 * g + 2 * b ≤ X) (hy : 2 * g + 2 * b ≤ Y)
    (hz : 2 * g + 2 * b ≤ Z) (hex : ex < 27) (sx : X < 2147483648) (sy : Y < 2147483648)
    (sz : Z < 2147483648) (lx : g ≤ x) (ly : g ≤ y) (lz : g ≤ z) (inx : x < X - g) (iny : y < Y - g)
    (inz : z < Z - g) where
  -- In a grid of extents below 2^31 and of at least twice the guard and the border together, and
  -- for a direction `ex` below 27: a block of the kernel on the border in direction `ex` works on a
  -- supercell inside the guard only if `ex` is the direction of the supercell's bands, and then the
  -- block is determined.
  pub exchange_border3_block :
      (i j k : ℕ)
      → Block3
          (exchange_border_dim3 (pos g) (pos b) (cell3 X Y Z) ex)
          (λ c. exchange_border_index3 (pos g) (pos b) (cell3 X Y Z) c ex)
          x
          y
          z
          i
          j
          k
      → (ex ≡ border_exchange3 g b X Y Z x y z)
        × (i ≡ place g (g + b) (X - g - b) x)
        × (j ≡ place g (g + b) (Y - g - b) y)
        × (k ≡ place g (g + b) (Z - g - b) z)
  unfolding exchange_border_dim3 exchange_border_index3 relative_directions3
  exchange_border3_block i j k w =
      let p = border_band g b X hx sx ex i x lx inx (w.0.0, ap (λ (c : DataSpace3). c.x) w.1) in
      let q =
        border_band g b Y hy sy (ex / 3) j y ly iny (w.0.1, ap (λ (c : DataSpace3). c.y) w.1) in
      let r =
        border_band g b Z hz sz (ex / 3 / 3) k z lz inz (w.0.2, ap (λ (c : DataSpace3). c.z) w.1) in
      (digits3 ex _ _ _ hex p.0 q.0 r.0, p.1, q.1, r.1)

  -- In a grid of extents below 2^31 and of at least twice the guard and the border together, a
  -- supercell inside the guard is worked on by a block that is started in the direction of its
  -- bands.
  pub exchange_border3_cell :
      ex ≡ border_exchange3 g b X Y Z x y z
      → Block3
          (exchange_border_dim3 (pos g) (pos b) (cell3 X Y Z) ex)
          (λ c. exchange_border_index3 (pos g) (pos b) (cell3 X Y Z) c ex)
          x
          y
          z
          (place g (g + b) (X - g - b) x)
          (place g (g + b) (Y - g - b) y)
          (place g (g + b) (Z - g - b) z)
  unfolding exchange_border_dim3 exchange_border_index3 relative_directions3
  exchange_border3_cell e =
      let d =
        undigits3 ex _ _ _ (band-le (g + b) (X - g - b) x) (band-le (g + b) (Y - g - b) y)
          (band-le (g + b) (Z - g - b) z) e in
      let p = border_place g b X hx sx ex x lx inx d.0 in
      let q = border_place g b Y hy sy (ex / 3) y ly iny d.1 in
      let r = border_place g b Z hz sz (ex / 3 / 3) z lz inz d.2 in
      ((p.0, q.0, r.0), cell3_ext p.1 q.1 r.1)
