-- ===== src/Mapping/Area/Core.antt =====
-- The CORE of AreaMappingMethods in src/libPMacc/include/mappings/kernel/AreaMappingMethods.hpp:
-- what the guard and the border leave.
use piconalpaka.Prelude.{
  ℕ, ◌+◌, ◌-◌, ◌*◌, ◌<◌, ◌≤◌, ◌≡◌, ◌↔◌, ap, arith, pos, ltb_ℤ, true, ◌-ℤ◌, ◌+ℤ◌, ◌*ℤ◌,
}
use piconalpaka.Dimensions.{DataSpace3, cell3, cell3_ext}
use piconalpaka.Mapping.Area.{core_dim3, core_index3}
use piconalpaka.Mapping.Area.Space.{Starts3}

-- One dimension
module _ (g b n : ℕ) (fits : 2 * g + 2 * b ≤ n) where
  core_band :
      (i x : ℕ)
      → ltb_ℤ (pos i) (pos n -ℤ pos 2 *ℤ (pos g +ℤ pos b)) ≡ true
      → pos i +ℤ (pos g +ℤ pos b) ≡ pos x
      → (g + b ≤ x) × (x < n - g - b)
  core_band i x s e = ground arith

  core_place :
      (x : ℕ)
      → g + b ≤ x
      → x < n - g - b
      → (ltb_ℤ (pos (x - g - b)) (pos n -ℤ pos 2 *ℤ (pos g +ℤ pos b)) ≡ true)
        × (pos (x - g - b) +ℤ (pos g +ℤ pos b) ≡ pos x)
  core_place x l h = ground arith

-- Supercell (x, y, z) is neither in the guard nor in the border.
abbrev pub InCore : ℕ → ℕ → ℕ → ℕ → ℕ → ℕ → ℕ → ℕ → Type 0
InCore g b X Y Z x y z =
    ((g + b ≤ x) × (x < X - g - b))
    × ((g + b ≤ y) × (y < Y - g - b))
    × ((g + b ≤ z) × (z < Z - g - b))

-- Some block that a kernel on the core starts works on supercell (x, y, z).
abbrev pub CoreBlock : ℕ → ℕ → ℕ → ℕ → ℕ → ℕ → ℕ → ℕ → Type 0
CoreBlock g b X Y Z x y z =
    (i : ℕ) × (j : ℕ) × (k : ℕ) × Starts3 (core_dim3 (pos g) (pos b) (cell3 X Y Z)) i j k
    × (core_index3 (pos g) (pos b) (cell3 i j k) ≡ cell3 x y z)

-- In a grid of extents of at least twice the guard and the border together, a kernel on the core
-- works on exactly the supercells that are neither in the guard nor in the border.
pub core3_iff :
    (g b X Y Z x y z : ℕ)
    → 2 * g + 2 * b ≤ X
    → 2 * g + 2 * b ≤ Y
    → 2 * g + 2 * b ≤ Z
    → CoreBlock g b X Y Z x y z ↔ InCore g b X Y Z x y z
unfolding core_dim3 core_index3
core3_iff g b X Y Z x y z hx hy hz = (
  (λ (i, j, k, s, e). (
    core_band g b X hx i x s.0 (ap (λ (c : DataSpace3). c.x) e),
    core_band g b Y hy j y s.1 (ap (λ (c : DataSpace3). c.y) e),
    core_band g b Z hz k z s.2 (ap (λ (c : DataSpace3). c.z) e),
  )),
  (λ (p, q, r).
      let u = core_place g b X hx x p.0 p.1 in
      let v = core_place g b Y hy y q.0 q.1 in
      let w = core_place g b Z hz z r.0 r.1 in
      (x - g - b, y - g - b, z - g - b, (u.0, v.0, w.0), cell3_ext u.1 v.1 w.1)),
)
