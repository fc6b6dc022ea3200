-- ===== src/Dimensions/Linear/RoundTrip.antt =====
-- The two directions of `DataSpaceOperations::map` are inverse to one another on a grid of fewer
-- than 2^31 cells.
use native.Mathlib.Nat.{div-add-mod'}
use piconalpaka.Prelude.{ℕ, ◌+◌, ◌*◌, ◌/◌, ◌%◌, ◌<◌, ◌≡◌, ap, ◌∙◌, arith, pos}
use piconalpaka.Dimensions.{cell2, cell3, cell2_ext, cell3_ext}
use piconalpaka.Dimensions.Linear.{
  map_pos2, map_cell2, map_pos3, map_cell3, map_pos2-cell, map_pos3-cell, digits-sum, div_unique,
  mod_unique, fits,
}

-- In a grid of sx columns, a linear position below 2^31 is the index of its own cell.
pub map_cell2-map_pos2 :
    (sx sy p : ℕ)
    → sx < 2147483648
    → p < 2147483648
    → map_cell2 (cell2 sx sy) (map_pos2 (cell2 sx sy) p) ≡ p
unfolding map_cell2
map_cell2-map_pos2 sx sy p hx hp = rw (map_pos2-cell sx sy p hx hp, div-add-mod' p sx) (fits p hp)

-- A cell whose column is below the width is the cell of its own linear position, if that is below
-- 2^31.
pub map_pos2-map_cell2 :
    (sx sy cx cy : ℕ)
    → cx < sx
    → sx < 2147483648
    → cy * sx + cx < 2147483648
    → map_pos2 (cell2 sx sy) (map_cell2 (cell2 sx sy) (cell2 cx cy)) ≡ cell2 cx cy
unfolding map_cell2
map_pos2-map_cell2 sx sy cx cy hc hx hp =
    rw (fits (cy * sx + cx) hp, map_pos2-cell sx sy (cy * sx + cx) hx hp)
      (cell2_ext (ap pos (mod_unique cy sx cx hc)) (ap pos (div_unique cy sx cx hc)))

-- In a grid of three dimensions that are not empty, with a plane of fewer than 2^31 cells, a linear
-- position below 2^31 is the index of its own cell.
pub map_cell3-map_pos3 :
    (sx sy sz p : ℕ)
    → 0 < sx
    → 0 < sy
    → sx * sy < 2147483648
    → p < 2147483648
    → map_cell3 (cell3 sx sy sz) (map_pos3 (cell3 sx sy sz) p) ≡ p
unfolding map_cell3
map_cell3-map_pos3 sx sy sz p px py small h =
    rw (map_pos3-cell sx sy sz px py small p h, digits-sum sx sy sz px py small p) (fits p h)

regroup : (sx sy cx cy cz : ℕ) → cz * sx * sy + cy * sx + cx ≡ cz * (sx * sy) + (cy * sx + cx)
regroup sx sy cx cy cz = omega arith

column : (sx sy cx cy cz : ℕ) → cz * (sx * sy) + (cy * sx + cx) ≡ (cz * sy + cy) * sx + cx
column sx sy cx cy cz = omega arith

pub row-lt : (s w c r : ℕ) → c < s → r < w → c * w + r < s * w
row-lt s w c r hc hr = grind arith

-- A cell inside a grid of fewer than 2^31 cells is the cell of its own linear position.
pub map_pos3-map_cell3 :
    (sx sy sz cx cy cz : ℕ)
    → cx < sx
    → cy < sy
    → cz < sz
    → sz * (sx * sy) < 2147483648
    → map_pos3 (cell3 sx sy sz) (map_cell3 (cell3 sx sy sz) (cell3 cx cy cz)) ≡ cell3 cx cy cz
unfolding map_cell3
map_pos3-map_cell3 sx sy sz cx cy cz hx hy hz small =
    let row : cy * sx + cx < sx * sy = omega (arith, row-lt sy sx cy cx hy hx) in
    let index : cz * (sx * sy) + (cy * sx + cx) < 2147483648 =
      omega (arith, row-lt sz (sx * sy) cz (cy * sx + cx) hz row) in
    let plane : sx * sy < 2147483648 = grind arith in
    rw
      (
        regroup sx sy cx cy cz,
        fits _ index,
        map_pos3-cell sx sy sz (omega arith) (omega arith) plane _ index,
      )
      (cell3_ext
        (ap pos (ap (λ n. n % sx) (column sx sy cx cy cz) ∙ mod_unique (cz * sy + cy) sx cx hx))
        (ap pos
          (ap (λ n. n / sx) (mod_unique cz (sx * sy) (cy * sx + cx) row) ∙ div_unique cy sx cx hx))
        (ap pos (div_unique cz (sx * sy) (cy * sx + cx) row)))
