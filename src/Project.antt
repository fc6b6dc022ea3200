-- ===== src/Project.antt =====
-- src/libPMacc/include/dimensions/DataSpaceOperations.hpp, `reduce` and `extend`: a cell loses the
-- dimension of an exchange direction, and is put back at that side of a target grid.
pub mod RoundTrip
use piconalpaka.Prelude.{ℕ, ℤ, pos, negsuc, ◌-ℤ◌, eqb_ℤ, if◌then◌else◌}
use piconalpaka.Dimensions.{DataSpace1, DataSpace2, DataSpace3}
use piconalpaka.Mask.{relative_directions2, relative_directions3}

-- The offset of one dimension: at the far side, at the near side, or the cell's own entry.
abbrev side : ℤ → ℤ → ℤ → ℤ → ℤ
side direction target offset entry =
    if eqb_ℤ direction (pos 1)
    then target -ℤ offset -ℤ pos 1
    else (if eqb_ℤ direction (negsuc 0) then offset else entry)

-- `DataSpaceOperations<DIM1>::extend`
unfoldable pub extend1 : DataSpace1 → ℕ → DataSpace2 → DataSpace2 → DataSpace2
extend1 ds ex target offset =
    let directions = relative_directions2 ex in
    record {
      x = side directions.x target.x offset.x ds.x;
      y = side directions.y target.y offset.y ds.x;
    }

-- `DataSpaceOperations<DIM2>::reduce`
unfoldable pub reduce2 : DataSpace2 → ℕ → DataSpace1
reduce2 ds ex =
    let directions = relative_directions2 ex in
    if eqb_ℤ directions.x (pos 0)
    then (if eqb_ℤ directions.y (pos 0) then record { x = pos 0 } else record { x = ds.x })
    else record { x = ds.y }

-- `DataSpaceOperations<DIM2>::extend`. The x direction decides which entry the y coordinate takes.
unfoldable pub extend2 : DataSpace2 → ℕ → DataSpace3 → DataSpace3 → DataSpace3
extend2 ds ex target offset =
    let directions = relative_directions3 ex in
    record {
      x = side directions.x target.x offset.x ds.x;
      y = side directions.y target.y offset.y (if eqb_ℤ directions.x (pos 0) then ds.y else ds.x);
      z = side directions.z target.z offset.z ds.y;
    }

-- `DataSpaceOperations<DIM3>::reduce`
unfoldable pub reduce3 : DataSpace3 → ℕ → DataSpace2
reduce3 ds ex =
    let directions = relative_directions3 ex in
    if eqb_ℤ directions.x (pos 0)
    then (if eqb_ℤ directions.z (pos 0)
        then (if eqb_ℤ directions.y (pos 0)
            then record { x = pos 0; y = pos 0 }
            else record { x = ds.x; y = ds.z })
        else record { x = ds.x; y = ds.y })
    else record { x = ds.y; y = ds.z }
