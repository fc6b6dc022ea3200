-- ===== src/Mapping/Exchange.antt =====
-- src/libPMacc/include/mappings/kernel/ExchangeMappingMethods.hpp: the supercells that are sent in,
-- or received from, one exchange direction. `guard`, `border` and `grid` are those of the base.
pub mod Bands
pub mod Partition
pub mod Plane
use piconalpaka.Prelude.{ℕ, ℤ, pos, negsuc, ◌+ℤ◌, ◌-ℤ◌, ◌*ℤ◌, eqb_ℤ, if◌then◌else◌, wrap}
use piconalpaka.Dimensions.{DataSpace2, DataSpace3}
use piconalpaka.Mask.{relative_directions2, relative_directions3}

-- `getGridDim` for GUARD, in one dimension with relative direction `direction`
abbrev pub guard_extent : ℤ → ℤ → ℤ → ℤ
guard_extent guard direction grid =
    if eqb_ℤ direction (pos 0) then grid -ℤ pos 2 *ℤ guard else guard

-- `getBlockIndex` for GUARD
abbrev pub guard_shift : ℤ → ℤ → ℤ → ℤ → ℤ
guard_shift guard direction grid idx =
    if eqb_ℤ direction (pos 0)
    then idx +ℤ guard
    else (if eqb_ℤ direction (pos 1) then idx +ℤ (grid -ℤ guard) else idx)

-- `getGridDim` for BORDER
abbrev pub border_extent : ℤ → ℤ → ℤ → ℤ → ℤ
border_extent guard border direction grid =
    if eqb_ℤ direction (pos 0) then grid -ℤ pos 2 *ℤ guard -ℤ pos 2 *ℤ border else border

-- `getBlockIndex` for BORDER. The summands are of type `size_t`, and the sum goes back into an `int`.
abbrev pub border_shift : ℤ → ℤ → ℤ → ℤ → ℤ → ℤ
border_shift guard border direction grid idx =
    if eqb_ℤ direction (pos 0)
    then wrap (idx +ℤ (guard +ℤ border))
    else (if eqb_ℤ direction (negsuc 0)
        then wrap (idx +ℤ guard)
        else (if eqb_ℤ direction (pos 1) then wrap (idx +ℤ (grid -ℤ guard -ℤ border)) else idx))

-- The general template, for any other area: all of the grid.
unfoldable pub exchange_all_dim : DataSpace3 → ℕ → DataSpace3
exchange_all_dim grid exchange_type = grid

unfoldable pub exchange_all_index : DataSpace3 → ℕ → DataSpace3
exchange_all_index idx exchange_type = idx

module _ (guard border : ℤ) where
  unfoldable pub exchange_guard_dim2 : DataSpace2 → ℕ → DataSpace2
  exchange_guard_dim2 grid exchange_type =
      let directions = relative_directions2 exchange_type in
      record {
        x = guard_extent guard directions.x grid.x;
        y = guard_extent guard directions.y grid.y;
      }

  unfoldable pub exchange_guard_index2 : DataSpace2 → DataSpace2 → ℕ → DataSpace2
  exchange_guard_index2 grid idx exchange_type =
      let directions = relative_directions2 exchange_type in
      record {
        x = guard_shift guard directions.x grid.x idx.x;
        y = guard_shift guard directions.y grid.y idx.y;
      }

  unfoldable pub exchange_border_dim2 : DataSpace2 → ℕ → DataSpace2
  exchange_border_dim2 grid exchange_type =
      let directions = relative_directions2 exchange_type in
      record {
        x = border_extent guard border directions.x grid.x;
        y = border_extent guard border directions.y grid.y;
      }

  unfoldable pub exchange_border_index2 : DataSpace2 → DataSpace2 → ℕ → DataSpace2
  exchange_border_index2 grid idx exchange_type =
      let directions = relative_directions2 exchange_type in
      record {
        x = border_shift guard border directions.x grid.x idx.x;
        y = border_shift guard border directions.y grid.y idx.y;
      }

  unfoldable pub exchange_guard_dim3 : DataSpace3 → ℕ → DataSpace3
  exchange_guard_dim3 grid exchange_type =
      let directions = relative_directions3 exchange_type in
      record {
        x = guard_extent guard directions.x grid.x;
        y = guard_extent guard directions.y grid.y;
        z = guard_extent guard directions.z grid.z;
      }

  unfoldable pub exchange_guard_index3 : DataSpace3 → DataSpace3 → ℕ → DataSpace3
  exchange_guard_index3 grid idx exchange_type =
      let directions = relative_directions3 exchange_type in
      record {
        x = guard_shift guard directions.x grid.x idx.x;
        y = guard_shift guard directions.y grid.y idx.y;
        z = guard_shift guard directions.z grid.z idx.z;
      }

  unfoldable pub exchange_border_dim3 : DataSpace3 → ℕ → DataSpace3
  exchange_border_dim3 grid exchange_type =
      let directions = relative_directions3 exchange_type in
      record {
        x = border_extent guard border directions.x grid.x;
        y = border_extent guard border directions.y grid.y;
        z = border_extent guard border directions.z grid.z;
      }

  unfoldable pub exchange_border_index3 : DataSpace3 → DataSpace3 → ℕ → DataSpace3
  exchange_border_index3 grid idx exchange_type =
      let directions = relative_directions3 exchange_type in
      record {
        x = border_shift guard border directions.x grid.x idx.x;
        y = border_shift guard border directions.y grid.y idx.y;
        z = border_shift guard border directions.z grid.z idx.z;
      }
