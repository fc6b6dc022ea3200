-- ===== src/Mapping.antt =====
-- src/libPMacc/include/mappings/kernel/MappingDescription.hpp: the supercells of one device, with a
-- guard around them and a border inside it.
mod Tests
pub mod Area
pub mod Exchange
pub mod Stride
use piconalpaka.Prelude.{
  ℤ, pos, ◌+ℤ◌, ◌-ℤ◌, ◌*ℤ◌, quot, ltb_ℤ, leb_ℤ, eqb_ℤ, Bool, ◌||◌, ◌&&◌, if◌then◌else◌, Option,
  none, some,
}
use piconalpaka.Dimensions.{DataSpace2, DataSpace3}

pub record MappingDescription2 : Type 0 where
  pub grid_super_cells : DataSpace2
  pub guarding_super_cells : ℤ
  pub border_super_cells : ℤ

pub record MappingDescription3 : Type 0 where
  pub grid_super_cells : DataSpace3
  pub guarding_super_cells : ℤ
  pub border_super_cells : ℤ

-- `std::min`
abbrev min_ℤ : ℤ → ℤ → ℤ
min_ℤ a b = if ltb_ℤ b a then b else a

-- The two assertions of the constructor, on the smallest extent.
abbrev accepts : ℤ → ℤ → ℤ → Bool
accepts min_block guarding border =
    (eqb_ℤ guarding (pos 0) || leb_ℤ (pos 3) min_block)
    && leb_ℤ border (min_block -ℤ pos 2 *ℤ guarding)

-- The constructors; `none` is a failed assertion.
unfoldable pub mapping_description2 : DataSpace2 → DataSpace2 → ℤ → ℤ → Option MappingDescription2
mapping_description2 local_cells super_cell border guarding =
    let x = quot local_cells.x super_cell.x in
    let y = quot local_cells.y super_cell.y in
    if accepts (min_ℤ x y) guarding border
    then some (record {
      grid_super_cells = record { x = x; y = y };
      guarding_super_cells = guarding;
      border_super_cells = border;
    })
    else none

unfoldable pub mapping_description3 : DataSpace3 → DataSpace3 → ℤ → ℤ → Option MappingDescription3
mapping_description3 local_cells super_cell border guarding =
    let x = quot local_cells.x super_cell.x in
    let y = quot local_cells.y super_cell.y in
    let z = quot local_cells.z super_cell.z in
    if accepts (min_ℤ (min_ℤ x y) z) guarding border
    then some (record {
      grid_super_cells = record { x = x; y = y; z = z };
      guarding_super_cells = guarding;
      border_super_cells = border;
    })
    else none
