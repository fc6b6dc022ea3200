-- ===== src/Mapping/Stride.antt =====
-- src/libPMacc/include/mappings/kernel/StrideMapping.hpp and StrideMappingMethods.hpp, in three
-- dimensions: a kernel runs on every `stride`-th supercell of an area, once for each offset.
pub mod Cover
pub mod Next
use piconalpaka.Prelude.{
  ℕ, suc, ◌+◌, ℤ, pos, ◌+ℤ◌, ◌-ℤ◌, ◌*ℤ◌, quot, ltb_ℤ, Bool, to_int32, to_uint32,
}
use piconalpaka.Dimensions.{DataSpace3, create3, add3, sub3, product3}
use piconalpaka.Dimensions.Linear.{map_pos3, map_cell3}

-- The areas that have a specialisation of StrideMappingMethods.
pub data Area : Type 0 where
  core_border_guard core core_border : Area

-- `StrideMapping`, with what it takes from its base class.
pub record StrideMapping : Type 0 where
  pub area : Area
  pub stride : ℕ
  pub grid_super_cells : DataSpace3
  pub guarding_super_cells : ℤ
  pub border_super_cells : ℤ
  pub offset : DataSpace3

-- `StrideMappingMethods::getGridDim` and `shift`
unfoldable pub area_dim : Area → ℤ → ℤ → DataSpace3 → DataSpace3
area_dim core_border_guard guard border grid = grid
area_dim core guard border grid = sub3 grid (create3 (pos 2 *ℤ (guard +ℤ border)))
area_dim core_border guard border grid = sub3 grid (create3 (pos 2 *ℤ guard))

unfoldable pub shift : Area → ℤ → ℤ → DataSpace3 → DataSpace3
shift core_border_guard guard border value = value
shift core guard border value = add3 value (create3 (guard +ℤ border))
shift core_border guard border value = add3 value (create3 guard)

-- The constructor: the offset is 0 in each dimension.
unfoldable pub stride_mapping : Area → ℕ → DataSpace3 → ℤ → ℤ → StrideMapping
stride_mapping area stride grid guard border = record {
  area = area;
  stride = stride;
  grid_super_cells = grid;
  guarding_super_cells = guard;
  border_super_cells = border;
  offset = create3 (pos 0);
}

-- `getGridDim`, in one dimension
abbrev pub strided : ℕ → ℤ → ℤ → ℤ
strided stride extent offset = quot (extent -ℤ offset +ℤ pos stride -ℤ pos 1) (pos stride)

unfoldable pub stride_grid_dim : StrideMapping → DataSpace3
stride_grid_dim m =
    let d = area_dim m.area m.guarding_super_cells m.border_super_cells m.grid_super_cells in
    record {
      x = strided m.stride d.x m.offset.x;
      y = strided m.stride d.y m.offset.y;
      z = strided m.stride d.z m.offset.z;
    }

-- `getSuperCellIndex`
unfoldable pub stride_index : StrideMapping → DataSpace3 → DataSpace3
stride_index m idx = shift m.area m.guarding_super_cells m.border_super_cells (record {
  x = idx.x *ℤ pos m.stride +ℤ m.offset.x;
  y = idx.y *ℤ pos m.stride +ℤ m.offset.y;
  z = idx.z *ℤ pos m.stride +ℤ m.offset.z;
})

-- `next`: the linear offset goes up by one, and the new offset is read off it.
unfoldable pub stride_next : StrideMapping → StrideMapping × Bool
stride_next m =
    let size = create3 (pos m.stride) in
    let linear_offset = to_int32 (map_cell3 size m.offset) +ℤ pos 1 in
    (
      record m { offset = map_pos3 size (to_uint32 linear_offset) },
      ltb_ℤ linear_offset (product3 size),
    )
