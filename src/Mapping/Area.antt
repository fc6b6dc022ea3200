-- ===== src/Mapping/Area.antt =====
-- src/libPMacc/include/mappings/kernel/AreaMappingMethods.hpp: how many blocks a kernel on an area
-- starts, and which supercell each block works on. `guard` and `border` are the supercells of the
-- base, and `blocks` its grid.
pub mod Strip
pub mod Frame
pub mod Shell
pub mod Plane
pub mod Space
pub mod Core
use piconalpaka.Prelude.{
  ℤ, pos, ◌+ℤ◌, ◌-ℤ◌, ◌*ℤ◌, quot, rem, ltb_ℤ, leb_ℤ, if◌then◌else◌, ltb, bit_and, to_uint32, wrap,
  ◌&&◌,
}
use piconalpaka.Dimensions.{DataSpace2, DataSpace3, create2, create3, add2, add3, sub2, sub3}

-- `v & 1u`
abbrev pub odd : ℤ → ℤ
odd v = pos (bit_and (to_uint32 v) 1)

-- CORE + BORDER + GUARD is the whole grid, in both dimensions.
unfoldable pub all_dim : DataSpace2 → DataSpace2
all_dim blocks = blocks

unfoldable pub all_index : DataSpace2 → DataSpace2
all_index idx = idx

module _ (guard border : ℤ) where
  unfoldable pub core_dim2 : DataSpace2 → DataSpace2
  core_dim2 blocks = sub2 blocks (create2 (pos 2 *ℤ (guard +ℤ border)))

  unfoldable pub core_index2 : DataSpace2 → DataSpace2
  core_index2 idx = add2 idx (create2 (guard +ℤ border))

  unfoldable pub core_dim3 : DataSpace3 → DataSpace3
  core_dim3 blocks = sub3 blocks (create3 (pos 2 *ℤ (guard +ℤ border)))

  unfoldable pub core_index3 : DataSpace3 → DataSpace3
  core_index3 idx = add3 idx (create3 (guard +ℤ border))

  unfoldable pub core_border_dim2 : DataSpace2 → DataSpace2
  core_border_dim2 blocks = sub2 blocks (create2 (pos 2 *ℤ guard))

  unfoldable pub core_border_index2 : DataSpace2 → DataSpace2
  core_border_index2 idx = add2 idx (create2 guard)

  unfoldable pub core_border_dim3 : DataSpace3 → DataSpace3
  core_border_dim3 blocks = sub3 blocks (create3 (pos 2 *ℤ guard))

  unfoldable pub core_border_index3 : DataSpace3 → DataSpace3
  core_border_index3 idx = add3 idx (create3 guard)

  unfoldable pub guard_dim2 : DataSpace2 → DataSpace2
  guard_dim2 blocks = record { x = blocks.x +ℤ blocks.y -ℤ pos 2 *ℤ guard; y = pos 2 *ℤ guard }

  unfoldable pub guard_index2 : DataSpace2 → DataSpace2 → DataSpace2
  guard_index2 blocks idx =
      if ltb_ℤ idx.x blocks.x
      then record { x = idx.x; y = wrap (quot idx.y (pos 2) +ℤ odd idx.y *ℤ (blocks.y -ℤ guard)) }
      else record {
        x = wrap (quot idx.y (pos 2) +ℤ odd idx.y *ℤ (blocks.x -ℤ guard));
        y = guard +ℤ idx.x -ℤ blocks.x;
      }

  unfoldable pub border_dim2 : DataSpace2 → DataSpace2
  border_dim2 blocks =
      let x_overhead = pos 2 *ℤ guard in
      let y_overhead = x_overhead +ℤ pos 2 *ℤ border in
      record { x = wrap (blocks.x -ℤ x_overhead +ℤ blocks.y -ℤ y_overhead); y = pos 2 *ℤ border }

  -- `width` is unsigned, so that the test compares unsigned numbers.
  unfoldable pub border_index2 : DataSpace2 → DataSpace2 → DataSpace2
  border_index2 blocks idx =
      let width = blocks.x -ℤ pos 2 *ℤ guard in
      if ltb (to_uint32 idx.x) (to_uint32 width)
      then record {
        x = guard +ℤ idx.x;
        y =
            wrap
              (guard +ℤ quot idx.y (pos 2) +ℤ odd idx.y *ℤ (blocks.y -ℤ pos 2 *ℤ guard -ℤ border));
      }
      else record {
        x =
            wrap
              (guard +ℤ quot idx.y (pos 2) +ℤ odd idx.y *ℤ (blocks.x -ℤ border -ℤ pos 2 *ℤ guard));
        y = wrap (guard +ℤ border +ℤ idx.x -ℤ width);
      }

  unfoldable pub guard_dim3 : DataSpace3 → DataSpace3
  guard_dim3 blocks =
      let x = blocks.x in
      let x_ = blocks.x -ℤ pos 2 *ℤ guard in
      let y = blocks.y in
      let z_ = blocks.z -ℤ pos 2 *ℤ guard in
      record { x = x *ℤ y +ℤ z_ *ℤ y +ℤ x_ *ℤ z_; y = pos 2 *ℤ guard; z = pos 1 }

  unfoldable pub guard_index3 : DataSpace3 → DataSpace3 → DataSpace3
  guard_index3 blocks idx =
      let x = blocks.x in
      let x_ = blocks.x -ℤ pos 2 *ℤ guard in
      let y = blocks.y in
      let z = blocks.z in
      let z_ = blocks.z -ℤ pos 2 *ℤ guard in
      if ltb_ℤ idx.x (x *ℤ y)
      then record {
        x = rem idx.x x;
        y = quot idx.x x;
        z = wrap (quot idx.y (pos 2) +ℤ odd idx.y *ℤ (z -ℤ guard));
      }
      else (if leb_ℤ (x *ℤ y) idx.x && ltb_ℤ idx.x (x *ℤ y +ℤ z_ *ℤ y)
          then (let tmp_x = idx.x -ℤ x *ℤ y in
              record {
                x = wrap (quot idx.y (pos 2) +ℤ odd idx.y *ℤ (x -ℤ guard));
                y = quot tmp_x z_;
                z = rem tmp_x z_ +ℤ guard;
              })
          else (let tmp_x = idx.x -ℤ x *ℤ y -ℤ z_ *ℤ y in
              record {
                x = rem tmp_x x_ +ℤ guard;
                y = wrap (quot idx.y (pos 2) +ℤ odd idx.y *ℤ (y -ℤ guard));
                z = quot tmp_x x_ +ℤ guard;
              }))

  unfoldable pub border_dim3 : DataSpace3 → DataSpace3
  border_dim3 blocks =
      let g = pos 2 *ℤ guard in
      let b = pos 2 *ℤ border in
      let x = blocks.x -ℤ g in
      let x_ = blocks.x -ℤ g -ℤ b in
      let y = blocks.y -ℤ g in
      let z_ = blocks.z -ℤ g -ℤ b in record { x = x *ℤ y +ℤ z_ *ℤ y +ℤ x_ *ℤ z_; y = b; z = pos 1 }

  unfoldable pub border_index3 : DataSpace3 → DataSpace3 → DataSpace3
  border_index3 blocks idx =
      let g = guard in
      let b = border in
      let x = blocks.x -ℤ pos 2 *ℤ g in
      let x_ = blocks.x -ℤ pos 2 *ℤ g -ℤ pos 2 *ℤ b in
      let y = blocks.y -ℤ pos 2 *ℤ g in
      let z = blocks.z -ℤ pos 2 *ℤ g in
      let z_ = blocks.z -ℤ pos 2 *ℤ g -ℤ pos 2 *ℤ b in
      if ltb_ℤ idx.x (x *ℤ y)
      then record {
        x = rem idx.x x +ℤ g;
        y = quot idx.x x +ℤ g;
        z = wrap (g +ℤ quot idx.y (pos 2) +ℤ odd idx.y *ℤ (z -ℤ b));
      }
      else (if leb_ℤ (x *ℤ y) idx.x && ltb_ℤ idx.x (x *ℤ y +ℤ z_ *ℤ y)
          then (let tmp_x = idx.x -ℤ x *ℤ y in
              record {
                x = wrap (g +ℤ quot idx.y (pos 2) +ℤ odd idx.y *ℤ (x -ℤ b));
                y = quot tmp_x z_ +ℤ g;
                z = rem tmp_x z_ +ℤ g +ℤ b;
              })
          else (let tmp_x = idx.x -ℤ x *ℤ y -ℤ z_ *ℤ y in
              record {
                x = rem tmp_x x_ +ℤ g +ℤ b;
                y = wrap (g +ℤ quot idx.y (pos 2) +ℤ odd idx.y *ℤ (y -ℤ b));
                z = quot tmp_x x_ +ℤ g +ℤ b;
              }))
