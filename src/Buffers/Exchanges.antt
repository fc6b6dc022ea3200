-- ===== src/Buffers/Exchanges.antt =====
-- src/libPMacc/include/dimensions/GridLayout.hpp, and the region of an exchange in
-- src/libPMacc/include/memory/buffers/ExchangeIntern.hpp, in three dimensions.
pub mod Regions
use piconalpaka.Prelude.{
  ℕ, ℤ, pos, ◌+ℤ◌, ◌-ℤ◌, Bool, ◌&&◌, ◌||◌, ◌==◌, Option, none, some, if◌then◌else◌,
}
use piconalpaka.Dimensions.{DataSpace3, add3, one_dimension_greater3}
use piconalpaka.Mask.{mask_of, contains_exchange_type, right, left, bottom, top, back, front}

-- `BORDER` and `GUARD` of `AreaType` in types.h
abbrev pub border_area : ℕ
border_area = 2

abbrev pub guard_area : ℕ
guard_area = 4

-- `GridLayout`
pub record GridLayout : Type 0 where
  pub data_space : DataSpace3
  pub guard : DataSpace3

-- `getDataSpace`
abbrev pub full_data_space : GridLayout → DataSpace3
full_data_space l = add3 (add3 l.data_space l.guard) l.guard

-- `exchangeTypeToDim`, with whether a dimension exchanges data
pub record Dims : Type 0 where
  pub x : Bool
  pub y : Bool
  pub z : Bool

unfoldable pub exchange_type_to_dim : ℕ → Dims
exchange_type_to_dim exchange =
    let has = contains_exchange_type (mask_of exchange) in
    record { x = has left || has right; y = has top || has bottom; z = has front || has back }

-- The three parts of `exchangeTypeToOffset` do the same, for the two directions of a dimension.
abbrev pub offset_along : ℕ → ℕ → ℕ → ℕ → ℤ → ℤ → ℤ → ℤ
offset_along exchange up down area size border guarding =
    let has = contains_exchange_type (mask_of exchange) in
    if has up
    then (if area == guard_area
        then size -ℤ border -ℤ guarding +ℤ guarding
        else size -ℤ border -ℤ guarding)
    else (if area == guard_area && has down then border -ℤ guarding else border)

unfoldable pub exchange_type_to_offset : ℕ → GridLayout → DataSpace3 → ℕ → DataSpace3
exchange_type_to_offset exchange memory_layout guarding_cells area =
    let size = full_data_space memory_layout in
    let border = memory_layout.guard in
    record {
      x = offset_along exchange right left area size.x border.x guarding_cells.x;
      y = offset_along exchange bottom top area size.y border.y guarding_cells.y;
      z = offset_along exchange back front area size.z border.z guarding_cells.z;
    }

-- The part of the device buffer that an exchange works on
pub record Region : Type 0 where
  pub size : DataSpace3
  pub offset : DataSpace3

-- The loop of the constructor over the dimensions, with `tmp_size`
unfoldable pub exchange_size : ℕ → GridLayout → DataSpace3 → DataSpace3
exchange_size exchange memory_layout guarding_cells =
    let dims = exchange_type_to_dim exchange in
    let tmp_size = memory_layout.data_space in
    record {
      x = if dims.x then guarding_cells.x else tmp_size.x;
      y = if dims.y then guarding_cells.y else tmp_size.y;
      z = if dims.z then guarding_cells.z else tmp_size.z;
    }

-- The first constructor; `none` is the failed assertion.
unfoldable pub exchange_intern : GridLayout → DataSpace3 → ℕ → ℕ → Option Region
exchange_intern memory_layout guarding_cells exchange area =
    if one_dimension_greater3 guarding_cells memory_layout.guard
    then none
    else some (record {
      size = exchange_size exchange memory_layout guarding_cells;
      offset = exchange_type_to_offset exchange memory_layout guarding_cells area;
    })

-- The two exchanges that `GridBuffer::addExchange` makes for a direction `ex` of the send mask: the
-- send exchange in direction `ex`, and the receive exchange in its mirrored direction `recvex`
unfoldable pub send_exchange : GridLayout → DataSpace3 → ℕ → ℕ → Option Region
send_exchange grid_layout guarding_cells data_place ex =
    exchange_intern grid_layout guarding_cells ex
      (if data_place == guard_area then border_area else guard_area)

unfoldable pub receive_exchange : GridLayout → DataSpace3 → ℕ → ℕ → Option Region
receive_exchange grid_layout guarding_cells data_place recvex =
    exchange_intern grid_layout guarding_cells recvex
      (if data_place == guard_area then guard_area else border_area)
