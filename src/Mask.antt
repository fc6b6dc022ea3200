-- ===== src/Mask.antt =====
-- src/libPMacc/include/memory/dataTypes/Mask.hpp, and `ExchangeType` of
-- src/libPMacc/include/types.h: sets of exchange directions as bit masks, and what a direction
-- means in each dimension.
pub mod Sets
pub mod Directions
pub mod Mirror
use piconalpaka.Prelude.{
  ℕ, zero, suc, ◌+◌, ◌/◌, ◌%◌, ◌^◌, Bool, true, false, not, ◌&&◌, ◌||◌, Option, none, some, ltb,
  leb, ◌==◌, if◌then◌else◌, bit_and, bit_or, ℤ, pos, negsuc,
}
use piconalpaka.Dimensions.{DataSpace1, DataSpace2, DataSpace3}

-- `enum ExchangeType`: one digit to the base 3 for each dimension.
abbrev pub right : ℕ
right = 1

abbrev pub left : ℕ
left = 2

abbrev pub bottom : ℕ
bottom = 3

abbrev pub top : ℕ
top = 6

abbrev pub back : ℕ
back = 9

abbrev pub front : ℕ
front = 18

-- `traits::NumberOfExchanges<DIM3>::value`
abbrev pub number_of_exchanges3 : ℕ
number_of_exchanges3 = 27

-- `class Mask`: a `uint32_t`, one bit for each exchange direction.
pub record Mask : Type 0 where
  pub bit_mask : ℕ

-- `Mask()`
abbrev pub empty_mask : Mask
empty_mask = record { bit_mask = 0 }

-- `Mask(uint32_t ex)`, for the shifts below 32 that C++ defines
abbrev pub mask_of : ℕ → Mask
mask_of ex = record { bit_mask = 2 ^ ex }

-- `operator+` and `operator&`
abbrev pub join : Mask → Mask → Mask
join a b = record { bit_mask = bit_or a.bit_mask b.bit_mask }

abbrev pub intersect : Mask → Mask → Mask
intersect a b = record { bit_mask = bit_and a.bit_mask b.bit_mask }

unfoldable pub is_set : Mask → ℕ → Bool
is_set m ex = not (bit_and m.bit_mask (2 ^ ex) == 0)

-- The inner loop of `containsExchangeType`, `while (tmp_ex >= 3)`, and the test behind it. Each
-- round divides `tmp_ex` by 3, so that fuel above `tmp_ex` is enough.
unfoldable pub same_digit : ℕ → ℕ → ℕ → Bool
same_digit zero tmp tmp_ex = false
same_digit (suc fuel) tmp tmp_ex =
    let rest = same_digit fuel (tmp / 3) (tmp_ex / 3) in
    if leb 3 tmp_ex then rest else tmp % 3 == tmp_ex

-- Its outer loop, over the directions `i` with `count` of them to go.
unfoldable pub contains_from : ℕ → ℕ → Mask → ℕ → Bool
contains_from zero i m ex = false
contains_from (suc count) i m ex =
    let rest = contains_from count (i + 1) m ex in
    if is_set m i && same_digit (ex + 1) i ex then true else rest

unfoldable pub contains_exchange_type : Mask → ℕ → Bool
contains_exchange_type m ex = contains_from 26 1 m ex

-- `getMirroredExchangeType`; `none` is the `std::runtime_error`.
unfoldable pub mirrored_exchange_type : ℕ → Option ℕ
mirrored_exchange_type ex =
    if leb number_of_exchanges3 ex
    then none
    else some (
        part right left
        + part left right
        + part bottom top
        + part top bottom
        + part front back
        + part back front)
  where
    part : ℕ → ℕ → ℕ
    part has adds = if contains_exchange_type (mask_of ex) has then adds else 0

-- The loop of `getMirroredMask`, over the directions `i`, with the mask `tmp` so far.
unfoldable pub mirror_from : ℕ → ℕ → Mask → ℕ → Option ℕ
mirror_from zero i m tmp = some tmp
mirror_from (suc count) i m tmp = elim (is_set m i) [
  | false ↦ mirror_from count (i + 1) m tmp
  | true ↦ elim (mirrored_exchange_type i) [
    | none ↦ none
    | some ex ↦ mirror_from count (i + 1) m (bit_or tmp (2 ^ ex))
  ]
]

unfoldable pub mirrored_mask : Mask → Option Mask
mirrored_mask m = elim (mirror_from 26 1 m 0) [
  | none ↦ none
  | some tmp ↦ some (record { bit_mask = tmp })
]

-- The body of the loop of `getRelativeDirections`.
abbrev pub relative : ℕ → ℤ
relative direction = if direction % 3 == 2 then negsuc 0 else pos (direction % 3)

-- `getRelativeDirections<DIM1>` is the special implementation without the remainder.
unfoldable pub relative_directions1 : ℕ → DataSpace1
relative_directions1 direction = record { x = if direction == 2 then negsuc 0 else pos direction }

unfoldable pub relative_directions2 : ℕ → DataSpace2
relative_directions2 direction = record { x = relative direction; y = relative (direction / 3) }

unfoldable pub relative_directions3 : ℕ → DataSpace3
relative_directions3 direction = record {
  x = relative direction;
  y = relative (direction / 3);
  z = relative (direction / 3 / 3);
}
