-- ===== src/Comm.antt =====
-- src/libPMacc/include/communication/CommunicatorMPI.hpp, in three dimensions: the position of a
-- process in the grid of devices, which slides along y with the simulated window, and the ranks of
-- its neighbours. The cartesian topology is MPI's: `own` is what `MPI_Cart_coords` gives for this
-- process, and `cart_rank` is `MPI_Cart_rank`.
mod Tests
pub mod Slide
pub mod Neighbours
use piconalpaka.Prelude.{
  ℕ, zero, suc, Bool, true, false, ◌&&◌, ◌||◌, not, Option, none, some, ◌==◌, if◌then◌else◌, ◌%◌,
  ◌-◌, ℤ, pos, negsuc, ◌+ℤ◌, ◌-ℤ◌, rem, ltb_ℤ, leb_ℤ, eqb_ℤ,
}
use piconalpaka.Dimensions.{DataSpace3, product3}
use piconalpaka.Mask.{
  Mask, empty_mask, mask_of, join, contains_exchange_type, right, left, bottom, top, back, front,
}

-- What `init` fixes, and what a slide changes: `coordinates`, `ranks`, `communication_mask` and
-- `y_offset`.
pub record Communicator : Type 0 where
  pub coordinates : DataSpace3
  pub periodic : DataSpace3
  pub ranks : ℕ → ℤ
  pub dims : DataSpace3
  pub communication_mask : Mask
  pub y_offset : ℤ

-- `while (coords[1] < 0) coords[1] += dims[1]`. With a positive `dims[1]` each round brings the
-- coordinate nearer to 0, so that fuel from its distance to 0 on is enough.
unfoldable pub raise : ℕ → ℤ → ℤ → ℤ
raise zero d y = y
raise (suc n) d y = if ltb_ℤ y (pos 0) then raise n d (y +ℤ d) else y

abbrev pub distance : ℤ → ℕ
distance (pos n) = 0
distance (negsuc n) = suc n

-- The coordinate along y of a process that has `y` in the topology
unfoldable pub slid : ℤ → ℤ → ℤ → ℤ
slid d y_offset y =
    let y1 = if ltb_ℤ (pos 1) d then rem (y +ℤ y_offset) d else y in raise (distance y1) d y1

-- `mcoords`: one step in each dimension that the direction names
abbrev pub step : Mask → ℕ → ℕ → ℤ → ℤ
step m down up c =
    let c1 = if contains_exchange_type m down then c -ℤ pos 1 else c in
    if contains_exchange_type m up then c1 +ℤ pos 1 else c1

unfoldable pub neighbour : DataSpace3 → ℕ → DataSpace3
neighbour c i = record {
  x = step (mask_of i) left right c.x;
  y = step (mask_of i) top bottom c.y;
  z = step (mask_of i) front back c.z;
}

-- Along a dimension that is not periodic, the grid ends.
abbrev pub in_range : ℤ → ℤ → ℤ → Bool
in_range periodic c d = not (eqb_ℤ periodic (pos 0) && (ltb_ℤ c (pos 0) || leb_ℤ d c))

unfoldable pub has_neighbour : DataSpace3 → DataSpace3 → DataSpace3 → Bool
has_neighbour periodic d c =
    in_range periodic.x c.x d.x && in_range periodic.y c.y d.y && in_range periodic.z c.z d.z

-- A neighbour's coordinates in the topology
unfoldable pub unslid : DataSpace3 → ℤ → DataSpace3 → DataSpace3
unslid d y_offset c = if ltb_ℤ (pos 1) d.y then record c { y = rem (c.y -ℤ y_offset) d.y } else c

-- An `int` as a `size_t`
abbrev pub to_size : ℤ → ℕ
to_size (pos n) = n
to_size (negsuc n) = 18446744073709551615 - n

module _ (own : DataSpace3) (cart_rank : DataSpace3 → ℤ) where
  -- One round of the loop over the directions.
  unfoldable pub update_rank : ℕ → Communicator → Communicator
  update_rank i s =
      let m = neighbour s.coordinates i in
      if has_neighbour s.periodic s.dims m
      then record s {
        ranks = λ j. if j == i then cart_rank (unslid s.dims s.y_offset m) else s.ranks j;
        communication_mask = join s.communication_mask (mask_of i);
      }
      else record s { ranks = λ j. if j == i then negsuc 0 else s.ranks j }

  -- The loop, from `i` on, with the number of rounds left
  unfoldable pub update_ranks : ℕ → ℕ → Communicator → Communicator
  update_ranks zero i s = s
  update_ranks (suc n) i s = update_ranks n (suc i) (update_rank i s)

  -- What `updateCoordinates` does before the loop
  abbrev pub located : Communicator → Communicator
  located s = record s {
    coordinates = record own { y = slid s.dims.y s.y_offset own.y };
    communication_mask = empty_mask;
  }

  -- `updateCoordinates`; in three dimensions the directions are those from 1 to 26.
  unfoldable pub update_coordinates : Communicator → Communicator
  update_coordinates s = update_ranks 26 1 (located s)

  -- `init`, behind the check of the number of processes
  unfoldable pub start : DataSpace3 → DataSpace3 → Communicator → Communicator
  start processes periodic s =
      update_coordinates (record s { periodic = periodic; y_offset = pos 0; dims = processes })

  -- `init`; `none` is the `std::invalid_argument`.
  unfoldable pub init : ℤ → DataSpace3 → DataSpace3 → Communicator → Option Communicator
  init mpi_size processes periodic s =
      if eqb_ℤ (product3 processes) mpi_size then some (start processes periodic s) else none

  -- `slide`, with the value that it returns
  unfoldable pub slide : Communicator → Communicator × Bool
  slide s =
      let y1 = s.y_offset -ℤ pos 1 in
      let y2 = if eqb_ℤ y1 (pos 0 -ℤ s.dims.y) then pos 0 else y1 in
      let s' = update_coordinates (record s { y_offset = y2 }) in
      (s', eqb_ℤ s'.coordinates.y (s'.dims.y -ℤ pos 1))

  unfoldable pub slides : ℕ → Communicator → Bool → Communicator × Bool
  slides zero s result = (s, result)
  slides (suc n) s result = let (s', r) = slide s in slides n s' r

  -- `setStateAfterSlides`; the remainder is computed in `size_t`.
  unfoldable pub set_state_after_slides : ℕ → Communicator → Communicator × Bool
  set_state_after_slides num_slides s = slides (num_slides % to_size s.dims.y) s false
