-- ===== src/Comm/Tests.antt =====
-- A grid of 1 x 4 x 1 devices, seen from the process at (0, 2, 0).
use piconalpaka.Prelude.{◌≡◌, refl, arith, pos, ℤ, not, ◌&&◌, ◌==◌, ◌-◌, ◌%◌, false}
use piconalpaka.Dimensions.{DataSpace3, cell3}
use piconalpaka.Mask.{empty_mask}
use piconalpaka.Comm.{Communicator, start, slides, set_state_after_slides}
use piconalpaka.Comm.Slide.{Slid, slid_back, start-Slid, set_state_after_slides_lem}

abbrev own : DataSpace3
own = cell3 0 2 0

abbrev cart_rank : DataSpace3 → ℤ
cart_rank c = c.y

abbrev unset : Communicator
unset = record {
  coordinates = cell3 0 0 0;
  periodic = cell3 0 0 0;
  ranks = λ i. pos 0;
  dims = cell3 0 0 0;
  communication_mask = empty_mask;
  y_offset = pos 0;
}

abbrev started : Communicator
started = start own cart_rank (cell3 1 4 1) (cell3 0 0 0) unset

started-Slid : Slid 4 2 0 started
started-Slid =
    start-Slid own cart_rank 4 2 (cell3 1 4 1) (cell3 0 0 0) unset (omega arith) refl refl

set_state_after_slides_example :
    Slid 4 2 (11 % 4) (set_state_after_slides own cart_rank 11 started).0
    × Slid 4 2 (11 % 4) (slides own cart_rank 11 started false).0
    × ((set_state_after_slides own cart_rank 11 started).1
        ≡ (not (11 % 4 == 0) && (slid_back 4 2 (11 % 4) == 4 - 1)))
set_state_after_slides_example =
    set_state_after_slides_lem own cart_rank 4 2 11 started (omega arith) refl started-Slid
