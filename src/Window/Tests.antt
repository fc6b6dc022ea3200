-- ===== src/Window/Tests.antt =====
-- Three devices along y with 64 cells each, which the window passes in three steps each.
use piconalpaka.Prelude.{◌+◌, ◌≡◌, ◌+ℤ◌, pos, refl, arith}
use piconalpaka.Dimensions.{DataSpace3, cell3}
use piconalpaka.Mask.{Mask, is_set}
use piconalpaka.Window.{Pace, moved_window}
use piconalpaka.Window.Slides.{Fits, after, slides_until, slide_counter_lem}
use piconalpaka.Window.Tiles.{Ends, cut, sub_grid_at, moved_window_lem}

abbrev three_devices : Pace
three_devices = record {
  devices_y = 3;
  steps_in_future = 4;
  steps_per_gpu = 3;
  offset_at = λ k. pos (k + k);
}

three_devices-Fits : Fits three_devices 10
three_devices-Fits = record {
  paced = omega arith;
  several = omega arith;
  started = omega arith;
  extent = omega arith;
  steps = omega arith;
}

slide_counter_example : (after three_devices 10).slide_counter ≡ slides_until three_devices 10
slide_counter_example = slide_counter_lem three_devices 10 three_devices-Fits

-- The neighbours to the top and to the bottom
abbrev both : Mask
both = record { bit_mask = 72 }

abbrev origin : DataSpace3
origin = cell3 0 0 0

moved_window_example :
    let w = moved_window (sub_grid_at 2 64 1 (cell3 8 8 8) (cell3 8 8 8) origin) both (pos 20) in
    (w.local_dimensions.offset.y ≡ pos (cut 2 64 20 1))
    × (w.local_dimensions.offset.y +ℤ w.local_dimensions.size.y ≡ pos (cut 2 64 20 2))
    × (w.global_dimensions.size.y ≡ pos 128)
    × (w.global_dimensions.offset.y ≡ pos 20)
unfolding is_set
moved_window_example =
    moved_window_lem 2 64 20 1 (omega arith) (omega arith) (omega arith) (cell3 8 8 8) (cell3 8 8 8)
      origin both both_ends
  where
    both_ends : Ends 3 1 both
    both_ends = (refl, refl)
