-- ===== src/Window.antt =====
-- src/libPMacc/include/mappings/simulation: Selection.hpp, SubGrid.hpp and the local domain of
-- GridController.hpp, and the moving window of
-- src/picongpu/include/simulationControl/MovingWindow.hpp, in three dimensions. What the source
-- computes in floating point from the extents and the constants is an argument.
mod Tests
pub mod Slides
pub mod Tiles
use piconalpaka.Prelude.{
  ℕ, suc, ◌+◌, ◌-◌, ◌*◌, ◌%◌, Bool, true, false, ◌&&◌, not, ◌==◌, leb, if◌then◌else◌, ℤ, pos, ◌-ℤ◌,
  ◌*ℤ◌,
}
use piconalpaka.Dimensions.{DataSpace3, create3}
use piconalpaka.Mask.{Mask, is_set, top, bottom}

-- `Selection`
pub record Selection : Type 0 where
  pub size : DataSpace3
  pub offset : DataSpace3

abbrev pub selection : DataSpace3 → Selection
selection size = record { size = size; offset = create3 (pos 0) }

-- `SubGrid`
pub record SubGrid : Type 0 where
  pub total_domain : Selection
  pub global_domain : Selection
  pub local_domain : Selection

-- `SubGrid::init`
unfoldable pub init_sub_grid : DataSpace3 → DataSpace3 → DataSpace3 → SubGrid
init_sub_grid local_size global_size local_offset = record {
  total_domain = selection global_size;
  global_domain = selection global_size;
  local_domain = record { size = local_size; offset = local_offset };
}

unfoldable pub set_local_domain_offset : DataSpace3 → SubGrid → SubGrid
set_local_domain_offset offset g = record g {
  local_domain = record { size = g.local_domain.size; offset = offset };
}

-- `GridController::updateLocalDomainOffset`, at the position `y` of the device
unfoldable pub update_local_domain_offset : ℤ → SubGrid → SubGrid
update_local_domain_offset y g =
    set_local_domain_offset (record g.local_domain.offset { y = y *ℤ g.local_domain.size.y }) g

-- `MovingWindow`
pub record MovingWindow : Type 0 where
  pub sliding_window_active : Bool
  pub slide_counter : ℕ
  pub last_slide_step : ℕ

-- The constructor
abbrev pub new_moving_window : MovingWindow
new_moving_window = record { sliding_window_active = false; slide_counter = 0; last_slide_step = 0 }

unfoldable pub set_sliding_window : Bool → MovingWindow → MovingWindow
set_sliding_window value w = record w { sliding_window_active = value }

unfoldable pub set_slide_counter : ℕ → ℕ → MovingWindow → MovingWindow
set_slide_counter slides current_step w = record w {
  slide_counter = slides;
  last_slide_step = current_step;
}

unfoldable pub increment_slide_counter : ℕ → MovingWindow → MovingWindow
increment_slide_counter current_step w =
    if w.sliding_window_active && not (w.last_slide_step == current_step)
    then record w {
      slide_counter = (w.slide_counter + 1) % 4294967296;
      last_slide_step = current_step;
    }
    else w

-- Subtraction of `uint32_t`
abbrev pub sub_uint32 : ℕ → ℕ → ℕ
sub_uint32 a b = (a + 4294967296 - b) % 4294967296

-- The number of devices along y, `stepsInFuture`, `stepsPerGPU`, and `*offsetFirstGPU` for a value
-- of `stepsInLastGPU`
pub record Pace : Type 0 where
  pub devices_y : ℕ
  pub steps_in_future : ℕ
  pub steps_per_gpu : ℕ
  pub offset_at : ℕ → ℤ

abbrev pub first_slide_step : Pace → ℕ
first_slide_step c = sub_uint32 (c.steps_per_gpu * c.devices_y % 4294967296) c.steps_in_future

abbrev pub first_move_step : Pace → ℕ
first_move_step c = sub_uint32 (c.steps_per_gpu * (c.devices_y - 1) % 4294967296) c.steps_in_future

abbrev pub steps_in_last_gpu : Pace → ℕ → ℕ
steps_in_last_gpu c current_step = (current_step + c.steps_in_future) % 4294967296 % c.steps_per_gpu

-- `*doSlide`, `*offsetFirstGPU`, and the window after the call
pub record SlideInfo : Type 0 where
  pub do_slide : Bool
  pub offset_first_gpu : ℤ
  pub window : MovingWindow

-- `getCurrentSlideInfo`
unfoldable pub get_current_slide_info : Pace → ℕ → MovingWindow → SlideInfo
get_current_slide_info c current_step w =
    if w.sliding_window_active && leb (first_move_step c) current_step
    then (if leb (first_slide_step c) current_step && steps_in_last_gpu c current_step == 0
        then record {
          do_slide = true;
          offset_first_gpu = c.offset_at (steps_in_last_gpu c current_step);
          window = increment_slide_counter current_step w;
        }
        else record {
          do_slide = false;
          offset_first_gpu = c.offset_at (steps_in_last_gpu c current_step);
          window = w;
        })
    else record { do_slide = false; offset_first_gpu = pos 0; window = w }

-- `getSlideCounter`
unfoldable pub get_slide_counter : Pace → ℕ → MovingWindow → ℕ × MovingWindow
get_slide_counter c current_step w =
    let i = get_current_slide_info c current_step w in (i.window.slide_counter, i.window)

-- `slideInCurrentStep`
unfoldable pub slide_in_current_step : Pace → ℕ → MovingWindow → Bool × MovingWindow
slide_in_current_step c current_step w =
    let i = get_current_slide_info c current_step w in
    if w.sliding_window_active then (i.do_slide, i.window) else (false, w)

-- `isBottomGPU`
unfoldable pub is_bottom_gpu : Mask → Bool
is_bottom_gpu comm_mask = not (is_set comm_mask bottom)

-- `Window` of Window.hpp
pub record Window : Type 0 where
  pub global_dimensions : Selection
  pub local_dimensions : Selection

-- The window of `getWindow`, for an active moving window and an offset of the first device
unfoldable pub moved_window : SubGrid → Mask → ℤ → Window
moved_window g comm_mask offset_first_gpu =
    let local = g.local_domain in
    let global : Selection = record {
      size = record g.global_domain.size { y = g.global_domain.size.y -ℤ local.size.y };
      offset = record (create3 (pos 0)) { y = offset_first_gpu };
    } in
    if not (is_set comm_mask top)
    then record {
      global_dimensions = global;
      local_dimensions = record {
        size = record local.size { y = local.size.y -ℤ offset_first_gpu };
        offset = create3 (pos 0);
      };
    }
    else record {
      global_dimensions = global;
      local_dimensions = record {
        size = record local.size {
          y = if not (is_set comm_mask bottom) then offset_first_gpu else local.size.y;
        };
        offset = record (create3 (pos 0)) { y = local.offset.y -ℤ offset_first_gpu };
      };
    }

-- `getWindow`
unfoldable pub get_window : Pace → SubGrid → Mask → ℕ → MovingWindow → Window × MovingWindow
get_window c g comm_mask current_step w =
    let i = get_current_slide_info c current_step w in
    if w.sliding_window_active then (moved_window g comm_mask i.offset_first_gpu, i.window) else (
      record {
        global_dimensions = selection g.global_domain.size;
        local_dimensions = selection g.local_domain.size;
      },
      w,
    )

-- `getDomainAsWindow`
unfoldable pub get_domain_as_window : SubGrid → Window
get_domain_as_window g = record {
  global_dimensions = g.global_domain;
  local_dimensions = g.local_domain;
}
