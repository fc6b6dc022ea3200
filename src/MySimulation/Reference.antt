-- ===== src/MySimulation/Reference.antt =====
-- A simulation whose fields never hold the background: the particles and the plugins see the fields
-- with the background of the step, the field solver sees them without.
use piconalpaka.Prelude.{ℕ, Bool, if◌then◌else◌}
use piconalpaka.Dimensions.{DataSpace3, add3}
use piconalpaka.MySimulation.{
  Place, Field, MySimulation, Physics, Output, total_cell_offset, push_particles, solve_fields,
}

module _ {V P : Type 0} (physics : Physics V P) where
  -- A field with its background at a step, for the slides that the window has counted
  abbrev pub shown : (DataSpace3 → ℕ → V) → Bool → ℕ → Place → Field V → Field V
  shown val enabled step place field =
      if enabled
      then (λ cell. physics.add (field cell) (
          val
            (add3 cell (total_cell_offset physics place.moving_window.slide_counter place.sub_grid))
            step))
      else field

  unfoldable pub with_background : ℕ → MySimulation V P → MySimulation V P
  with_background step s = record s {
    field_e = shown physics.background_e physics.influence_pusher_e step s.place s.field_e;
    field_b = shown physics.background_b physics.influence_pusher_b step s.place s.field_b;
  }

  -- The particles of the view, the fields of the simulation
  unfoldable pub reference_step : ℕ → MySimulation V P → MySimulation V P
  reference_step step s =
      let moved = (push_particles physics step (with_background step s)).particles in
      solve_fields physics step (record s { particles = moved })

  -- The plugins see the view.
  abbrev pub reference_output : {Q : Type 0} → Output V P Q → Output V P Q
  reference_output o = record {
    invalidate = o.invalidate;
    create_directory = o.create_directory;
    notify = λ step s. o.notify step (with_background step s);
    checkpoint = λ step s. o.checkpoint step (with_background step s);
    can_write = o.can_write;
  }
