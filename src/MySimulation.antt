-- ===== src/MySimulation.antt =====
-- src/picongpu/include/simulationControl/MySimulation.hpp: a step of PIConGPU, the check of the moving
-- window, and the background fields that are added before the plugins run and removed before the
-- field solver, with src/picongpu/include/fields/background/cellwiseOperation.hpp. A value of
-- `Physics` holds the kernels on particles and fields, and the parameters of the simulation. What
-- runs at the same time here is in the order in which it is started.
pub mod Reference
pub mod Background
pub mod Restart
mod Tests
use piconalpaka.Prelude.{ℕ, Bool, ◌&&◌, ◌==◌, if◌then◌else◌, ℤ, pos, ◌+ℤ◌, ◌*ℤ◌}
use piconalpaka.Dimensions.{DataSpace3, add3, sub3}
use piconalpaka.Comm.{Communicator, slide}
use piconalpaka.Window.{
  MovingWindow, SubGrid, Pace, get_slide_counter, slide_in_current_step, update_local_domain_offset,
}
use piconalpaka.Simulation.{Calls}

-- The MovingWindow, the SubGrid, and the communicator of the GridController
pub record Place : Type 0 where
  pub moving_window : MovingWindow
  pub sub_grid : SubGrid
  pub communicator : Communicator

-- The cells of a field, with the values `V`
abbrev pub Field : Type 0 → Type 0
Field V = DataSpace3 → V

-- `fieldE`, `fieldB`, `fieldJ`, and the particles of all species
pub record MySimulation (V P : Type 0) : Type 0 where
  pub place : Place
  pub field_e : Field V
  pub field_b : Field V
  pub field_j : Field V
  pub particles : P

pub data CurrentArea : Type 0 where
  core border core_border : CurrentArea

pub record Physics (V P : Type 0) : Type 0 where
  pub add : V → V → V
  pub sub : V → V → V
  pub zero : V
  pub background_e : DataSpace3 → ℕ → V
  pub background_b : DataSpace3 → ℕ → V
  pub background_j : DataSpace3 → ℕ → V
  pub influence_pusher_e : Bool
  pub influence_pusher_b : Bool
  pub activated_j : Bool
  pub enable_current : Bool
  pub has_species : Bool
  pub no_margins : Bool
  pub guarding_cells : DataSpace3
  pub pace : Pace
  pub own : DataSpace3
  pub cart_rank : DataSpace3 → ℤ
  pub ionize : ℕ → Place → Field V → Field V → P → P
  pub update_particles : ℕ → Place → Field V → Field V → P → P
  pub update_before_current : ℕ → Place → Field V → Field V → Field V × Field V
  pub compute_current : ℕ → Place → P → Field V → Field V
  pub communicate_e : Field V → Field V
  pub communicate_b : Field V → Field V
  pub communicate_j : Field V → Field V
  pub add_current : CurrentArea → Field V → Field V → Field V → Field V × Field V
  pub update_after_current : ℕ → Place → Field V → Field V → Field V × Field V
  pub reset_particles : ℕ → P → P
  pub init_species : ℕ → Place → P → P

module _ {V P : Type 0} (physics : Physics V P) where
  -- `totalCellOffset` of `CellwiseOperation`, after `num_slides` slides, with GUARD in its area. The
  -- cells that the window has left behind are fewer than 2^31 here.
  abbrev pub total_cell_offset : ℕ → SubGrid → DataSpace3
  total_cell_offset num_slides g =
      let offset = g.local_domain.offset in
      sub3 (record offset { y = offset.y +ℤ pos num_slides *ℤ g.local_domain.size.y })
        physics.guarding_cells

  -- `CellwiseOperation` on all areas of a field
  unfoldable pub cellwise_operation :
      (V → V → V) → (DataSpace3 → ℕ → V) → ℕ → Bool → Field V × Place → Field V × Place
  cellwise_operation op val current_step enabled (field, place) =
      let (n, w) = get_slide_counter physics.pace current_step place.moving_window in
      if enabled
      then (
        λ cell. op (field cell) (val (add3 cell (total_cell_offset n place.sub_grid)) current_step),
        record place { moving_window = w },
      )
      else (field, place)

  -- The two calls of `pushBGField`
  unfoldable pub push_background : (V → V → V) → ℕ → MySimulation V P → MySimulation V P
  push_background op current_step s =
      let (e, p1) =
        cellwise_operation op physics.background_e current_step physics.influence_pusher_e
          (s.field_e, s.place) in
      let (b, p2) =
        cellwise_operation op physics.background_b current_step physics.influence_pusher_b
          (s.field_b, p1) in
      record s { field_e = e; field_b = b; place = p2 }

  -- The particles, which see `fieldE` and `fieldB`
  abbrev pub push_particles : ℕ → MySimulation V P → MySimulation V P
  push_particles step s =
      let p = physics.ionize step s.place s.field_e s.field_b s.particles in
      record s { particles = physics.update_particles step s.place s.field_e s.field_b p }

  -- `addCurrentToEMF`, at once or in the core first
  abbrev pub add_current_to_emf : Field V → Field V → Field V → Field V × Field V
  add_current_to_emf j e b =
      if physics.no_margins
      then (let (e1, b1) = physics.add_current core j e b in physics.add_current border j e1 b1)
      else physics.add_current core_border j e b

  -- From `update_beforeCurrent` to the end of the step
  unfoldable pub solve_fields : ℕ → MySimulation V P → MySimulation V P
  solve_fields step s =
      let (e1, b1) = physics.update_before_current step s.place s.field_e s.field_b in
      let (j1, place) =
        cellwise_operation physics.add physics.background_j step physics.activated_j
          ((λ cell. physics.zero), s.place) in
      let j2 =
        if physics.enable_current then physics.compute_current step place s.particles j1 else j1 in
      let coupled = physics.enable_current && physics.has_species in
      let j3 = if coupled then physics.communicate_j j2 else j2 in
      let (e2, b2) = if coupled then add_current_to_emf j3 e1 b1 else (e1, b1) in
      let (e3, b3) = physics.update_after_current step place e2 b2 in
      record s { place = place; field_e = e3; field_b = b3; field_j = j3 }

  -- `runOneStep`
  unfoldable pub run_one_step : ℕ → MySimulation V P → MySimulation V P
  run_one_step step s = solve_fields step (push_background physics.sub step (push_particles step s))

  -- `resetAll`
  abbrev pub reset_all : ℕ → MySimulation V P → MySimulation V P
  reset_all step s = record s {
    field_e = λ cell. physics.zero;
    field_b = λ cell. physics.zero;
    particles = physics.reset_particles step s.particles;
  }

  -- `slide`; the initialiser of the data, SimStartInitialiser, changes nothing.
  unfoldable pub slide_simulation : ℕ → MySimulation V P → MySimulation V P
  slide_simulation step s =
      let (c, result) = slide physics.own physics.cart_rank s.place.communicator in
      let s1 = record s {
        place = record s.place {
          communicator = c;
          sub_grid = update_local_domain_offset c.coordinates.y s.place.sub_grid;
        };
      } in
      if result
      then (let s2 = reset_all step s1 in
          record s2 { particles = physics.init_species step s2.place s2.particles })
      else s1

  -- The slide of `movingWindowCheck`
  unfoldable pub slide_if_due : ℕ → MySimulation V P → MySimulation V P
  slide_if_due step s =
      let (due, w) = slide_in_current_step physics.pace step s.place.moving_window in
      let s1 = record s { place = record s.place { moving_window = w } } in
      if due then slide_simulation step s1 else s1

  -- `movingWindowCheck`
  unfoldable pub moving_window_check : ℕ → MySimulation V P → MySimulation V P
  moving_window_check step s = push_background physics.add step (slide_if_due step s)

  -- `init` behind the initialisation or the restart, up to its return, with the step that it returns
  unfoldable pub end_init : ℕ → MySimulation V P → MySimulation V P
  end_init step s =
      let s1 = if step == 0 then s else push_background physics.sub step s in
      record s1 {
        field_e = physics.communicate_e s1.field_e;
        field_b = physics.communicate_b s1.field_b;
      }

-- The simulation, and the state of the plugins and the files
pub record Setting (V P Q : Type 0) : Type 0 where
  pub simulation : MySimulation V P
  pub output : Q

-- The plugins and the DataConnector, which read the simulation
pub record Output (V P Q : Type 0) : Type 0 where
  pub invalidate : Q → Q
  pub create_directory : Q → Q
  pub notify : ℕ → MySimulation V P → Q → Q
  pub checkpoint : ℕ → MySimulation V P → Q → Q
  pub can_write : Q → Bool

-- What SimulationHelper calls, with the step and the check of the window
abbrev pub calls_with :
    {V P Q : Type 0}
    → (ℕ → MySimulation V P → MySimulation V P)
    → (ℕ → MySimulation V P → MySimulation V P)
    → Output V P Q
    → Calls (Setting V P Q)
calls_with run check o = record {
  run_one_step = λ step w. record w { simulation = run step w.simulation };
  moving_window_check = λ step w. record w { simulation = check step w.simulation };
  invalidate = λ w. record w { output = o.invalidate w.output };
  create_directory = λ w. record w { output = o.create_directory w.output };
  notify_plugins = λ step w. record w { output = o.notify step w.simulation w.output };
  checkpoint_plugins = λ step w. record w { output = o.checkpoint step w.simulation w.output };
  can_write = λ w. o.can_write w.output;
}

-- The virtual functions of MySimulation
abbrev pub simulation_calls : {V P Q : Type 0} → Physics V P → Output V P Q → Calls (Setting V P Q)
simulation_calls physics o = calls_with (run_one_step physics) (moving_window_check physics) o
