-- ===== src/MySimulation/Background.antt =====
-- The background fields in src/picongpu/include/simulationControl/MySimulation.hpp. That subtracting
-- undoes adding is exact arithmetic; with floating point numbers it holds up to rounding.
use piconalpaka.Prelude.{
  ℕ, suc, ◌-◌, Bool, true, false, ◌&&◌, ◌==◌, leb, ◌≡◌, refl, sym, ap, ◌∙◌, Bool-cases, inl, inr,
  arith, subst,
}
use piconalpaka.Dimensions.{DataSpace3, add3}
use piconalpaka.Comm.{slide}
use piconalpaka.Window.{
  MovingWindow, Pace, get_current_slide_info, get_slide_counter, slide_in_current_step,
  increment_slide_counter, first_move_step, first_slide_step, steps_in_last_gpu,
}
use piconalpaka.Simulation.{Simulation, Calls, start_simulation}
use piconalpaka.Simulation.Relate.{Simulates, Both, Ends, start_simulation-Both}
use piconalpaka.MySimulation.{
  Place, Field, MySimulation, Physics, Setting, Output, total_cell_offset, cellwise_operation,
  push_background, push_particles, solve_fields, run_one_step, slide_simulation, slide_if_due,
  moving_window_check, calls_with, simulation_calls,
}
use piconalpaka.MySimulation.Reference.{shown, with_background, reference_step, reference_output}

-- A further question for the slides of this step changes nothing.
abbrev pub Settled : Pace → ℕ → MovingWindow → Type 0
Settled c k w = get_slide_counter c k w ≡ (w.slide_counter, w)

slide_in_current_step-Settled :
    (c : Pace) (k : ℕ) (w : MovingWindow) → Settled c k (slide_in_current_step c k w).1
unfolding slide_in_current_step get_slide_counter get_current_slide_info increment_slide_counter
slide_in_current_step-Settled c k w = elim (Bool-cases w.sliding_window_active) [
  | inr a ↦ simp a refl
  | inl a ↦ elim (Bool-cases (leb (first_move_step c) k)) [
    | inr m ↦ simp (a, m) refl
    | inl m ↦ elim (Bool-cases (leb (first_slide_step c) k && steps_in_last_gpu c k == 0)) [
      | inr f ↦ simp (a, m, f) refl
      | inl f ↦
          let same : (k == k) ≡ true = ground arith in
          elim (Bool-cases (w.last_slide_step == k)) [
            | inl l ↦ simp (a, m, f, l) refl
            | inr l ↦ simp (a, m, f, l, same) refl
          ]
    ]
  ]
]

module _ {V P : Type 0} (physics : Physics V P)
    (cancel : (x v : V) → physics.sub (physics.add x v) v ≡ x) where
  -- The background is added for the slides that the window has counted.
  add_lem :
      (val : DataSpace3 → ℕ → V) (k : ℕ) (enabled : Bool) (f : Field V) (p : Place)
      → Settled physics.pace k p.moving_window
      → cellwise_operation physics physics.add val k enabled (f, p)
        ≡ (shown physics val enabled k p f, p)
  unfolding cellwise_operation
  add_lem val k true f p h = rw h refl
  add_lem val k false f p h = refl

  sub_lem :
      (val : DataSpace3 → ℕ → V) (k : ℕ) (enabled : Bool) (f : Field V) (p : Place)
      → Settled physics.pace k p.moving_window
      → cellwise_operation physics physics.sub val k enabled (shown physics val enabled k p f, p)
        ≡ (f, p)
  unfolding cellwise_operation
  sub_lem val k true f p h = rw h (λ i. (
    (λ cell.
        cancel (f cell)
          (val (add3 cell (total_cell_offset physics p.moving_window.slide_counter p.sub_grid)) k)
          i),
    p,
  ))
  sub_lem val k false f p h = refl

  add_background :
      (k : ℕ) (s : MySimulation V P)
      → Settled physics.pace k s.place.moving_window
      → push_background physics physics.add k s ≡ with_background physics k s
  unfolding push_background with_background
  add_background k s h =
      rw
        (
          add_lem physics.background_e k physics.influence_pusher_e s.field_e s.place h,
          add_lem physics.background_b k physics.influence_pusher_b s.field_b s.place h,
        )
        refl

  pub sub_background :
      (k : ℕ) (s : MySimulation V P) (p : P)
      → Settled physics.pace k s.place.moving_window
      → push_background physics physics.sub k
          (record (with_background physics k s) { particles = p })
        ≡ record s { particles = p }
  unfolding push_background with_background
  sub_background k s p h =
      rw
        (
          sub_lem physics.background_e k physics.influence_pusher_e s.field_e s.place h,
          sub_lem physics.background_b k physics.influence_pusher_b s.field_b s.place h,
        )
        refl

  run_one_step_lem :
      (k : ℕ) (s : MySimulation V P)
      → Settled physics.pace k s.place.moving_window
      → run_one_step physics k (with_background physics k s) ≡ reference_step physics k s
  unfolding run_one_step reference_step
  run_one_step_lem k s h =
      ap (solve_fields physics k)
        (sub_background k s (push_particles physics k (with_background physics k s)).particles h)

  slide_simulation-window :
      (k : ℕ) (s : MySimulation V P)
      → (slide_simulation physics k s).place.moving_window ≡ s.place.moving_window
  unfolding slide_simulation
  slide_simulation-window k s =
      elim (Bool-cases (slide physics.own physics.cart_rank s.place.communicator).1) [
        | inl e ↦ rw e refl
        | inr e ↦ rw e refl
      ]

  slide_if_due-Settled :
      (k : ℕ) (s : MySimulation V P)
      → Settled physics.pace k (slide_if_due physics k s).place.moving_window
  unfolding slide_if_due
  slide_if_due-Settled k s =
      let w = (slide_in_current_step physics.pace k s.place.moving_window).1 in
      let settled = slide_in_current_step-Settled physics.pace k s.place.moving_window in
      elim (Bool-cases (slide_in_current_step physics.pace k s.place.moving_window).0) [
        | inl e ↦ rw e (
            subst (Settled physics.pace k)
              (sym (
                slide_simulation-window k
                  (record s { place = record s.place { moving_window = w } })))
              settled)
        | inr e ↦ rw e settled
      ]

  pub moving_window_check_lem :
      (k : ℕ) (s : MySimulation V P)
      → moving_window_check physics k s ≡ with_background physics k (slide_if_due physics k s)
  unfolding moving_window_check
  moving_window_check_lem k s =
      add_background k (slide_if_due physics k s) (slide_if_due-Settled k s)

  module _ {Q : Type 0} (o : Output V P Q) where
    -- The reference and the simulation at a step
    abbrev pub Shows : ℕ → Setting V P Q → Setting V P Q → Type 0
    Shows k a b =
        Settled physics.pace k a.simulation.place.moving_window
        × (b ≡ record a { simulation = with_background physics k a.simulation })

    abbrev pub reference_calls : Calls (Setting V P Q)
    reference_calls =
        calls_with (reference_step physics) (slide_if_due physics) (reference_output physics o)

    shown_after_check :
        (k : ℕ) (s : MySimulation V P) (q : Q)
        → Shows k
            (record { simulation = slide_if_due physics k s; output = q })
            (record { simulation = moving_window_check physics k s; output = q })
    shown_after_check k s q = (
      slide_if_due-Settled k s,
      ap (λ t. record { simulation = t; output = q }) (moving_window_check_lem k s),
    )

    steps_on :
        (k : ℕ) (a b : Setting V P Q)
        → Shows k a b
        → Shows
            (suc k)
            (reference_calls.moving_window_check (suc k) (reference_calls.run_one_step k a))
            (record b {
              simulation =
                  moving_window_check physics (suc k) (run_one_step physics k b.simulation);
            })
    steps_on k a b h =
        let check : MySimulation V P → Q → Setting V P Q =
          λ t q. record { simulation = moving_window_check physics (suc k) t; output = q } in
        let next = reference_step physics k a.simulation in
        subst
          (Shows (suc k)
            (reference_calls.moving_window_check (suc k) (reference_calls.run_one_step k a)))
          (sym (
            ap {A = Setting V P Q} (λ w. check (run_one_step physics k w.simulation) w.output) h.1
            ∙ ap (λ t. check t a.output) (run_one_step_lem k a.simulation h.0)))
          (shown_after_check (suc k) next a.output)

    Shows-Simulates : Simulates Shows reference_calls (simulation_calls physics o)
    Shows-Simulates = record {
      steps_on = steps_on;
      notifies = λ k a b h. (
        h.0,
        ap {A = Setting V P Q}
            (λ w. record w { output = o.notify k w.simulation (o.invalidate w.output) }) h.1,
      );
      creates = λ k a b h. (
        h.0,
        ap {A = Setting V P Q} (λ w. record w { output = o.create_directory w.output }) h.1,
      );
      saves = λ k a b h. (
        h.0,
        ap {A = Setting V P Q} (λ w. record w { output = o.checkpoint k w.simulation w.output })
            h.1,
      );
      writes = λ k a b h. sym (ap {A = Setting V P Q} (λ w. o.can_write w.output) h.1);
    }

    -- Where subtracting undoes adding, and for kernels of any kind: a simulation that adds the background
    -- to its fields before the plugins run and removes it before the field solver, and the reference,
    -- whose fields never hold it, are started with the same fields. Both fail, or both end
    -- `startSimulation` at the same step with the same particles, plugins, checkpoints and places; the
    -- fields of the simulation are then those of the reference with the background of that last step
    -- added exactly once.
    pub background_lem :
        (first : ℕ) (s : Simulation (Setting V P Q))
        → Both
            (Ends Shows)
            (start_simulation reference_calls first s)
            (start_simulation (simulation_calls physics o) first s)
    background_lem first s =
        start_simulation-Both Shows-Simulates first s s.world
          (shown_after_check (first - 1) s.world.simulation s.world.output)
