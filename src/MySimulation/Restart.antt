-- ===== src/MySimulation/Restart.antt =====
-- A restart, in src/picongpu/include/simulationControl/MySimulation.hpp.
use piconalpaka.Prelude.{ℕ, suc, ◌-◌, Bool, true, false, ◌==◌, ◌≡◌, refl, sym, ap, ◌∙◌, arith}
use piconalpaka.Dimensions.{DataSpace3, add3}
use piconalpaka.Window.{
  MovingWindow, Pace, get_current_slide_info, get_slide_counter, slide_in_current_step,
}
use piconalpaka.Simulation.{Simulation, start_simulation, check_window, main_loop}
use piconalpaka.Simulation.Relate.{in_world}
use piconalpaka.MySimulation.{
  Place, Field, MySimulation, Physics, Setting, Output, total_cell_offset, push_background,
  slide_if_due, moving_window_check, end_init, simulation_calls,
}
use piconalpaka.MySimulation.Reference.{shown, with_background}
use piconalpaka.MySimulation.Background.{Settled, sub_background, moving_window_check_lem}

inactive-Settled :
    (c : Pace) (k : ℕ) (w : MovingWindow) → w.sliding_window_active ≡ false → Settled c k w
unfolding get_slide_counter get_current_slide_info
inactive-Settled c k w e = rw e refl

-- The simulation `t` of the plugins and the files, with the fields and particles `s`
abbrev pub loaded : {V P Q : Type 0} → Simulation Q → MySimulation V P → Simulation (Setting V P Q)
loaded t s = in_world t (record { simulation = s; output = t.world })

module _ {V P : Type 0} (physics : Physics V P) where
  -- What a restart relies on: no moving window, the same background at the step of the checkpoint and
  -- at the next one, and fields whose guards have been exchanged.
  pub record Resumes (r : ℕ) (s : MySimulation V P) : Type 0 where
    pub inactive : s.place.moving_window.sliding_window_active ≡ false
    pub still_e :
        (cell : DataSpace3) → physics.background_e cell (suc r) ≡ physics.background_e cell r
    pub still_b :
        (cell : DataSpace3) → physics.background_b cell (suc r) ≡ physics.background_b cell r
    pub exchanged_e : physics.communicate_e s.field_e ≡ s.field_e
    pub exchanged_b : physics.communicate_b s.field_b ≡ s.field_b

  shown_still :
      (val : DataSpace3 → ℕ → V) (r : ℕ) (enabled : Bool) (p : Place) (f : Field V)
      → ((cell : DataSpace3) → val cell (suc r) ≡ val cell r)
      → shown physics val enabled r p f ≡ shown physics val enabled (suc r) p f
  shown_still val r true p f h = λ i cell.
      physics.add (f cell)
        (sym (h (add3 cell (total_cell_offset physics p.moving_window.slide_counter p.sub_grid))) i)
  shown_still val r false p f h = refl

  with_background_still :
      (r : ℕ) (s : MySimulation V P)
      → Resumes r s
      → with_background physics r s ≡ with_background physics (suc r) s
  unfolding with_background
  with_background_still r s h = λ i. record s {
    field_e =
        shown_still physics.background_e r physics.influence_pusher_e s.place s.field_e h.still_e i;
    field_b =
        shown_still physics.background_b r physics.influence_pusher_b s.place s.field_b h.still_b i;
  }

  slide_if_due-inactive :
      (k : ℕ) (s : MySimulation V P)
      → s.place.moving_window.sliding_window_active ≡ false
      → slide_if_due physics k s ≡ s
  unfolding slide_if_due slide_in_current_step
  slide_if_due-inactive k s e = rw e refl

  module _ (cancel : (x v : V) → physics.sub (physics.add x v) v ≡ x) where
    end_init_lem :
        (r : ℕ) (s : MySimulation V P)
        → Resumes r s
        → end_init physics (suc r) (with_background physics r s) ≡ s
    unfolding end_init with_background
    end_init_lem r s h =
        let z : (suc r == 0) ≡ false = ground arith in
        let settled = inactive-Settled physics.pace (suc r) s.place.moving_window h.inactive in
        let removed =
          ap (push_background physics physics.sub (suc r)) (with_background_still r s h)
          ∙ sub_background physics cancel (suc r) s s.particles settled in
        rw (z, removed, h.exchanged_e, h.exchanged_b) refl

    checked_again :
        (r : ℕ) (s : MySimulation V P)
        → Resumes r s
        → moving_window_check physics r (end_init physics (suc r) (with_background physics r s))
          ≡ with_background physics r s
    checked_again r s h =
        ap (moving_window_check physics r) (end_init_lem r s h)
        ∙ moving_window_check_lem physics cancel r s
        ∙ ap (with_background physics r) (slide_if_due-inactive r s h.inactive)

    -- Without a moving window, for backgrounds that are the same at the step of the checkpoint and the
    -- next one, and for fields whose guards have been exchanged, and where subtracting undoes adding: a
    -- restart from the fields of a checkpoint, which contain the background of its step, goes on as
    -- the main loop does from these fields at that step.
    pub restart_lem :
        {Q : Type 0} (o : Output V P Q) (r : ℕ) (s : MySimulation V P)
        → Resumes r s
        → (t : Simulation Q)
        → start_simulation
            (simulation_calls physics o)
            (suc r)
            (loaded t (end_init physics (suc r) (with_background physics r s)))
          ≡ main_loop
              (simulation_calls physics o)
              (t.run_steps - r)
              r
              (loaded t (with_background physics r s))
    unfolding start_simulation check_window
    restart_lem o r s h t =
        let z : (suc r == 0) ≡ false = ground arith in
        let p : suc r - 1 ≡ r = omega arith in
        rw (z, p)
          (ap (λ u. main_loop (simulation_calls physics o) (t.run_steps - r) r (loaded t u))
            (checked_again r s h))
