-- ===== src/Simulation/Tests.antt =====
-- A restart at step 3 of 7 steps, with a checkpoint every 2 steps.
use piconalpaka.Prelude.{ℕ, suc, ◌≡◌, refl, [], ◌∷◌, true, some}
use piconalpaka.Simulation.{Simulation, Calls, start_simulation}
use piconalpaka.Simulation.Steps.{Wrote, start_simulation_lem}
use piconalpaka.Simulation.Actions.{checkpoints, steps, actions}

abbrev counting : Calls ℕ
counting = record {
  run_one_step = λ step w. suc w;
  moving_window_check = λ step w. w;
  invalidate = λ w. w;
  create_directory = λ w. w;
  notify_plugins = λ step w. w;
  checkpoint_plugins = λ step w. w;
  can_write = λ w. true;
}

abbrev seven_steps : Simulation ℕ
seven_steps = record {
  run_steps = 7;
  checkpoint_period = 2;
  is_root = true;
  num_checkpoints = 0;
  master_file = 2 ∷ [];
  world = 0;
}

start_simulation_example :
    (t : Simulation ℕ) × (start_simulation counting 3 seven_steps ≡ some (7, t))
    × Wrote counting seven_steps t (checkpoints 2 (steps 3 5)) (actions 2 0 3 4)
start_simulation_example = start_simulation_lem counting (λ w. refl) 3 4 seven_steps refl
