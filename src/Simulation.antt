-- ===== src/Simulation.antt =====
-- src/libPMacc/include/simulationControl/SimulationHelper.hpp: the main loop and the checkpoints.
-- The rest of the program is a value of `World`, which the parameters change: the virtual functions
-- `runOneStep` and `movingWindowCheck`, `invalidate` of the DataConnector, the creation of a
-- directory, and `notifyPlugins` and `checkpointPlugins`. `can_write` is whether the master file of
-- the checkpoints can be opened. Barriers between processes and the printing of times are left out.
mod Tests
pub mod Actions
pub mod Steps
pub mod Relate
use piconalpaka.Prelude.{
  ℕ, zero, suc, ◌+◌, ◌-◌, ◌%◌, Bool, true, false, not, ◌&&◌, Option, none, some, List, [], ◌∷◌,
  ◌++◌, ◌==◌, if◌then◌else◌, ltb, ◌>>=◌,
}

-- `run_steps`, `checkpoint_period` and `is_root` (rank 0) stay as they are; `master_file` is
-- checkpoints.txt.
pub record Simulation (World : Type 0) : Type 0 where
  pub run_steps : ℕ
  pub checkpoint_period : ℕ
  pub is_root : Bool
  pub num_checkpoints : ℕ
  pub master_file : List ℕ
  pub world : World

-- What the simulation calls.
pub record Calls (World : Type 0) : Type 0 where
  pub run_one_step : ℕ → World → World
  pub moving_window_check : ℕ → World → World
  pub invalidate : World → World
  pub create_directory : World → World
  pub notify_plugins : ℕ → World → World
  pub checkpoint_plugins : ℕ → World → World
  pub can_write : World → Bool

module _ {World : Type 0} (calls : Calls World) where
  -- `writeCheckpointStep`; `none` is the `std::runtime_error`.
  unfoldable pub write_checkpoint_step : ℕ → Simulation World → Option (Simulation World)
  write_checkpoint_step step s =
      if calls.can_write s.world
      then some (record s { master_file = s.master_file ++ step ∷ [] })
      else none

  -- `checkpointPeriod && (currentStep % checkpointPeriod == 0)`
  abbrev pub checkpoint_due : ℕ → Simulation World → Bool
  checkpoint_due step s = not (s.checkpoint_period == 0) && step % s.checkpoint_period == 0

  -- The branch of `dumpOneStep` that makes a checkpoint
  unfoldable pub make_checkpoint : ℕ → Simulation World → Option (Simulation World)
  make_checkpoint step s = do
    let w1 = if s.num_checkpoints == 0 then calls.create_directory s.world else s.world
    let s1 = record s { world = calls.checkpoint_plugins step w1 }
    s2 ← if s.is_root then write_checkpoint_step step s1 else some s1
    some (record s2 { num_checkpoints = suc s2.num_checkpoints })

  unfoldable pub dump_one_step : ℕ → Simulation World → Option (Simulation World)
  dump_one_step step s =
      let s1 = record s { world = calls.notify_plugins step (calls.invalidate s.world) } in
      if checkpoint_due step s1 then make_checkpoint step s1 else some s1

  unfoldable pub check_window : ℕ → Simulation World → Simulation World
  check_window step s = record s { world = calls.moving_window_check step s.world }

  -- A round of the main loop of `startSimulation`: the step is computed, counted, and dumped.
  unfoldable pub round : ℕ → Simulation World → Option (Simulation World)
  round step s =
      dump_one_step (suc step)
        (check_window (suc step) (record s { world = calls.run_one_step step s.world }))

  -- The main loop, with the final step. Each round counts up, so that `run_steps - step` is enough
  -- fuel.
  unfoldable pub main_loop : ℕ → ℕ → Simulation World → Option (ℕ × Simulation World)
  main_loop zero step s = some (step, s)
  main_loop (suc n) step s = elim (ltb step s.run_steps) [
    | false ↦ some (step, s)
    | true ↦ elim (round step s) [ none ↦ none | some t ↦ main_loop n (suc step) t ]
  ]

  -- `startSimulation`, behind `init`, which gives the first step and the simulation
  unfoldable pub start_simulation : ℕ → Simulation World → Option (ℕ × Simulation World)
  start_simulation first s =
      if first == 0
      then (dump_one_step 0 (check_window 0 s) >>= λ t. main_loop t.run_steps 0 t)
      else main_loop (s.run_steps - (first - 1)) (first - 1) (check_window (first - 1) s)
