-- ===== src/Simulation/Actions.antt =====
-- The order in which `startSimulation` of
-- src/libPMacc/include/simulationControl/SimulationHelper.hpp calls the rest of the program.
use piconalpaka.Prelude.{
  ℕ, zero, suc, ◌+◌, ◌%◌, not, ◌&&◌, List, [], ◌∷◌, ◌++◌, ◌==◌, if◌then◌else◌, ◌≡◌, refl, length,
}
use piconalpaka.Simulation.{Calls}

-- A call of a virtual function, of the DataConnector or of the plugins
pub data Action : Type 0 where
  run check notify checkpoint : ℕ → Action
  invalidate create : Action

abbrev pub perform : {World : Type 0} → Calls World → Action → World → World
perform calls (run k) w = calls.run_one_step k w
perform calls (check k) w = calls.moving_window_check k w
perform calls (notify k) w = calls.notify_plugins k w
perform calls (checkpoint k) w = calls.checkpoint_plugins k w
perform calls invalidate w = calls.invalidate w
perform calls create w = calls.create_directory w

abbrev pub perform_all : {World : Type 0} → Calls World → List Action → World → World
perform_all calls [] w = w
perform_all calls (a ∷ cs) w = perform_all calls cs (perform calls a w)

pub perform_all-append :
    {World : Type 0} (calls : Calls World) (cs ds : List Action) (w : World)
    → perform_all calls (cs ++ ds) w ≡ perform_all calls ds (perform_all calls cs w)
perform_all-append calls [] ds w = refl
perform_all-append calls (a ∷ cs) ds w = perform_all-append calls cs ds (perform calls a w)

-- `n` steps from `a` on
abbrev pub steps : ℕ → ℕ → List ℕ
steps a zero = []
steps a (suc n) = a ∷ steps (suc a) n

-- The steps among them that the period divides
abbrev pub checkpoints : ℕ → List ℕ → List ℕ
checkpoints period [] = []
checkpoints period (x ∷ xs) =
    if not (period == 0) && x % period == 0
    then x ∷ checkpoints period xs
    else checkpoints period xs

-- A checkpoint, after `made` of them: the first one creates the directory.
abbrev pub checkpoint_actions : ℕ → ℕ → List Action
checkpoint_actions made k = (if made == 0 then create ∷ [] else []) ++ checkpoint k ∷ []

-- The data is written out, and the plugins are notified, and a checkpoint is made if it is due.
abbrev pub dump_actions : ℕ → ℕ → ℕ → List Action
dump_actions period made k =
    invalidate
    ∷ notify k
    ∷ (if not (period == 0) && k % period == 0 then checkpoint_actions made k else [])

-- `n` rounds, from step `k` on
abbrev pub round_actions : ℕ → ℕ → ℕ → ℕ → List Action
round_actions period made k zero = []
round_actions period made k (suc n) =
    run k ∷ check (suc k) ∷ dump_actions period made (suc k)
    ++ round_actions period (made + length (checkpoints period (suc k ∷ []))) (suc k) n

-- A simulation that starts at step 0, or at `first` after a restart, up to `n` steps behind it
abbrev pub actions : ℕ → ℕ → ℕ → ℕ → List Action
actions period made zero n =
    check 0 ∷ dump_actions period made 0
    ++ round_actions period (made + length (checkpoints period (0 ∷ []))) 0 n
actions period made (suc k) n = check k ∷ round_actions period made k (suc n)
