-- ===== src/Data.antt =====
-- src/libPMacc/include/dataManagement/DataConnector.hpp, Dataset.hpp and ListSorter.hpp: the
-- registered simulation data, and whether each one is synchronised. An identifier is a number,
-- since it is only compared, and names the data too. What `synchronize` of the data and an
-- initialiser do is a parameter: they change the rest of the program, a value of `World`.
mod Tests
pub mod Sync
pub mod Order
use piconalpaka.Prelude.{
  ℕ, zero, suc, ◌+◌, Bool, true, false, not, Option, none, some, List, [], ◌∷◌, ◌++◌, length, ◌==◌,
  if◌then◌else◌, ltb, update, ◌>>=◌,
}

-- `Dataset::DatasetStatus`
pub data DatasetStatus : Type 0 where
  auto_ok auto_invalid : DatasetStatus

-- The datasets, the list of the sorter with the position of its iterator (its length is `end`), and
-- the rest of the program.
pub record DataConnector (World : Type 0) : Type 0 where
  pub mapping : ℕ → Option DatasetStatus
  pub ids : List ℕ
  pub iter : ℕ
  pub world : World

abbrev is_some : Option DatasetStatus → Bool
is_some none = false
is_some (some s) = true

-- The member at a position; reading at `end` is undefined.
abbrev pub at : List ℕ → ℕ → Option ℕ
at [] n = none
at (x ∷ xs) n = elim n [ zero ↦ some x | suc m ↦ at xs m ]

-- `Dataset::invalidate`
abbrev pub invalid : Option DatasetStatus → Option DatasetStatus
invalid none = none
invalid (some auto_ok) = some auto_invalid
invalid (some auto_invalid) = some auto_invalid

module _ {World : Type 0} where
  unfoldable pub has_data : ℕ → DataConnector World → Bool
  has_data id s = is_some (s.mapping id)

  -- `ListSorter::add`, `begin`, `isValid`, `hasNext` and `getNext`
  abbrev pub add : ℕ → DataConnector World → DataConnector World
  add id s = record s {
    ids = s.ids ++ id ∷ [];
    iter = if s.iter == length s.ids then 0 else s.iter;
  }

  abbrev pub begin : DataConnector World → DataConnector World
  begin s = record s { iter = 0 }

  abbrev pub sorter_valid : DataConnector World → Bool
  sorter_valid s = not (s.iter == length s.ids)

  abbrev pub has_next : DataConnector World → Bool
  has_next s = not (suc s.iter == length s.ids)

  abbrev pub get_next : DataConnector World → DataConnector World
  get_next s = record s { iter = suc s.iter }

  -- `registerData`; `none` is the `std::runtime_error`.
  unfoldable pub register_data : ℕ → DataConnector World → Option (DataConnector World)
  register_data id s =
      if has_data id s
      then none
      else some (add id (record s { mapping = update s.mapping id (some auto_invalid) }))

  -- `invalidate` of all datasets
  unfoldable pub invalidate : DataConnector World → DataConnector World
  invalidate s = record s { mapping = λ id. invalid (s.mapping id) }

-- `ISimulationData::synchronize`
module _ {World : Type 0} (synchronize : ℕ → World → World) where
  -- `Dataset::synchronize`
  abbrev pub synchronize_dataset : ℕ → DatasetStatus → DataConnector World → DataConnector World
  synchronize_dataset id auto_ok s = s
  synchronize_dataset id auto_invalid s = record s {
    mapping = update s.mapping id (some auto_ok);
    world = synchronize id s.world;
  }

  -- `getData`, with its effect; `none` is the `std::runtime_error`.
  unfoldable pub get_data : ℕ → Bool → DataConnector World → Option (DataConnector World)
  get_data id no_sync s = elim (s.mapping id) [
    | none ↦ none
    | some status ↦ some (if no_sync then s else synchronize_dataset id status s)
  ]

-- `setup`, `init` and `teardown` of an AbstractInitialiser
module _ {World : Type 0} (setup : World → ℕ × World) (init : ℕ → ℕ → World → World)
    (teardown : World → World) where
  -- The loop of `initialise`, with the rounds left; `none` is a read at `end`, or no rounds left.
  unfoldable pub initialise_from : ℕ → ℕ → DataConnector World → Option (DataConnector World)
  initialise_from zero step s = none
  initialise_from (suc n) step s = elim (at s.ids s.iter) [
    | none ↦ none
    | some id ↦
        let t = record s { world = init id step s.world } in
        let rest = initialise_from n step (get_next t) in if has_next t then rest else some t
  ]

  -- `initialise`: a list of n identifiers takes n rounds.
  unfoldable pub initialise : DataConnector World → Option (DataConnector World)
  initialise s =
      let (step, w) = setup s.world in
      let s1 = record s { world = w } in
      (if sorter_valid s1 then initialise_from (length s1.ids) step (begin s1) else some s1)
      >>= λ t. some (record t { world = teardown t.world })
