-- ===== src/Data/Tests.antt =====
-- Two datasets; the rest of the program is the list of the calls, the last one first.
use piconalpaka.Prelude.{
  ℕ, ◌≡◌, inl, refl, arith, List, [], ◌∷◌, false, ◌==◌, some, none, if◌then◌else◌,
}
use piconalpaka.Data.{
  DataConnector, auto_ok, auto_invalid, has_data, get_data, invalidate, initialise,
}
use piconalpaka.Data.Sync.{get_data_lem}
use piconalpaka.Data.Order.{initialise_lem, inits}

abbrev two_datasets : DataConnector (List ℕ)
two_datasets = record {
  mapping = λ id. if id == 4 then some auto_invalid else (if id == 6 then some auto_ok else none);
  ids = 6 ∷ 4 ∷ [];
  iter = 0;
  world = [];
}

get_data_example :
    (t : DataConnector (List ℕ)) × (get_data (◌∷◌) 4 false two_datasets ≡ some t)
    × (get_data (◌∷◌) 4 false t ≡ some t)
    × ((u : DataConnector (List ℕ)) × (get_data (◌∷◌) 4 false (invalidate t) ≡ some u)
        × (u.world ≡ (4 ∷ t.world)))
unfolding has_data
get_data_example = get_data_lem (◌∷◌) 4 two_datasets refl

initialise_example :
    (t : DataConnector (List ℕ)) × (initialise
        (λ w. (3, w))
        (λ id step w. id ∷ w)
        (λ w. 0 ∷ w)
        two_datasets
      ≡ some t)
    × (t.world ≡ (0 ∷ inits (λ id. ◌∷◌ id) (6 ∷ 4 ∷ []) []))
initialise_example =
    initialise_lem (λ w. (3, w)) (λ id step w. id ∷ w) (λ w. 0 ∷ w) two_datasets (inl (omega arith))
