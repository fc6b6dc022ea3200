-- ===== src/Data/Sync.antt =====
-- Registration and synchronisation in src/libPMacc/include/dataManagement/DataConnector.hpp.
use piconalpaka.Prelude.{
  ℕ, true, false, none, some, ◌==◌, update, ◌≡◌, refl, ap, arith, ◌⊎◌, inl, inr, Bool-cases,
  Option-cases, ◌||◌,
}
use piconalpaka.Data.{
  DataConnector, DatasetStatus, auto_ok, auto_invalid, has_data, register_data, invalidate, invalid,
  get_data, synchronize_dataset, add,
}

same : (n : ℕ) → (n == n) ≡ true
same n = ground arith

-- The connector with a new dataset
abbrev added : {World : Type 0} → ℕ → DataConnector World → DataConnector World
added id s = add id (record s { mapping = update s.mapping id (some auto_invalid) })

has_data-added :
    {World : Type 0} (id other : ℕ) (s : DataConnector World)
    → has_data other (added id s) ≡ (id == other || has_data other s)
unfolding has_data
has_data-added id other s = elim (Bool-cases (id == other)) [
  | inl e ↦ rw (has_data, e) refl
  | inr e ↦ rw (has_data, e) refl
]

-- `registerData` refuses an identifier that is there. Any other one is there afterwards, besides
-- those that were.
pub register_data_lem :
    {World : Type 0} (id other : ℕ) (s : DataConnector World)
    → ((has_data id s ≡ true) × (register_data id s ≡ none))
      ⊎ ((has_data id s ≡ false)
          × ((t : DataConnector World) × (register_data id s ≡ some t)
              × (has_data other t ≡ (id == other || has_data other s))))
unfolding register_data
register_data_lem id other s = elim (Bool-cases (has_data id s)) [
  | inl e ↦ inl (e, rw (e, register_data) refl)
  | inr e ↦ inr (e, (added id s, rw (e, register_data) refl, has_data-added id other s))
]

module _ {World : Type 0} (synchronize : ℕ → World → World) where
  get_data-at :
      (id : ℕ) (s : DataConnector World) (status : DatasetStatus)
      → s.mapping id ≡ some status
      → get_data synchronize id false s ≡ some (synchronize_dataset synchronize id status s)
  unfolding get_data
  get_data-at id s status e = rw (e, get_data) refl

  -- Data that is synchronised, and what `invalidate` makes of it.
  once_more :
      (id : ℕ) (t : DataConnector World)
      → t.mapping id ≡ some auto_ok
      → (get_data synchronize id false t ≡ some t)
        × ((u : DataConnector World) × (get_data synchronize id false (invalidate t) ≡ some u)
            × (u.world ≡ synchronize id t.world))
  unfolding invalidate
  once_more id t e = (
    get_data-at id t auto_ok e,
    (
      synchronize_dataset synchronize id auto_invalid (invalidate t),
      get_data-at id (invalidate t) auto_invalid (ap invalid e),
      refl,
    ),
  )

  -- `getData` of data that is registered succeeds. The data is synchronised then: asking for it again
  -- changes nothing; and after `invalidate` it is synchronised once more.
  pub get_data_lem :
      (id : ℕ) (s : DataConnector World)
      → has_data id s ≡ true
      → (t : DataConnector World) × (get_data synchronize id false s ≡ some t)
        × (get_data synchronize id false t ≡ some t)
        × ((u : DataConnector World) × (get_data synchronize id false (invalidate t) ≡ some u)
            × (u.world ≡ synchronize id t.world))
  unfolding has_data
  get_data_lem id s h = elim (Option-cases (s.mapping id)) [
    | inl e ↦ absurd (no_data (rw e at h))
    | inr (auto_ok, e) ↦ let r = once_more id s e in (s, get_data-at id s auto_ok e, r.0, r.1)
    | inr (auto_invalid, e) ↦
        let t = synchronize_dataset synchronize id auto_invalid s in
        let found : t.mapping id ≡ some auto_ok = rw (same id) refl in
        let r = once_more id t found in (t, get_data-at id s auto_invalid e, r.0, r.1)
  ]
    where
      no_data : false ≡ true → ⊥
      no_data e = absurd (ground (arith, e))
