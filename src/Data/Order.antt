-- ===== src/Data/Order.antt =====
-- The order of `initialise` in src/libPMacc/include/dataManagement/DataConnector.hpp.
use piconalpaka.Prelude.{
  ℕ, suc, ◌+◌, true, false, some, List, [], ◌∷◌, ◌++◌, length, ◌==◌, ◌≡◌, refl, ◌∙◌, ap, ap₂, sym,
  arith, length-append, inl, inr, ◌<◌, ◌⊎◌,
}
use mathlib.Core.List.{append_assoc}
use piconalpaka.Data.{DataConnector, at, has_next, get_next, initialise_from, initialise}

-- The calls of `init`, in order.
abbrev pub inits {ℓ} : {World : Type ℓ} → (ℕ → World → World) → List ℕ → World → World
inits f [] w = w
inits f (id ∷ ids) w = inits f ids (f id w)

at-length : (xs ys : List ℕ) (y : ℕ) → at (xs ++ y ∷ ys) (length xs) ≡ some y
at-length [] ys y = refl
at-length (x ∷ xs) ys y = at-length xs ys y

list_cases : (xs : List ℕ) → (xs ≡ []) ⊎ ((y : ℕ) × (ys : List ℕ) × (xs ≡ y ∷ ys))
list_cases [] = inl refl
list_cases (y ∷ ys) = inr (y, ys, refl)

-- The iterator of the sorter is at a registered identifier, or nothing is registered.
abbrev pub Ready : {World : Type 0} → DataConnector World → Type 0
Ready s = (s.iter < length s.ids) ⊎ ((s.ids ≡ []) × (s.iter ≡ 0))

module _ {World : Type 0} (setup : World → ℕ × World) (init : ℕ → ℕ → World → World)
    (teardown : World → World) where
  -- Behind the identifiers `xs`
  initialise_from-ids :
      (xs ys : List ℕ) (y step : ℕ) (s : DataConnector World)
      → s.ids ≡ xs ++ y ∷ ys
      → s.iter ≡ length xs
      → (t : DataConnector World) × (initialise_from setup init teardown (suc (length ys)) step s
          ≡ some t)
        × (t.world ≡ inits (λ id. init id step) (y ∷ ys) s.world)
  unfolding initialise_from
  initialise_from-ids xs [] y step s h e =
      let t = record s { world = init y step s.world } in
      let found : at s.ids s.iter ≡ some y = ap₂ at h e ∙ at-length xs [] y in
      let len : length s.ids ≡ length xs + 1 = ap length h ∙ length-append xs (y ∷ []) in
      let over : has_next s ≡ false = ground (arith, len, e) in
      (t, rw (found, initialise_from) (rw over refl), refl)
  initialise_from-ids xs (z ∷ zs) y step s h e =
      let t = record s { world = init y step s.world } in
      let found : at s.ids s.iter ≡ some y = ap₂ at h e ∙ at-length xs (z ∷ zs) y in
      let len : length s.ids ≡ length xs + suc (suc (length zs)) =
        ap length h ∙ length-append xs (y ∷ z ∷ zs) in
      let more : has_next s ≡ true = ground (arith, len, e) in
      let r =
        initialise_from-ids (xs ++ y ∷ []) zs z step (get_next t)
          (h ∙ sym (append_assoc xs (y ∷ []) (z ∷ zs)))
          (omega (arith, e, length-append xs (y ∷ []))) in
      (r.0, rw (found, initialise_from) (rw more r.1), r.2)

  -- Where the iterator of the sorter is at an identifier, or nothing is registered: `initialise` ends,
  -- and calls `init` once for each registered identifier, in the order of their
  -- registration, with the step from `setup`; then it calls `teardown`.
  pub initialise_lem :
      (s : DataConnector World)
      → Ready s
      → (t : DataConnector World) × (initialise setup init teardown s ≡ some t)
        × (t.world ≡ teardown (inits (λ id. init id (setup s.world).0) s.ids (setup s.world).1))
  unfolding initialise
  initialise_lem s (inr (none_there, start)) =
      let w = (setup s.world).1 in
      let t : DataConnector World = record s { world = teardown w } in
      let over : (s.iter == length s.ids) ≡ true = ground (arith, start, ap length none_there) in
      (
        t,
        rw (over, initialise) refl,
        sym (ap (λ ids. teardown (inits (λ id. init id (setup s.world).0) ids w)) none_there),
      )
  initialise_lem s (inl inside) = elim (list_cases s.ids) [
    | inl e ↦ absurd (omega (arith, inside, ap length e))
    | inr (y, ys, e) ↦
        let w = (setup s.world).1 in
        let step = (setup s.world).0 in
        let r = initialise_from-ids [] ys y step (record s { world = w; iter = 0 }) e refl in
        let valid : (s.iter == length s.ids) ≡ false = ground (arith, inside) in
        let run : initialise_from setup init teardown (length s.ids) step
              (record s { world = w; iter = 0 })
            ≡ some r.0 =
          ap (λ n. initialise_from setup init teardown n step (record s { world = w; iter = 0 }))
            (ap length e)
          ∙ r.1 in
        (
          record r.0 { world = teardown r.0.world },
          rw (valid, initialise) (rw run refl),
          ap teardown (r.2 ∙ ap (λ ids. inits (λ id. init id step) ids w) (sym e)),
        )
  ]
