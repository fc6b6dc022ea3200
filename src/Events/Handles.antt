-- ===== src/Events/Handles.antt =====
-- The handles of src/libPMacc/include/eventSystem/events/EventTask.tpp.
use piconalpaka.Prelude.{
  ℕ, ◌<◌, true, false, ◌||◌, Option, none, some, ◌==◌, mem, ◌≡◌, ◌⊎◌, ◌↔◌, arith, refl, sym, subst,
  ap, ◌∙◌, Bool-cases, inl, inr, if◌then◌else◌,
}
use piconalpaka.Events.{Task, System, add_event}
use piconalpaka.Events.Invariant.{IsConsistent}
use piconalpaka.Events.Awaits.{Awaits, Awaits-live, live_at, get_itask_lem, live_maps}
use piconalpaka.Events.Connect.{Joins, Awaits-younger, joined, joined_lem, connect}

live_some : (o : Option Task) → 0 < live_at o → (t : Task) × (o ≡ some t)
live_some none h = absurd (omega (arith, h))
live_some (some t) h = (t, refl)

module _ (s : System) (c : IsConsistent s) where
  no_task :
      (id : ℕ)
      → (mem id s.passive_tasks || mem id s.tasks) ≡ false
      → (j : ℕ) → ¬ Awaits s.objects id j
  no_task id e j r = ground (arith, Awaits-live r, live_maps s id c, e)

  a_task :
      (id : ℕ)
      → (mem id s.passive_tasks || mem id s.tasks) ≡ true
      → (t : Task) × (s.objects id ≡ some t)
  a_task id e = live_some (s.objects id) (ground (arith, live_maps s id c, e))

  -- The system is the same, and the handle `k` waits for what the two waited for.
  kept :
      (id other k : ℕ)
      → ((j : ℕ) → Awaits s.objects k j ↔ (Awaits s.objects id j ⊎ Awaits s.objects other j))
      → Joins s id other (k, s)
  kept id other k h = (c, h, λ e j. (λ x. (x, Awaits-younger s c x), λ x. x.0), omega arith, refl)

  -- Two tasks that have not ended
  connected_both :
      (id other : ℕ)
      → (id == other) ≡ false
      → (mem id s.passive_tasks || mem id s.tasks) ≡ true
      → (mem other s.passive_tasks || mem other s.tasks) ≡ true
      → (r : ℕ × System) × (add_event id other s ≡ some r) × Joins s id other r
  connected_both id other e m m' =
      let (t, f) = a_task id m in
      let (t', f') = a_task other m' in
      (
        (s.global_id, joined s id other t t'),
        connect s id other t t' c f f' e
            (get_itask_lem id s ∙ ap (λ b. if b then some id else none) m)
            (get_itask_lem other s ∙ ap (λ b. if b then some other else none) m'),
        joined_lem s id other t t' c f f' e,
      )

  -- Where the maps, the objects and the observers are consistent: `+=` accesses no deleted object,
  -- keeps the consistency, and gives a handle that waits for the tasks that one of the two handles
  -- waited for; every other handle waits for what it waited for. No identifier is taken back.
  pub add_event_lem :
      (id other : ℕ) → (r : ℕ × System) × (add_event id other s ≡ some r) × Joins s id other r
  unfolding add_event
  add_event_lem id other = elim (Bool-cases (id == other)) [
    | inl e ↦
        let q : id ≡ other = ground (arith, e) in
        (
          (id, s),
          rw (add_event, e) refl,
          kept id other id (λ j. (
            inl,
            λ r. elim r [ inl x ↦ x | inr x ↦ subst (λ k. Awaits s.objects k j) (sym q) x ],
          )),
        )
    | inr e ↦ elim (Bool-cases (mem id s.passive_tasks || mem id s.tasks)) [
      | inr m ↦ (
        (other, s),
        rw (add_event, e, get_itask_lem id s) (rw m refl),
        kept id other other
            (λ j. (inr, λ r. elim r [ inl x ↦ absurd (no_task id m j x) | inr x ↦ x ])),
      )
      | inl m ↦ elim (Bool-cases (mem other s.passive_tasks || mem other s.tasks)) [
        | inr m' ↦ (
          (id, s),
          rw (add_event, e, get_itask_lem id s) (rw (m, get_itask_lem other s) (rw m' refl)),
          kept id other id
              (λ j. (inl, λ r. elim r [ inl x ↦ x | inr x ↦ absurd (no_task other m' j x) ])),
        )
        | inl m' ↦ connected_both id other e m m'
      ]
    ]
  ]
