-- ===== src/Events/Transactions/Collect.antt =====
-- The events that a transaction of src/libPMacc/include/eventSystem/transactions collects.
use piconalpaka.Prelude.{
  ℕ, ◌<◌, ◌≤◌, List, [], ◌∷◌, ◌≡◌, ◌⊎◌, ◌↔◌, arith, refl, ap, ◌∙◌, inl, inr, All,
}
use piconalpaka.Events.{System, get_itask_if_not_finished}
use piconalpaka.Events.Invariant.{IsConsistent}
use piconalpaka.Events.Awaits.{Awaits}
use piconalpaka.Events.Handles.{add_event_lem}
use piconalpaka.Events.Transactions.{
  Outcome, returned, ◌>=>◌, Transaction, Manager, set_event, wait_on, at_top, set_transaction_event,
}

-- Calls of `setTransactionEvent`, one after the other
unfoldable pub set_events : List ℕ → Manager → Outcome Manager
set_events [] m = returned m
set_events (e ∷ es) m = let rest = set_events es in set_transaction_event e m >=> λ r. rest r.1

-- One of the handles waits for the task `j`.
abbrev pub AnyAwaits : System → List ℕ → ℕ → Type 0
AnyAwaits s [] j = ⊥
AnyAwaits s (e ∷ es) j = Awaits s.objects e j ⊎ AnyAwaits s es j

AnyAwaits-same :
    (s u : System) (es : List ℕ) (j : ℕ)
    → All (λ e. e < s.global_id) es
    → ((e j : ℕ) → e < s.global_id → Awaits s.objects e j ↔ Awaits u.objects e j)
    → AnyAwaits s es j ↔ AnyAwaits u es j
AnyAwaits-same s u [] j l h = (λ x. x, λ x. x)
AnyAwaits-same s u (e ∷ es) j l h =
    let a = h e j l.0 in
    let r = AnyAwaits-same s u es j l.1 h in
    (
      λ x. elim x [ inl y ↦ inl (a.0 y) | inr y ↦ inr (r.0 y) ],
      λ x. elim x [ inl y ↦ inl (a.1 y) | inr y ↦ inr (r.1 y) ],
    )

All-le : (n k : ℕ) (es : List ℕ) → n ≤ k → All (λ e. e < n) es → All (λ e. e < k) es
All-le n k [] h a = tt
All-le n k (e ∷ es) h a = (omega (arith, h, a.0), All-le n k es h a.1)

-- The top of the stack has collected the events.
abbrev pub Collected : Manager → Transaction → List Transaction → List ℕ → Manager → Type 0
Collected m t rest es u =
    (t' : Transaction) × (u.transactions ≡ t' ∷ rest)
    × IsConsistent u.system
    × (t'.is_atomic ≡ t.is_atomic)
    × (u.system.iter ≡ m.system.iter)
    × ((j : ℕ) → Awaits u.system.objects t'.base_event j ↔ AnyAwaits m.system (t.base_event ∷ es) j)
    × ((e j : ℕ)
        → e < m.system.global_id
        → Awaits m.system.objects e j ↔ Awaits u.system.objects e j)

-- One call of `setTransactionEvent`
abbrev pub Sets : ℕ → Transaction → List Transaction → Manager → ℕ × Manager → Type 0
Sets e t rest m r =
    (r.1.transactions ≡ record t { base_event = r.0 } ∷ rest)
    × IsConsistent r.1.system
    × (r.1.system.iter ≡ m.system.iter)
    × (m.system.global_id ≤ r.1.system.global_id)
    × ((j : ℕ)
        → Awaits r.1.system.objects r.0 j
          ↔ (Awaits m.system.objects t.base_event j ⊎ Awaits m.system.objects e j))
    × ((e j : ℕ)
        → e < m.system.global_id
        → Awaits m.system.objects e j ↔ Awaits r.1.system.objects e j)

pub set_transaction_event_lem :
    (e : ℕ) (t : Transaction) (rest : List Transaction) (m : Manager)
    → m.transactions ≡ t ∷ rest
    → IsConsistent m.system
    → (r : ℕ × Manager) × (set_transaction_event e m ≡ returned r) × Sets e t rest m r
unfolding set_transaction_event set_event
set_transaction_event_lem e t rest m h c =
    let (r, g, (cr, aw, others, le, it)) = add_event_lem m.system c t.base_event e in
    let u = record m {
      transactions = record t { base_event = r.0 } ∷ rest;
      system = r.1;
      waits_on = wait_on t.event_stream m.system (get_itask_if_not_finished e m.system) m.waits_on;
    } in
    let others' : (e j : ℕ)
        → e < m.system.global_id
        → Awaits m.system.objects e j ↔ Awaits r.1.objects e j =
      λ e j d. (λ a. ((others e j).0 a).0, λ a. (others e j).1 (a, d)) in
    (
      (r.0, u),
      ap (at_top (λ t rest. set_event t rest e m)) h ∙ rw g refl,
      (refl, cr, it, le, aw, others'),
    )

combined :
    (m s u : System) (a e b c : ℕ) (es : List ℕ) (j : ℕ)
    → Awaits u.objects c j ↔ (Awaits s.objects b j ⊎ AnyAwaits s es j)
    → Awaits s.objects b j ↔ (Awaits m.objects a j ⊎ Awaits m.objects e j)
    → AnyAwaits m es j ↔ AnyAwaits s es j
    → Awaits u.objects c j ↔ AnyAwaits m (a ∷ e ∷ es) j
combined m s u a e b c es j x y z = (
  λ w. elim (x.0 w) [
    | inl v ↦ elim (y.0 v) [ inl p ↦ inl p | inr p ↦ inr (inl p) ]
    | inr v ↦ inr (inr (z.1 v))
  ],
  λ w. x.1 (elim w [
    | inl v ↦ inl (y.1 (inl v))
    | inr v ↦ elim v [ inl p ↦ inl (y.1 (inr p)) | inr p ↦ inr (z.0 p) ]
  ]),
)

-- In a transaction, with consistent maps, objects and observers and for handles of tasks that have
-- been created: `setTransactionEvent` of several events returns, and then the transaction has one
-- event that waits for the tasks that its event before or one of those events waited for.
pub set_events_lem :
    (es : List ℕ) (t : Transaction) (rest : List Transaction) (m : Manager)
    → m.transactions ≡ t ∷ rest
    → IsConsistent m.system
    → All (λ e. e < m.system.global_id) es
    → (u : Manager) × (set_events es m ≡ returned u) × Collected m t rest es u
unfolding set_events
set_events_lem [] t rest m h c l = (
  m,
  refl,
  (
    t,
    h,
    c,
    refl,
    refl,
    λ j. (inl, λ x. elim x [ inl y ↦ y | inr y ↦ absurd y ]),
    λ e j d. (λ x. x, λ x. x),
  ),
)
set_events_lem (e ∷ es) t rest m h c l =
    let (r, g, (hr, cr, ir, le, aw, others)) = set_transaction_event_lem e t rest m h c in
    let l' = All-le m.system.global_id r.1.system.global_id es le l.1 in
    let (u, gu, (t', hu, cu, at, iu, awu, ou)) =
      set_events_lem es (record t { base_event = r.0 }) rest r.1 hr cr l' in
    (
      u,
      rw g gu,
      (
        t',
        hu,
        cu,
        at,
        iu ∙ ir,
        λ j.
            combined m.system r.1.system u.system t.base_event e r.0 t'.base_event es j (awu j)
              (aw j) (AnyAwaits-same m.system r.1.system es j l.1 others),
        λ k j d.
            let a = others k j d in
            let b = ou k j (omega (arith, d, le)) in (λ x. b.0 (a.0 x), λ x. a.1 (b.1 x)),
      ),
    )
