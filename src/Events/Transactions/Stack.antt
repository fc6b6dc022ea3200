-- ===== src/Events/Transactions/Stack.antt =====
-- The stack of src/libPMacc/include/eventSystem/transactions/TransactionManager.tpp: its errors, and
-- its balance.
use piconalpaka.Prelude.{
  ℕ, ◌<◌, List, [], ◌∷◌, ◌≡◌, ◌≢◌, ◌⊎◌, ◌↔◌, arith, refl, sym, ap, ◌∙◌, inl, inr, All, none,
  Bool-cases,
}
use piconalpaka.Events.Invariant.{IsConsistent}
use piconalpaka.Events.Awaits.{Awaits}
use piconalpaka.Events.Transactions.{
  Outcome, returned, runtime_error, ◌>=>◌, at_top, Transaction, Manager, set_transaction_event,
  get_transaction_event, get_event_stream, end_transaction, start_operation, destroy,
}
use piconalpaka.Events.Transactions.Collect.{
  set_events, set_events_lem, set_transaction_event_lem, AnyAwaits,
}
use piconalpaka.Events.Transactions.Serial.{Waiting, wait_lem}

-- A `runtime_error`, or a result
abbrev pub Throws {ℓ} : {A : Type ℓ} → Outcome A → Type ℓ
Throws {A = A} o = o ≡ runtime_error

abbrev pub Returns {ℓ} : {A : Type ℓ} → Outcome A → Type ℓ
Returns {A = A} o = (a : A) × (o ≡ returned a)

-- The destructor returns for one transaction, and throws for more.
abbrev pub DestroysOne : Manager → Type 0
DestroysOne m =
    ((t : Transaction) × (m.transactions ≡ t ∷ []) × Returns (destroy m))
    ⊎ ((t : Transaction) × (t' : Transaction) × (rest : List Transaction) × (m.transactions
          ≡ t ∷ t' ∷ rest)
        × Throws (destroy m))

list_cases :
    (ts : List Transaction)
    → (ts ≡ []) ⊎ ((t : Transaction) × (rest : List Transaction) × (ts ≡ t ∷ rest))
list_cases [] = inl refl
list_cases (t ∷ ts) = inr (t, ts, refl)

not_empty : (t : Transaction) (rest : List Transaction) → (t ∷ rest) ≢ []
not_empty t rest e = ground (arith, e)

module _ (w : Waiting) where
  -- With consistent maps, objects and observers, and outside of `Manager::execute`: on an empty stack of
  -- transactions, the operations on the top one and the destructor all throw. On any other, the
  -- operations all return, and the destructor returns for one transaction and throws for more.
  pub empty_stack :
      (event : ℕ) (m : Manager)
      → IsConsistent m.system
      → m.system.iter ≡ none
      → ((m.transactions ≡ [])
          × Throws (set_transaction_event event m)
          × Throws (get_transaction_event m)
          × Throws (get_event_stream m)
          × Throws (end_transaction m)
          × Throws (start_operation w.wait_for m)
          × Throws (destroy m))
        ⊎ ((m.transactions ≢ [])
            × Returns (set_transaction_event event m)
            × Returns (get_transaction_event m)
            × Returns (get_event_stream m)
            × Returns (end_transaction m)
            × Returns (start_operation w.wait_for m)
            × DestroysOne m)
  unfolding set_transaction_event get_transaction_event get_event_stream end_transaction
      start_operation destroy
  empty_stack event m c i = elim (list_cases m.transactions) [
    | inl e ↦ inl (
      e,
      ap (at_top _) e,
      ap (at_top _) e,
      ap (at_top _) e,
      ap (at_top _) e,
      ap (at_top _) e,
      ap (at_top _) e,
    )
    | inr e ↦ inr (go e.0 e.1 e.2)
  ]
    where
      go :
          (t : Transaction) (rest : List Transaction)
          → m.transactions ≡ t ∷ rest
          → (m.transactions ≢ [])
            × Returns (set_transaction_event event m)
            × Returns (get_transaction_event m)
            × Returns (get_event_stream m)
            × Returns (end_transaction m)
            × Returns (start_operation w.wait_for m)
            × DestroysOne m
      go t rest h =
          let (r, g, (ht, cr, ir, le, aw, others)) = set_transaction_event_lem event t rest m h c in
          let (u, gu, cu, iu, f, fewer) = wait_lem w t.base_event m c i in
          (
            λ e. not_empty t rest (sym h ∙ e),
            (r, g),
            (t.base_event, ap (at_top _) h),
            (t.event_stream, ap (at_top _) h),
            ((t.base_event, record m { transactions = rest }), ap (at_top _) h),
            elim (Bool-cases t.is_atomic) [
              | inl a ↦ (m, ap (at_top _) h ∙ rw a refl)
              | inr a ↦ (record m { system = u }, ap (at_top _) h ∙ rw a gu)
            ],
            elim (list_cases rest) [
              | inl e ↦
                  let q = h ∙ ap (λ l. t ∷ l) e in
                  inl (t, q, (record m { transactions = [] }, ap (at_top _) q))
              | inr e ↦ let q = h ∙ ap (λ l. t ∷ l) e.2 in inr (t, e.0, e.1, q, ap (at_top _) q)
            ],
          )

-- In a transaction, with consistent maps, objects and observers and for handles of tasks that have
-- been created: `setTransactionEvent` of several events and then `endTransaction` return, leave the
-- stack below the transaction as it was, and give an event that waits for the tasks that the
-- first event of the transaction or one of those events waited for.
pub end_transaction_lem :
    (es : List ℕ) (t : Transaction) (rest : List Transaction) (m : Manager)
    → m.transactions ≡ t ∷ rest
    → IsConsistent m.system
    → All (λ e. e < m.system.global_id) es
    → (r : ℕ × Manager) × ((set_events es m >=> end_transaction) ≡ returned r)
      × (r.1.transactions ≡ rest)
      × IsConsistent r.1.system
      × ((j : ℕ) → Awaits r.1.system.objects r.0 j ↔ AnyAwaits m.system (t.base_event ∷ es) j)
unfolding end_transaction
end_transaction_lem es t rest m h c l =
    let (u, g, (t', hu, cu, at, iu, aw, others)) = set_events_lem es t rest m h c l in
    (
      (t'.base_event, record u { transactions = rest }),
      rw g (ap (at_top (λ t rest. returned (t.base_event, record u { transactions = rest }))) hu),
      refl,
      cu,
      aw,
    )
