-- ===== src/Events/Transactions/Serial.antt =====
-- The waiting in the transactions of src/libPMacc/include/eventSystem/transactions.
use piconalpaka.Prelude.{ℕ, suc, ◌<◌, Bool, true, List, ◌∷◌, ◌≡◌, refl, All, Option, none, some}
use piconalpaka.Events.{System, is_finished}
use piconalpaka.Events.Invariant.{IsConsistent}
use piconalpaka.Events.Awaits.{Awaits}
use piconalpaka.Events.Streams.{IsReady}
use piconalpaka.Events.Streams.Turns.{step}
use piconalpaka.Events.Execute.{wait_for_finished}
use piconalpaka.Events.Execute.Poll.{polls, Shrinks}
use piconalpaka.Events.Execute.Wait.{wait_for_finished_lem}
use piconalpaka.Events.Transactions.{returned, Transaction, Manager, wait, new_transaction}

-- What the transactions rely on of `waitForFinished`
pub record Waiting : Type 0 where
  pub wait_for : ℕ → System → Option System
  pub waits :
      (id : ℕ) (s : System)
      → IsConsistent s
      → s.iter ≡ none
      → (u : System) × (wait_for id s ≡ some u)
        × IsConsistent u
        × (u.iter ≡ none)
        × (is_finished id u ≡ true)
        × Shrinks s u

-- `Manager::waitForFinished`, where a round comes in which all tasks are done
pub waiting : (done : ℕ → ℕ → Bool) (n : ℕ) → ((j : ℕ) → done n j ≡ true) → Waiting
waiting done n h = record {
  wait_for = λ id s. wait_for_finished (λ round. polls (done round)) (suc n) s.global_id id s;
  waits = λ id s c e. wait_for_finished_lem done id n s c e (λ j a. h j);
}

-- The handles have finished.
abbrev pub AllFinished : System → List ℕ → Type 0
AllFinished s = All (λ e. is_finished e s ≡ true)

module _ (w : Waiting) where
  pub wait_lem :
      (e : ℕ) (m : Manager)
      → IsConsistent m.system
      → m.system.iter ≡ none
      → (u : System) × (wait w.wait_for e m ≡ returned (record m { system = u }))
        × IsConsistent u
        × (u.iter ≡ none)
        × (is_finished e u ≡ true)
        × Shrinks m.system u
  unfolding wait
  wait_lem e m c i =
      let (u, g, cu, iu, f, r) = w.waits e m.system c i in (u, rw g refl, cu, iu, f, r)

  -- A new transaction on the stack `rest`, with an event that has finished
  abbrev pub Started : ℕ → Bool → Manager → Manager → Type 0
  Started event is_atomic m u =
      (t : Transaction) × (u.transactions ≡ t ∷ m.transactions)
      × (t.base_event ≡ event)
      × (t.is_atomic ≡ is_atomic)
      × (t.event_stream < m.controller.streams)
      × IsConsistent u.system
      × (u.system.iter ≡ none)
      × (is_finished event u.system ≡ true)
      × IsReady u.controller

  -- With consistent maps, objects and observers, and an activated stream controller: the constructor
  -- of a transaction takes one of the streams, waits until the event has finished, and puts the
  -- transaction on the stack.
  pub new_transaction_lem :
      (event : ℕ) (is_atomic : Bool) (m : Manager)
      → IsConsistent m.system
      → m.system.iter ≡ none
      → IsReady m.controller
      → (u : Manager) × (new_transaction w.wait_for event is_atomic m ≡ returned u)
        × Started event is_atomic m u
  unfolding new_transaction
  new_transaction_lem event is_atomic m c i r =
      let (k, g, ready, size, turn) = step m.controller r in
      let (s, gs, cs, is, f, fewer) = wait_lem event (record m { controller = k }) c i in
      let t : Transaction = record {
        base_event = event;
        event_stream = m.controller.current_stream_index;
        is_atomic = is_atomic;
      } in
      (
        record m { controller = k; system = s; transactions = t ∷ m.transactions },
        rw (g, gs) refl,
        (t, refl, refl, refl, r.1, cs, is, f, ready),
      )
