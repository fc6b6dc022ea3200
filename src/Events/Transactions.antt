-- ===== src/Events/Transactions.antt =====
-- src/libPMacc/include/eventSystem/transactions: Transaction.tpp, and the stack of transactions of
-- TransactionManager.tpp. The waiting of an event, `waitForFinished`, is an interface here.
pub mod Collect
pub mod Serial
pub mod Stack
use piconalpaka.Prelude.{
  ℕ, ◌<◌, Bool, true, false, Option, none, some, List, [], ◌∷◌, ◌≡◌, if◌then◌else◌, not,
}
use piconalpaka.Events.{
  System, Task, TaskType, task_cuda, task_unknown, task_mpi, task_host, get_itask_if_not_finished,
  add_event,
}
use piconalpaka.Events.Streams.{StreamController, get_next_stream}

-- `undefined` is an access to an object that does not live.
pub data Outcome {ℓ} (A : Type ℓ) : Type ℓ where
  returned : A → Outcome A
  runtime_error undefined : Outcome A

abbrev pub defined {ℓ} : {A : Type ℓ} → Option A → Outcome A
defined none = undefined
defined (some a) = returned a

abbrev pub thrown {ℓ} : {A : Type ℓ} → Option A → Outcome A
thrown none = runtime_error
thrown (some a) = returned a

infixl 5 ◌>=>◌
abbrev pub ◌>=>◌ {ℓ κ} : {A : Type ℓ} {B : Type κ} → Outcome A → (A → Outcome B) → Outcome B
returned a >=> f = f a
runtime_error >=> f = runtime_error
undefined >=> f = undefined

-- `Transaction`
pub record Transaction : Type 0 where
  pub base_event : ℕ
  pub event_stream : ℕ
  pub is_atomic : Bool

-- `transactions`, the top first; the rest of the event system; and the calls of `waitOn`, each
-- with its stream and the task whose event it waits for, the last one first
pub record Manager : Type 0 where
  pub transactions : List Transaction
  pub system : System
  pub controller : StreamController
  pub waits_on : List (ℕ × ℕ)

abbrev pub is_cuda : TaskType → Bool
is_cuda task_cuda = true
is_cuda task_unknown = false
is_cuda task_mpi = false
is_cuda task_host = false

abbrev pub type_at : Option Task → TaskType
type_at none = task_unknown
type_at (some t) = t.task_type

-- The call of `waitOn` for a task that has not ended
abbrev pub wait_on : ℕ → System → Option ℕ → List (ℕ × ℕ) → List (ℕ × ℕ)
wait_on stream s none calls = calls
wait_on stream s (some base_task) calls =
    if is_cuda (type_at (s.objects base_task)) then (stream, base_task) ∷ calls else calls

-- `Transaction::setTransactionEvent`, of the transaction at the top
unfoldable pub set_event : Transaction → List Transaction → ℕ → Manager → Outcome (ℕ × Manager)
set_event t rest event m =
    let base_task = get_itask_if_not_finished event m.system in
    defined (add_event t.base_event event m.system) >=> λ r. returned (
      r.0,
      record m {
        transactions = record t { base_event = r.0 } ∷ rest;
        system = r.1;
        waits_on = wait_on t.event_stream m.system base_task m.waits_on;
      },
    )

-- An operation on the top of the stack; an empty stack is an error.
abbrev pub at_top {ℓ} :
    {A : Type ℓ} → (Transaction → List Transaction → Outcome A) → List Transaction → Outcome A
at_top f [] = runtime_error
at_top f (t ∷ rest) = f t rest

-- `setTransactionEvent`
unfoldable pub set_transaction_event : ℕ → Manager → Outcome (ℕ × Manager)
set_transaction_event event m = at_top (λ t rest. set_event t rest event m) m.transactions

-- `getTransactionEvent`
unfoldable pub get_transaction_event : Manager → Outcome ℕ
get_transaction_event m = at_top (λ t rest. returned t.base_event) m.transactions

-- `getEventStream`
unfoldable pub get_event_stream : Manager → Outcome ℕ
get_event_stream m = at_top (λ t rest. returned t.event_stream) m.transactions

-- `endTransaction`
unfoldable pub end_transaction : Manager → Outcome (ℕ × Manager)
end_transaction m =
    at_top (λ t rest. returned (t.base_event, record m { transactions = rest })) m.transactions

-- The destructor
unfoldable pub destroy : Manager → Outcome Manager
destroy m =
    at_top
      (λ t rest. elim rest [
        | [] ↦ returned (record m { transactions = [] })
        | t' ∷ rest' ↦ runtime_error
      ])
      m.transactions

module _ (wait_for_finished : ℕ → System → Option System) where
  -- `event.waitForFinished()`
  unfoldable pub wait : ℕ → Manager → Outcome Manager
  wait event m =
      defined (wait_for_finished event m.system) >=> λ u. returned (record m { system = u })

  -- The constructor of `Transaction` takes a stream, and then waits; the stack grows after that.
  unfoldable pub new_transaction : ℕ → Bool → Manager → Outcome Manager
  new_transaction event is_atomic m = thrown (get_next_stream m.controller) >=> λ r.
      wait event (record m { controller = r.1 }) >=> λ m'. returned (record m' {
        transactions =
            record { base_event = event; event_stream = r.0; is_atomic = is_atomic }
            ∷ m'.transactions;
      })

  -- `startTransaction`, `startAtomicTransaction`, and the constructor of `TransactionManager`
  unfoldable pub start_transaction : ℕ → Manager → Outcome Manager
  start_transaction event m = new_transaction event false m

  unfoldable pub start_atomic_transaction : ℕ → Manager → Outcome Manager
  start_atomic_transaction event m = new_transaction event true m

  unfoldable pub new_manager : System → StreamController → Outcome Manager
  new_manager s c =
      start_transaction 0 (record { transactions = []; system = s; controller = c; waits_on = [] })

  -- `startOperation`, with `Transaction::operation`
  unfoldable pub start_operation : Manager → Outcome Manager
  start_operation m =
      at_top (λ t rest. if not t.is_atomic then wait t.base_event m else returned m) m.transactions
