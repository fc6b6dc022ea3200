-- ===== src/Events/Tests.antt =====
-- A stream task 1 and an MPI task 2 that have not ended, in a transaction.
use piconalpaka.Prelude.{
  ℕ, ◌<◌, ◌≡◌, ◌≢◌, ◌↔◌, ◌⊎◌, Bool, true, false, none, some, [], ◌∷◌, ◌==◌, leb, mem, refl, arith,
}
use piconalpaka.Events.{
  System, task_cuda, task_mpi, no_tasks, add_task, is_finished, add_event, finish_task, erase,
  insert,
}
use piconalpaka.Events.Invariant.{IsConsistent, no_tasks-IsConsistent}
use piconalpaka.Events.Awaits.{Awaits, is_finished_lem}
use piconalpaka.Events.Add.{add_task-IsConsistent}
use piconalpaka.Events.Finish.{finish_task_lem}
use piconalpaka.Events.Connect.{Joins}
use piconalpaka.Events.Handles.{add_event_lem}
use piconalpaka.Events.Execute.{execute, wait_for_finished}
use piconalpaka.Events.Execute.Poll.{polls, Shrinks, execute_lem}
use piconalpaka.Events.Execute.Wait.{wait_for_finished_lem}
use piconalpaka.Events.Streams.{StreamController, EventPool, IsReady, get_next_event, add_events}
use piconalpaka.Events.Streams.Turns.{get_next_event_lem}
use piconalpaka.Events.Transactions.{
  Transaction, Manager, set_transaction_event, get_transaction_event, get_event_stream,
  end_transaction, start_operation, destroy,
}
use piconalpaka.Events.Transactions.Serial.{Waiting, waiting}
use piconalpaka.Events.Transactions.Stack.{DestroysOne, Throws, Returns, empty_stack}

abbrev one_task : System
one_task = (add_task task_cuda no_tasks).1

abbrev two_tasks : System
two_tasks = (add_task task_mpi one_task).1

two_tasks-IsConsistent : IsConsistent two_tasks
two_tasks-IsConsistent =
    add_task-IsConsistent task_mpi (add_task task_cuda no_tasks).1
      (add_task-IsConsistent task_cuda no_tasks no_tasks-IsConsistent)

two_tasks_no_call : two_tasks.iter ≡ none
unfolding add_task
two_tasks_no_call = refl

two_tasks_mem : mem 1 two_tasks.tasks ≡ true
unfolding add_task insert
two_tasks_mem = refl

is_finished_example : (is_finished 1 two_tasks ≡ true) ↔ ((j : ℕ) → ¬ Awaits two_tasks.objects 1 j)
is_finished_example = is_finished_lem two_tasks 1 two_tasks-IsConsistent

finish_task_example :
    (u : System) × (finish_task 1 two_tasks ≡ some u)
    × IsConsistent u
    × ((e j : ℕ) → Awaits u.objects e j ↔ (Awaits two_tasks.objects e j × (1 ≢ j)))
    × (u.tasks ≡ erase 1 two_tasks.tasks)
    × (u.global_id ≡ two_tasks.global_id)
    × (u.iter ≡ two_tasks.iter)
finish_task_example = finish_task_lem two_tasks 1 two_tasks-IsConsistent two_tasks_mem

add_event_example : (r : ℕ × System) × (add_event 1 2 two_tasks ≡ some r) × Joins two_tasks 1 2 r
add_event_example = add_event_lem two_tasks two_tasks-IsConsistent 1 2

abbrev first_done : ℕ → Bool
first_done j = j == 1

execute_example :
    (r : Bool × System) × (execute (polls first_done) two_tasks.global_id 0 two_tasks ≡ some r)
    × IsConsistent r.1
    × (r.1.iter ≡ none)
    × (r.1.global_id ≡ two_tasks.global_id)
    × (((r.0 ≡ false)
          × ((e j : ℕ)
              → Awaits r.1.objects e j ↔ (Awaits two_tasks.objects e j × (first_done j ≡ false))))
        ⊎ ((r.0 ≡ true)
            × (mem 0 two_tasks.tasks ≡ true)
            × (mem 0 r.1.tasks ≡ false)
            × Shrinks two_tasks r.1
            × ((e j : ℕ)
                → (Awaits two_tasks.objects e j × (first_done j ≡ false))
                → Awaits r.1.objects e j)))
execute_example = execute_lem first_done 0 two_tasks two_tasks-IsConsistent two_tasks_no_call

-- All tasks are done from the third round on.
abbrev third_round : ℕ → ℕ → Bool
third_round round j = leb 2 round

wait_for_finished_example :
    (u : System) × (wait_for_finished
        (λ round. polls (third_round round))
        3
        two_tasks.global_id
        2
        two_tasks
      ≡ some u)
    × IsConsistent u
    × (u.iter ≡ none)
    × (is_finished 2 u ≡ true)
    × Shrinks two_tasks u
wait_for_finished_example =
    wait_for_finished_lem third_round 2 2 two_tasks two_tasks-IsConsistent two_tasks_no_call
      (λ j a. refl)

abbrev two_streams : StreamController
two_streams = record { streams = 2; current_stream_index = 1; is_activated = true }

two_streams-IsReady : IsReady two_streams
two_streams-IsReady = (refl, omega arith)

abbrev two_events : EventPool
two_events = record { events = 2; current_event_index = 1 }

get_next_event_example :
    ((get_next_event two_events).0 < 2)
    × ((get_next_event two_events).1.current_event_index < (get_next_event two_events).1.events)
    × ((count : ℕ)
        → (add_events count two_events).current_event_index < (add_events count two_events).events)
get_next_event_example = get_next_event_lem two_events (omega arith)

abbrev base : Transaction
base = record { base_event = 1; event_stream = 0; is_atomic = false }

abbrev in_base : Manager
in_base = record {
  transactions = base ∷ [];
  system = two_tasks;
  controller = two_streams;
  waits_on = [];
}

abbrev waits_three : Waiting
waits_three = waiting third_round 2 (λ j. refl)

empty_stack_example :
    ((in_base.transactions ≡ [])
      × Throws (set_transaction_event 2 in_base)
      × Throws (get_transaction_event in_base)
      × Throws (get_event_stream in_base)
      × Throws (end_transaction in_base)
      × Throws (start_operation waits_three.wait_for in_base)
      × Throws (destroy in_base))
    ⊎ ((in_base.transactions ≢ [])
        × Returns (set_transaction_event 2 in_base)
        × Returns (get_transaction_event in_base)
        × Returns (get_event_stream in_base)
        × Returns (end_transaction in_base)
        × Returns (start_operation waits_three.wait_for in_base)
        × DestroysOne in_base)
empty_stack_example = empty_stack waits_three 2 in_base two_tasks-IsConsistent two_tasks_no_call
