-- ===== src/Events/Tasks/Tests.antt =====
-- A send with a double buffer, and a receive without one, both at their ends.
use piconalpaka.Prelude.{
  ℕ, Option, none, ◌<◌, ◌*◌, ◌⊎◌, ℤ, pos, leb, if◌then◌else◌, ◌/◌, ◌≤◌, ◌≡◌, ◌↔◌, true, false, some,
  [], ◌∷◌, ◌++◌, refl, arith,
}
use piconalpaka.Events.Tasks.{
  TaskSend, TaskReceive, finish, receive_finish, send_mpi, new_receive, receive_init, receive_event,
  send_execute, receive_execute, received_bytes,
}
use piconalpaka.Events.Tasks.Order.{Pending, SendReach, SendAt, copies, quiet, send_order, send_end}
use piconalpaka.Events.Tasks.Arrive
use piconalpaka.Events.Tasks.Sizes.{Mpi, counted, receive-sent_bytes}

abbrev ended : TaskSend × Pending
ended = (record { state = finish; calls = copies true ++ send_mpi ∷ [] }, quiet)

ended-SendReach : SendReach true ended
ended-SendReach = (send_order true ended).1 SendAt.at_end

send_order_example : SendReach true ended ↔ SendAt true ended
send_order_example = send_order true ended

send_end_example : (ended.0.calls ≡ copies true ++ send_mpi ∷ []) × (ended.1 ≡ quiet)
unfolding send_execute
send_end_example = send_end true ended ended-SendReach refl

abbrev arrived : TaskReceive × Arrive.Awaited
arrived = (
  record { state = receive_finish; new_buffer_size = 5; calls = Arrive.placed false 5 },
  Arrive.quiet,
)

arrived-ReceiveReach : Arrive.ReceiveReach false 4 20 arrived
unfolding receive_init receive_event receive_execute
arrived-ReceiveReach =
    Arrive.ReceiveReach.step
      (Arrive.ReceiveReach.step
        (Arrive.ReceiveReach.step Arrive.ReceiveReach.here Arrive.ReceiveStep.init)
        (Arrive.ReceiveStep.received refl))
      (Arrive.ReceiveStep.copied refl)

receive_end_example : (arrived.0.calls ≡ Arrive.placed false (20 / 4)) × (arrived.1 ≡ Arrive.quiet)
unfolding receive_execute
receive_end_example = Arrive.receive_end false 4 20 arrived arrived-ReceiveReach refl

-- MPI that does what it documents
abbrev documented : ℤ → ℤ → Option ℤ
documented (pos s) (pos r) = if leb s r then some (pos s) else none
documented _ _ = none

documented-Mpi : Mpi documented
documented-Mpi = record {
  delivers = λ s r h. let e : leb s r ≡ true = ground (arith, h) in rw e refl;
  truncates = λ s r h. let e : leb s r ≡ false = ground (arith, h) in rw e refl;
  refuses = λ s r. refl;
}

receive-sent_bytes_example :
    ((6 ≤ 10)
      × ((b : ℕ) × (received_bytes documented 8 6 10 ≡ some b)
          × (counted true 8 b new_receive ≡ 6)))
    ⊎ ((10 < 6)
        × ((received_bytes documented 8 6 10 ≡ none)
            ⊎ ((4294967296 ≤ 6 * 8)
                × ((b : ℕ) × (received_bytes documented 8 6 10 ≡ some b)
                    × (counted true 8 b new_receive < 6)))))
receive-sent_bytes_example =
    receive-sent_bytes documented documented-Mpi true 8 6 10 new_receive (omega arith) (omega arith)
      (omega arith)
