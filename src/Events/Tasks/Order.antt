-- ===== src/Events/Tasks/Order.antt =====
-- The order of the tasks for an exchange, as a relation of steps: src/libPMacc/include/eventSystem/tasks.
use piconalpaka.Prelude.{arith, ◌↔◌, Bool, true, false, List, [], ◌∷◌, ◌++◌, ◌≡◌, refl}
use piconalpaka.Events.Tasks.{
  copy_device2_host, send_finished, Call, device_to_device, device_to_host, double_to_host,
  send_mpi, init_done, send_done, finish, TaskSend, new_send, send_init, send_execute, send_event,
}

-- The two notifications that a send waits for: the copy to the host, and the message
pub record Pending : Type 0 where
  pub copy : Bool
  pub message : Bool

abbrev pub quiet : Pending
quiet = record { copy = false; message = false }

-- A step of a send: its `init`, a call of `executeIntern` by the manager, or one of the notifications
-- that are to come, by the end of the copy and by the end of the message.
pub data SendStep (double : Bool) : TaskSend × Pending → TaskSend × Pending → Type 0 where
  init : SendStep double (new_send, quiet) (send_init double new_send, record quiet { copy = true })
  execute : {t : TaskSend} {p : Pending} → SendStep double (t, p) ((send_execute t).1, p)
  copied :
      {t : TaskSend} {p : Pending}
      → p.copy ≡ true
      → SendStep double
          (t, p)
          (send_event copy_device2_host t, record { copy = false; message = true })
  sent :
      {t : TaskSend} {p : Pending}
      → p.message ≡ true
      → SendStep double (t, p) (send_event send_finished t, record p { message = false })

pub data SendReach (double : Bool) : TaskSend × Pending → Type 0 where
  here : SendReach double (new_send, quiet)
  step : {x y : TaskSend × Pending} → SendReach double x → SendStep double x y → SendReach double y

-- The tasks before the message
abbrev pub copies : Bool → List Call
copies true = device_to_device ∷ double_to_host ∷ []
copies false = device_to_host ∷ []

-- Where a send can be
pub data SendAt (double : Bool) : TaskSend × Pending → Type 0 where
  at_start : SendAt double (new_send, quiet)
  at_copy :
      SendAt double (
        record { state = init_done; calls = copies double },
        record { copy = true; message = false },
      )
  at_message : SendAt double (
    record { state = send_done; calls = copies double ++ send_mpi ∷ [] },
    record { copy = false; message = true },
  )
  at_end : SendAt double (record { state = finish; calls = copies double ++ send_mpi ∷ [] }, quiet)

SendAt-init :
    (double : Bool) → SendAt double (send_init double new_send, record quiet { copy = true })
unfolding send_init
SendAt-init true = at_copy
SendAt-init false = at_copy

step-SendAt :
    {double : Bool} {x y : TaskSend × Pending}
    → SendStep double x y
    → SendAt double x
    → SendAt double y
unfolding send_execute send_event
step-SendAt {double = d} init a = SendAt-init d
step-SendAt execute at_start = at_start
step-SendAt execute at_copy = at_copy
step-SendAt execute at_message = at_message
step-SendAt execute at_end = at_end
step-SendAt (copied h) at_start = absurd (ground (arith, h))
step-SendAt (copied h) at_copy = at_message
step-SendAt (copied h) at_message = absurd (ground (arith, h))
step-SendAt (copied h) at_end = absurd (ground (arith, h))
step-SendAt (sent h) at_start = absurd (ground (arith, h))
step-SendAt (sent h) at_copy = absurd (ground (arith, h))
step-SendAt (sent h) at_message = at_end
step-SendAt (sent h) at_end = absurd (ground (arith, h))

SendReach-SendAt : {double : Bool} {x : TaskSend × Pending} → SendReach double x → SendAt double x
SendReach-SendAt here = at_start
SendReach-SendAt (step r s) = step-SendAt s (SendReach-SendAt r)

to_copy :
    (double : Bool)
    → SendReach double (
      record { state = init_done; calls = copies double },
      record { copy = true; message = false },
    )
unfolding send_init
to_copy true = step here init
to_copy false = step here init

SendAt-SendReach : {double : Bool} {x : TaskSend × Pending} → SendAt double x → SendReach double x
unfolding send_event send_execute
SendAt-SendReach at_start = here
SendAt-SendReach {double = d} at_copy = to_copy d
SendAt-SendReach {double = d} at_message = step (to_copy d) (copied refl)
SendAt-SendReach {double = d} at_end = step (step (to_copy d) (copied refl)) (sent refl)

-- With and without a double buffer on the device: the states that a send can reach are those before
-- `init`, during the copies, during the message, and at the end. The message is started once,
-- when the copy to the host has ended.
pub send_order : (double : Bool) (x : TaskSend × Pending) → SendReach double x ↔ SendAt double x
send_order double x = (SendReach-SendAt, SendAt-SendReach)

-- When `executeIntern` of a send answers true, so that the manager deletes it, the copies and the
-- message have been made, and no notification is still to come.
pub send_end :
    (double : Bool) (x : TaskSend × Pending)
    → SendReach double x
    → (send_execute x.0).0 ≡ true
    → (x.0.calls ≡ copies double ++ send_mpi ∷ []) × (x.1 ≡ quiet)
unfolding send_execute
send_end double x r h = go (SendReach-SendAt r) h
  where
    go :
        {y : TaskSend × Pending}
        → SendAt double y
        → (send_execute y.0).0 ≡ true
        → (y.0.calls ≡ copies double ++ send_mpi ∷ []) × (y.1 ≡ quiet)
    go at_start e = absurd (ground (arith, e))
    go at_copy e = absurd (ground (arith, e))
    go at_message e = absurd (ground (arith, e))
    go at_end e = (refl, refl)
