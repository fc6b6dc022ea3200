-- ===== src/Events/Tasks/Arrive.antt =====
-- The order of the tasks for a receiving exchange: src/libPMacc/include/eventSystem/tasks.
use piconalpaka.Prelude.{ℕ, ◌/◌, arith, Bool, true, false, none, some, List, [], ◌∷◌, ◌≡◌, refl}
use piconalpaka.Events.Tasks.{
  EventType, recv_finished, copy_host2_device, copy_device2_device, Call, receive_mpi,
  host_to_device, host_to_double, double_to_device, host_size, wait_for_received, wait_for_finish,
  receive_finish, TaskReceive, new_receive, receive_init, receive_execute, receive_event,
}

-- The two notifications that a receive waits for: the message, and the last copy
pub record Awaited : Type 0 where
  pub message : Bool
  pub copy : Bool

abbrev pub quiet : Awaited
quiet = record { message = false; copy = false }

-- The event of the last copy
abbrev last_copy : Bool → EventType
last_copy true = copy_device2_device
last_copy false = copy_host2_device

-- A step of a receive of `count` bytes: its `init`, a call of `executeIntern` by the manager, or one
-- of the notifications that are to come, by the end of the message and by that of the last copy.
pub data ReceiveStep (double : Bool) (size count : ℕ)
    : TaskReceive × Awaited → TaskReceive × Awaited → Type 0 where
  init :
      ReceiveStep double size count
        (new_receive, quiet)
        (receive_init new_receive, record quiet { message = true })
  execute :
      {t : TaskReceive} {p : Awaited}
      → ReceiveStep double size count (t, p) ((receive_execute double t).1, p)
  received :
      {t : TaskReceive} {p : Awaited}
      → p.message ≡ true
      → ReceiveStep double size count
          (t, p)
          (
            receive_event double size recv_finished (some count) t,
            record { message = false; copy = true },
          )
  copied :
      {t : TaskReceive} {p : Awaited}
      → p.copy ≡ true
      → ReceiveStep double size count
          (t, p)
          (receive_event double size (last_copy double) none t, record p { copy = false })

pub data ReceiveReach (double : Bool) (size count : ℕ) : TaskReceive × Awaited → Type 0 where
  here : ReceiveReach double size count (new_receive, quiet)
  step :
      {x y : TaskReceive × Awaited}
      → ReceiveReach double size count x
      → ReceiveStep double size count x y
      → ReceiveReach double size count y

-- The tasks behind the message: first the size of the host buffer, then the copies
abbrev pub placed : Bool → ℕ → List Call
placed true n = receive_mpi ∷ host_size n ∷ host_to_double ∷ double_to_device ∷ []
placed false n = receive_mpi ∷ host_size n ∷ host_to_device ∷ []

-- Where a receive can be, for `n` elements
pub data ReceiveAt (double : Bool) (n : ℕ) : TaskReceive × Awaited → Type 0 where
  at_start : ReceiveAt double n (new_receive, quiet)
  at_message : ReceiveAt double n (
    record { state = wait_for_received; new_buffer_size = 0; calls = receive_mpi ∷ [] },
    record { message = true; copy = false },
  )
  at_copy : ReceiveAt double n (
    record { state = wait_for_finish; new_buffer_size = n; calls = placed double n },
    record { message = false; copy = true },
  )
  at_end :
      ReceiveAt double n
        (record { state = receive_finish; new_buffer_size = n; calls = placed double n }, quiet)

received-ReceiveAt :
    (double : Bool) (size count : ℕ)
    → ReceiveAt double (count / size) (
      receive_event double size recv_finished (some count) (receive_init new_receive),
      record { message = false; copy = true },
    )
unfolding receive_event receive_execute receive_init
received-ReceiveAt true size count = at_copy
received-ReceiveAt false size count = at_copy

copied-ReceiveAt :
    (double : Bool) (size n : ℕ)
    → ReceiveAt double n (
      receive_event double size
          (last_copy double)
          none
          (record { state = wait_for_finish; new_buffer_size = n; calls = placed double n }),
      quiet,
    )
unfolding receive_event
copied-ReceiveAt true size n = at_end
copied-ReceiveAt false size n = at_end

step-ReceiveAt :
    {double : Bool} {size count : ℕ} {x y : TaskReceive × Awaited}
    → ReceiveStep double size count x y
    → ReceiveAt double (count / size) x
    → ReceiveAt double (count / size) y
unfolding receive_execute receive_event receive_init
step-ReceiveAt init a = at_message
step-ReceiveAt execute at_start = at_start
step-ReceiveAt execute at_message = at_message
step-ReceiveAt execute at_copy = at_copy
step-ReceiveAt execute at_end = at_end
step-ReceiveAt (received h) at_start = absurd (ground (arith, h))
step-ReceiveAt {double = d} {size = n} {count = c} (received h) at_message =
    received-ReceiveAt d n c
step-ReceiveAt (received h) at_copy = absurd (ground (arith, h))
step-ReceiveAt (received h) at_end = absurd (ground (arith, h))
step-ReceiveAt (copied h) at_start = absurd (ground (arith, h))
step-ReceiveAt (copied h) at_message = absurd (ground (arith, h))
step-ReceiveAt {double = d} {size = n} {count = c} (copied h) at_copy = copied-ReceiveAt d n (c / n)
step-ReceiveAt (copied h) at_end = absurd (ground (arith, h))

ReceiveReach-ReceiveAt :
    {double : Bool} {size count : ℕ} {x : TaskReceive × Awaited}
    → ReceiveReach double size count x
    → ReceiveAt double (count / size) x
ReceiveReach-ReceiveAt here = at_start
ReceiveReach-ReceiveAt (step r s) = step-ReceiveAt s (ReceiveReach-ReceiveAt r)

-- With and without a double buffer on the device: a receive is before `init`, waits for the message,
-- waits for the last copy, or is at the end. Behind the message the size of the host buffer is
-- set to the number of elements received, before the copies start.
pub receive_order :
    (double : Bool) (size count : ℕ) (x : TaskReceive × Awaited)
    → ReceiveReach double size count x
    → ReceiveAt double (count / size) x
receive_order double size count x r = ReceiveReach-ReceiveAt r

-- When `executeIntern` of a receive answers true, so that the manager deletes it, the host buffer has
-- the size of the elements received, the copies have been made, and no notification is to come.
pub receive_end :
    (double : Bool) (size count : ℕ) (x : TaskReceive × Awaited)
    → ReceiveReach double size count x
    → (receive_execute double x.0).0 ≡ true
    → (x.0.calls ≡ placed double (count / size)) × (x.1 ≡ quiet)
unfolding receive_execute
receive_end double size count x r h = go (ReceiveReach-ReceiveAt r) h
  where
    go :
        {y : TaskReceive × Awaited}
        → ReceiveAt double (count / size) y
        → (receive_execute double y.0).0 ≡ true
        → (y.0.calls ≡ placed double (count / size)) × (y.1 ≡ quiet)
    go at_start e = absurd (ground (arith, e))
    go at_message e = absurd (ground (arith, e))
    go at_copy e = absurd (ground (arith, e))
    go at_end e = (refl, refl)
