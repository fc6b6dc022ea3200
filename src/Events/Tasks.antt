-- ===== src/Events/Tasks.antt =====
-- src/libPMacc/include/eventSystem/tasks: TaskSend.hpp, TaskReceive.hpp, TaskSendMPI.hpp and
-- TaskReceiveMPI.hpp, the sending and the receiving of an exchange as state machines. The
-- tasks that they create are entries of a list of calls, in order.
mod Tests
pub mod Order
pub mod Arrive
pub mod Sizes
use piconalpaka.Prelude.{
  ℕ, ◌*◌, ◌/◌, ◌%◌, ◌-◌, ltb, ℤ, pos, negsuc, Bool, true, false, not, Option, none, some, List, [],
  ◌∷◌, ◌++◌, if◌then◌else◌,
}
use piconalpaka.Comm.{to_size}

-- `EventType`
pub data EventType : Type 0 where
  finished copy_host2_device copy_device2_host copy_device2_device : EventType
  send_finished recv_finished logical_and set_value get_value kernel : EventType

-- The tasks that are created for an exchange; `host_size` is `setCurrentSize` of the host buffer.
pub data Call : Type 0 where
  device_to_device device_to_host double_to_host send_mpi : Call
  receive_mpi host_to_device host_to_double double_to_device : Call
  host_size : ℕ → Call

-- `state_t` of `TaskSend`
pub data SendState : Type 0 where
  constructed init_done device_to_host_finished send_done finish : SendState

pub record TaskSend : Type 0 where
  pub state : SendState
  pub calls : List Call

abbrev pub new_send : TaskSend
new_send = record { state = constructed; calls = [] }

abbrev create : Call → List Call → List Call
create c calls = calls ++ c ∷ []

-- `TaskSend::executeIntern`
unfoldable pub send_execute : TaskSend → Bool × TaskSend
send_execute record_of = go record_of.state
  where
    go : SendState → Bool × TaskSend
    go init_done = (false, record_of)
    go device_to_host_finished =
        (false, record { state = send_done; calls = create send_mpi record_of.calls })
    go send_done = (false, record_of)
    go finish = (true, record_of)
    go constructed = (false, record_of)

-- `TaskSend::event`
unfoldable pub send_event : EventType → TaskSend → TaskSend
send_event copy_device2_host t = (send_execute (record t { state = device_to_host_finished })).1
send_event send_finished t = record t { state = finish }
send_event _ t = t

-- `state_t` of `TaskReceive`
pub data ReceiveState : Type 0 where
  receive_constructed wait_for_received run_copy wait_for_finish receive_finish : ReceiveState

pub record TaskReceive : Type 0 where
  pub state : ReceiveState
  pub new_buffer_size : ℕ
  pub calls : List Call

abbrev pub new_receive : TaskReceive
new_receive = record { state = receive_constructed; new_buffer_size = 0; calls = [] }

-- `TaskReceive::init`
unfoldable pub receive_init : TaskReceive → TaskReceive
receive_init t = record t { state = wait_for_received; calls = create receive_mpi t.calls }

-- With `hasDeviceDoubleBuffer` of the exchange
module _ (has_device_double_buffer : Bool) where
  -- `TaskSend::init`
  unfoldable pub send_init : TaskSend → TaskSend
  send_init t = record {
    state = init_done;
    calls =
        if has_device_double_buffer
        then create double_to_host (create device_to_device t.calls)
        else create device_to_host t.calls;
  }

  -- `TaskReceive::executeIntern`
  unfoldable pub receive_execute : TaskReceive → Bool × TaskReceive
  receive_execute t = go t.state
    where
      go : ReceiveState → Bool × TaskReceive
      go wait_for_received = (false, t)
      go run_copy =
          let sized = create (host_size t.new_buffer_size) t.calls in
          (
            false,
            record t {
              state = wait_for_finish;
              calls =
                  if has_device_double_buffer
                  then create double_to_device (create host_to_double sized)
                  else create host_to_device sized;
            },
          )
      go wait_for_finish = (false, t)
      go receive_finish = (true, t)
      go receive_constructed = (false, t)

  -- `TaskReceive::event`, with the number of bytes that were received, where the event has data
  unfoldable pub receive_event : ℕ → EventType → Option ℕ → TaskReceive → TaskReceive
  receive_event size_of_type recv_finished (some received_count) t =
      (receive_execute
        (record t { new_buffer_size = received_count / size_of_type; state = run_copy })).1
  receive_event size_of_type recv_finished none t = t
  receive_event size_of_type copy_host2_device data_of_event t = record t { state = receive_finish }
  receive_event size_of_type copy_device2_device data_of_event t = record t {
    state = receive_finish;
  }
  receive_event size_of_type _ data_of_event t = t

-- `finished` of `MPITask`, and `request` of `TaskSendMPI` and of `TaskReceiveMPI`
pub record MpiTask : Type 0 where
  pub is_finished : Bool
  pub request : Option ℕ

-- `init`: `startSend` and `startReceive` return the request.
unfoldable pub mpi_init : ℕ → MpiTask → MpiTask
mpi_init request t = record t { request = some request }

-- `executeIntern`, with the answer of `MPI_Test`; `none` is the `runtime_error`.
unfoldable pub mpi_execute : (ℕ → Bool) → MpiTask → Option (Bool × MpiTask)
mpi_execute mpi_test t = if t.is_finished then some (true, t) else elim t.request [
  | none ↦ none
  | some request ↦
      if mpi_test request
      then some (true, record { is_finished = true; request = none })
      else some (false, t)
]

-- The bytes of `current_size` elements, as a `size_t`
abbrev pub sent_bytes : ℕ → ℕ → ℕ
sent_bytes current_size size_of_type = current_size * size_of_type % 18446744073709551616

-- `static_cast<int>` of a `size_t`, as in `startSend` and `startReceive` of the communicator
unfoldable pub to_int : ℕ → ℤ
to_int n =
    if ltb (n % 4294967296) 2147483648
    then pos (n % 4294967296)
    else negsuc (4294967295 - n % 4294967296)

-- The `int` of `MPI_Get_count` as the `size_t` of `EventDataReceive`
abbrev pub size_of_count : Option ℤ → Option ℕ
size_of_count none = none
size_of_count (some count) = some (to_size count)

-- What `TaskReceiveMPI` notifies of a message of `current_size` elements, for a host buffer that holds
-- `capacity`. `mpi` is MPI's: it takes the counts of `MPI_Isend` and `MPI_Irecv` to that of
-- `MPI_Get_count`, and `none` is an error.
unfoldable pub received_bytes : (ℤ → ℤ → Option ℤ) → ℕ → ℕ → ℕ → Option ℕ
received_bytes mpi size_of_type current_size capacity = size_of_count (
    mpi (to_int (sent_bytes current_size size_of_type)) (to_int (sent_bytes capacity size_of_type)))
