-- ===== src/Exchange/Tasks.antt =====
-- src/libPMacc/include/particles/tasks: TaskSendParticlesExchange.hpp and
-- TaskReceiveParticlesExchange.hpp, which send the particles of a direction in as many rounds as the
-- stack takes. What happens to the particles is an argument: the state after a call is the one at
-- which its event has finished. Which events have finished at a poll is an argument, too.
pub mod Rounds
pub mod Send
pub mod Receive
mod Tests
use piconalpaka.Prelude.{ℕ, Bool, true, false, ◌&&◌, leb, ◌==◌, if◌then◌else◌, Option, none, some}

-- `bashParticles`, `getDeviceParticlesCurrentSize` and `asyncSendParticles`, for one direction
pub record SendingParticles {ℓ} (W : Type ℓ) : Type ℓ where
  pub bash_particles : W → W
  pub device_size : W → ℕ
  pub async_send : W → W

-- `state_t` of TaskSendParticlesExchange, with `new_task` for `Constructor`
pub data SendState : Type 0 where
  new_task init wait_for_bash init_send wait_for_send wait_for_send_end finished : SendState

pub record SendTask : Type 0 where
  pub state : SendState
  pub max_size : ℕ
  pub last_size : ℕ

abbrev pub new_send_task : ℕ → SendTask
new_send_task max_size = record { state = new_task; max_size = max_size; last_size = 0 }

module _ {ℓ} {W : Type ℓ} (particles : SendingParticles W) where
  unfoldable pub send_init : SendTask → W → SendTask × W
  send_init t w = (record t { state = wait_for_bash }, particles.bash_particles w)

  -- `executeIntern`, with whether `tmpEvent` and `lastSendEvent` have finished; `none` is the failed
  -- assertion.
  unfoldable pub send_poll : SendState → Bool → Bool → SendTask → W → Option (Bool × (SendTask × W))
  send_poll wait_for_bash tmp last t w =
      if tmp && last
      then some (
        false,
        (
          record t { state = wait_for_send; last_size = particles.device_size w },
          particles.async_send w,
        ),
      )
      else some (false, (t, w))
  send_poll wait_for_send tmp last t w =
      if tmp
      then (if leb t.last_size t.max_size
          then (if t.last_size == t.max_size
              then some (false, send_init t w)
              else some (false, (record t { state = wait_for_send_end }, w)))
          else none)
      else some (false, (t, w))
  send_poll wait_for_send_end tmp last t w =
      if last then some (true, (record t { state = finished }, w)) else some (false, (t, w))
  send_poll finished tmp last t w = some (true, (t, w))
  send_poll _ tmp last t w = some (false, (t, w))

  unfoldable pub send_execute : Bool → Bool → SendTask × W → Option (Bool × (SendTask × W))
  send_execute tmp last s = send_poll s.0.state tmp last s.0 s.1

-- `asyncReceiveParticles`, `getHostParticlesCurrentSize` and `insertParticles`
pub record ReceivingParticles {ℓ} (W : Type ℓ) : Type ℓ where
  pub async_receive : W → W
  pub host_size : W → ℕ
  pub insert_particles : W → W

-- `state_t` of TaskReceiveParticlesExchange
pub data ReceiveState : Type 0 where
  new_task init wait_for_receive init_insert wait_for_insert wait finished : ReceiveState

pub record ReceiveTask : Type 0 where
  pub state : ReceiveState
  pub max_size : ℕ
  pub last_size : ℕ

abbrev pub new_receive_task : ℕ → ReceiveTask
new_receive_task max_size = record {
  state = ReceiveState.new_task;
  max_size = max_size;
  last_size = 0;
}

module _ {ℓ} {W : Type ℓ} (particles : ReceivingParticles W) where
  unfoldable pub receive_init : ReceiveTask → W → ReceiveTask × W
  receive_init t w = (record t { state = wait_for_receive }, particles.async_receive w)

  -- `executeIntern`, with whether `lastReceiveEvent` and `tmpEvent` have finished
  unfoldable pub receive_poll :
      ReceiveState → Bool → Bool → ReceiveTask → W → Option (Bool × (ReceiveTask × W))
  receive_poll wait_for_receive received inserted t w =
      if received
      then some (
        false,
        (
          record t { state = wait_for_insert; last_size = particles.host_size w },
          particles.insert_particles w,
        ),
      )
      else some (false, (t, w))
  receive_poll wait_for_insert received inserted t w =
      if inserted
      then (if leb t.last_size t.max_size
          then (if t.last_size == t.max_size
              then some (false, receive_init t w)
              else some (true, (record t { state = ReceiveState.finished }, w)))
          else none)
      else some (false, (t, w))
  receive_poll ReceiveState.finished received inserted t w = some (true, (t, w))
  receive_poll _ received inserted t w = some (false, (t, w))

  unfoldable pub receive_execute : Bool → Bool → ReceiveTask × W → Option (Bool × (ReceiveTask × W))
  receive_execute received inserted s = receive_poll s.0.state received inserted s.0 s.1
