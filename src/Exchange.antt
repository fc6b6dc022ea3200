-- ===== src/Exchange.antt =====
-- src/libPMacc/include/particles/memory/boxes: ExchangePushDataBox.hpp with PushDataBox.hpp, onto which
-- the threads of a kernel push tiles of particles. A thread goes from one atomic operation on the
-- shared counters to the next, and the threads interleave there.
pub mod Family
pub mod Threads
pub mod Invariant
pub mod Keep
pub mod Slots
pub mod Tasks
mod Tests
use piconalpaka.Prelude.{ℕ, suc, ◌+◌, ◌-◌, ◌%◌, Bool, true, false, leb, ltb, if◌then◌else◌, update}
use piconalpaka.Dimensions.{DataSpace3}

-- `ExchangeMemoryIndex`
pub record ExchangeMemoryIndex : Type 0 where
  pub super_cell : DataSpace3
  pub start_idx : ℕ
  pub count : ℕ

-- `*currentSizePointer`, and `*currentSize` and the elements of `virtualMemory`
pub record ExchangeStack : Type 0 where
  pub current_size : ℕ
  pub index_size : ℕ
  pub indices : ℕ → ExchangeMemoryIndex

-- Where a thread stands in `pushN(count, superCell)`: before the first `atomicAdd`; before the
-- `atomicExch`, with `oldSize`; before the `atomicAdd` of `virtualMemory.pushN`; before the index is
-- written to its place; and at the end, with a tile at `oldSize` or with `NULL`.
pub data Pusher : Type 0 where
  start : ℕ → DataSpace3 → Pusher
  over : ℕ → ℕ → DataSpace3 → Pusher
  reserve : ℕ → ℕ → DataSpace3 → Pusher
  write : ℕ → ℕ → ℕ → DataSpace3 → Pusher
  tile : ℕ → ℕ → ℕ → DataSpace3 → Pusher
  null : Pusher

abbrev pub add_uint32 : ℕ → ℕ → ℕ
add_uint32 a b = (a + b) % 4294967296

-- One atomic operation of `pushN`, and what the thread does up to the next one
unfoldable pub push_n : ℕ → ExchangeStack → Pusher → ExchangeStack × Pusher
push_n max_size m (start count cell) =
    let new_size = add_uint32 m.current_size count in
    (
      record m { current_size = new_size },
      if ltb max_size new_size
          then over m.current_size count cell
          else reserve m.current_size count cell,
    )
push_n max_size m (over old_size count cell) = (
  record m { current_size = max_size },
  if leb max_size old_size then null else reserve old_size (max_size - old_size) cell,
)
push_n max_size m (reserve old_size count cell) =
    (record m { index_size = add_uint32 m.index_size 1 }, write m.index_size old_size count cell)
push_n max_size m (write address old_size count cell) = (
  record m {
    indices =
        update m.indices address
          (record { super_cell = cell; start_idx = old_size; count = count });
  },
  tile address old_size count cell,
)
push_n max_size m (tile address old_size count cell) = (m, tile address old_size count cell)
push_n max_size m null = (m, null)

-- The threads that push, with the stack that they share
pub record Pushing : Type 0 where
  pub stack : ExchangeStack
  pub threads : ℕ → Pusher

unfoldable pub turn : ℕ → ℕ → Pushing → Pushing
turn max_size i s =
    let r = push_n max_size s.stack (s.threads i) in
    record { stack = r.0; threads = update s.threads i r.1 }
