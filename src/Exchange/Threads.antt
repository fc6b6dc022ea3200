-- ===== src/Exchange/Threads.antt =====
-- What a thread has claimed, in src/libPMacc/include/particles/memory/boxes/ExchangePushDataBox.hpp.
use piconalpaka.Prelude.{ℕ, ◌+◌, ◌-◌, ◌<◌, ◌≤◌, min, ◌≡◌, Option, none, some}
use piconalpaka.Exchange.{ExchangeStack, Pusher, start, over, reserve, write, tile, null}

-- The first element, and the one behind the last
abbrev pub first : ℕ → Pusher → ℕ
first max_size (start count cell) = 0
first max_size (over old_size count cell) = min old_size max_size
first max_size (reserve old_size count cell) = old_size
first max_size (write address old_size count cell) = old_size
first max_size (tile address old_size count cell) = old_size
first max_size null = 0

abbrev pub behind : ℕ → Pusher → ℕ
behind max_size (start count cell) = 0
behind max_size (over old_size count cell) = min (old_size + count) max_size
behind max_size (reserve old_size count cell) = old_size + count
behind max_size (write address old_size count cell) = old_size + count
behind max_size (tile address old_size count cell) = old_size + count
behind max_size null = 0

abbrev pub claimed : ℕ → Pusher → ℕ
claimed max_size p = behind max_size p - first max_size p

-- What a thread has yet to ask for
abbrev pub waiting : Pusher → ℕ
waiting (start count cell) = count
waiting _ = 0

-- A place among the indices
abbrev pub indexed : Pusher → ℕ
indexed (write address old_size count cell) = 1
indexed (tile address old_size count cell) = 1
indexed _ = 0

abbrev pub address : Pusher → Option ℕ
address (write a old_size count cell) = some a
address (tile a old_size count cell) = some a
address _ = none

-- Before the `atomicExch`
abbrev pub IsOver : Pusher → Type 0
IsOver (over old_size count cell) = Unit
IsOver _ = ⊥

-- A thread goes there only if the stack is full.
abbrev pub IsFull : ℕ → ExchangeStack → Pusher → Type 0
IsFull max_size m (over old_size count cell) =
    (max_size < old_size + count) × (max_size ≤ m.current_size)
IsFull max_size m _ = Unit

-- The index of a tile is in place.
abbrev pub IsWritten : ExchangeStack → Pusher → Type 0
IsWritten m (tile a old_size count cell) =
    m.indices a ≡ record { super_cell = cell; start_idx = old_size; count = count }
IsWritten m _ = Unit
