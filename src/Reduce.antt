-- ===== src/Reduce.antt =====
-- src/libPMacc/include/nvidia/reduce/Reduce.hpp: the reduction of an array by a binary functor.
-- A functor `func(a, b)` that stores into `a` is a function that returns the new value of `a`. The
-- blocks of a kernel run one after the other, and read the memory as they find it; the threads of a
-- block run in step between the barriers.
pub mod Sums
pub mod Kernel
pub mod Host
mod Tests
use piconalpaka.Prelude.{
  ℕ, zero, suc, ◌+◌, ◌-◌, ◌*◌, ◌/◌, ◌%◌, min, Bool, true, false, ◌&&◌, ◌||◌, not, Option, none,
  some, ltb, leb, ◌==◌, if◌then◌else◌, update,
}

-- `getThreadsPerBlock`
unfoldable pub get_threads_per_block : ℕ → ℕ
get_threads_per_block threads =
    if leb 512 threads
    then 512
    else if leb 256 threads
    then 256
    else if leb 128 threads
    then 128
    else if leb 64 threads
    then 64
    else if leb 32 threads
    then 32
    else if leb 16 threads
    then 16
    else if leb 8 threads
    then 8
    else if leb 4 threads
    then 4
    else if leb 2 threads
    then 2
    else 1

-- `optimalThreadsPerBlock`, with `sharedMemByte`
unfoldable pub optimal_threads_per_block : ℕ → ℕ → ℕ → ℕ
optimal_threads_per_block shared_mem_byte n size_per_element =
    get_threads_per_block (min (shared_mem_byte / size_per_element) n)

-- `blocks`, for `n` elements that are left
unfoldable pub blocks_for : ℕ → ℕ → ℕ
blocks_for n blockcount =
    let blocks = n / 2 / blockcount in if blocks == 0 && ltb 1 n then 1 else blocks

-- `blocks` of the first kernel, with `n_buffer` elements in the buffer
unfoldable pub first_blocks : ℕ → ℕ → ℕ → ℕ
first_blocks n_buffer blockcount n =
    let threads = n_buffer * blockcount * 2 % 4294967296 in
    let blocks = (if ltb n threads then n else threads) / 2 / blockcount in
    if blocks == 0 then 1 else blocks

module _ {ℓ} {A : Type ℓ} (func : A → A → A) where
  -- `while (i < src_count)`. Each round adds `step` to `i`, so that `src_count` rounds are enough.
  unfoldable pub strided : ℕ → (ℕ → A) → ℕ → ℕ → ℕ → A → A
  strided zero src src_count step i r_value = r_value
  strided (suc fuel) src src_count step i r_value =
      let rest = strided fuel src src_count step ((i + step) % 4294967296) (func r_value (src i)) in
      if ltb i src_count then rest else r_value

  -- The shared memory after it is filled; `s_mem` is what it held before.
  unfoldable pub fill : (ℕ → A) → ℕ → ℕ → ℕ → ℕ → (ℕ → A) → ℕ → A
  fill src src_count block_size grid_size block s_mem l_tid =
      let tid = block * block_size + l_tid in
      let global_thread_count = grid_size * block_size in
      if ltb tid src_count
      then strided src_count src src_count global_thread_count
          ((tid + global_thread_count) % 4294967296) (src tid)
      else s_mem l_tid

  -- A round of `while (chunk_count != 1)`, for all threads: they write below `chunk_count / 2`, and read
  -- from the new `chunk_count` on.
  unfoldable pub reduce_chunk : ℕ → (ℕ → A) → ℕ → A
  reduce_chunk chunk_count s_mem l_tid =
      if not (not (l_tid == 0) && leb (chunk_count / 2) l_tid)
      then func (s_mem l_tid) (s_mem (l_tid + (chunk_count + 1) / 2))
      else s_mem l_tid

  -- The loop. Each round makes a chunk of at least 2 smaller, so that the size of the block is enough.
  unfoldable pub reduce_shared : ℕ → ℕ → (ℕ → A) → ℕ → A
  reduce_shared zero chunk_count s_mem = s_mem
  reduce_shared (suc fuel) chunk_count s_mem =
      let rest = reduce_shared fuel ((chunk_count + 1) / 2) (reduce_chunk chunk_count s_mem) in
      if chunk_count == 1 then s_mem else rest

  -- What the block hands to `func2`; a single thread without an element hands over nothing.
  unfoldable pub block_value : (ℕ → A) → ℕ → ℕ → ℕ → ℕ → (ℕ → A) → Option A
  block_value src src_count block_size grid_size block s_mem =
      if block_size == 1 && leb src_count (block * block_size)
      then none
      else some (
          reduce_shared block_size block_size (fill src src_count block_size grid_size block s_mem)
            0)

  abbrev pub store : (A → A → A) → ℕ → Option A → (ℕ → A) → ℕ → A
  store func2 block none dest = dest
  store func2 block (some v) dest = update dest block (func2 (dest block) v)

  -- `KernelReduction` on `count` blocks from `block` on. `src` is read through the memory `dest`, and
  -- `s_mem` is what the shared memory of a block holds at the start.
  unfoldable pub run_blocks :
      (A → A → A) → ((ℕ → A) → ℕ → A) → ℕ → ℕ → ℕ → (ℕ → ℕ → A) → ℕ → ℕ → (ℕ → A) → ℕ → A
  run_blocks func2 src src_count block_size grid_size s_mem zero block dest = dest
  run_blocks func2 src src_count block_size grid_size s_mem (suc count) block dest =
      run_blocks func2 src src_count block_size grid_size s_mem count (suc block) (
        store func2 block
          (block_value (src dest) src_count block_size grid_size block (s_mem block)) dest)

  unfoldable pub kernel_reduction :
      (A → A → A) → ((ℕ → A) → ℕ → A) → ℕ → ℕ → ℕ → (ℕ → ℕ → A) → (ℕ → A) → ℕ → A
  kernel_reduction func2 src src_count block_size grid_size s_mem dest =
      run_blocks func2 src src_count block_size grid_size s_mem grid_size 0 dest

  -- `while (blocks != 0)`, with the rounds left; `none` means that they ran out. `s_mem` is what the
  -- shared memory of the blocks holds at the start of a kernel, by the rounds left. A positive `double`
  -- quotient rounded up is exact here: `blockcount` is a power of two.
  unfoldable pub reduce_loop : (ℕ → ℕ) → (ℕ → ℕ → ℕ → A) → ℕ → ℕ → (ℕ → A) → Option (ℕ → A)
  reduce_loop threads_for s_mem zero n dest = none
  reduce_loop threads_for s_mem (suc fuel) n dest =
      let blockcount = threads_for n in
      let blocks = blocks_for n blockcount in
      let block_offset = (blocks + blockcount - 1) / blockcount in
      let begin = block_offset * blockcount in
      let many = reduce_loop threads_for s_mem fuel begin (
        kernel_reduction func (λ mem i. mem (begin + i)) (n - begin) blockcount
          (blocks - block_offset) (s_mem fuel) dest) in
      let one =
        reduce_loop threads_for s_mem fuel blocks
          (kernel_reduction (λ a b. b) (λ mem i. mem i) n blockcount blocks (s_mem fuel) dest) in
      if blocks == 0 then some dest else if ltb 1 blocks then many else one

  -- `operator()`: the first element of the buffer at the end. The buffer has room for an element at
  -- least.
  unfoldable pub reduce : ℕ → ℕ → ℕ → (ℕ → ℕ → ℕ → A) → ℕ → (ℕ → A) → ℕ → (ℕ → A) → Option A
  reduce byte shared_mem_byte size_of s_mem fuel src n dest =
      let threads_for = λ (k : ℕ). optimal_threads_per_block shared_mem_byte k size_of in
      let blockcount = threads_for n in
      let blocks = first_blocks (byte / size_of) blockcount n in
      elim (reduce_loop threads_for s_mem fuel blocks
        (kernel_reduction (λ a b. b) (λ mem. src) n blockcount blocks (s_mem fuel) dest)) [
          | none ↦ none
          | some mem ↦ some (mem 0)
        ]
