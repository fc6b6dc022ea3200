-- ===== src/Reduce/Tests.antt =====
-- The sum of 0 to 12, with 2 elements in the buffer and in the shared memory of a block; the sum of 0
-- to 7 with room for one element in the shared memory
use native.Mathlib.Nat.{add_assoc, add_comm}
use piconalpaka.Prelude.{ℕ, ◌+◌, ◌≡◌, refl, arith, some}
use piconalpaka.Reduce.{
  reduce, reduce_loop, blocks_for, first_blocks, kernel_reduction, run_blocks, block_value,
  reduce_shared, reduce_chunk, fill, strided, optimal_threads_per_block, get_threads_per_block,
}
use piconalpaka.Reduce.Sums.{fold_to}
use piconalpaka.Reduce.Host.{reduce_lem}

abbrev old_shared : ℕ → ℕ → ℕ → ℕ
old_shared round block l = 100

abbrev old_buffer : ℕ → ℕ
old_buffer i = 50

reduce_example :
    reduce ◌+◌ 16 16 8 old_shared 13 (λ i. i) 13 old_buffer ≡ some (fold_to ◌+◌ (λ i. i) 12)
reduce_example =
    reduce_lem ◌+◌ add_assoc add_comm 16 16 8 old_shared 13 (λ i. i) 13 old_buffer (omega arith)
      (omega arith) (omega arith) (omega arith) (omega arith)

-- With room for one element only, the second kernel has no blocks, and elements are lost.
lost : reduce ◌+◌ 64 8 8 old_shared 13 (λ i. i) 8 old_buffer ≡ some 10
unfolding reduce reduce_loop blocks_for first_blocks kernel_reduction run_blocks block_value
    reduce_shared reduce_chunk fill strided optimal_threads_per_block get_threads_per_block
lost = refl
