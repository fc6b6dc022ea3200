-- ===== src/Distribution.antt =====
-- src/picongpu/include/initialization/ParserGridDistribution.hpp: the cells of the devices along one
-- dimension, from blocks of devices `b{n}` with the same number of cells. The blocks are what
-- `parseString` has found with the regular expressions of boost. A `uint32_t` is wrapped, and an `int`
-- that takes one is its bit pattern.
pub mod Sizes
mod Tests
use piconalpaka.Prelude.{
  ℕ, ◌+◌, ◌-◌, ◌*◌, ◌%◌, Bool, ◌||◌, Option, none, some, List, [], ◌∷◌, leb, ltb, ◌==◌,
  if◌then◌else◌,
}

-- A pair of base number and multiplier
pub record Block : Type 0 where
  pub cells : ℕ
  pub devices : ℕ

-- `i < gpuPos`, for the bit pattern of `i` and a position that is not negative
unfoldable pub is_before : ℕ → ℕ → Bool
is_before i gpu_pos = leb 2147483648 i || ltb i gpu_pos

-- `i` for the first block, and for the block that follows
abbrev pub last_of_first : Block → ℕ
last_of_first b = (b.devices + 4294967295) % 4294967296

abbrev pub last_of_next : ℕ → Block → ℕ
last_of_next i b = (i + b.devices) % 4294967296

-- The loop of `getLocalSize` at the block `b`, whose last device is `i`, before the blocks `bs`. `none`
-- is the access behind the last block.
unfoldable pub local_size_from : ℕ → ℕ → Block → List Block → Option ℕ
local_size_from gpu_pos i b [] = if is_before i gpu_pos then none else some b.cells
local_size_from gpu_pos i b (c ∷ cs) =
    let next = local_size_from gpu_pos (last_of_next i c) c cs in
    if is_before i gpu_pos then next else some b.cells

unfoldable pub get_local_size : List Block → ℕ → Option ℕ
get_local_size [] gpu_pos = none
get_local_size (b ∷ bs) gpu_pos = local_size_from gpu_pos (last_of_first b) b bs

-- `sum` with the part of the last block, `gpuPos + iter->second - i - 1`
abbrev pub with_part : ℕ → ℕ → ℕ → Block → ℕ
with_part gpu_pos i sum b =
    (sum + b.cells * ((gpu_pos + b.devices + 4294967296 - i + 4294967295) % 4294967296))
    % 4294967296

-- The loop of `getOffset`, with `sum`
unfoldable pub offset_from : ℕ → ℕ → ℕ → Block → List Block → Option ℕ
offset_from gpu_pos i sum b [] =
    if is_before i gpu_pos then none else some (with_part gpu_pos i sum b)
offset_from gpu_pos i sum b (c ∷ cs) =
    let next =
      offset_from gpu_pos (last_of_next i c) ((sum + b.cells * b.devices) % 4294967296) c cs in
    if is_before i gpu_pos then next else some (with_part gpu_pos i sum b)

-- `sumTotal`
unfoldable pub sum_total : ℕ → List Block → ℕ
sum_total sum [] = sum
sum_total sum (b ∷ bs) = sum_total ((sum + b.cells * b.devices) % 4294967296) bs

-- `getOffset`; the failed assertion is `none` too.
unfoldable pub get_offset : List Block → ℕ → ℕ → Option ℕ
get_offset [] gpu_pos max_cells = none
get_offset (b ∷ bs) gpu_pos max_cells =
    if sum_total 0 (b ∷ bs) == max_cells then offset_from gpu_pos (last_of_first b) 0 b bs else none
