-- ===== src/Distribution/Sizes.antt =====
-- The cells of each device, in src/picongpu/include/initialization/ParserGridDistribution.hpp.
use native.Mathlib.Nat.{mod-eq_of_lt, mul-le-mul_left}
use piconalpaka.Prelude.{
  ℕ, zero, suc, ◌+◌, ◌-◌, ◌*◌, ◌%◌, ◌<◌, ◌≤◌, ◌≡◌, true, false, none, some, List, [], ◌∷◌, leb, ltb,
  ◌==◌, if◌then◌else◌, arith, refl, ap, ◌∙◌, Bool-cases, inl, inr,
}
use piconalpaka.Distribution.{
  is_before, last_of_first, last_of_next, with_part, Block, local_size_from, get_local_size,
  offset_from, sum_total, get_offset,
}

-- The cells of the device at `p` in a block of `n` devices with `c` cells, or of one behind it
abbrev pub cells_of : List Block → ℕ → ℕ
cells_of [] p = 0
cells_of (b ∷ bs) p = if ltb p b.devices then b.cells else cells_of bs (p - b.devices)

unfoldable pub cells_before : List Block → ℕ → ℕ
cells_before bs zero = 0
cells_before bs (suc p) = cells_before bs p + cells_of bs p

unfoldable pub devices_of : List Block → ℕ
devices_of [] = 0
devices_of (b ∷ bs) = b.devices + devices_of bs

-- The last device of a block, for fewer than 2^31 devices, before which there are `before`
abbrev LastOf : ℕ → ℕ → Block → Type 0
LastOf i before b = i ≡ (before + b.devices + 4294967295) % 4294967296

LastOf-next :
    (i before : ℕ) (b c : Block)
    → before + b.devices + c.devices ≤ 2147483648
    → LastOf i before b
    → LastOf (last_of_next i c) (before + b.devices) c
LastOf-next i before b c few h = omega (arith, h, few)

is_before_lem :
    (i before p : ℕ) (b : Block)
    → before + b.devices ≤ 2147483648
    → LastOf i before b
    → is_before i p ≡ leb (before + b.devices) p
unfolding is_before
is_before_lem i before p b few h = ground (arith, h, few)

local_size_from_lem :
    (b : Block) (bs : List Block) (i p before : ℕ)
    → before + devices_of (b ∷ bs) ≤ 2147483648
    → LastOf i before b
    → before ≤ p
    → p - before < devices_of (b ∷ bs)
    → local_size_from p i b bs ≡ some (cells_of (b ∷ bs) (p - before))
unfolding local_size_from devices_of
local_size_from_lem b [] i p before few last h l =
    let e : leb (before + b.devices) p ≡ false = ground (arith, h, l) in
    let q : ltb (p - before) b.devices ≡ true = ground (arith, h, l) in
    rw (is_before_lem i before p b (omega (arith, few)) last, e, q) refl
local_size_from_lem b (c ∷ cs) i p before few last h l =
    elim (Bool-cases (leb (before + b.devices) p)) [
      | inl e ↦
          let le : before + b.devices ≤ p = ground (arith, e) in
          let q : ltb (p - before) b.devices ≡ false = ground (arith, le) in
          let s : p - (before + b.devices) ≡ p - before - b.devices = omega (arith, le) in
          rw (is_before_lem i before p b (omega (arith, few)) last, e, q)
            (local_size_from_lem c cs (last_of_next i c) p (before + b.devices) (omega (arith, few))
                (LastOf-next i before b c (omega (arith, few)) last) le (omega (arith, l, le))
              ∙ ap (λ k. some (cells_of (c ∷ cs) k)) s)
      | inr e ↦
          let q : ltb (p - before) b.devices ≡ true = ground (arith, e, h) in
          rw (is_before_lem i before p b (omega (arith, few)) last, e, q) refl
    ]

-- Within a block, and behind it
before_in :
    (b : Block) (bs : List Block) (p : ℕ) → p ≤ b.devices → cells_before (b ∷ bs) p ≡ b.cells * p
unfolding cells_before
before_in b bs zero h = omega arith
before_in b bs (suc p) h =
    let q : ltb p b.devices ≡ true = ground (arith, h) in
    rw q (omega (arith, before_in b bs p (omega (arith, h))))

before_behind :
    (b : Block) (bs : List Block) (p : ℕ)
    → cells_before (b ∷ bs) (b.devices + p) ≡ b.cells * b.devices + cells_before bs p
unfolding cells_before
before_behind b bs zero =
    ap (cells_before (b ∷ bs)) (omega arith)
    ∙ (before_in b bs b.devices (omega arith) ∙ omega arith)
before_behind b bs (suc p) =
    let next : b.devices + suc p ≡ suc (b.devices + p) = omega arith in
    let q : ltb (b.devices + p) b.devices ≡ false = ground arith in
    let d : b.devices + p - b.devices ≡ p = omega arith in
    ap (cells_before (b ∷ bs)) next ∙ rw (q, d) (omega (arith, before_behind b bs p))

all_behind :
    (b : Block) (bs : List Block)
    → cells_before (b ∷ bs) (devices_of (b ∷ bs))
      ≡ b.cells * b.devices + cells_before bs (devices_of bs)
unfolding devices_of
all_behind b bs = before_behind b bs (devices_of bs)

-- The part of the block in which the device is
part_lem :
    (b : Block) (bs : List Block) (i p before sum : ℕ)
    → before + b.devices ≤ 2147483648
    → LastOf i before b
    → before ≤ p
    → p < before + b.devices
    → sum + cells_before (b ∷ bs) (devices_of (b ∷ bs)) < 4294967296
    → with_part p i sum b ≡ sum + cells_before (b ∷ bs) (p - before)
part_lem b bs i p before sum few last h lt fits =
    let same : (p + b.devices + 4294967296 - i + 4294967295) % 4294967296 ≡ p - before =
      omega (arith, h, lt, few, last) in
    let less : p - before ≤ b.devices = omega (arith, lt) in
    let in_block = before_in b bs (p - before) less in
    let bound = mul-le-mul_left b.cells less in
    let z : (sum + b.cells * (p - before)) % 4294967296 ≡ sum + b.cells * (p - before) =
      mod-eq_of_lt (omega (arith, fits, all_behind b bs, bound)) in
    rw (same, z) (omega (arith, in_block))

offset_from_lem :
    (b : Block) (bs : List Block) (i p before sum : ℕ)
    → before + devices_of (b ∷ bs) ≤ 2147483648
    → LastOf i before b
    → before ≤ p
    → p - before < devices_of (b ∷ bs)
    → sum + cells_before (b ∷ bs) (devices_of (b ∷ bs)) < 4294967296
    → offset_from p i sum b bs ≡ some (sum + cells_before (b ∷ bs) (p - before))
unfolding offset_from devices_of
offset_from_lem b [] i p before sum few last h l fits =
    let one : before + b.devices ≤ 2147483648 = omega (arith, few) in
    let lt : p < before + b.devices = omega (arith, h, l) in
    let e : leb (before + b.devices) p ≡ false = ground (arith, lt) in
    rw (is_before_lem i before p b one last, e)
      (ap some (part_lem b [] i p before sum one last h lt fits))
offset_from_lem b (c ∷ cs) i p before sum few last h l fits =
    let one : before + b.devices ≤ 2147483648 = omega (arith, few) in
    elim (Bool-cases (leb (before + b.devices) p)) [
      | inl e ↦
          let le : before + b.devices ≤ p = ground (arith, e) in
          let all = all_behind b (c ∷ cs) in
          let z : (sum + b.cells * b.devices) % 4294967296 ≡ sum + b.cells * b.devices =
            mod-eq_of_lt (omega (arith, fits, all)) in
          let rest : p - before ≡ b.devices + (p - (before + b.devices)) = omega (arith, le) in
          let split =
            ap (cells_before (b ∷ c ∷ cs)) rest
            ∙ before_behind b (c ∷ cs) (p - (before + b.devices)) in
          rw (is_before_lem i before p b one last, e, z)
            (offset_from_lem c cs (last_of_next i c) p (before + b.devices)
                (sum + b.cells * b.devices) (omega (arith, few))
                (LastOf-next i before b c (omega (arith, few)) last) le (omega (arith, l, le))
                (omega (arith, fits, all))
              ∙ ap some (omega (arith, split)))
      | inr e ↦
          rw (is_before_lem i before p b one last, e)
            (ap some (part_lem b (c ∷ cs) i p before sum one last h (ground (arith, e)) fits))
    ]

sum_total_lem :
    (bs : List Block) (sum : ℕ)
    → sum + cells_before bs (devices_of bs) < 4294967296
    → sum_total sum bs ≡ sum + cells_before bs (devices_of bs)
unfolding sum_total
sum_total_lem [] sum h = unfold devices_of in unfold cells_before in omega arith
sum_total_lem (b ∷ bs) sum h =
    let z : (sum + b.cells * b.devices) % 4294967296 ≡ sum + b.cells * b.devices =
      mod-eq_of_lt (omega (arith, h, all_behind b bs)) in
    rw z (
      sum_total_lem bs (sum + b.cells * b.devices) (omega (arith, h, all_behind b bs))
      ∙ omega (arith, all_behind b bs))

-- For at most 2^31 devices, a device among them, and less than 2^32 cells in all: `getLocalSize` is the
-- number of cells of the device's block; `getOffset` is the sum of the cells of the devices before
-- it, or fails where the cells of all devices are not `max_cells`.
pub distribution_lem :
    (parsed_input : List Block) (gpu_pos max_cells : ℕ)
    → devices_of parsed_input ≤ 2147483648
    → gpu_pos < devices_of parsed_input
    → cells_before parsed_input (devices_of parsed_input) < 4294967296
    → (get_local_size parsed_input gpu_pos ≡ some (cells_of parsed_input gpu_pos))
      × (get_offset parsed_input gpu_pos max_cells ≡ (
          if cells_before parsed_input (devices_of parsed_input) == max_cells
          then some (cells_before parsed_input gpu_pos)
          else none))
unfolding get_local_size get_offset
distribution_lem [] p max few l fits = absurd (unfold devices_of in omega (arith, l))
distribution_lem (b ∷ bs) p max few l fits =
    let none_before : p - 0 ≡ p = omega arith in
    let last : LastOf (last_of_first b) 0 b = omega arith in
    let all = devices_of (b ∷ bs) in
    (
      local_size_from_lem b bs (last_of_first b) p 0 (omega (arith, few)) last (omega arith)
            (omega (arith, l))
          ∙ ap (λ k. some (cells_of (b ∷ bs) k)) none_before,
      rw
          (
            sum_total_lem (b ∷ bs) 0 (omega (arith, fits)),
            offset_from_lem b bs (last_of_first b) p 0 0 (omega (arith, few)) last (omega arith)
                (omega (arith, l)) (omega (arith, fits)),
            none_before,
          )
          (ap (λ k. if k == max then some (0 + cells_before (b ∷ bs) p) else none) (omega arith)
            ∙ ap (λ k. if cells_before (b ∷ bs) all == max then some k else none) (omega arith)),
    )
