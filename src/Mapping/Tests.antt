-- ===== src/Mapping/Tests.antt =====
-- The mappings at concrete grids.
use piconalpaka.Prelude.{◌↔◌, ℕ, ◌≡◌, refl, arith, pos}
use piconalpaka.Dimensions.{cell3}
use piconalpaka.Mask.{relative_directions3}
use piconalpaka.Mapping.Area.{guard_dim3, guard_index3}
use piconalpaka.Mapping.Area.Space.{guard3_into, guard3_onto, IntoShell, OntoShell}
use piconalpaka.Mapping.Area.Core.{core3_iff, CoreBlock, InCore}
use piconalpaka.Mapping.Exchange.{
  exchange_guard_dim3, exchange_guard_index3, exchange_border_dim3, exchange_border_index3,
}
use piconalpaka.Mapping.Exchange.Partition.{
  Block3, guard_exchange3, border_exchange3, exchange_guard3_block, exchange_guard3_cell,
  exchange_border3_block,
}
use piconalpaka.Mapping.Exchange.Bands.{place}

-- A grid of 5 x 5 x 5 supercells with a guard of 1 and a border of 1.
abbrev GuardBlock : (ex x y z i j k : ℕ) → Type 0
GuardBlock ex x y z i j k =
    Block3 (exchange_guard_dim3 (pos 1) (pos 0) (cell3 5 5 5) ex)
      (λ c. exchange_guard_index3 (pos 1) (pos 0) (cell3 5 5 5) c ex) x y z i j k

exchange_guard3_block_example :
    (11 ≡ guard_exchange3 1 5 5 5 0 2 4)
    × (0 ≡ place 0 1 4 0)
    × (1 ≡ place 0 1 4 2)
    × (0 ≡ place 0 1 4 4)
unfolding exchange_guard_dim3 exchange_guard_index3 relative_directions3
exchange_guard3_block_example =
    exchange_guard3_block 1 5 5 5 11 0 2 4 (omega arith) (omega arith) (omega arith) (omega arith)
      (omega arith) (omega arith) (omega arith) 0 1 0 ((refl, refl, refl), refl)

exchange_guard3_cell_example : GuardBlock 11 0 2 4 0 1 0
exchange_guard3_cell_example =
    exchange_guard3_cell 1 5 5 5 11 0 2 4 (omega arith) (omega arith) (omega arith) (omega arith)
      (omega arith) (omega arith) (omega arith) refl

exchange_border3_block_example :
    (11 ≡ border_exchange3 1 1 5 5 5 1 2 3)
    × (0 ≡ place 1 2 3 1)
    × (0 ≡ place 1 2 3 2)
    × (0 ≡ place 1 2 3 3)
unfolding exchange_border_dim3 exchange_border_index3 relative_directions3
exchange_border3_block_example =
    exchange_border3_block 1 1 5 5 5 11 1 2 3 (omega arith) (omega arith) (omega arith)
      (omega arith) (omega arith) (omega arith) (omega arith) (omega arith) (omega arith)
      (omega arith) (omega arith) (omega arith) (omega arith) 0 0 0 ((refl, refl, refl), refl)

guard3_into_example :
    IntoShell
      (guard_index3 (pos 1) (pos 0) (cell3 5 5 5))
      (guard_dim3 (pos 1) (pos 0) (cell3 5 5 5))
      0
      1
      5
      5
      5
      26
      1
      0
unfolding guard_dim3
guard3_into_example =
    guard3_into 1 5 5 5 (omega arith) (omega arith) (omega arith) (omega arith) (omega arith)
      (omega arith) 26 1 0 (refl, refl, refl)

guard3_onto_example :
    OntoShell
      (guard_index3 (pos 1) (pos 0) (cell3 5 5 5))
      (guard_dim3 (pos 1) (pos 0) (cell3 5 5 5))
      0
      1
      5
      5
      5
      (4, 3, 2)
guard3_onto_example =
    guard3_onto 1 5 5 5 (omega arith) (omega arith) (omega arith) (omega arith) (omega arith)
      (omega arith) (4, 3, 2) (ground arith)

core3_iff_example : CoreBlock 1 1 6 5 5 3 2 2 ↔ InCore 1 1 6 5 5 3 2 2
core3_iff_example = core3_iff 1 1 6 5 5 3 2 2 (omega arith) (omega arith) (omega arith)
