-- ===== src/Distribution/Tests.antt =====
-- The distribution 8,4{3} of 20 cells
use piconalpaka.Prelude.{◌≡◌, ◌==◌, if◌then◌else◌, some, none, List, [], ◌∷◌, arith}
use piconalpaka.Distribution.{Block, get_local_size, get_offset}
use piconalpaka.Distribution.Sizes.{cells_of, cells_before, devices_of, distribution_lem}

abbrev blocks : List Block
blocks = record { cells = 8; devices = 1 } ∷ record { cells = 4; devices = 3 } ∷ []

distribution_example :
    (get_local_size blocks 2 ≡ some (cells_of blocks 2))
    × (get_offset blocks 2 20 ≡ (
        if cells_before blocks (devices_of blocks) == 20
        then some (cells_before blocks 2)
        else none))
unfolding devices_of cells_before
distribution_example = distribution_lem blocks 2 20 (omega arith) (omega arith) (omega arith)
