-- ===== src/Dimensions/Tests.antt =====
-- Linear positions in a concrete grid.
use piconalpaka.Prelude.{◌≡◌, arith}
use piconalpaka.Dimensions.{cell3}
use piconalpaka.Dimensions.Linear.{map_pos3, map_cell3}
use piconalpaka.Dimensions.Linear.RoundTrip.{map_cell3-map_pos3}

map_cell3-map_pos3_example : map_cell3 (cell3 4 3 2) (map_pos3 (cell3 4 3 2) 23) ≡ 23
map_cell3-map_pos3_example =
    map_cell3-map_pos3 4 3 2 23 (omega arith) (omega arith) (omega arith) (omega arith)
