-- ===== src/Buffers/Tests.antt =====
-- The exchange to the right and the top of a grid with a guard
use piconalpaka.Prelude.{arith, ◌≡◌, some, refl}
use piconalpaka.Dimensions.{cell3}
use piconalpaka.Mask.{
  mirrored_exchange_type, contains_exchange_type, contains_from, same_digit, is_set,
  relative_directions3,
}
use piconalpaka.Buffers.Exchanges.{GridLayout, Region, send_exchange, receive_exchange, guard_area}
use piconalpaka.Buffers.Exchanges.Regions.{send_receive_lem, moved, layout}

mirror_of_7 : mirrored_exchange_type 7 ≡ some 5
unfolding mirrored_exchange_type contains_exchange_type contains_from same_digit is_set
mirror_of_7 = refl

abbrev grid : GridLayout
grid = layout (cell3 8 6 4) (cell3 2 1 1)

send_receive_example :
    (s : Region) × (r : Region) × (send_exchange grid (cell3 2 1 1) guard_area 7 ≡ some s)
    × (receive_exchange grid (cell3 2 1 1) guard_area 5 ≡ some r)
    × (s.size ≡ r.size)
    × (s.offset ≡ moved (relative_directions3 7) (cell3 8 6 4) r.offset)
send_receive_example =
    send_receive_lem guard_area 7 5 8 6 4 2 1 1 2 1 1 mirror_of_7 (omega arith) (omega arith)
      (omega arith) (omega arith) (omega arith) (omega arith)
