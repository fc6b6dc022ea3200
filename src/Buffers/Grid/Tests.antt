-- ===== src/Buffers/Grid/Tests.antt =====
-- A buffer that receives from the right, with the communication tag 4. Another buffer has registered
-- the tag 97, and this one needs 130.
use piconalpaka.Prelude.{
  ℕ, Bool, true, ◌<◌, ◌≡◌, false, none, some, List, [], ◌∷◌, not, ◌||◌, passes_below,
  passes_below-at, if◌then◌else◌, refl, arith, pos,
}
use piconalpaka.Dimensions.{create3, one_dimension_greater3}
use piconalpaka.Mask.{mask_of, empty_mask, is_set, left, right}
use piconalpaka.Mask.Mirror.{opposite}
use piconalpaka.Buffers.Exchanges.{GridLayout}
use piconalpaka.Buffers.Grid.{GridBuffer, add_exchange, has_tag, uniq_communication_tag}
use piconalpaka.Buffers.Grid.Add.{sent, received, add_exchange_lem}
use piconalpaka.Buffers.Grid.Again.{add_exchange_again}

abbrev layout : GridLayout
layout = record { data_space = create3 (pos 8); guard = create3 (pos 1) }

abbrev new_buffer : GridBuffer
new_buffer = record {
  has_one_exchange = false;
  last_used_communication_tag = 0;
  receive_mask = empty_mask;
  send_mask = empty_mask;
  send_exchanges = λ ex. none;
  receive_exchanges = λ ex. none;
  max_exchange = 0;
}

-- Only the direction to the left is set, and its tag is free.
free_tag : ℕ → Bool
free_tag ex =
    not (is_set (mask_of right) (opposite ex))
    || not (has_tag (uniq_communication_tag 4 ex) (97 ∷ []))

free_table : passes_below 27 free_tag ≡ true
unfolding passes_below free_tag is_set opposite has_tag uniq_communication_tag
free_table = refl

only_left :
    (ex : ℕ)
    → 0 < ex
    → ex < 27
    → is_set (mask_of right) (opposite ex) ≡ true
    → has_tag (uniq_communication_tag 4 ex) (97 ∷ []) ≡ false
unfolding free_tag
only_left ex low high on =
    let t = passes_below-at 27 free_tag free_table ex high in ground (arith, t, on)

add_exchange_example :
    (h : GridBuffer) × (tags : List ℕ) × (add_exchange layout
        (create3 (pos 1))
        4
        4
        (mask_of right)
        (new_buffer, 97 ∷ [])
      ≡ some (h, tags))
    × ((ex : ℕ)
        → 0 < ex
        → ex < 27
        → (h.send_exchanges ex ≡ (
            if is_set (mask_of right) (opposite ex)
            then some (sent layout (create3 (pos 1)) 4 4 ex)
            else none))
          × (h.receive_exchanges (opposite ex) ≡ (
              if is_set (mask_of right) (opposite ex)
              then some (received layout (create3 (pos 1)) 4 4 ex)
              else none)))
unfolding one_dimension_greater3
add_exchange_example =
    add_exchange_lem layout (create3 (pos 1)) 4 4 refl (mask_of right) new_buffer (97 ∷ []) refl
      (λ ex low high on. refl) (λ e ex low high on none_before. only_left ex low high on)

abbrev connected : GridBuffer
connected = record new_buffer { send_exchanges = λ ex. some (sent layout (create3 (pos 1)) 4 4 ex) }

again_example : add_exchange layout (create3 (pos 1)) 4 4 (mask_of right) (connected, []) ≡ none
unfolding is_set opposite
again_example =
    add_exchange_again layout (create3 (pos 1)) 4 4 (mask_of right) connected [] left
      (sent layout (create3 (pos 1)) 4 4 left) (omega arith) (omega arith) refl refl
