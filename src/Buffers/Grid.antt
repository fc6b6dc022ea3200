-- ===== src/Buffers/Grid.antt =====
-- `addExchange` of src/libPMacc/include/memory/buffers/GridBuffer.hpp, in three dimensions, with
-- `UniquTag` of the same file.
pub mod Tables
pub mod Add
pub mod Again
mod Tests
use piconalpaka.Prelude.{
  ℕ, zero, suc, ◌+◌, ◌*◌, ◌%◌, ◌<◌, Bool, true, false, not, ◌&&◌, Option, none, some, List, [], ◌∷◌,
  ◌==◌, leb, if◌then◌else◌, bit_or, ◌>>=◌,
}
use piconalpaka.Dimensions.{DataSpace3}
use piconalpaka.Mask.{Mask, is_set, join, mirrored_mask, mirrored_exchange_type}
use piconalpaka.Buffers.Exchanges.{GridLayout, Region, send_exchange, receive_exchange}

-- An object of `ExchangeIntern` in the memory of the buffer, with its tag
pub record ExchangeIntern : Type 0 where
  pub region : Region
  pub communication_tag : ℕ

pub record GridBuffer : Type 0 where
  pub has_one_exchange : Bool
  pub last_used_communication_tag : ℕ
  pub receive_mask : Mask
  pub send_mask : Mask
  pub send_exchanges : ℕ → Option ExchangeIntern
  pub receive_exchanges : ℕ → Option ExchangeIntern
  pub max_exchange : ℕ

-- Whether `std::set<uint32_t> tags` has a tag
unfoldable pub has_tag : ℕ → List ℕ → Bool
has_tag tag [] = false
has_tag tag (t ∷ ts) = if t == tag then true else has_tag tag ts

-- `isTagUniqu`, with the tags after the call
unfoldable pub is_tag_uniqu : ℕ → List ℕ → Bool × List ℕ
is_tag_uniqu tag tags = if has_tag tag tags then (false, tags) else (true, tag ∷ tags)

-- `(communicationTag << 5) | ex`
unfoldable pub uniq_communication_tag : ℕ → ℕ → ℕ
uniq_communication_tag communication_tag ex = bit_or (communication_tag * 32 % 4294967296) ex

abbrev is_some : {A : Type 0} → Option A → Bool
is_some none = false
is_some (some a) = true

abbrev max : ℕ → ℕ → ℕ
max a b = if leb a b then b else a

abbrev pub set_at : {A : Type 0} → ℕ → A → (ℕ → Option A) → ℕ → Option A
set_at i a f j = if j == i then some a else f j

module _ (grid_layout : GridLayout) (guarding_cells : DataSpace3) (data_place : ℕ)
    (communication_tag : ℕ) where
  -- The two exchanges of a direction; `none` is the error or the failed assertion.
  unfoldable pub add_direction : ℕ → GridBuffer → Option GridBuffer
  add_direction ex g = do
    let tag = uniq_communication_tag communication_tag ex
    g1 ← if is_some (g.send_exchanges ex) then none else some (record g { has_one_exchange = true })
    sent ← send_exchange grid_layout guarding_cells data_place ex
    recvex ← mirrored_exchange_type ex
    received ← receive_exchange grid_layout guarding_cells data_place recvex
    some (record g1 {
      max_exchange = max (max g1.max_exchange (ex + 1)) (recvex + 1);
      send_exchanges =
          set_at ex (record { region = sent; communication_tag = tag }) g1.send_exchanges;
      receive_exchanges =
          set_at recvex (record { region = received; communication_tag = tag })
            g1.receive_exchanges;
    })

  -- The body of the loop for a direction that is set, with the tags of all buffers
  unfoldable pub register_direction : ℕ → GridBuffer × List ℕ → Option (GridBuffer × List ℕ)
  register_direction ex (g, tags) =
      let (uniq, tags') = is_tag_uniqu (uniq_communication_tag communication_tag ex) tags in
      if g.has_one_exchange
      then (add_direction ex g >>= λ h. some (h, tags))
      else if uniq
      then (add_direction ex g >>= λ h. some (h, tags'))
      else none

  -- The loop over the directions, from `ex` on with the number of rounds left
  unfoldable pub add_from : ℕ → ℕ → Mask → GridBuffer × List ℕ → Option (GridBuffer × List ℕ)
  add_from zero ex send s = some s
  add_from (suc count) ex send s =
      if is_set send ex
      then (register_direction ex s >>= λ t. add_from count (suc ex) send t)
      else add_from count (suc ex) send s

  -- `addExchange`; `none` is a `std::runtime_error` or the failed assertion.
  unfoldable pub add_exchange : Mask → GridBuffer × List ℕ → Option (GridBuffer × List ℕ)
  add_exchange receive (g, tags) = do
    g1 ←
        if g.has_one_exchange && not (communication_tag == g.last_used_communication_tag)
        then none
        else some (record g {
          last_used_communication_tag = communication_tag;
          receive_mask = join g.receive_mask receive;
        })
    send_mask ← mirrored_mask g1.receive_mask
    send ← mirrored_mask receive
    add_from 26 1 send (record g1 { send_mask = send_mask }, tags)
