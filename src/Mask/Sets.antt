-- ===== src/Mask/Sets.antt =====
-- Masks as sets of directions.
use piconalpaka.Prelude.{
  ℕ, zero, suc, ◌+◌, ◌<◌, ◌≡◌, refl, ◌&&◌, ◌||◌, arith, bit, bit-le, bit-bit_and, bit-bit_or,
  bit-pow, and-pow-test, ◌==◌, ◌/◌,
}
use piconalpaka.Mask.{
  Mask, is_set, join, intersect, mask_of, contains_exchange_type, contains_from, same_digit,
}

pub is_set-bit : (m : Mask) (ex : ℕ) → is_set m ex ≡ (bit ex m.bit_mask == 1)
unfolding is_set
is_set-bit m ex = and-pow-test m.bit_mask ex

-- A direction is in a joined mask exactly if it is in one of the two, in an intersection exactly if
-- it is in both, and in the mask of one direction exactly if it is that one.
pub is_set_laws :
    (a b : Mask) (ex one : ℕ)
    → (is_set (join a b) ex ≡ (is_set a ex || is_set b ex))
      × (is_set (intersect a b) ex ≡ (is_set a ex && is_set b ex))
      × (is_set (mask_of one) ex ≡ (ex == one))
is_set_laws a b ex one = (
  rw (is_set-bit (join a b) ex, is_set-bit a ex, is_set-bit b ex)
      (ground
        (arith, bit-bit_or ex a.bit_mask b.bit_mask, bit-le ex a.bit_mask, bit-le ex b.bit_mask)),
  rw (is_set-bit (intersect a b) ex, is_set-bit a ex, is_set-bit b ex)
      (ground
        (arith, bit-bit_and ex a.bit_mask b.bit_mask, bit-le ex a.bit_mask, bit-le ex b.bit_mask)),
  rw (is_set-bit (mask_of one) ex) (ground (arith, bit-pow ex one)),
)

join_from :
    (count i : ℕ) (a b : Mask) (ex : ℕ)
    → contains_from count i (join a b) ex
      ≡ (contains_from count i a ex || contains_from count i b ex)
unfolding contains_from
join_from zero i a b ex = refl
join_from (suc count) i a b ex =
    ground (arith, join_from count (i + 1) a b ex, (is_set_laws a b i 0).0)

-- A joined mask contains an exchange type exactly if one of the two masks does.
pub contains-join :
    (a b : Mask) (ex : ℕ)
    → contains_exchange_type (join a b) ex
      ≡ (contains_exchange_type a ex || contains_exchange_type b ex)
unfolding contains_exchange_type
contains-join = join_from 26 1

-- The loop of `containsExchangeType` ends: more fuel than the exchange type gives the same answer.
pub same_digit_fuel :
    (fuel more i ex : ℕ) → ex < fuel → ex < more → same_digit fuel i ex ≡ same_digit more i ex
unfolding same_digit
same_digit_fuel zero more i ex h k = absurd (omega arith)
same_digit_fuel (suc fuel) zero i ex h k = absurd (omega arith)
same_digit_fuel (suc fuel) (suc more) i ex h k =
    ground (arith, same_digit_fuel fuel more (i / 3) (ex / 3))
