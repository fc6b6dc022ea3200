-- ===== src/Mask/Directions.antt =====
-- What a direction contains, against its relative offsets.
use piconalpaka.Prelude.{
  ℕ, ◌<◌, ◌≡◌, refl, Bool, true, ◌&&◌, arith, eqb_ℤ, pos, negsuc, passes_below, passes_below-at,
  not, false,
}
use piconalpaka.Mask.{
  right, left, bottom, top, back, front, mask_of, is_set, same_digit, contains_from,
  contains_exchange_type, relative_directions3,
}

abbrev same : Bool → Bool → Bool
same true b = b
same false b = not b

contains_table :
    passes_below 27 (λ ex.
      let d = relative_directions3 ex in
      let has = contains_exchange_type (mask_of ex) in
      same (has right) (eqb_ℤ d.x (pos 1))
      && same (has left) (eqb_ℤ d.x (negsuc 0))
      && same (has bottom) (eqb_ℤ d.y (pos 1))
      && same (has top) (eqb_ℤ d.y (negsuc 0))
      && same (has back) (eqb_ℤ d.z (pos 1))
      && same (has front) (eqb_ℤ d.z (negsuc 0)))
    ≡ true
unfolding passes_below relative_directions3 contains_exchange_type contains_from same_digit is_set
contains_table = refl

-- The mask of one direction below 27 contains `RIGHT`, `BOTTOM` and `BACK` exactly if its relative
-- offset in that dimension is 1, and `LEFT`, `TOP` and `FRONT` exactly if it is -1.
pub contains-relative :
    (ex : ℕ)
    → ex < 27
    → let d = relative_directions3 ex in
      let has = contains_exchange_type (mask_of ex) in
      (has right ≡ eqb_ℤ d.x (pos 1))
      × (has left ≡ eqb_ℤ d.x (negsuc 0))
      × (has bottom ≡ eqb_ℤ d.y (pos 1))
      × (has top ≡ eqb_ℤ d.y (negsuc 0))
      × (has back ≡ eqb_ℤ d.z (pos 1))
      × (has front ≡ eqb_ℤ d.z (negsuc 0))
contains-relative ex h = ground (arith, passes_below-at 27 _ contains_table ex h)
