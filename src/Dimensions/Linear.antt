-- ===== src/Dimensions/Linear.antt =====
-- src/libPMacc/include/dimensions/DataSpaceOperations.hpp, the overloads of `map`: a position in a
-- grid as one number, first dimension fastest. A linear position is a `uint32_t`, and a mixed
-- expression is computed in `uint32_t`, as C++ converts it.
pub mod RoundTrip
use native.Mathlib.Nat.{
  mod-eq_of_lt, mod-lt, mod-le, div-le_self, div-add-mod', mul-add-mod_self_right,
}
use native.Mathlib.Nat.{
  mul-add-div_right, div-eq_of_lt, mul_comm, div-lt_iff_lt-mul, mod-mod_of_dvd, dvd-mul_right,
}
use piconalpaka.Prelude.{
  ℕ, ◌+◌, ◌*◌, ◌/◌, ◌%◌, ◌<◌, ◌≡◌, arith, pos, ◌+ℤ◌, ◌*ℤ◌, to_uint32, to_int32, to_int32_pos,
}
use piconalpaka.Dimensions.{DataSpace2, DataSpace3, cell2, cell3, cell2_ext, cell3_ext}

unfoldable pub map_pos2 : DataSpace2 → ℕ → DataSpace2
map_pos2 size p = record {
  x = to_int32 (p % to_uint32 size.x);
  y = to_int32 (p / to_uint32 size.x);
}

unfoldable pub map_cell2 : DataSpace2 → DataSpace2 → ℕ
map_cell2 size c = to_uint32 (c.y *ℤ size.x +ℤ c.x)

unfoldable pub map_pos3 : DataSpace3 → ℕ → DataSpace3
map_pos3 size p = record {
  x = to_int32 (p % to_uint32 size.x);
  y = to_int32 (p % to_uint32 (size.x *ℤ size.y) / to_uint32 size.x);
  z = to_int32 (p / to_uint32 (size.x *ℤ size.y));
}

unfoldable pub map_cell3 : DataSpace3 → DataSpace3 → ℕ
map_cell3 size c = to_uint32 (c.z *ℤ size.x *ℤ size.y +ℤ c.y *ℤ size.x +ℤ c.x)

-- Division with remainder is unique.
pub div_unique : (q d r : ℕ) → r < d → (q * d + r) / d ≡ q
div_unique q d r h =
    rw (mul-add-div_right {m = d} (omega arith) q r) (omega (arith, div-eq_of_lt h))

pub mod_unique : (q d r : ℕ) → r < d → (q * d + r) % d ≡ r
mod_unique q d r h = rw (mul-add-mod_self_right q d r) (mod-eq_of_lt h)

pub fits : (n : ℕ) → n < 2147483648 → to_uint32 (pos n) ≡ n
fits n h = mod-eq_of_lt (omega arith)

pub map_pos2-cell :
    (sx sy p : ℕ)
    → sx < 2147483648
    → p < 2147483648
    → map_pos2 (cell2 sx sy) p ≡ cell2 (p % sx) (p / sx)
unfolding map_pos2
map_pos2-cell sx sy p s h = rw (fits sx s) (
    cell2_ext (to_int32_pos _ (omega (arith, mod-le p sx)))
      (to_int32_pos _ (omega (arith, div-le_self p sx))))

-- Below 2^31 the conversions change nothing.
module _ (sx sy sz : ℕ) (px : 0 < sx) (py : 0 < sy) (small : sx * sy < 2147483648) where
  sx-small : sx < 2147483648
  sx-small = grind arith

  pub map_pos3-cell :
      (p : ℕ)
      → p < 2147483648
      → map_pos3 (cell3 sx sy sz) p ≡ cell3 (p % sx) (p % (sx * sy) / sx) (p / (sx * sy))
  unfolding map_pos3
  map_pos3-cell p h =
      rw (fits sx sx-small, fits (sx * sy) small)
        (cell3_ext (to_int32_pos _ (omega (arith, mod-le p sx)))
          (to_int32_pos _ (omega (arith, mod-le p (sx * sy), div-le_self (p % (sx * sy)) sx)))
          (to_int32_pos _ (omega (arith, div-le_self p (sx * sy)))))

  pub mod-div-lt : (p : ℕ) → p % (sx * sy) / sx < sy
  mod-div-lt p = (div-lt_iff_lt-mul px).1 (rw (mul_comm sy sx) (mod-lt p (grind arith)))

  pub mod-mod-mul : (p : ℕ) → p % (sx * sy) % sx ≡ p % sx
  mod-mod-mul p = mod-mod_of_dvd sx p (dvd-mul_right sx sy)

  -- The digits of a position put together again.
  pub digits-sum : (p : ℕ) → p / (sx * sy) * sx * sy + p % (sx * sy) / sx * sx + p % sx ≡ p
  digits-sum p =
      omega (arith, div-add-mod' p (sx * sy), div-add-mod' (p % (sx * sy)) sx, mod-mod-mul p)
