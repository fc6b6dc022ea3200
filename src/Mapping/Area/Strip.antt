-- ===== src/Mapping/Area/Strip.antt =====
-- A pair of strips on two sides: an even block lies in the first one, an odd block in the second.
use piconalpaka.Prelude.{
  ℕ, ◌+◌, ◌*◌, ◌/◌, ◌%◌, ◌<◌, ◌≤◌, ◌≡◌, ◌⊎◌, inl, inr, arith, pos, ◌+ℤ◌, ◌*ℤ◌, quot, wrap, wrap-pos,
  and-one, bit_and,
}
use native.Mathlib.Decide.{ℕ_discrete}
use piconalpaka.Mapping.Area.{odd}

odd-pos : (j : ℕ) → j < 2147483648 → bit_and (j % 4294967296) 1 ≡ j % 2
odd-pos j h = rw (and-one (j % 4294967296)) (omega arith)

offset-le : (j m : ℕ) → j % 2 * m ≤ m
offset-le j m = grind arith

pub strip :
    (b j m : ℕ)
    → j < 2147483648
    → b + j / 2 + m < 2147483648
    → wrap (pos b +ℤ quot (pos j) (pos 2) +ℤ odd (pos j) *ℤ pos m) ≡ pos (b + j / 2 + j % 2 * m)
strip b j m h k = rw (odd-pos j h) (wrap-pos (b + j / 2 + j % 2 * m) (omega (arith, offset-le j m)))

pub strip_at_zero :
    (j m : ℕ)
    → j < 2147483648
    → j / 2 + m < 2147483648
    → wrap (quot (pos j) (pos 2) +ℤ odd (pos j) *ℤ pos m) ≡ pos (j / 2 + j % 2 * m)
strip_at_zero j m h k =
    rw (odd-pos j h) (wrap-pos (j / 2 + j % 2 * m) (omega (arith, offset-le j m)))

-- `b + j / 2 + j % 2 * m` without the product.
pub strip_cases :
    (j m : ℕ)
    → ((j ≡ 2 * (j / 2)) × (j / 2 + j % 2 * m ≡ j / 2))
      ⊎ ((j ≡ 2 * (j / 2) + 1) × (j / 2 + j % 2 * m ≡ j / 2 + m))
strip_cases j m = elim (ℕ_discrete (j % 2) 0) [
  | yes e ↦ inl (omega arith, rw e (omega arith))
  | no n ↦ let e : j % 2 ≡ 1 = omega arith in inr (omega arith, rw e (omega arith))
]
