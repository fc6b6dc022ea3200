-- ===== src/Mapping/Exchange/Bands.antt =====
-- One dimension: the three bands into which the directions divide it.
use piconalpaka.Prelude.{
  ℕ, ◌+◌, ◌-◌, ◌*◌, ◌%◌, ◌<◌, ◌≤◌, ◌≡◌, arith, pos, ltb, ltb_ℤ, true, if◌then◌else◌, ℤ, ◌⊎◌, inl,
  inr, negsuc,
}
use piconalpaka.Mask.{relative}
use piconalpaka.Mapping.Exchange.{guard_extent, guard_shift, border_extent, border_shift}

-- The digit of the band that holds coordinate `x`, if the outer bands end at `lo` and begin at `hi`:
-- 2 below, 0 between, 1 above; and the place of `x` in the band, if the lower band begins at `start`.
abbrev pub band : ℕ → ℕ → ℕ → ℕ
band lo hi x = if ltb x lo then 2 else (if ltb x hi then 0 else 1)

abbrev pub place : ℕ → ℕ → ℕ → ℕ → ℕ
place start lo hi x = if ltb x lo then x - start else (if ltb x hi then x - lo else x - hi)

-- In one dimension, block `i` is one that the kernel starts and works on coordinate `x`.
abbrev pub Works : ℤ → (ℤ → ℤ) → ℕ → ℕ → Type 0
Works extent shift i x = (ltb_ℤ (pos i) extent ≡ true) × (shift (pos i) ≡ pos x)

module _ (g n : ℕ) (fits : 2 * g ≤ n) where
  pub guard_band :
      (e i x : ℕ)
      → x < n
      → Works
          (guard_extent (pos g) (relative e) (pos n))
          (guard_shift (pos g) (relative e) (pos n))
          i
          x
      → (e % 3 ≡ band g (n - g) x) × (i ≡ place 0 g (n - g) x)
  guard_band e i x h w = ground arith

  pub guard_place :
      (e x : ℕ)
      → x < n
      → e % 3 ≡ band g (n - g) x
      → Works
          (guard_extent (pos g) (relative e) (pos n))
          (guard_shift (pos g) (relative e) (pos n))
          (place 0 g (n - g) x)
          x
  guard_place e x h w = ground arith

relative_cases :
    (e : ℕ)
    → ((e % 3 ≡ 0) × (relative e ≡ pos 0))
      ⊎ ((e % 3 ≡ 1) × (relative e ≡ pos 1))
      ⊎ ((e % 3 ≡ 2) × (relative e ≡ negsuc 0))
relative_cases e = ground arith

module _ (g b n : ℕ) (fits : 2 * g + 2 * b ≤ n) (small : n < 2147483648) where
  -- What a block on each band works on.
  inner :
      (i x : ℕ)
      → Works
          (border_extent (pos g) (pos b) (pos 0) (pos n))
          (border_shift (pos g) (pos b) (pos 0) (pos n))
          i
          x
      → (i < n - 2 * g - 2 * b) × (x ≡ i + (g + b))
  inner i x w = ground arith

  upper :
      (i x : ℕ)
      → Works
          (border_extent (pos g) (pos b) (pos 1) (pos n))
          (border_shift (pos g) (pos b) (pos 1) (pos n))
          i
          x
      → (i < b) × (x ≡ i + (n - g - b))
  upper i x w = ground arith

  lower :
      (i x : ℕ)
      → Works
          (border_extent (pos g) (pos b) (negsuc 0) (pos n))
          (border_shift (pos g) (pos b) (negsuc 0) (pos n))
          i
          x
      → (i < b) × (x ≡ i + g)
  lower i x w = ground arith

  pub border_band :
      (e i x : ℕ)
      → g ≤ x
      → x < n - g
      → Works
          (border_extent (pos g) (pos b) (relative e) (pos n))
          (border_shift (pos g) (pos b) (relative e) (pos n))
          i
          x
      → (e % 3 ≡ band (g + b) (n - g - b) x) × (i ≡ place g (g + b) (n - g - b) x)
  border_band e i x h k w = elim (relative_cases e) [
    | inl (d, r) ↦ let l = inner i x (rw r at w) in ground arith
    | inr (inl (d, r)) ↦ let l = upper i x (rw r at w) in ground arith
    | inr (inr (d, r)) ↦ let l = lower i x (rw r at w) in ground arith
  ]

  pub border_place :
      (e x : ℕ)
      → g ≤ x
      → x < n - g
      → e % 3 ≡ band (g + b) (n - g - b) x
      → Works
          (border_extent (pos g) (pos b) (relative e) (pos n))
          (border_shift (pos g) (pos b) (relative e) (pos n))
          (place g (g + b) (n - g - b) x)
          x
  border_place e x h k w = ground arith
