-- ===== src/Window/Tiles.antt =====
-- The windows of the devices along y, in src/picongpu/include/simulationControl/MovingWindow.hpp.
use piconalpaka.Prelude.{
  ℕ, suc, ◌+◌, ◌-◌, ◌*◌, ◌≤◌, ◌<◌, true, false, not, ◌==◌, leb, if◌then◌else◌, pos, ◌+ℤ◌, ◌≡◌,
  arith, refl, sub_ℕ, sub_ℕ_pos, Bool-cases, inl, inr, ap, ◌∙◌, subst, ◌⊎◌,
}
use native.Mathlib.Nat.{mul-le-mul_right}
use piconalpaka.Dimensions.{DataSpace3}
use piconalpaka.Mask.{Mask, is_set, top, bottom}
use piconalpaka.Window.{
  SubGrid, init_sub_grid, update_local_domain_offset, set_local_domain_offset, moved_window,
}

-- The window of the device at position `p` along y, which has neighbours at its ends unless it is
-- the first or the last one; the neighbours in the other directions are in `comm_mask`.
abbrev pub Ends : ℕ → ℕ → Mask → Type 0
Ends n p comm_mask =
    (is_set comm_mask top ≡ not (p == 0)) × (is_set comm_mask bottom ≡ not (p + 1 == n))

-- The domain of the device at `p` in the moved window: the cells from `cut p` to `cut (p + 1)`,
-- where the window has `m` times `l` cells and begins `o` cells behind the first domain
abbrev pub cut : ℕ → ℕ → ℕ → ℕ → ℕ
cut m l o p = if leb (p * l - o) (m * l) then p * l - o else m * l

-- The sub grid of the device at `p`, for `m + 1` devices along y with `l` cells each
abbrev pub sub_grid_at : ℕ → ℕ → ℕ → DataSpace3 → DataSpace3 → DataSpace3 → SubGrid
sub_grid_at m l p local_size global_size offset = update_local_domain_offset (pos p) (
    init_sub_grid (record local_size { y = pos l }) (record global_size { y = pos (suc m * l) })
      offset)

module _ (m l o p : ℕ) (le : o ≤ l) (many : 0 < m) (lt : p < suc m) where
  next_end : suc p * l ≡ p * l + l
  next_end = omega arith

  last_end : suc m * l ≡ m * l + l
  last_end = omega arith

  before : p < m → p * l + l ≤ m * l
  before h = subst (λ k. k ≤ m * l) next_end (mul-le-mul_right l h)

  zero_of : (p == 0) ≡ true → p ≡ 0
  zero_of z = ground (arith, z)

  one_before : (p == 0) ≡ false → l ≤ p * l
  one_before z =
      let h : 1 ≤ p = ground (arith, z) in
      subst (λ k. k ≤ p * l) (omega arith) (mul-le-mul_right l h)

  second :
      (((p + 1 == suc m) ≡ true) × (p * l ≡ m * l))
        ⊎ (((p + 1 == suc m) ≡ false) × (p * l + l ≤ m * l))
      → l ≤ p * l
      → (sub_ℕ (p * l) o ≡ pos (cut m l o p))
        × (sub_ℕ (p * l) o +ℤ (if not (not (p + 1 == suc m)) then pos o else pos l)
            ≡ pos (cut m l o (suc p)))
        × (sub_ℕ (suc m * l) l ≡ pos (m * l))
        × (pos o ≡ pos o)
  second (inl (d, q)) h = (
    ground (arith, q, h, le),
    rw (d, sub_ℕ_pos (p * l) o (omega (arith, h, le))) (ground (arith, q, h, le, next_end)),
    ground (arith, last_end),
    refl,
  )
  second (inr (d, q)) h = (
    ground (arith, q, h, le),
    rw (d, sub_ℕ_pos (p * l) o (omega (arith, h, le))) (ground (arith, q, h, le, next_end)),
    ground (arith, last_end),
    refl,
  )

  -- Two or more devices along y with the same extent, and an offset of the first one up to that extent:
  -- the window of a device is the part of its domain that lies in the global window, which
  -- the windows divide among the devices; the global window has one device less.
  pub moved_window_lem :
      (local_size global_size offset : DataSpace3) (comm_mask : Mask)
      → Ends (suc m) p comm_mask
      → let w = moved_window (sub_grid_at m l p local_size global_size offset) comm_mask (pos o) in
        (w.local_dimensions.offset.y ≡ pos (cut m l o p))
        × (w.local_dimensions.offset.y +ℤ w.local_dimensions.size.y ≡ pos (cut m l o (suc p)))
        × (w.global_dimensions.size.y ≡ pos (m * l))
        × (w.global_dimensions.offset.y ≡ pos o)
  unfolding moved_window update_local_domain_offset set_local_domain_offset init_sub_grid
  moved_window_lem local_size global_size offset comm_mask e = elim (Bool-cases (p == 0)) [
    | inl z ↦ rw e.0 (
        rw z (
          let none_before : p * l ≡ 0 = ap (λ k. k * l) (zero_of z) ∙ omega arith in
          let first : l ≤ m * l = subst (λ k. k ≤ m * l) (omega arith) (mul-le-mul_right l many) in
          (
            ground (arith, none_before),
            ground (arith, none_before, next_end, first, le),
            ground (arith, last_end),
            refl,
          )))
    | inr z ↦ rw e.0 (
        rw z (
          rw e.1 (
            second
              (elim (Bool-cases (p + 1 == suc m)) [
                | inl d ↦ inl (d, (let q : p ≡ m = ground (arith, d) in ap (λ k. k * l) q))
                | inr d ↦ inr (d, before (ground (arith, d, lt)))
              ])
              (one_before z))))
  ]
