-- ===== src/Buffers/Extents.antt =====
-- The extents of a current size, in src/libPMacc/include/memory/buffers/Buffer.hpp.
use piconalpaka.Prelude.{
  ℕ, suc, ◌+◌, ◌-◌, ◌*◌, ◌/◌, ◌≤◌, ◌<◌, leb, arith, subst, Bool-cases, inl, inr,
}
use native.Mathlib.Nat.{div-lt_iff_lt-mul, mod-lt, div-add-mod', mul_comm, mul-le-mul_left}
use piconalpaka.Buffers.{
  Extents2, Extents3, current_data_space2, current_data_space3, cells2, cells3,
}

-- Division that rounds up: the least number of parts of `d` that hold `n`.
round_up : (n d : ℕ) → 0 < d → (n ≤ d * ((n + d - 1) / d)) × (d * ((n + d - 1) / d) < n + d)
round_up n d h =
    let q = div-add-mod' (n + d - 1) d in
    let c = mul_comm ((n + d - 1) / d) d in
    (omega (arith, q, c, mod-lt (n + d - 1) h, h), omega (arith, q, c, h))

fits_in : (n d e : ℕ) → 0 < d → n ≤ d * e → (n + d - 1) / d ≤ e
fits_in n d e h le =
    let c = mul_comm d e in
    let l : n + d - 1 < suc e * d = omega (arith, le, h, c) in
    omega (arith, (div-lt_iff_lt-mul h).1 l)

-- The extents `r` hold `n` elements, are within `e`, and hold less than `n` and one line more.
abbrev pub Holds2 : ℕ → Extents2 → Extents2 → Type 0
Holds2 n e r = (n ≤ cells2 r) × (r.x ≤ e.x) × (r.y ≤ e.y) × (cells2 r < n + e.x)

-- The same in three dimensions, with one plane more
abbrev pub Holds3 : ℕ → Extents3 → Extents3 → Type 0
Holds3 n e r = (n ≤ cells3 r) × (r.x ≤ e.x) × (r.y ≤ e.y) × (r.z ≤ e.z) × (cells3 r < n + e.x * e.y)

-- For positive extents and a size within them: the current extents in two dimensions hold the current
-- size, are within the extents of the buffer, and have less than one line to spare.
pub current_data_space2_lem :
    (e : Extents2) (n : ℕ) → 0 < e.x → 0 < e.y → n ≤ cells2 e → Holds2 n e (current_data_space2 e n)
unfolding current_data_space2
current_data_space2_lem e n hx hy le = elim (Bool-cases (leb n e.x)) [
  | inl a ↦ rw a (omega arith, ground (arith, a), hy, omega (arith, hx))
  | inr a ↦
      rw a ((round_up n e.x hx).0, omega arith, fits_in n e.x e.y hx le, (round_up n e.x hx).1)
]

-- For positive extents and a size within them: the current extents in three dimensions hold the
-- current size, are within the extents of the buffer, and have less than one plane to spare.
pub current_data_space3_lem :
    (e : Extents3) (n : ℕ)
    → 0 < e.x
    → 0 < e.y
    → 0 < e.z
    → n ≤ cells3 e
    → Holds3 n e (current_data_space3 e n)
unfolding current_data_space3
current_data_space3_lem e n hx hy hz le =
    let plane : e.x ≤ e.x * e.y =
      subst (λ k. k ≤ e.x * e.y) (omega arith) (mul-le-mul_left e.x hy) in
    elim (Bool-cases (leb n e.x)) [
      | inl a ↦ rw a (omega arith, ground (arith, a), hy, hz, omega (arith, hx, plane))
      | inr a ↦ rw a (elim (Bool-cases (leb n (e.x * e.y))) [
        | inl b ↦
            let r = round_up n e.x hx in
            rw b (
              omega (arith, r.0),
              omega arith,
              fits_in n e.x e.y hx (ground (arith, b)),
              hz,
              omega (arith, r.1, plane),
            )
        | inr b ↦
            let r = round_up n (e.x * e.y) (omega (arith, hx, plane)) in
            rw b (
              r.0,
              omega arith,
              omega arith,
              fits_in n (e.x * e.y) e.z (omega (arith, hx, plane)) le,
              r.1,
            )
      ])
    ]
