-- ===== src/Mapping/Area/Shell.antt =====
-- The cells of an X x Y x Z grid that are less than `b` from its surface, and the blocks that work
-- on them: the two layers along z first, then what is left of those along x, then of those along y.
use native.Mathlib.Nat.{mod-lt, div-lt_iff_lt-mul, div-add-mod'}
use piconalpaka.Prelude.{
  ℕ, ◌+◌, ◌-◌, ◌*◌, ◌/◌, ◌%◌, ◌<◌, ◌≤◌, ◌≡◌, ◌⊎◌, arith, ltb, leb, if◌then◌else◌, Bool-cases, inl,
  inr, ltb→lt, lt→ltb, ltb-false, ◌∙◌,
}
use piconalpaka.Dimensions.Linear.{div_unique, mod_unique}
use piconalpaka.Mapping.Area.Strip.{strip_cases}

abbrev pub Triple : Type 0
Triple = ℕ × ℕ × ℕ

module _ (b X Y Z : ℕ) where
  abbrev pub shell : ℕ → ℕ → Triple
  shell i j =
      if ltb i (X * Y)
      then (i % X, i / X, j / 2 + j % 2 * (Z - b))
      else (let t = i - X * Y in
          if ltb t ((Z - 2 * b) * Y)
          then (j / 2 + j % 2 * (X - b), t / (Z - 2 * b), t % (Z - 2 * b) + b)
          else (let u = t - (Z - 2 * b) * Y in
              (u % (X - 2 * b) + b, j / 2 + j % 2 * (Y - b), u / (X - 2 * b) + b)))

  abbrev pub shell_block : Triple → ℕ × ℕ
  shell_block (x, y, z) =
      if ltb z b
      then (y * X + x, 2 * z)
      else (if leb (Z - b) z
          then (y * X + x, 2 * (z - (Z - b)) + 1)
          else (if ltb x b
              then (X * Y + (y * (Z - 2 * b) + (z - b)), 2 * x)
              else (if leb (X - b) x
                  then (X * Y + (y * (Z - 2 * b) + (z - b)), 2 * (x - (X - b)) + 1)
                  else (let k = X * Y + (Z - 2 * b) * Y + ((z - b) * (X - 2 * b) + (x - b)) in
                      if ltb y b then (k, 2 * y) else (k, 2 * (y - (Y - b)) + 1)))))

  abbrev pub InShell : Triple → Type 0
  InShell (x, y, z) =
      (x < X)
      × (y < Y)
      × (z < Z)
      × ((x < b) ⊎ (X ≤ x + b) ⊎ (y < b) ⊎ (Y ≤ y + b) ⊎ (z < b) ⊎ (Z ≤ z + b))

  -- The number of blocks in the first dimension.
  abbrev pub shell_size : ℕ
  shell_size = X * Y + (Z - 2 * b) * Y + (X - 2 * b) * (Z - 2 * b)

-- A number below a product taken apart, and put together.
pub digits : (w h t : ℕ) → t < w * h → (t % w < w) × (t / w < h) × (t / w * w + t % w ≡ t)
digits w h t l =
    let positive : 0 < w = grind arith in
    (mod-lt t positive, (div-lt_iff_lt-mul positive).1 (omega arith), div-add-mod' t w)

pub undigits :
    (w h q r : ℕ)
    → r < w
    → q < h
    → (q * w + r < w * h) × ((q * w + r) / w ≡ q) × ((q * w + r) % w ≡ r)
undigits w h q r hr hq = (grind arith, div_unique q w r hr, mod_unique q w r hr)

module _ (b X Y Z i j : ℕ) (wide : 2 * b ≤ X) (high : 2 * b ≤ Y) (deep : 2 * b ≤ Z)
    (hj : j < 2 * b) where
  shell_z :
      i < X * Y
      → InShell b X Y Z (i % X, i / X, j / 2 + j % 2 * (Z - b))
        × (shell_block b X Y Z (i % X, i / X, j / 2 + j % 2 * (Z - b)) ≡ (i, j))
  shell_z h =
      let d = digits X Y i h in
      (ground (arith, strip_cases j (Z - b)), ground (arith, strip_cases j (Z - b)))

  shell_x :
      (t : ℕ)
      → t < (Z - 2 * b) * Y
      → InShell b X Y Z (j / 2 + j % 2 * (X - b), t / (Z - 2 * b), t % (Z - 2 * b) + b)
        × (shell_block b X Y Z (j / 2 + j % 2 * (X - b), t / (Z - 2 * b), t % (Z - 2 * b) + b)
            ≡ (X * Y + t, j))
  shell_x t h =
      let d = digits (Z - 2 * b) Y t h in
      (ground (arith, strip_cases j (X - b)), ground (arith, strip_cases j (X - b)))

  shell_y :
      (u : ℕ)
      → u < (X - 2 * b) * (Z - 2 * b)
      → InShell b X Y Z (u % (X - 2 * b) + b, j / 2 + j % 2 * (Y - b), u / (X - 2 * b) + b)
        × (shell_block b X Y Z (u % (X - 2 * b) + b, j / 2 + j % 2 * (Y - b), u / (X - 2 * b) + b)
            ≡ (X * Y + (Z - 2 * b) * Y + u, j))
  shell_y u h =
      let d = digits (X - 2 * b) (Z - 2 * b) u h in
      (ground (arith, strip_cases j (Y - b)), ground (arith, strip_cases j (Y - b)))

  pub shell-InShell :
      i < shell_size b X Y Z
      → InShell b X Y Z (shell b X Y Z i j) × (shell_block b X Y Z (shell b X Y Z i j) ≡ (i, j))
  shell-InShell h = elim (Bool-cases (ltb i (X * Y))) [
    | inl e ↦ rw e (shell_z (ltb→lt _ _ e))
    | inr e ↦ elim (Bool-cases (ltb (i - X * Y) ((Z - 2 * b) * Y))) [
      | inl e' ↦
          rw (e, e')
            (let r = shell_x (i - X * Y) (ltb→lt _ _ e') in (r.0, r.1 ∙ again (ground arith)))
      | inr e' ↦
          rw (e, e')
            (let r = shell_y (i - X * Y - (Z - 2 * b) * Y) (ground arith) in
              (r.0, r.1 ∙ again (ground arith)))
    ]
  ]
    where
      again : {k : ℕ} → k ≡ i → ◌≡◌ {A = ℕ × ℕ} (k, j) (i, j)
      again e = λ d. (e d, j)

-- Back from a cell to its block: the block of each layer is below the number of blocks, and works on
-- the cell.
abbrev pub Reaches : (b X Y Z : ℕ) → ℕ × ℕ → Triple → Type 0
Reaches b X Y Z p c = (p.0 < shell_size b X Y Z) × (p.1 < 2 * b) × (shell b X Y Z p.0 p.1 ≡ c)

triple : {x x' y y' z z' : ℕ} → x ≡ x' → y ≡ y' → z ≡ z' → ◌≡◌ {A = Triple} (x, y, z) (x', y', z')
triple p q r = λ i. (p i, q i, r i)

even : (k m : ℕ) → 2 * k / 2 + 2 * k % 2 * m ≡ k
even k m = let e : 2 * k % 2 ≡ 0 = omega arith in rw e (omega arith)

odd_at : (k m : ℕ) → (2 * k + 1) / 2 + (2 * k + 1) % 2 * m ≡ k + m
odd_at k m = let e : (2 * k + 1) % 2 ≡ 1 = omega arith in rw e (omega arith)

module _ (b X Y Z x y z j : ℕ) (wide : 2 * b ≤ X) (high : 2 * b ≤ Y) (deep : 2 * b ≤ Z) (hx : x < X)
    (hy : y < Y) (hz : z < Z) (hj : j < 2 * b) where
  Reaches-z : j / 2 + j % 2 * (Z - b) ≡ z → Reaches b X Y Z (y * X + x, j) (x, y, z)
  Reaches-z e =
      let u = undigits X Y y x hx hy in (omega arith, hj, rw (lt→ltb _ _ u.0) (triple u.2 u.1 e))

  Reaches-x :
      b ≤ z
      → z < Z - b
      → j / 2 + j % 2 * (X - b) ≡ x
      → Reaches b X Y Z (X * Y + (y * (Z - 2 * b) + (z - b)), j) (x, y, z)
  Reaches-x below above e =
      let u = undigits (Z - 2 * b) Y y (z - b) (omega arith) hy in
      let t : X * Y + (y * (Z - 2 * b) + (z - b)) - X * Y ≡ y * (Z - 2 * b) + (z - b) =
        omega arith in
      (
        omega arith,
        hj,
        rw
            (
              ltb-false (X * Y + (y * (Z - 2 * b) + (z - b))) (X * Y) (omega arith),
              t,
              lt→ltb _ _ u.0,
            )
            (triple e u.1 (rw u.2 (omega arith))),
      )

  Reaches-y :
      b ≤ z
      → z < Z - b
      → b ≤ x
      → x < X - b
      → j / 2 + j % 2 * (Y - b) ≡ y
      → Reaches b X Y Z (X * Y + (Z - 2 * b) * Y + ((z - b) * (X - 2 * b) + (x - b)), j) (x, y, z)
  Reaches-y below above left right e =
      let u = undigits (X - 2 * b) (Z - 2 * b) (z - b) (x - b) (omega arith) (omega arith) in
      let k : ℕ = (z - b) * (X - 2 * b) + (x - b) in
      let t : X * Y + (Z - 2 * b) * Y + k - X * Y ≡ (Z - 2 * b) * Y + k = omega arith in
      let t' : (Z - 2 * b) * Y + k - (Z - 2 * b) * Y ≡ k = omega arith in
      (
        omega arith,
        hj,
        rw
            (
              ltb-false (X * Y + (Z - 2 * b) * Y + k) (X * Y) (omega arith),
              t,
              ltb-false ((Z - 2 * b) * Y + k) ((Z - 2 * b) * Y) (omega arith),
              t',
            )
            (triple (rw u.2 (omega arith)) e (rw u.1 (omega arith))),
      )

module _ (b X Y Z x y z : ℕ) (wide : 2 * b ≤ X) (high : 2 * b ≤ Y) (deep : 2 * b ≤ Z)
    (inside : InShell b X Y Z (x, y, z)) where
  at_z :
      (j : ℕ) → j < 2 * b → j / 2 + j % 2 * (Z - b) ≡ z → Reaches b X Y Z (y * X + x, j) (x, y, z)
  at_z j hj e = Reaches-z b X Y Z x y z j wide high deep inside.0 inside.1 inside.2 hj e

  at_x :
      (j : ℕ)
      → j < 2 * b
      → b ≤ z
      → z < Z - b
      → j / 2 + j % 2 * (X - b) ≡ x
      → Reaches b X Y Z (X * Y + (y * (Z - 2 * b) + (z - b)), j) (x, y, z)
  at_x j hj = Reaches-x b X Y Z x y z j wide high deep inside.0 inside.1 inside.2 hj

  at_y :
      (j : ℕ)
      → j < 2 * b
      → b ≤ z
      → z < Z - b
      → b ≤ x
      → x < X - b
      → j / 2 + j % 2 * (Y - b) ≡ y
      → Reaches b X Y Z (X * Y + (Z - 2 * b) * Y + ((z - b) * (X - 2 * b) + (x - b)), j) (x, y, z)
  at_y j hj = Reaches-y b X Y Z x y z j wide high deep inside.0 inside.1 inside.2 hj

  pub shell-shell_block : Reaches b X Y Z (shell_block b X Y Z (x, y, z)) (x, y, z)
  shell-shell_block = elim (Bool-cases (ltb z b)) [
    | inl e ↦ rw e (at_z (2 * z) (ground arith) (even z (Z - b)))
    | inr e ↦ elim (Bool-cases (leb (Z - b) z)) [
      | inl f ↦
          rw (e, f)
            (at_z (2 * (z - (Z - b)) + 1) (ground arith)
              (odd_at (z - (Z - b)) (Z - b) ∙ ground arith))
      | inr f ↦
          let below : b ≤ z = ground arith in
          let above : z < Z - b = ground arith in
          elim (Bool-cases (ltb x b)) [
            | inl g ↦ rw (e, f, g) (at_x (2 * x) (ground arith) below above (even x (X - b)))
            | inr g ↦ elim (Bool-cases (leb (X - b) x)) [
              | inl k ↦
                  rw (e, f, g, k)
                    (at_x (2 * (x - (X - b)) + 1) (ground arith) below above
                      (odd_at (x - (X - b)) (X - b) ∙ ground arith))
              | inr k ↦ elim (Bool-cases (ltb y b)) [
                | inl m ↦
                    rw (e, f, g, k, m)
                      (at_y (2 * y) (ground arith) below above (ground arith) (ground arith)
                        (even y (Y - b)))
                | inr m ↦
                    rw (e, f, g, k, m)
                      (at_y (2 * (y - (Y - b)) + 1) (ground arith) below above (ground arith)
                        (ground arith) (odd_at (y - (Y - b)) (Y - b) ∙ ground arith))
              ]
            ]
          ]
    ]
  ]
