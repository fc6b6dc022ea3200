-- ===== src/Exchange/Family.antt =====
-- Totals over the threads.
use piconalpaka.Prelude.{
  ℕ, zero, suc, ◌+◌, ◌<◌, ◌≤◌, ◌≡◌, arith, refl, ◌==◌, update, Bool-cases, inl, inr,
}

module _ {ℓ} {P : Type ℓ} (f : P → ℕ) where
  unfoldable pub total : ℕ → (ℕ → P) → ℕ
  total zero pc = 0
  total (suc n) pc = total n pc + f (pc n)

  total_other : (n : ℕ) (pc : ℕ → P) (i : ℕ) (p : P) → n ≤ i → total n (update pc i p) ≡ total n pc
  unfolding total
  total_other zero pc i p h = refl
  total_other (suc n) pc i p h = ground (arith, total_other n pc i p)

  -- One thread changes.
  pub total-update :
      (n : ℕ) (pc : ℕ → P) (i : ℕ) (p : P)
      → i < n
      → total n (update pc i p) + f (pc i) ≡ total n pc + f p
  unfolding total
  total-update zero pc i p h = absurd (omega (arith, h))
  total-update (suc n) pc i p h = elim (Bool-cases (i == n)) [
    | inl e ↦ let q : i ≡ n = ground (arith, e) in ground (arith, e, q, total_other n pc i p)
    | inr d ↦ ground (arith, d, total-update n pc i p)
  ]

  pub le-total : (n : ℕ) (pc : ℕ → P) (i : ℕ) → i < n → f (pc i) ≤ total n pc
  unfolding total
  le-total zero pc i h = absurd (omega (arith, h))
  le-total (suc n) pc i h = elim (Bool-cases (i == n)) [
    | inl e ↦ let q : i ≡ n = ground (arith, e) in ground (arith, q)
    | inr d ↦ ground (arith, d, le-total n pc i)
  ]

  pub total-le : (n : ℕ) (pc : ℕ → P) → ((p : P) → f p ≤ 1) → total n pc ≤ n
  unfolding total
  total-le zero pc h = omega arith
  total-le (suc n) pc h = omega (arith, total-le n pc h, h (pc n))

  pub total_zero : (n : ℕ) (pc : ℕ → P) → ((i : ℕ) → i < n → f (pc i) ≡ 0) → total n pc ≡ 0
  unfolding total
  total_zero zero pc h = refl
  total_zero (suc n) pc h =
      omega (arith, total_zero n pc (λ i l. h i (omega (arith, l))), h n (omega arith))

pub total-add {ℓ} :
    {P : Type ℓ} (f g : P → ℕ) (n : ℕ) (pc : ℕ → P)
    → total (λ p. f p + g p) n pc ≡ total f n pc + total g n pc
unfolding total
total-add f g zero pc = refl
total-add f g (suc n) pc = omega (arith, total-add f g n pc)
