-- ===== src/Prelude/Bits.antt =====
-- The binary digits of a number, and what `|`, `&` and `1 << k` do to each.
use Prim.Native.Nat.{
  ℕ, zero, suc, ◌+◌, ◌*◌, ◌/◌, ◌%◌, ◌^◌, ◌≤◌, min, max, bit_and, bit_or, digits, bit_and-bitwise,
  bit_or-bitwise,
}
use mathlib.Core.Path.{◌≡◌, refl, ◌∙◌}
use mathlib.Core.Bool.{not}
use mathlib.Core.Logic.{◌≢◌}
use native.Mathlib.Nat.{pow-suc}
use native.Mathlib.Omega.{arith}
use piconalpaka.Prelude.Tests.{◌==◌, if◌then◌else◌}

-- Digit `k` of `n`.
unfoldable pub bit : ℕ → ℕ → ℕ
bit zero n = n % 2
bit (suc k) n = bit k (n / 2)

pub bit-le : (k n : ℕ) → bit k n ≤ 1
unfolding bit
bit-le zero n = omega arith
bit-le (suc k) n = bit-le k (n / 2)

pub bit-zero : (k : ℕ) → bit k 0 ≡ 0
unfolding bit
bit-zero zero = refl
bit-zero (suc k) = bit-zero k

-- An operation on digits acts on each digit by itself.
module _ (z : ℕ → ℕ) (f : ℕ → ℕ → ℕ) (small : (a b : ℕ) → a ≤ 1 → b ≤ 1 → f a b ≤ 1)
    (rest : (k b : ℕ) → bit k (z b) ≡ f 0 (bit k b)) where
  bit-digits : (k n a b : ℕ) → a ≤ n → bit k (digits z f n a b) ≡ f (bit k a) (bit k b)
  unfolding bit
  bit-digits k zero zero b h = rw (bit-zero k) (rest k b)
  bit-digits k zero (suc a) b h = absurd (omega arith)
  bit-digits k (suc n) zero b h = rw (bit-zero k) (rest k b)
  bit-digits zero (suc n) (suc a) b h =
      omega (arith, small (suc a % 2) (b % 2) (omega arith) (omega arith))
  bit-digits (suc k) (suc n) (suc a) b h =
      rw
        (half (digits z f n (suc a / 2) (b / 2)) (f (suc a % 2) (b % 2))
          (small (suc a % 2) (b % 2) (omega arith) (omega arith)))
        (bit-digits k n (suc a / 2) (b / 2) (omega arith))
    where
      half : (x r : ℕ) → r ≤ 1 → (x * 2 + r) / 2 ≡ x
      half x r p = omega arith

pub bit-bit_and : (k a b : ℕ) → bit k (bit_and a b) ≡ min (bit k a) (bit k b)
bit-bit_and k a b = rw (bit_and-bitwise a b) (
    bit-digits (λ _. 0) min (λ _ _ p q. omega arith) (λ k b. bit-zero k ∙ omega arith) k a a b
      (omega arith))

pub bit-bit_or : (k a b : ℕ) → bit k (bit_or a b) ≡ max (bit k a) (bit k b)
bit-bit_or k a b =
    rw (bit_or-bitwise a b)
      (bit-digits (λ b. b) max (λ _ _ p q. omega arith) (λ k b. omega arith) k a a b (omega arith))

pub bit-pow : (k j : ℕ) → bit k (2 ^ j) ≡ (if k == j then 1 else 0)
unfolding bit
bit-pow zero zero = refl
bit-pow zero (suc j) = ground (arith, pow-suc 2 j)
bit-pow (suc k) zero = bit-zero k ∙ ground arith
bit-pow (suc k) (suc j) = ground (arith, double j, bit-pow k j)
  where
    double : (j : ℕ) → 2 ^ suc j / 2 ≡ 2 ^ j
    double j = omega (arith, pow-suc 2 j)

zero_of_bits : (n a : ℕ) → a ≤ n → ((k : ℕ) → bit k a ≡ 0) → a ≡ 0
unfolding bit
zero_of_bits zero a h p = omega arith
zero_of_bits (suc n) zero h p = refl
zero_of_bits (suc n) (suc a) h p =
    omega (arith, p 0, zero_of_bits n (suc a / 2) (omega arith) (λ k. p (suc k)))

and-pow-zero : (m k : ℕ) → bit k m ≡ 0 → bit_and m (2 ^ k) ≡ 0
and-pow-zero m k h =
    zero_of_bits (bit_and m (2 ^ k)) (bit_and m (2 ^ k)) (omega arith)
      λ j. ground (arith, bit-bit_and j m (2 ^ k), bit-pow j k)

and-pow-ne : (m k : ℕ) → bit k m ≡ 1 → bit_and m (2 ^ k) ≢ 0
and-pow-ne m k h e =
    let set : bit k (bit_and m (2 ^ k)) ≡ 1 =
      ground (arith, bit-bit_and k m (2 ^ k), bit-pow k k) in
    let clear : bit k (bit_and m (2 ^ k)) ≡ 0 = rw e (bit-zero k) in omega arith

-- `(m & (1u << k)) != 0` tests digit `k`.
pub and-pow-test : (m k : ℕ) → not (bit_and m (2 ^ k) == 0) ≡ (bit k m == 1)
and-pow-test m k = ground (arith, bit-le k m, and-pow-zero m k, and-pow-ne m k)

-- `v & 1u` is the remainder by 2.
pub and-one : (a : ℕ) → bit_and a 1 ≡ a % 2
unfolding bit
and-one a =
    let high : bit_and a 1 / 2 ≡ 0 =
      zero_of_bits (bit_and a 1 / 2) (bit_and a 1 / 2) (omega arith)
        λ k. omega (arith, bit-bit_and (suc k) a 1, bit-zero k) in
    omega (arith, bit-bit_and 0 a 1)
