-- ===== src/Reduce/Kernel.antt =====
-- The value that the blocks of `KernelReduction` hand over, in
-- src/libPMacc/include/nvidia/reduce/Reduce.hpp.
use piconalpaka.Prelude.{
  ℕ, zero, suc, ◌+◌, ◌*◌, ◌/◌, ◌%◌, ◌<◌, ◌≤◌, ◌≡◌, arith, refl, sym, ap, ap₂, ◌∙◌, Option, none,
  some, Bool, true, false, ◌&&◌, ltb, leb, ◌==◌, if◌then◌else◌, Bool-cases, inl, inr,
}
use native.Mathlib.Nat.{mod-eq_of_lt, mul-le-mul_left, mul-le-mul_right}
use piconalpaka.Reduce.{strided, fill, reduce_chunk, reduce_shared, block_value}
use piconalpaka.Reduce.Sums.{
  sum, both, both_assoc, sum_ext, sum-none, sum-front, sum-add, sum-mul, sum-pad, sum-fold_in,
  sum_swap,
}

-- The elements below `n`
abbrev pub within {ℓ} : {A : Type ℓ} → (ℕ → A) → ℕ → ℕ → Option A
within src n i = if ltb i n then some (src i) else none

within-lt {ℓ} : {A : Type ℓ} (src : ℕ → A) (n i : ℕ) → i < n → within src n i ≡ some (src i)
within-lt src n i h = ground (arith, h)

within-ge {ℓ} : {A : Type ℓ} (src : ℕ → A) (n i : ℕ) → n ≤ i → within src n i ≡ none
within-ge src n i h = ground (arith, h)

module _ {ℓ} {A : Type ℓ} (f : A → A → A) where
  -- What a block hands over whose threads all have an element
  pub full_block : (ℕ → A) → ℕ → ℕ → ℕ → (ℕ → ℕ → A) → ℕ → A
  full_block src n B G s b = reduce_shared f B B (fill f src n B G b (s b)) 0

  pub block_value-full_block :
      (src : ℕ → A) (n B G b : ℕ) (s : ℕ → ℕ → A)
      → 0 < B
      → b * B + B ≤ n
      → block_value f src n B G b (s b) ≡ some (full_block src n B G s b)
  unfolding block_value full_block
  block_value-full_block src n B G b s p full =
      let z : leb n (b * B) ≡ false = ground (arith, p, full) in
      let skip : (B == 1 && leb n (b * B)) ≡ false = rw z (and_false (B == 1)) in rw skip refl
    where
      and_false : (x : Bool) → (x && false) ≡ false
      and_false true = refl
      and_false false = refl

module _ {ℓ} {A : Type ℓ} (f : A → A → A) (assoc : (a b c : A) → f (f a b) c ≡ f a (f b c)) where
  first_and_rest :
      (src : ℕ → A) (n step fuel i : ℕ)
      → i < n
      → sum f (suc fuel) (λ j. within src n (i + j * step))
        ≡ both f (some (src i)) (sum f fuel (λ j. within src n (i + step + j * step)))
  first_and_rest src n step fuel i h =
      sum-front f assoc fuel (λ j. within src n (i + j * step))
      ∙ ap₂ (both f) (ap (within src n) (omega arith) ∙ within-lt src n i h) (
          sum_ext f fuel (λ j. within src n (i + suc j * step))
            (λ j. within src n (i + step + j * step)) (λ j l. ap (within src n) (omega arith)))

  strided_lem :
      (src : ℕ → A) (n step fuel i : ℕ) (v : A)
      → n + step ≤ 4294967296
      → some (strided f fuel src n step i v)
        ≡ both f (some v) (sum f fuel (λ j. within src n (i + j * step)))
  unfolding strided
  strided_lem src n step zero i v h = unfold sum in refl
  strided_lem src n step (suc fuel) i v h = elim (Bool-cases (ltb i n)) [
    | inl lt ↦
        let below : i < n = ground (arith, lt) in
        let next : (i + step) % 4294967296 ≡ i + step = mod-eq_of_lt (omega (arith, below, h)) in
        let rest = sum f fuel (λ j. within src n (i + step + j * step)) in
        rw (lt, next)
          (strided_lem src n step fuel (i + step) (f v (src i)) h
            ∙ (both_assoc f assoc (some v) (some (src i)) rest
                ∙ ap (both f (some v)) (sym (first_and_rest src n step fuel i below))))
    | inr ge ↦
        let above : n ≤ i = ground (arith, ge) in
        let empty : sum f (suc fuel) (λ j. within src n (i + j * step)) ≡ none =
          sum-none f (suc fuel) (λ j. within src n (i + j * step))
            (λ j l. within-ge src n (i + j * step) (omega (arith, above))) in
        rw (ge, empty) refl
  ]

  -- The strided elements of one thread
  abbrev column : (ℕ → A) → ℕ → ℕ → ℕ → Option A
  column src n T tid = sum f (suc n) (λ j. within src n (tid + j * T))

  fill_lem :
      (src : ℕ → A) (n B G b : ℕ) (s : ℕ → A) (l : ℕ)
      → n + G * B ≤ 4294967296
      → b * B + l < n
      → some (fill f src n B G b s l) ≡ column src n (G * B) (b * B + l)
  unfolding fill
  fill_lem src n B G b s l h lt =
      let t : ltb (b * B + l) n ≡ true = ground (arith, lt) in
      let next : (b * B + l + G * B) % 4294967296 ≡ b * B + l + G * B =
        mod-eq_of_lt (omega (arith, lt, h)) in
      rw (t, next)
        (strided_lem src n (G * B) n (b * B + l + G * B) (src (b * B + l)) h
          ∙ sym (first_and_rest src n (G * B) n (b * B + l) lt))

module _ {ℓ} {A : Type ℓ} (f : A → A → A) (assoc : (a b c : A) → f (f a b) c ≡ f a (f b c))
    (comm : (a b : A) → f a b ≡ f b a) where
  abbrev held : (ℕ → A) → ℕ → Option A
  held s l = some (s l)

  active :
      (c : ℕ) (s : ℕ → A) (l : ℕ) → l < c / 2 → reduce_chunk f c s l ≡ f (s l) (s (l + (c + 1) / 2))
  unfolding reduce_chunk
  active c s l h =
      let t : leb (c / 2) l ≡ false = ground (arith, h) in
      elim (Bool-cases (l == 0)) [ inl z ↦ rw z refl | inr z ↦ rw (z, t) refl ]

  idle : (c : ℕ) (s : ℕ → A) (l : ℕ) → c / 2 ≤ l → 0 < l → reduce_chunk f c s l ≡ s l
  unfolding reduce_chunk
  idle c s l h p =
      let t : leb (c / 2) l ≡ true = ground (arith, h) in
      let z : (l == 0) ≡ false = ground (arith, p) in rw (z, t) refl

  -- A round keeps the sum of the chunk.
  reduce_chunk_lem :
      (c : ℕ) (s : ℕ → A)
      → 2 ≤ c
      → sum f ((c + 1) / 2) (held (reduce_chunk f c s)) ≡ sum f c (held s)
  reduce_chunk_lem c s h =
      let k = (c + 1) / 2 in
      let whole : c ≡ k + c / 2 = omega arith in
      sum-fold_in f assoc comm (c / 2) k s (reduce_chunk f c s) (λ i. s (k + i)) (omega arith)
        (λ i l. active c s i l ∙ ap (λ j. f (s i) (s j)) (omega arith))
        (λ i l m. idle c s i l (omega (arith, l, h)))
      ∙ sym (ap (λ z. sum f z (held s)) whole ∙ sum-add f assoc k (c / 2) (held s))

  reduce_shared_lem :
      (fuel c : ℕ) (s : ℕ → A)
      → 0 < c
      → c ≤ suc fuel
      → some (reduce_shared f fuel c s 0) ≡ sum f c (held s)
  unfolding reduce_shared
  reduce_shared_lem zero c s p h = let e : c ≡ 1 = omega (arith, p, h) in rw e (unfold sum in refl)
  reduce_shared_lem (suc fuel) c s p h = elim (Bool-cases (c == 1)) [
    | inl one ↦ let e : c ≡ 1 = ground (arith, one) in rw e (unfold sum in refl)
    | inr more ↦
        let two : 2 ≤ c = ground (arith, more, p) in
        rw more (
          reduce_shared_lem fuel ((c + 1) / 2) (reduce_chunk f c s) (omega (arith, two))
            (omega (arith, two, h))
          ∙ reduce_chunk_lem c s two)
  ]

  full_block_lem :
      (src : ℕ → A) (n B G b : ℕ) (s : ℕ → ℕ → A)
      → n + G * B ≤ 4294967296
      → 0 < B
      → b * B + B ≤ n
      → some (full_block f src n B G s b) ≡ sum f B (λ l. column f assoc src n (G * B) (b * B + l))
  unfolding full_block
  full_block_lem src n B G b s h p full =
      reduce_shared_lem B B (fill f src n B G b (s b)) p (omega arith)
      ∙ sum_ext f B (held (fill f src n B G b (s b)))
          (λ l. column f assoc src n (G * B) (b * B + l))
          (λ l m. fill_lem f assoc src n B G b (s b) l h (omega (arith, m, full)))

  columns :
      (src : ℕ → A) (n B G : ℕ)
      → 0 < G * B
      → sum f G (λ b. sum f B (λ l. column f assoc src n (G * B) (b * B + l)))
        ≡ sum f n (λ i. some (src i))
  columns src n B G p =
      let T = G * B in
      sym (sum-mul f assoc G B (column f assoc src n T))
      ∙ (sum_swap f assoc comm T (suc n) (λ t j. within src n (t + j * T))
          ∙ (sum_ext f (suc n) (λ j. sum f T (λ t. within src n (t + j * T)))
                (λ j. sum f T (λ t. within src n (j * T + t)))
                (λ j l.
                  sum_ext f T (λ t. within src n (t + j * T)) (λ t. within src n (j * T + t))
                    (λ t m. ap (within src n) (omega arith)))
              ∙ (sym (sum-mul f assoc (suc n) T (within src n))
                  ∙ (sum-pad f assoc n (suc n * T) (within src n)
                        (omega (arith, mul-le-mul_left (suc n) p)) (λ i h. within-ge src n i h)
                      ∙ sum_ext f n (within src n) (λ i. some (src i))
                          (λ i h. within-lt src n i h)))))

  -- The blocks of a kernel that covers `G * B` of the `n` elements with threads together hand over
  -- the sum of all elements.
  pub full_blocks :
      (src : ℕ → A) (n B G : ℕ) (s : ℕ → ℕ → A)
      → n + G * B ≤ 4294967296
      → 0 < B
      → 0 < G
      → G * B ≤ n
      → sum f G (λ b. some (full_block f src n B G s b)) ≡ sum f n (λ i. some (src i))
  full_blocks src n B G s h p q le =
      sum_ext f G (λ b. some (full_block f src n B G s b))
        (λ b. sum f B (λ l. column f assoc src n (G * B) (b * B + l)))
        (λ b m. full_block_lem src n B G b s h p (below b m))
      ∙ columns src n B G (omega (arith, mul-le-mul_left G p, q))
    where
      below : (b : ℕ) → b < G → b * B + B ≤ n
      below b m = omega (arith, mul-le-mul_right B m, le)
