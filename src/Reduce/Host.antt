-- ===== src/Reduce/Host.antt =====
-- The kernels that `Reduce` starts one after the other, in
-- src/libPMacc/include/nvidia/reduce/Reduce.hpp.
use mathlib.Core.Path.{fun_ext}
use piconalpaka.Prelude.{
  ℕ, zero, suc, ◌+◌, ◌-◌, ◌*◌, ◌/◌, ◌%◌, ◌<◌, ◌≤◌, ◌≡◌, arith, refl, sym, ap, ◌∙◌, subst, some,
  true, false, ◌&&◌, ltb, leb, ◌==◌, if◌then◌else◌, Bool-cases, inl, inr, update, min, ◌⊎◌,
}
use native.Mathlib.Nat.{
  mul-le-mul_left, div-le_self, div-mul-le_self, add-mul, mul-le-mul_right, div-add-mod', mod-lt,
  le-div_iff_mul-le,
}
use piconalpaka.Reduce.{
  get_threads_per_block, optimal_threads_per_block, block_value, run_blocks, kernel_reduction,
  blocks_for, reduce_loop, first_blocks, reduce,
}
use piconalpaka.Reduce.Sums.{sum, both, sum_ext, sum-add, sum-fold_in, sum-fold_to, fold_to}
use piconalpaka.Reduce.Kernel.{full_block, full_blocks, block_value-full_block}

-- From 1 up to `n` threads, and 2 at least where there are as many elements
pub record Threads (threads_for : ℕ → ℕ) : Type 0 where
  pub some_thread : (n : ℕ) → 0 < n → 0 < threads_for n
  pub covered : (n : ℕ) → 0 < n → threads_for n ≤ n
  pub two : (n : ℕ) → 1 < n → 1 < threads_for n

get_threads_bounds : (k : ℕ) → 0 < k → (0 < get_threads_per_block k) × (get_threads_per_block k ≤ k)
unfolding get_threads_per_block
get_threads_bounds k h = ground (arith, h)

get_threads_two : (k : ℕ) → 1 < k → 1 < get_threads_per_block k
unfolding get_threads_per_block
get_threads_two k h = ground (arith, h)

optimal_Threads :
    (shared size : ℕ)
    → 0 < size
    → 2 * size ≤ shared
    → Threads (λ n. optimal_threads_per_block shared n size)
unfolding optimal_threads_per_block
optimal_Threads shared size p h =
    let two_fit : 2 ≤ shared / size = (le-div_iff_mul-le p).1 h in
    record {
      some_thread =
          λ n l. (get_threads_bounds (min (shared / size) n) (omega (arith, two_fit, l))).0;
      covered = λ n l. omega (
        arith,
        (get_threads_bounds (min (shared / size) n) (omega (arith, two_fit, l))).1,
        two_fit,
        l,
      );
      two = λ n l. get_threads_two (min (shared / size) n) (omega (arith, two_fit, l));
    }

module _ {ℓ} {A : Type ℓ} (f : A → A → A) (func2 : A → A → A) (view : (ℕ → A) → ℕ → A) (n B G : ℕ)
    (s : ℕ → ℕ → A) (src v : ℕ → A)
    (stable : (mem : ℕ → A) (b : ℕ) (x : A) → b < G → view mem ≡ src → view (update mem b x) ≡ src)
    (val : (b : ℕ) → b < G → block_value f src n B G b (s b) ≡ some (v b)) where
  -- The blocks from `b` on combine their values with what was there.
  run_blocks_lem :
      (count b : ℕ) (mem : ℕ → A)
      → b + count ≤ G
      → view mem ≡ src
      → (i : ℕ)
      → run_blocks f func2 view n B G s count b mem i
        ≡ (if leb b i && ltb i (b + count) then func2 (mem i) (v i) else mem i)
  unfolding run_blocks
  run_blocks_lem zero b mem h e i = ground arith
  run_blocks_lem (suc count) b mem h e i =
      let lt : b < G = omega (arith, h) in
      let new = update mem b (func2 (mem b) (v b)) in
      rw (e, val b lt)
        (run_blocks_lem count (suc b) new (omega (arith, h))
            (stable mem b (func2 (mem b) (v b)) lt e) i
          ∙ ground arith)

module _ {ℓ} {A : Type ℓ} (f : A → A → A) (n B G : ℕ) (s : ℕ → ℕ → A) (p : 0 < B)
    (le : G * B ≤ n) where
  values :
      (src : ℕ → A) (b : ℕ)
      → b < G
      → block_value f src n B G b (s b) ≡ some (full_block f src n B G s b)
  values src b m =
      block_value-full_block f src n B G b s p (omega (arith, mul-le-mul_right B m, le))

  -- A kernel that reads other elements than it writes
  kernel_apart :
      (func2 : A → A → A) (view : (ℕ → A) → ℕ → A) (dest : ℕ → A)
      → ((mem : ℕ → A) (b : ℕ) (x : A)
          → b < G
          → view mem ≡ view dest
          → view (update mem b x) ≡ view dest)
      → (i : ℕ)
      → kernel_reduction f func2 view n B G s dest i
        ≡ (if ltb i G then func2 (dest i) (full_block f (view dest) n B G s i) else dest i)
  unfolding kernel_reduction
  kernel_apart func2 view dest stable i =
      run_blocks_lem f func2 view n B G s (view dest) (full_block f (view dest) n B G s) stable
        (values (view dest)) G 0 dest (omega arith) refl i
      ∙ ground arith

module _ {ℓ} {A : Type ℓ} (f : A → A → A) (n B : ℕ) (s : ℕ → ℕ → A) (p : 0 < B) (le : B ≤ n) where
  -- A kernel with one block, which writes at the end
  kernel_single :
      (dest : ℕ → A)
      → kernel_reduction f (λ a b. b) (λ mem i. mem i) n B 1 s dest
        ≡ update dest 0 (full_block f dest n B 1 s 0)
  unfolding kernel_reduction run_blocks
  kernel_single dest = rw (values f n B 1 s p (omega (arith, le)) dest 0 (omega arith)) refl

-- A round with `blocks` blocks of `b` threads for `n` elements: it takes up those from `begin` on.
record Round (n b blocks begin used : ℕ) : Type 0 where
  reached : 0 < begin
  fewer : begin < n
  working : 0 < used
  apart : used ≤ begin
  fed : used * b ≤ n - begin

round_lem :
    (n b blocks : ℕ)
    → 1 < b
    → 1 < blocks
    → blocks ≡ n / 2 / b
    → let offset = (blocks + b - 1) / b in Round n b blocks (offset * b) (blocks - offset)
round_lem n b blocks two many e =
    let offset = (blocks + b - 1) / b in
    let half : blocks * b ≤ n / 2 =
      subst (λ k. k * b ≤ n / 2) (sym e) (div-mul-le_self (n / 2) b) in
    let q = div-add-mod' (blocks + b - 1) b in
    let m : (blocks + b - 1) % b < b = mod-lt (blocks + b - 1) (omega (arith, two)) in
    let by_two = mul-le-mul_left blocks two in
    let two_by = mul-le-mul_right b many in
    let reached : blocks ≤ offset * b = omega (arith, q, m) in
    let below : offset * b < blocks + b = omega (arith, q, two) in
    let small : offset < blocks = elim (Bool-cases (ltb offset blocks)) [
      | inl l ↦ ground (arith, l)
      | inr g ↦
          let h : blocks ≤ offset = ground (arith, g) in
          absurd (omega (arith, mul-le-mul_right b h, below, by_two, two_by, many, two))
    ] in
    let parts : (blocks - offset) * b + offset * b ≡ blocks * b =
      sym (add-mul (blocks - offset) offset b) ∙ ap (λ k. k * b) (omega (arith, small)) in
    record {
      reached = omega (arith, reached, many);
      fewer = omega (arith, below, half, by_two, two_by, many, two);
      working = omega (arith, small);
      apart = omega (arith, reached);
      fed = omega (arith, parts, half);
    }

first_blocks_bounds :
    (n_buffer b n : ℕ)
    → 0 < b
    → b ≤ n
    → (0 < first_blocks n_buffer b n) × (first_blocks n_buffer b n * b ≤ n)
unfolding first_blocks
first_blocks_bounds n_buffer b n p le =
    let threads = n_buffer * b * 2 % 4294967296 in
    let all = if ltb n threads then n else threads in
    let fewer : all ≤ n = ground arith in
    elim (Bool-cases (all / 2 / b == 0)) [
      | inl z ↦ rw z (omega arith, omega (arith, le))
      | inr q ↦ rw q (ground (arith, q), omega (arith, div-mul-le_self (all / 2) b, fewer))
    ]

blocks_cases :
    (n b : ℕ)
    → 0 < n
    → ((blocks_for n b ≡ 0) × (n ≡ 1))
      ⊎ (((blocks_for n b ≡ 1) × (1 < n)) ⊎ ((1 < blocks_for n b) × (blocks_for n b ≡ n / 2 / b)))
unfolding blocks_for
blocks_cases n b h =
    let le : n / 2 / b ≤ n / 2 = div-le_self (n / 2) b in
    elim (Bool-cases (n / 2 / b == 0)) [
      | inl z ↦ elim (Bool-cases (ltb 1 n)) [
        | inl l ↦ inr (inl (ground (arith, z, l), ground (arith, l)))
        | inr g ↦ inl (ground (arith, z, g), ground (arith, g, h))
      ]
      | inr p ↦ elim (Bool-cases (n / 2 / b == 1)) [
        | inl o ↦ inr (inl (ground (arith, p, o), ground (arith, o, le)))
        | inr m ↦ inr (inr (ground (arith, p, m), ground (arith, p)))
      ]
    ]

module _ {ℓ} {A : Type ℓ} (f : A → A → A) (assoc : (a b c : A) → f (f a b) c ≡ f a (f b c))
    (comm : (a b : A) → f a b ≡ f b a) where
  -- One round with several blocks keeps the sum.
  Round-sum :
      (n b blocks begin used : ℕ) (s : ℕ → ℕ → A) (dest : ℕ → A)
      → 0 < b
      → n ≤ 2147483648
      → Round n b blocks begin used
      → sum f begin
          (λ i. some (kernel_reduction f f (λ mem i. mem (begin + i)) (n - begin) b used s dest i))
        ≡ sum f n (λ i. some (dest i))
  Round-sum n b blocks begin used s dest p fits r =
      let rest = λ (i : ℕ). dest (begin + i) in
      let v = full_block f rest (n - begin) b used s in
      let mem = kernel_reduction f f (λ mem i. mem (begin + i)) (n - begin) b used s dest in
      let at : (i : ℕ) → mem i ≡ (if ltb i used then f (dest i) (v i) else dest i) =
        kernel_apart f (n - begin) b used s p r.fed f (λ mem i. mem (begin + i)) dest
          (λ m k x lt e. fun_ext (λ i. apart m k x i (omega (arith, lt, r.apart))) ∙ e) in
      sum-fold_in f assoc comm used begin dest mem v r.apart (λ i l. at i ∙ ground (arith, l))
        (λ i l m. at i ∙ ground (arith, l))
      ∙ (ap (both f (sum f begin (λ i. some (dest i)))) (
            full_blocks f assoc comm rest (n - begin) b used s (omega (arith, fits, r.fed)) p
              r.working r.fed)
          ∙ (sym (sum-add f assoc begin (n - begin) (λ i. some (dest i)))
              ∙ ap (λ k. sum f k (λ i. some (dest i))) (omega (arith, r.fewer))))
    where
      apart :
          (m : ℕ → A) (k : ℕ) (x : A) (i : ℕ) → k < begin → update m k x (begin + i) ≡ m (begin + i)
      apart m k x i h = ground (arith, h)

  -- The last round, with one block
  single_sum :
      (n b : ℕ) (s : ℕ → ℕ → A) (dest : ℕ → A)
      → 0 < b
      → b ≤ n
      → n ≤ 2147483648
      → sum f 1 (λ i. some (kernel_reduction f (λ x y. y) (λ mem i. mem i) n b 1 s dest i))
        ≡ sum f n (λ i. some (dest i))
  unfolding sum
  single_sum n b s dest p le fits =
      ap (λ (m : ℕ → A). some (m 0)) (kernel_single f n b s p le dest)
      ∙ full_blocks f assoc comm dest n b 1 s (omega (arith, le, fits)) p (omega arith)
          (omega (arith, le))

  -- The first kernel, from the source into the buffer
  first_sum :
      (n b blocks : ℕ) (s : ℕ → ℕ → A) (src dest : ℕ → A)
      → 0 < b
      → 0 < blocks
      → blocks * b ≤ n
      → n ≤ 2147483648
      → sum f blocks (λ i. some (kernel_reduction f (λ x y. y) (λ mem. src) n b blocks s dest i))
        ≡ sum f n (λ i. some (src i))
  first_sum n b blocks s src dest p q le fits =
      let mem = kernel_reduction f (λ x y. y) (λ mem. src) n b blocks s dest in
      let v = full_block f src n b blocks s in
      let at : (i : ℕ) → mem i ≡ (if ltb i blocks then v i else dest i) =
        kernel_apart f n b blocks s p le (λ x y. y) (λ mem. src) dest (λ m k x lt e. e) in
      sum_ext f blocks (λ i. some (mem i)) (λ i. some (v i))
        (λ i l. ap some (at i ∙ ground (arith, l)))
      ∙ full_blocks f assoc comm src n b blocks s (omega (arith, le, fits)) p q le

  module _ (threads_for : ℕ → ℕ) (t : Threads threads_for) (s : ℕ → ℕ → ℕ → A) where
    reduce_loop_lem :
        (fuel n : ℕ) (dest : ℕ → A)
        → 0 < n
        → n ≤ fuel
        → n ≤ 2147483648
        → (mem : ℕ → A) × (reduce_loop f threads_for s fuel n dest ≡ some mem)
          × (some (mem 0) ≡ sum f n (λ i. some (dest i)))
    unfolding reduce_loop
    reduce_loop_lem zero n dest p le fits = absurd (omega (arith, p, le))
    reduce_loop_lem (suc fuel) n dest p le fits = elim (blocks_cases n (threads_for n) p) [
      | inl (z, one) ↦
          (dest, rw z refl, sym (ap (λ k. sum f k (λ i. some (dest i))) one ∙ (unfold sum in refl)))
      | inr (inl (o, many)) ↦
          let mem =
            kernel_reduction f (λ a b. b) (λ mem i. mem i) n (threads_for n) 1 (s fuel) dest in
          let r =
            reduce_loop_lem fuel 1 mem (omega arith) (omega (arith, many, le)) (omega arith) in
          (
            r.0,
            rw o r.1,
            r.2
                ∙ single_sum n (threads_for n) (s fuel) dest (t.some_thread n p) (t.covered n p)
                    fits,
          )
      | inr (inr (m, e)) ↦
          let b = threads_for n in
          let r =
            round_lem n b (blocks_for n b) (t.two n (omega (arith, m, e, div-le_self (n / 2) b))) m
              e in
          let offset = (blocks_for n b + b - 1) / b in
          let mem =
            kernel_reduction f f (λ mem i. mem (offset * b + i)) (n - offset * b) b
              (blocks_for n b - offset) (s fuel) dest in
          let k =
            reduce_loop_lem fuel (offset * b) mem r.reached (omega (arith, r.fewer, le))
              (omega (arith, r.fewer, fits)) in
          let z : (blocks_for n b == 0) ≡ false = ground (arith, m) in
          let l : ltb 1 (blocks_for n b) ≡ true = ground (arith, m) in
          (
            k.0,
            rw (z, l) k.1,
            k.2
                ∙ Round-sum n b (blocks_for n b) (offset * b) (blocks_for n b - offset) (s fuel)
                    dest (t.some_thread n p) fits r,
          )
    ]

  -- An associative and commutative functor, elements of which two fit into the shared memory of a
  -- block, 1 to 2^31 elements, and as many rounds of the loop: whatever the buffer and the shared memory
  -- held, `Reduce` returns the elements folded from the left.
  pub reduce_lem :
      (byte shared_mem_byte size_of : ℕ) (s_mem : ℕ → ℕ → ℕ → A) (fuel : ℕ) (src : ℕ → A) (n : ℕ)
      (dest : ℕ → A)
      → 0 < size_of
      → 2 * size_of ≤ shared_mem_byte
      → 0 < n
      → n ≤ 2147483648
      → n ≤ fuel
      → reduce f byte shared_mem_byte size_of s_mem fuel src n dest ≡ some (fold_to f src (n - 1))
  unfolding reduce
  reduce_lem byte shared size s fuel src n dest sp two p fits enough =
      let t = optimal_Threads shared size sp two in
      let b = optimal_threads_per_block shared n size in
      let blocks = first_blocks (byte / size) b n in
      let (q, le) = first_blocks_bounds (byte / size) b n (t.some_thread n p) (t.covered n p) in
      let less : blocks ≤ n = omega (arith, mul-le-mul_left blocks (t.some_thread n p), le) in
      let mem = kernel_reduction f (λ x y. y) (λ m. src) n b blocks (s fuel) dest in
      let (end, run, total) =
        reduce_loop_lem (λ k. optimal_threads_per_block shared k size) t s fuel blocks mem q
          (omega (arith, less, enough)) (omega (arith, less, fits)) in
      let whole : n ≡ suc (n - 1) = omega (arith, p) in
      rw (run, reduce)
        (total
          ∙ (first_sum n b blocks (s fuel) src dest (t.some_thread n p) q le fits
              ∙ (ap (λ k. sum f k (λ i. some (src i))) whole ∙ sum-fold_to f src (n - 1))))
