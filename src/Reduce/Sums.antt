-- ===== src/Reduce/Sums.antt =====
-- Sums of a range under an operation that has no unit.
use piconalpaka.Prelude.{
  ℕ, zero, suc, ◌+◌, ◌-◌, ◌*◌, ◌<◌, ◌≤◌, ◌≡◌, arith, refl, sym, ap, ap₂, ◌∙◌, Option, none, some,
}

-- The values of a range, folded from the left: `src 0` to `src k`
abbrev pub fold_to {ℓ} : {A : Type ℓ} → (A → A → A) → (ℕ → A) → ℕ → A
fold_to f src zero = src 0
fold_to f src (suc k) = f (fold_to f src k) (src (suc k))

-- `none` is a unit.
abbrev pub both {ℓ} : {A : Type ℓ} → (A → A → A) → Option A → Option A → Option A
both f none y = y
both f (some a) none = some a
both f (some a) (some b) = some (f a b)

unfoldable pub sum {ℓ} : {A : Type ℓ} → (A → A → A) → ℕ → (ℕ → Option A) → Option A
sum f zero g = none
sum f (suc n) g = both f (sum f n g) (g n)

module _ {ℓ} {A : Type ℓ} (f : A → A → A) where
  pub both-none : (x : Option A) → both f x none ≡ x
  both-none none = refl
  both-none (some a) = refl

  pub sum_ext : (n : ℕ) (g h : ℕ → Option A) → ((i : ℕ) → i < n → g i ≡ h i) → sum f n g ≡ sum f n h
  unfolding sum
  sum_ext zero g h e = refl
  sum_ext (suc n) g h e =
      ap₂ (both f) (sum_ext n g h (λ i l. e i (omega (arith, l)))) (e n (omega arith))

  pub sum-none : (n : ℕ) (g : ℕ → Option A) → ((i : ℕ) → i < n → g i ≡ none) → sum f n g ≡ none
  unfolding sum
  sum-none zero g e = refl
  sum-none (suc n) g e =
      ap₂ (both f) (sum-none n g (λ i l. e i (omega (arith, l)))) (e n (omega arith))

  pub sum-fold_to :
      (src : ℕ → A) (k : ℕ) → sum f (suc k) (λ i. some (src i)) ≡ some (fold_to f src k)
  unfolding sum
  sum-fold_to src zero = refl
  sum-fold_to src (suc k) = ap (λ x. both f x (some (src (suc k)))) (sum-fold_to src k)

module _ {ℓ} {A : Type ℓ} (f : A → A → A) (assoc : (a b c : A) → f (f a b) c ≡ f a (f b c)) where
  pub both_assoc : (x y z : Option A) → both f (both f x y) z ≡ both f x (both f y z)
  both_assoc none y z = refl
  both_assoc (some a) none z = refl
  both_assoc (some a) (some b) none = refl
  both_assoc (some a) (some b) (some c) = ap some (assoc a b c)

  pub sum-add :
      (n m : ℕ) (g : ℕ → Option A) → sum f (n + m) g ≡ both f (sum f n g) (sum f m (λ i. g (n + i)))
  unfolding sum
  sum-add n zero g =
      let e : n + 0 ≡ n = omega arith in ap (λ k. sum f k g) e ∙ sym (both-none f (sum f n g))
  sum-add n (suc m) g =
      let e : n + suc m ≡ suc (n + m) = omega arith in
      ap (λ k. sum f k g) e
      ∙ (ap (λ x. both f x (g (n + m))) (sum-add n m g)
          ∙ both_assoc (sum f n g) (sum f m (λ i. g (n + i))) (g (n + m)))

  pub sum-front :
      (n : ℕ) (g : ℕ → Option A) → sum f (suc n) g ≡ both f (g 0) (sum f n (λ i. g (suc i)))
  unfolding sum
  sum-front n g =
      let e : suc n ≡ 1 + n = omega arith in
      ap (λ k. sum f k g) e
      ∙ (sum-add 1 n g
          ∙ ap (both f (g 0))
              (sum_ext f n (λ i. g (1 + i)) (λ i. g (suc i)) (λ i l. ap g (omega arith))))

  -- A range in blocks
  pub sum-mul :
      (k T : ℕ) (g : ℕ → Option A) → sum f (k * T) g ≡ sum f k (λ j. sum f T (λ t. g (j * T + t)))
  unfolding sum
  sum-mul zero T g = let e : 0 * T ≡ 0 = omega arith in ap (λ k. sum f k g) e
  sum-mul (suc k) T g =
      let e : suc k * T ≡ k * T + T = omega arith in
      ap (λ z. sum f z g) e
      ∙ (sum-add (k * T) T g ∙ ap (λ x. both f x (sum f T (λ t. g (k * T + t)))) (sum-mul k T g))

  -- What lies behind the range does not count.
  pub sum-pad :
      (n m : ℕ) (g : ℕ → Option A) → n ≤ m → ((i : ℕ) → n ≤ i → g i ≡ none) → sum f m g ≡ sum f n g
  sum-pad n m g h e =
      let q : m ≡ n + (m - n) = omega (arith, h) in
      ap (λ k. sum f k g) q
      ∙ (sum-add n (m - n) g
          ∙ (ap (both f (sum f n g))
                (sum-none f (m - n) (λ i. g (n + i)) (λ i l. e (n + i) (omega arith)))
              ∙ both-none f (sum f n g)))

module _ {ℓ} {A : Type ℓ} (f : A → A → A) (assoc : (a b c : A) → f (f a b) c ≡ f a (f b c))
    (comm : (a b : A) → f a b ≡ f b a) where
  pub both_comm : (x y : Option A) → both f x y ≡ both f y x
  both_comm none none = refl
  both_comm none (some b) = refl
  both_comm (some a) none = refl
  both_comm (some a) (some b) = ap some (comm a b)

  both_interchange :
      (w x y z : Option A) → both f (both f w x) (both f y z) ≡ both f (both f w y) (both f x z)
  both_interchange w x y z =
      both_assoc f assoc w x (both f y z)
      ∙ (ap (both f w) (
            sym (both_assoc f assoc x y z)
            ∙ (ap (λ u. both f u z) (both_comm x y) ∙ both_assoc f assoc y x z))
          ∙ sym (both_assoc f assoc w y (both f x z)))

  pub sum-both :
      (n : ℕ) (g h : ℕ → Option A)
      → sum f n (λ i. both f (g i) (h i)) ≡ both f (sum f n g) (sum f n h)
  unfolding sum
  sum-both zero g h = refl
  sum-both (suc n) g h =
      ap (λ x. both f x (both f (g n) (h n))) (sum-both n g h)
      ∙ both_interchange (sum f n g) (sum f n h) (g n) (h n)

  pub sum_swap :
      (n m : ℕ) (g : ℕ → ℕ → Option A)
      → sum f n (λ i. sum f m (λ j. g i j)) ≡ sum f m (λ j. sum f n (λ i. g i j))
  unfolding sum
  sum_swap zero m g = sym (sum-none f m (λ j. none) (λ i l. refl))
  sum_swap (suc n) m g =
      ap (λ x. both f x (sum f m (λ j. g n j))) (sum_swap n m g)
      ∙ sym (sum-both m (λ j. sum f n (λ i. g i j)) (λ j. g n j))

  -- Values `u` that are added to the first ones
  pub sum-fold_in :
      (a k : ℕ) (s s' u : ℕ → A)
      → a ≤ k
      → ((i : ℕ) → i < a → s' i ≡ f (s i) (u i))
      → ((i : ℕ) → a ≤ i → i < k → s' i ≡ s i)
      → sum f k (λ i. some (s' i)) ≡ both f (sum f k (λ i. some (s i))) (sum f a (λ i. some (u i)))
  sum-fold_in a k s s' u le new old =
      let r = k - a in
      let held = λ (t : ℕ → A) (i : ℕ). some (t i) in
      let S = sum f a (held s) in
      let R = sum f r (λ i. held s (a + i)) in
      let U = sum f a (held u) in
      let split : k ≡ a + r = omega (arith, le) in
      let added : sum f a (held s') ≡ both f S U =
        sum_ext f a (held s') (λ i. both f (held s i) (held u i)) (λ i l. ap some (new i l))
        ∙ sum-both a (held s) (held u) in
      let kept : sum f r (λ i. held s' (a + i)) ≡ R =
        sum_ext f r (λ i. held s' (a + i)) (λ i. held s (a + i))
          (λ i l. ap some (old (a + i) (omega arith) (omega (arith, l)))) in
      ap (λ z. sum f z (held s')) split
      ∙ (sum-add f assoc a r (held s')
          ∙ (ap₂ (both f) added kept
              ∙ (both_assoc f assoc S U R
                  ∙ (ap (both f S) (both_comm U R)
                      ∙ (sym (both_assoc f assoc S R U)
                          ∙ ap (λ z. both f z U)
                              (sym (
                                ap (λ z. sum f z (held s)) split
                                ∙ sum-add f assoc a r (held s))))))))
