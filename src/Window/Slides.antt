-- ===== src/Window/Slides.antt =====
-- The number of slides, in src/picongpu/include/simulationControl/MovingWindow.hpp.
use piconalpaka.Prelude.{
  ℕ, zero, suc, ◌+◌, ◌-◌, ◌*◌, ◌/◌, ◌%◌, ◌≤◌, ◌<◌, Bool, true, false, ◌&&◌, ◌==◌, leb, ◌≡◌, arith,
  refl, sym, ap, ◌∙◌, subst, Bool-cases, inl, inr, ◌⊎◌,
}
use native.Mathlib.Nat.{
  mod-eq_of_lt, div-add-mod', div-eq_of_lt-le, le-div_iff_mul-le, mod-lt, mod_self, suc-mod,
  div-eq_of_eq-mul_left, mul-le-mul_left, mul_comm, div-lt_iff_lt-mul, div-le_self,
  div-le_of_le-mul,
}
use piconalpaka.Window.{
  MovingWindow, Pace, first_slide_step, first_move_step, steps_in_last_gpu, sub_uint32,
  increment_slide_counter, get_current_slide_info, slide_in_current_step, new_moving_window,
  set_sliding_window,
}

-- The moving window after the steps 1 to `n`, each of which asks `slideInCurrentStep`
unfoldable pub after : Pace → ℕ → MovingWindow
after c zero = set_sliding_window true new_moving_window
after c (suc n) = (slide_in_current_step c (suc n) (after c n)).1

-- The quotient goes up where the remainder is 0.
quotient :
    (n g : ℕ)
    → 0 < g
    → ((suc n % g ≡ 0) × (suc n / g ≡ suc (n / g))) ⊎ ((0 < suc n % g) × (suc n / g ≡ n / g))
quotient n g h = elim (Bool-cases (suc (n % g) == g)) [
  | inl e ↦
      let q : suc (n % g) ≡ g = ground (arith, e) in
      inl (
        suc-mod n g ∙ (ap (λ k. k % g) q ∙ mod_self g),
        div-eq_of_eq-mul_left h (omega (arith, d, q)),
      )
  | inr e ↦
      let l : suc (n % g) < g = ground (arith, e, mod-lt n h) in
      inr (
        subst (λ k. 0 < k) (sym (suc-mod n g ∙ mod-eq_of_lt l)) (omega arith),
        div-eq_of_lt-le g (omega (arith, d)) (omega (arith, d, l)),
      )
]
  where
    d : n / g * g + n % g ≡ n
    d = div-add-mod' n g

-- The bounds under which no `uint32_t` wraps
pub record Fits (c : Pace) (n : ℕ) : Type 0 where
  pub paced : 0 < c.steps_per_gpu
  pub several : 0 < c.devices_y
  pub started : c.steps_in_future ≤ c.steps_per_gpu * (c.devices_y - 1)
  pub extent : c.steps_per_gpu * c.devices_y < 4294967296
  pub steps : n + c.steps_in_future < 4294967296

sub_uint32-lt : (a b : ℕ) → b ≤ a → a < 4294967296 → sub_uint32 (a % 4294967296) b ≡ a - b
sub_uint32-lt a b h l = rw (mod-eq_of_lt l) (omega (arith, h, l))

-- The moving window after `slideInCurrentStep`
slide_lem :
    (c : Pace) (k : ℕ) (w : MovingWindow)
    → w.sliding_window_active ≡ true
    → leb (first_slide_step c) k ≡ true
    → leb (first_move_step c) k ≡ true
    → (steps_in_last_gpu c k == 0) ≡ true
    → (w.last_slide_step == k) ≡ false
    → (slide_in_current_step c k w).1
      ≡ record w { slide_counter = (w.slide_counter + 1) % 4294967296; last_slide_step = k }
unfolding slide_in_current_step get_current_slide_info increment_slide_counter
slide_lem c k w a f m s l = simp (a, m, f, s, l) refl

stay_lem :
    (c : Pace) (k : ℕ) (w : MovingWindow)
    → w.sliding_window_active ≡ true
    → (leb (first_slide_step c) k && steps_in_last_gpu c k == 0) ≡ false
    → (slide_in_current_step c k w).1 ≡ w
unfolding slide_in_current_step get_current_slide_info
stay_lem c k w a f = elim (Bool-cases (leb (first_move_step c) k)) [
  | inl m ↦ simp (a, m, f) refl
  | inr m ↦ simp (a, m) refl
]

-- The slides up to a step: the devices that the window has passed completely
abbrev pub slides_until : Pace → ℕ → ℕ
slides_until c n = (n + c.steps_in_future) / c.steps_per_gpu + 1 - c.devices_y

and_false : (b : Bool) → (b && false) ≡ false
and_false true = refl
and_false false = refl

-- What holds after the steps up to `n`
abbrev Counts : Pace → ℕ → MovingWindow → Type 0
Counts c n w =
    (w.sliding_window_active ≡ true)
    × (w.last_slide_step ≤ n)
    × (w.slide_counter ≡ slides_until c n)

module _ (c : Pace) (n : ℕ) (w : MovingWindow) (fits : Fits c (suc n)) (h : Counts c n w) where
  sum_suc : suc n + c.steps_in_future ≡ suc (n + c.steps_in_future)
  sum_suc = omega arith

  in_last : steps_in_last_gpu c (suc n) ≡ suc (n + c.steps_in_future) % c.steps_per_gpu
  in_last = ap (λ k. k % c.steps_per_gpu) (mod-eq_of_lt fits.steps ∙ sum_suc)

  less : c.steps_per_gpu * (c.devices_y - 1) ≤ c.steps_per_gpu * c.devices_y
  less = mul-le-mul_left c.steps_per_gpu (omega arith)

  first : first_slide_step c ≡ c.steps_per_gpu * c.devices_y - c.steps_in_future
  first =
      sub_uint32-lt (c.steps_per_gpu * c.devices_y) c.steps_in_future
        (omega (arith, less, fits.started)) fits.extent

  first_move : first_move_step c ≡ c.steps_per_gpu * (c.devices_y - 1) - c.steps_in_future
  first_move =
      sub_uint32-lt (c.steps_per_gpu * (c.devices_y - 1)) c.steps_in_future fits.started
        (omega (arith, less, fits.extent))

  -- The quotient of the next step against the number of devices
  passed :
      (c.devices_y ≤ suc (n + c.steps_in_future) / c.steps_per_gpu
        → leb (first_slide_step c) (suc n) ≡ true)
      × (suc (n + c.steps_in_future) / c.steps_per_gpu < c.devices_y
          → leb (first_slide_step c) (suc n) ≡ false)
  passed = (
    λ e.
        let l : c.devices_y * c.steps_per_gpu ≤ suc (n + c.steps_in_future) =
          (le-div_iff_mul-le fits.paced).0 e in
        ground (arith, first, l, mul_comm c.devices_y c.steps_per_gpu),
    λ e.
        let l : suc (n + c.steps_in_future) < c.devices_y * c.steps_per_gpu =
          (div-lt_iff_lt-mul fits.paced).0 e in
        ground (arith, first, l, mul_comm c.devices_y c.steps_per_gpu),
  )

  stays :
      leb (first_slide_step c) (suc n) && steps_in_last_gpu c (suc n) == 0 ≡ false
      → slides_until c (suc n) ≡ slides_until c n
      → Counts c (suc n) (slide_in_current_step c (suc n) w).1
  stays e same =
      subst (Counts c (suc n)) (sym (stay_lem c (suc n) w h.0 e))
        (h.0, omega (arith, h.1), h.2 ∙ sym same)

  slides :
      (suc (n + c.steps_in_future) % c.steps_per_gpu ≡ 0)
        × (suc (n + c.steps_in_future) / c.steps_per_gpu
            ≡ suc ((n + c.steps_in_future) / c.steps_per_gpu))
      → c.devices_y ≤ suc (n + c.steps_in_future) / c.steps_per_gpu
      → Counts c (suc n) (slide_in_current_step c (suc n) w).1
  slides q e =
      let small : (n + c.steps_in_future) / c.steps_per_gpu < 4294967295 =
        omega (arith, div-le_self (n + c.steps_in_future) c.steps_per_gpu, fits.steps) in
      let several = fits.several in
      let count : (w.slide_counter + 1) % 4294967296 ≡ slides_until c (suc n) =
        ap (λ k. (k + 1) % 4294967296) h.2
        ∙ (mod-eq_of_lt (omega (arith, small, several))
            ∙ sym (
                ap (λ k. k / c.steps_per_gpu + 1 - c.devices_y) sum_suc ∙ omega (arith, q.1, e))) in
      let s =
        slide_lem c (suc n) w h.0 (passed.0 e)
          (let l = passed.0 e in ground (arith, l, first, first_move, less))
          (ground (arith, in_last, q.0)) (ground (arith, h.1)) in
      subst (Counts c (suc n)) (sym s) (h.0, omega arith, count)

  next_Counts : Counts c (suc n) (slide_in_current_step c (suc n) w).1
  next_Counts = elim (quotient (n + c.steps_in_future) c.steps_per_gpu fits.paced) [
    | inl q ↦ elim (Bool-cases (leb c.devices_y (suc (n + c.steps_in_future) / c.steps_per_gpu))) [
      | inl e ↦ slides q (ground (arith, e))
      | inr e ↦ stays (rw (passed.1 (ground (arith, e))) refl) (
          let l : suc (n + c.steps_in_future) / c.steps_per_gpu < c.devices_y = ground (arith, e) in
          ap (λ k. k / c.steps_per_gpu + 1 - c.devices_y) sum_suc ∙ omega (arith, l, q.1))
    ]
    | inr q ↦
        stays
          (let z : (steps_in_last_gpu c (suc n) == 0) ≡ false = ground (arith, in_last, q.0) in
            rw z (and_false (leb (first_slide_step c) (suc n))))
          (ap (λ k. k / c.steps_per_gpu + 1 - c.devices_y) sum_suc
            ∙ ap (λ k. k + 1 - c.devices_y) q.1)
  ]

Fits-before : (c : Pace) (n : ℕ) → Fits c (suc n) → Fits c n
Fits-before c n fits = record {
  paced = fits.paced;
  several = fits.several;
  started = fits.started;
  extent = fits.extent;
  steps = omega (arith, fits.steps);
}

after-Counts : (c : Pace) (n : ℕ) → Fits c n → Counts c n (after c n)
unfolding after set_sliding_window
after-Counts c zero fits =
    let l = div-le_of_le-mul c.steps_per_gpu fits.started in
    let same : (0 + c.steps_in_future) / c.steps_per_gpu ≡ c.steps_in_future / c.steps_per_gpu =
      ap (λ k. k / c.steps_per_gpu) (omega arith) in
    (refl, omega arith, omega (arith, l, fits.several, same))
after-Counts c (suc n) fits =
    next_Counts c n (after c n) fits (after-Counts c n (Fits-before c n fits))

-- An active window over at least one device along y with at least one step for each, whose first move
-- is not before step 0, and numbers of steps and of devices within 2 ^ 32: when the steps from 1
-- to `n` have each asked for a slide, the counter is the number of devices that the window has
-- left behind, `(n + stepsInFuture) / stepsPerGPU + 1` less the number of devices.
pub slide_counter_lem : (c : Pace) (n : ℕ) → Fits c n → (after c n).slide_counter ≡ slides_until c n
slide_counter_lem c n fits = (after-Counts c n fits).2
