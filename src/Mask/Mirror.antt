-- ===== src/Mask/Mirror.antt =====
-- Mirrored directions and masks.
use piconalpaka.Prelude.{
  ℕ, zero, suc, ◌+◌, ◌-◌, ◌*◌, ◌/◌, ◌%◌, ◌^◌, ◌<◌, ◌≤◌, ◌≡◌, refl, Bool, true, false, ◌&&◌, ◌||◌,
  Option, none, some, arith, ◌==◌, ltb, leb, pos, passes_below, passes_below-at, bit, bit-le,
  bit-bit_or, bit-pow, bit-zero, bit_or, Bool-cases, ◌⊎◌, inl, inr, ltb→lt, ap, ◌∙◌,
}
use piconalpaka.Dimensions.{sub3, create3, cell3_ext}
use piconalpaka.Mask.{
  Mask, is_set, same_digit, contains_from, contains_exchange_type, relative_directions3,
  mirrored_exchange_type, mirror_from, mirrored_mask,
}
use piconalpaka.Mask.Sets.{is_set-bit}

-- The digits 1 and 2 to the base 3 exchanged.
unfoldable pub opposite : ℕ → ℕ
opposite ex = flip ex + 3 * flip (ex / 3) + 9 * flip (ex / 9)
  where
    flip : ℕ → ℕ
    flip d = (3 - d % 3) % 3

abbrev is_value : ℕ → Option ℕ → Bool
is_value n none = false
is_value n (some m) = m == n

is_value-eq : (n : ℕ) (o : Option ℕ) → is_value n o ≡ true → o ≡ some n
is_value-eq n none h = cc
is_value-eq n (some m) h = ground arith

mirror_table : passes_below 27 (λ ex. is_value (opposite ex) (mirrored_exchange_type ex)) ≡ true
unfolding passes_below opposite mirrored_exchange_type contains_exchange_type contains_from
    same_digit is_set
mirror_table = refl

pub mirrored-opposite : (ex : ℕ) → ex < 27 → mirrored_exchange_type ex ≡ some (opposite ex)
mirrored-opposite ex h =
    is_value-eq (opposite ex) (mirrored_exchange_type ex) (passes_below-at 27 _ mirror_table ex h)

pub opposite-lt : (ex : ℕ) → opposite ex < 27
unfolding opposite
opposite-lt ex = omega arith

pub opposite-opposite : (ex : ℕ) → ex < 27 → opposite (opposite ex) ≡ ex
unfolding opposite
opposite-opposite ex h = omega arith

opposite_digits :
    (ex : ℕ)
    → (opposite ex % 3 ≡ (3 - ex % 3) % 3)
      × (opposite ex / 3 % 3 ≡ (3 - ex / 3 % 3) % 3)
      × (opposite ex / 3 / 3 % 3 ≡ (3 - ex / 3 / 3 % 3) % 3)
unfolding opposite
opposite_digits ex = omega arith

opposite-relative :
    (ex : ℕ)
    → ex < 27
    → relative_directions3 (opposite ex) ≡ sub3 (create3 (pos 0)) (relative_directions3 ex)
unfolding relative_directions3
opposite-relative ex h =
    cell3_ext (ground (arith, opposite_digits ex)) (ground (arith, opposite_digits ex))
      (ground (arith, opposite_digits ex))

mirrored_above : (ex : ℕ) → 27 ≤ ex → mirrored_exchange_type ex ≡ none
unfolding mirrored_exchange_type
mirrored_above ex h = ground arith

-- Every direction below 27 has a mirrored one, whose relative offsets are the negated ones and whose
-- own mirror is the direction again; any other number is refused.
pub mirrored_exchange_type_lem :
    (ex : ℕ)
    → ((m : ℕ) × (mirrored_exchange_type ex ≡ some m)
        × (mirrored_exchange_type m ≡ some ex)
        × (relative_directions3 m ≡ sub3 (create3 (pos 0)) (relative_directions3 ex))
        × (ex < 27))
      ⊎ ((mirrored_exchange_type ex ≡ none) × (27 ≤ ex))
mirrored_exchange_type_lem ex = elim (Bool-cases (ltb ex 27)) [
  | inl e ↦
      let h : ex < 27 = ltb→lt ex 27 e in
      inl (
        opposite ex,
        mirrored-opposite ex h,
        mirrored-opposite (opposite ex) (opposite-lt ex) ∙ ap some (opposite-opposite ex h),
        opposite-relative ex h,
        h,
      )
  | inr e ↦ inr (mirrored_above ex (ground arith), ground arith)
]

skip :
    (m : Mask) (tmp i j : ℕ)
    → is_set m i ≡ false
    → ((bit j tmp == 1) || (ltb j 27 && leb (i + 1) (opposite j) && is_set m (opposite j)))
      ≡ ((bit j tmp == 1) || (ltb j 27 && leb i (opposite j) && is_set m (opposite j)))
skip m tmp i j off = ground arith

take_up :
    (m : Mask) (tmp i j : ℕ)
    → i < 27
    → is_set m i ≡ true
    → ((bit j (bit_or tmp (2 ^ opposite i)) == 1)
        || (ltb j 27 && leb (i + 1) (opposite j) && is_set m (opposite j)))
      ≡ ((bit j tmp == 1) || (ltb j 27 && leb i (opposite j) && is_set m (opposite j)))
take_up m tmp i j h on = ground (
  arith,
  bit-bit_or j tmp (2 ^ opposite i),
  bit-pow j (opposite i),
  bit-le j tmp,
  opposite-opposite i h,
  opposite-opposite j,
  opposite-lt i,
)

-- The loop, from direction `i` on: a direction is in the result if it was in `tmp`, or if its mirror
-- is in the mask and not below `i`.
mirror_from_lem :
    (count i : ℕ) (m : Mask) (tmp : ℕ)
    → count + i ≡ 27
    → (t : ℕ) × (mirror_from count i m tmp ≡ some t)
      × ((j : ℕ)
          → (bit j t == 1)
            ≡ ((bit j tmp == 1) || (ltb j 27 && leb i (opposite j) && is_set m (opposite j))))
unfolding mirror_from
mirror_from_lem zero i m tmp e = (tmp, refl, λ j. ground (arith, opposite-lt j))
mirror_from_lem (suc count) i m tmp e = elim (Bool-cases (is_set m i)) [
  | inl on ↦
      let i_lt : i < 27 = omega arith in
      let (t, run, bits) =
        mirror_from_lem count (i + 1) m (bit_or tmp (2 ^ opposite i)) (omega arith) in
      (
        t,
        rw (on, mirror_from) (rw (mirrored-opposite i i_lt) run),
        λ j. bits j ∙ take_up m tmp i j i_lt on,
      )
  | inr off ↦
      let (t, run, bits) = mirror_from_lem count (i + 1) m tmp (omega arith) in
      (t, rw (off, mirror_from) run, λ j. bits j ∙ skip m tmp i j off)
]

-- Only direction 0 is the mirror of direction 0.
opposite_positive : (ex : ℕ) → ex < 27 → leb 1 (opposite ex) ≡ ltb 0 ex
unfolding opposite
opposite_positive ex h = ground arith

-- Mirroring a mask succeeds, and a direction is in the result exactly if it is one from 1 to 26 and
-- its mirror is in the mask.
pub mirrored_mask_lem :
    (m : Mask) (ex : ℕ)
    → (r : Mask) × (mirrored_mask m ≡ some r)
      × (is_set r ex ≡ (ltb 0 ex && ltb ex 27 && is_set m (opposite ex)))
unfolding mirrored_mask
mirrored_mask_lem m ex =
    let (t, run, bits) = mirror_from_lem 26 1 m 0 refl in
    (
      record { bit_mask = t },
      rw (run, mirrored_mask) refl,
      is_set-bit _ ex ∙ bits ex ∙ ground (arith, bit-zero ex, opposite_positive ex),
    )
