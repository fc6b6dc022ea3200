-- ===== src/Buffers/Grid/Tables.antt =====
-- Tables of exchanges, for `addExchange` of src/libPMacc/include/memory/buffers/GridBuffer.hpp.
use piconalpaka.Prelude.{
  ℕ, suc, ◌<◌, ◌≡◌, Bool, true, false, ◌&&◌, Option, none, some, ◌==◌, leb, ltb, if◌then◌else◌,
  arith, refl, sym, ap, ◌∙◌, Bool-cases, inl, inr, subst,
}
use piconalpaka.Mask.{Mask, is_set, mirrored_mask}
use piconalpaka.Mask.Mirror.{opposite, opposite-opposite, mirrored_mask_lem}
use piconalpaka.Buffers.Grid.{set_at}

-- A table after some rounds: the directions from `i` on that are set have new entries.
unfoldable pub filled : {A : Type 0} → ℕ → Mask → (ℕ → A) → (ℕ → Option A) → ℕ → Option A
filled i send new f j = if leb i j && is_set send j then some (new j) else f j

module _ {A : Type 0} (send : Mask) (new : ℕ → A) (f : ℕ → Option A) where
  pub filled-set_at :
      (i : ℕ)
      → is_set send i ≡ true
      → (j : ℕ) → filled (suc i) send new (set_at i (new i) f) j ≡ filled i send new f j
  unfolding filled
  filled-set_at i on j = elim (Bool-cases (j == i)) [
    | inl e ↦
        let q : j ≡ i = ground (arith, e) in
        let same : (i == i) ≡ true = ground arith in
        let below : leb (suc i) i ≡ false = ground arith in
        let at : leb i i ≡ true = ground arith in
        subst (λ k. filled (suc i) send new (set_at i (new i) f) k ≡ filled i send new f k) (sym q)
          (rw (same, below, at, on) refl)
    | inr e ↦ let l : leb (suc i) j ≡ leb i j = ground (arith, e) in rw (l, e) refl
  ]

  pub filled-skip :
      (i : ℕ)
      → is_set send i ≡ false
      → (j : ℕ) → filled (suc i) send new f j ≡ filled i send new f j
  unfolding filled
  filled-skip i off j = elim (Bool-cases (j == i)) [
    | inl e ↦
        let q : j ≡ i = ground (arith, e) in
        let below : leb (suc i) i ≡ false = ground arith in
        let at : leb i i ≡ true = ground arith in
        subst (λ k. filled (suc i) send new f k ≡ filled i send new f k) (sym q)
          (rw (below, off) (rw at refl))
    | inr e ↦ let l : leb (suc i) j ≡ leb i j = ground (arith, e) in rw l refl
  ]

  pub filled_at :
      (i : ℕ) (g : ℕ → Option A) (j : ℕ) → f j ≡ g j → filled i send new f j ≡ filled i send new g j
  unfolding filled
  filled_at i g j e = ap (λ x. if leb i j && is_set send j then some (new j) else x) e

  pub filled_end : (i j : ℕ) → j < i → filled i send new f j ≡ f j
  unfolding filled
  filled_end i j l = let below : leb i j ≡ false = ground (arith, l) in rw below refl

pub set_at-opposite :
    {A : Type 0} (i j : ℕ) (a : A) (f : ℕ → Option A)
    → i < 27
    → j < 27
    → set_at (opposite i) a f (opposite j) ≡ set_at i a (λ k. f (opposite k)) j
set_at-opposite i j a f h l =
    let same : (opposite j == opposite i) ≡ (j == i) =
      ground (arith, opposite-opposite i h, opposite-opposite j l) in
    rw same refl

abbrev set_in : Option Mask → ℕ → Bool
set_in none ex = false
set_in (some m) ex = is_set m ex

pub mirrored :
    (m : Mask)
    → (r : Mask) × (mirrored_mask m ≡ some r)
      × ((ex : ℕ) → 0 < ex → ex < 27 → is_set r ex ≡ is_set m (opposite ex))
mirrored m =
    let (r, e, b) = mirrored_mask_lem m 0 in
    (
      r,
      e,
      λ ex low high.
          let (r', e', b') = mirrored_mask_lem m ex in
          let same = ap (λ o. set_in o ex) (sym e ∙ e') in
          let in_range : (ltb 0 ex && ltb ex 27) ≡ true = ground (arith, low, high) in
          same ∙ b' ∙ ap (λ b. b && is_set m (opposite ex)) in_range,
    )
