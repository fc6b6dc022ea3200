-- ===== src/Comm/Neighbours.antt =====
-- The loop over the directions in `updateCoordinates` of
-- src/libPMacc/include/communication/CommunicatorMPI.hpp.
use piconalpaka.Prelude.{
  ℕ, zero, suc, Bool, true, false, ◌||◌, ◌==◌, if◌then◌else◌, ◌+◌, ℤ, negsuc, arith, bit-zero, refl,
  ◌≡◌, ◌∙◌, ap, ap₂, sym, inl, inr, Bool-cases, leb, ltb, ◌&&◌,
}
use piconalpaka.Dimensions.{DataSpace3}
use piconalpaka.Mask.{is_set, mask_of, empty_mask}
use piconalpaka.Mask.Sets.{is_set_laws, is_set-bit}
use piconalpaka.Comm.{
  Communicator, located, update_rank, update_ranks, update_coordinates, neighbour, has_neighbour,
  unslid,
}

or_false : (b : Bool) → (b || false) ≡ b
or_false true = refl
or_false false = refl

or_assoc : (a b c : Bool) → ((a || b) || c) ≡ (a || (b || c))
or_assoc true b c = refl
or_assoc false b c = refl

none_set : (i : ℕ) → is_set empty_mask i ≡ false
none_set i = is_set-bit empty_mask i ∙ rw (bit-zero i) refl

-- Whether a loop of `n` rounds from `i` on comes to `j`.
abbrev pub visits : ℕ → ℕ → ℕ → Bool
visits i n j = leb i j && ltb j (i + n)

-- The first round, and the others
visits-mask :
    (i n j : ℕ) (h : ℕ → Bool)
    → ((h i && (j == i)) || (visits (suc i) n j && h j)) ≡ (visits i (suc n) j && h j)
visits-mask i n j h = elim (Bool-cases (j == i)) [
  | inl e ↦
      let q : j ≡ i = ground arith in
      let v : visits (suc i) n j ≡ false = ground arith in
      let w : visits i (suc n) j ≡ true = ground arith in
      rw (v, w, e, q) (or_false (h i && true) ∙ and_true (h i))
  | inr e ↦
      let v : visits (suc i) n j ≡ visits i (suc n) j = ground arith in
      rw (v, e) (ap (λ b. b || (visits i (suc n) j && h j)) (and_false (h i)))
]
  where
    and_true : (b : Bool) → (b && true) ≡ b
    and_true true = refl
    and_true false = refl

    and_false : (b : Bool) → (b && false) ≡ false
    and_false true = refl
    and_false false = refl

visits-rank :
    (i n j : ℕ) (r old : ℕ → ℤ)
    → (if visits (suc i) n j then r j else (if j == i then r i else old j))
      ≡ (if visits i (suc n) j then r j else old j)
visits-rank i n j r old = elim (Bool-cases (j == i)) [
  | inl e ↦
      let q : j ≡ i = ground arith in
      let v : visits (suc i) n j ≡ false = ground arith in
      let w : visits i (suc n) j ≡ true = ground arith in rw (v, w, e) (ap r (sym q))
  | inr e ↦ let v : visits (suc i) n j ≡ visits i (suc n) j = ground arith in rw (v, e) refl
]

module _ (own : DataSpace3) (cart_rank : DataSpace3 → ℤ) where
  -- Whether the process has a neighbour in direction `i`, and its rank.
  abbrev pub has : Communicator → ℕ → Bool
  has s i = has_neighbour s.periodic s.dims (neighbour s.coordinates i)

  abbrev pub rank : Communicator → ℕ → ℤ
  rank s i =
      if has s i then cart_rank (unslid s.dims s.y_offset (neighbour s.coordinates i)) else negsuc 0

  abbrev Fixed : Communicator → Communicator → Type 0
  Fixed t s = ((i : ℕ) → has t i ≡ has s i) × ((i : ℕ) → rank t i ≡ rank s i)

  update_rank_lem :
      (i : ℕ) (s : Communicator)
      → Fixed (update_rank own cart_rank i s) s
        × ((j : ℕ)
            → (update_rank own cart_rank i s).ranks j ≡ (if j == i then rank s i else s.ranks j))
        × ((j : ℕ)
            → is_set (update_rank own cart_rank i s).communication_mask j
              ≡ (is_set s.communication_mask j || (has s i && j == i)))
  unfolding update_rank
  update_rank_lem i s = elim (Bool-cases (has s i)) [
    | inl e ↦
        rw (update_rank, e)
          (
            ((λ j. refl), (λ j. refl)),
            (λ j. refl),
            λ j.
                (is_set_laws s.communication_mask (mask_of i) j i).0
                ∙ ap (λ b. is_set s.communication_mask j || b)
                    (is_set_laws s.communication_mask (mask_of i) j i).2,
          )
    | inr e ↦
        rw (update_rank, e)
          (
            ((λ j. refl), (λ j. refl)),
            (λ j. refl),
            λ j. sym (or_false (is_set s.communication_mask j)),
          )
  ]

  update_ranks_lem :
      (n i : ℕ) (s : Communicator) (j : ℕ)
      → ((update_ranks own cart_rank n i s).ranks j
          ≡ (if visits i n j then rank s j else s.ranks j))
        × (is_set (update_ranks own cart_rank n i s).communication_mask j
            ≡ (is_set s.communication_mask j || (visits i n j && has s j)))
  unfolding update_ranks
  update_ranks_lem zero i s j =
      let v : visits i 0 j ≡ false = ground arith in
      rw v (refl, sym (or_false (is_set s.communication_mask j)))
  update_ranks_lem (suc n) i s j =
      let t = update_rank own cart_rank i s in
      let (f, r, m) = update_rank_lem i s in
      let (r', m') = update_ranks_lem n (suc i) t j in
      let rs : (if visits (suc i) n j then rank t j else t.ranks j)
          ≡ (if visits (suc i) n j then rank s j else (if j == i then rank s i else s.ranks j)) =
        ap₂ (λ a b. if visits (suc i) n j then a else b) (f.1 j) (r j) in
      let ms : (is_set t.communication_mask j || (visits (suc i) n j && has t j)) ≡ (
          (is_set s.communication_mask j || (has s i && j == i))
          || (visits (suc i) n j && has s j)) =
        ap₂ (λ a b. a || (visits (suc i) n j && b)) (m j) (f.0 j) in
      (
        r' ∙ rs ∙ visits-rank i n j (rank s) s.ranks,
        m'
            ∙ ms
            ∙ or_assoc (is_set s.communication_mask j) (has s i && j == i)
                (visits (suc i) n j && has s j)
            ∙ ap (λ b. is_set s.communication_mask j || b) (visits-mask i n j (has s)),
      )

  -- After `updateCoordinates` a direction is in the communication mask exactly if it is from 1 to 26
  -- and there is a neighbour; its rank is then the one that MPI gives for the neighbour's
  -- coordinates, and -1 for a direction from 1 to 26 without a neighbour.
  pub update_coordinates_lem :
      (s : Communicator) (i : ℕ)
      → let s' = located own cart_rank s in
        let r = update_coordinates own cart_rank s in
        (is_set r.communication_mask i ≡ (visits 1 26 i && has s' i))
        × (r.ranks i ≡ (if visits 1 26 i then rank s' i else s.ranks i))
  unfolding update_coordinates
  update_coordinates_lem s i =
      let r = update_ranks_lem 26 1 (located own cart_rank s) i in
      (r.1 ∙ ap (λ b. b || (visits 1 26 i && has (located own cart_rank s) i)) (none_set i), r.0)
