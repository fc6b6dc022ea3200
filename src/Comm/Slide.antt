-- ===== src/Comm/Slide.antt =====
-- `slide` and `setStateAfterSlides` of src/libPMacc/include/communication/CommunicatorMPI.hpp.
use piconalpaka.Prelude.{
  ℕ, zero, suc, Bool, true, false, ◌&&◌, not, ◌==◌, if◌then◌else◌, ◌%◌, ◌+◌, ◌-◌, ◌<◌, ℤ, pos,
  negsuc, leb, ◌+ℤ◌, ◌-ℤ◌, eqb_ℤ, arith, refl, ◌≡◌, ◌∙◌, sub_ℕ_pos, ap, subst, sym, inl, inr, ltb,
  Bool-cases,
}
use piconalpaka.Dimensions.{DataSpace3}
use piconalpaka.Comm.{
  Communicator, raise, slid, update_rank, update_ranks, update_coordinates, located, start, slide,
  slides, set_state_after_slides, to_size, neighbour, has_neighbour,
}
use native.Mathlib.Nat.{mod-eq_of_lt, mod_self, mod-lt, mod-mod, mod-add-mod, zero-add, add-zero}

-- Where a process that has `y` in the topology is after `k` slides, in a circle of `d` devices.
abbrev pub slid_back : ℕ → ℕ → ℕ → ℕ
slid_back d y k = if leb k y then y - k else y + d - k

raise-pos : (n d m : ℕ) → raise n (pos d) (pos m) ≡ pos m
unfolding raise
raise-pos zero d m = refl
raise-pos (suc n) d m = ground (arith)

raise-below : (n d : ℕ) → n < d → raise (suc n) (pos d) (negsuc n) ≡ pos (d - suc n)
unfolding raise
raise-below n d h =
    let e = sub_ℕ_pos d (suc n) (omega arith) in (rw (e) refl) ∙ raise-pos n d (d - suc n)

slid_at :
    (d y k : ℕ)
    → 1 < d
    → y < d
    → k < d
    → slid (pos d) (pos 0 -ℤ pos k) (pos y) ≡ pos (slid_back d y k)
unfolding slid
slid_at d y k h hy hk = elim (Bool-cases (leb k y)) [
  | inl e ↦
      let s : pos y +ℤ (pos 0 -ℤ pos k) ≡ pos (y - k) = ground arith in
      let r : (y - k) % d ≡ y - k = mod-eq_of_lt (ground arith) in
      let l : ltb 1 d ≡ true = ground arith in rw (slid, s, l, r, e) (raise-pos 0 d (y - k))
  | inr e ↦
      let n = k - y - 1 in
      let s : pos y +ℤ (pos 0 -ℤ pos k) ≡ negsuc n = ground arith in
      let r : suc n % d ≡ suc n = mod-eq_of_lt (ground arith) in
      let l : ltb 1 d ≡ true = ground arith in
      let q : d - suc n ≡ y + d - k = ground arith in
      rw (slid, s, l, r, e, sym q) (raise-below n d (ground arith))
]

slid_lem :
    (d y k : ℕ) → y < d → k < d → slid (pos d) (pos 0 -ℤ pos k) (pos y) ≡ pos (slid_back d y k)
unfolding slid
slid_lem d y k hy hk = elim (Bool-cases (ltb 1 d)) [
  | inl e ↦ slid_at d y k (ground arith) hy hk
  | inr e ↦ rw (slid, e) (raise-pos 0 d y ∙ ap pos (ground arith))
]

-- A process that has `y` of `d` in the topology, after `k` slides.
pub record Slid (d y k : ℕ) (s : Communicator) : Type 0 where
  pub devices : s.dims.y ≡ pos d
  pub offset : s.y_offset ≡ pos 0 -ℤ pos k
  pub position : s.coordinates.y ≡ pos (slid_back d y k)

module _ (own : DataSpace3) (cart_rank : DataSpace3 → ℤ) where
  -- The ranks and the mask do not matter here.
  abbrev Same : Communicator → Communicator → Type 0
  Same s t = (s.dims ≡ t.dims) × (s.y_offset ≡ t.y_offset) × (s.coordinates ≡ t.coordinates)

  update_rank-Same : (i : ℕ) (s : Communicator) → Same (update_rank own cart_rank i s) s
  unfolding update_rank
  update_rank-Same i s =
      elim (Bool-cases (has_neighbour s.periodic s.dims (neighbour s.coordinates i))) [
        | inl e ↦ rw (update_rank, e) (refl, refl, refl)
        | inr e ↦ rw (update_rank, e) (refl, refl, refl)
      ]

  update_ranks-Same : (n i : ℕ) (s : Communicator) → Same (update_ranks own cart_rank n i s) s
  unfolding update_ranks
  update_ranks-Same zero i s = (refl, refl, refl)
  update_ranks-Same (suc n) i s =
      let r = update_ranks-Same n (suc i) (update_rank own cart_rank i s) in
      let t = update_rank-Same i s in (r.0 ∙ t.0, r.1 ∙ t.1, r.2 ∙ t.2)

  update_coordinates-Slid :
      (d y k : ℕ) (s : Communicator)
      → y < d
      → k < d
      → own.y ≡ pos y
      → s.dims.y ≡ pos d
      → s.y_offset ≡ pos 0 -ℤ pos k
      → Slid d y k (update_coordinates own cart_rank s)
  unfolding update_coordinates
  update_coordinates-Slid d y k s hy hk ho hd hs =
      let t = update_ranks-Same 26 1 (located own cart_rank s) in
      let at : slid s.dims.y s.y_offset own.y ≡ pos (slid_back d y k) =
        rw (ho, hd, hs) (slid_lem d y k hy hk) in
      record {
        devices = ap (λ c. c.y) t.0 ∙ hd;
        offset = t.1 ∙ hs;
        position = ap (λ c. c.y) t.2 ∙ at;
      }

  pub start-Slid :
      (d y : ℕ) (processes periodic : DataSpace3) (s : Communicator)
      → y < d
      → own.y ≡ pos y
      → processes.y ≡ pos d
      → Slid d y 0 (start own cart_rank processes periodic s)
  unfolding start
  start-Slid d y processes periodic s hy ho hd =
      update_coordinates-Slid d y 0
        (record s { periodic = periodic; y_offset = pos 0; dims = processes }) hy (omega arith) ho
        hd refl

  -- The new offset, with its wrap-around.
  next_offset :
      (d k : ℕ)
      → k < d
      → (if eqb_ℤ (pos 0 -ℤ pos k -ℤ pos 1) (pos 0 -ℤ pos d)
          then pos 0
          else (pos 0 -ℤ pos k -ℤ pos 1))
        ≡ (pos 0 -ℤ pos (suc k % d))
  next_offset d k h = elim (Bool-cases (suc k == d)) [
    | inl e ↦
        let q : suc k ≡ d = ground arith in
        let m : suc k % d ≡ 0 = rw q (mod_self d) in rw m (ground arith)
    | inr e ↦ let m : suc k % d ≡ suc k = mod-eq_of_lt (ground arith) in rw m (ground arith)
  ]

  returned :
      (d p : ℕ) {a b : ℤ} → 0 < d → a ≡ pos p → b ≡ pos d → eqb_ℤ a (b -ℤ pos 1) ≡ (p == d - 1)
  returned d p h ha hb = rw (ha, hb, sub_ℕ_pos d 1 h) refl

  -- On a communicator whose process has slid `k` times, and that has `y` below the number of
  -- devices in the topology, a slide brings the process one position back along y, and from the
  -- first position to the last; it returns whether the process is at the last position now.
  pub slide_lem :
      (d y k : ℕ) (s : Communicator)
      → y < d
      → k < d
      → own.y ≡ pos y
      → Slid d y k s
      → Slid d y (suc k % d) (slide own cart_rank s).0
        × ((slide own cart_rank s).1 ≡ (slid_back d y (suc k % d) == d - 1))
  unfolding slide
  slide_lem d y k s hy hk ho h =
      let y2 =
        if eqb_ℤ (s.y_offset -ℤ pos 1) (pos 0 -ℤ s.dims.y) then pos 0 else (s.y_offset -ℤ pos 1) in
      let o : y2 ≡ pos 0 -ℤ pos (suc k % d) = rw (h.offset, h.devices) (next_offset d k hk) in
      let r =
        update_coordinates-Slid d y (suc k % d) (record s { y_offset = y2 }) hy
          (mod-lt (suc k) (omega arith)) ho h.devices o in
      (r, returned d (slid_back d y (suc k % d)) (omega arith) r.position r.devices)

  slides-Slid :
      (d y n k : ℕ) (s : Communicator) (result : Bool)
      → y < d
      → k < d
      → own.y ≡ pos y
      → Slid d y k s
      → Slid d y ((k + n) % d) (slides own cart_rank n s result).0
  unfolding slides
  slides-Slid d y zero k s result hy hk ho h =
      subst (λ m. Slid d y m s) (sym (ap (λ m. m % d) (add-zero k) ∙ mod-eq_of_lt hk)) h
  slides-Slid d y (suc n) k s result hy hk ho h =
      let r = slide_lem d y k s hy hk ho h in
      let e : (suc k % d + n) % d ≡ (k + suc n) % d =
        mod-add-mod (suc k) d n ∙ ap (λ m. m % d) (omega arith) in
      subst
        (λ m.
          Slid d y m (slides own cart_rank n (slide own cart_rank s).0 (slide own cart_rank s).1).0)
        e
        (slides-Slid d y n (suc k % d) (slide own cart_rank s).0 (slide own cart_rank s).1 hy
          (mod-lt (suc k) (omega arith)) ho r.0)

  slides-start :
      (d y n : ℕ) (s : Communicator)
      → y < d
      → own.y ≡ pos y
      → Slid d y 0 s
      → Slid d y (n % d) (slides own cart_rank n s false).0
  slides-start d y n s hy ho h =
      subst (λ m. Slid d y (m % d) (slides own cart_rank n s false).0) (zero-add n)
        (slides-Slid d y n 0 s false hy (omega arith) ho h)

  slides_returned :
      (d y n k : ℕ) (s : Communicator) (result : Bool)
      → y < d
      → k < d
      → own.y ≡ pos y
      → Slid d y k s
      → (slides own cart_rank (suc n) s result).1 ≡ (slid_back d y ((k + suc n) % d) == d - 1)
  unfolding slides
  slides_returned d y zero k s result hy hk ho h =
      (slide_lem d y k s hy hk ho h).1 ∙ ap (λ m. slid_back d y (m % d) == d - 1) (omega arith)
  slides_returned d y (suc n) k s result hy hk ho h =
      let r = slide_lem d y k s hy hk ho h in
      let e : (suc k % d + suc n) % d ≡ (k + suc (suc n)) % d =
        mod-add-mod (suc k) d (suc n) ∙ ap (λ m. m % d) (omega arith) in
      slides_returned d y n (suc k % d) (slide own cart_rank s).0 (slide own cart_rank s).1 hy
        (mod-lt (suc k) (omega arith)) ho r.0
      ∙ ap (λ m. slid_back d y m == d - 1) e

  slides_result :
      (d y n : ℕ) (s : Communicator)
      → y < d
      → own.y ≡ pos y
      → Slid d y 0 s
      → (slides own cart_rank n s false).1 ≡ (not (n == 0) && (slid_back d y (n % d) == d - 1))
  unfolding slides
  slides_result d y zero s hy ho h = refl
  slides_result d y (suc n) s hy ho h =
      slides_returned d y n 0 s false hy (omega arith) ho h ∙ rw (zero-add (suc n)) (ground arith)

  -- `setStateAfterSlides` on a communicator that has not slid yet puts the process where that many
  -- single slides put it. It returns whether the process is at the last position then, except that
  -- it returns false for a multiple of the number of devices along y.
  pub set_state_after_slides_lem :
      (d y n : ℕ) (s : Communicator)
      → y < d
      → own.y ≡ pos y
      → Slid d y 0 s
      → Slid d y (n % d) (set_state_after_slides own cart_rank n s).0
        × Slid d y (n % d) (slides own cart_rank n s false).0
        × ((set_state_after_slides own cart_rank n s).1
            ≡ (not (n % d == 0) && (slid_back d y (n % d) == d - 1)))
  unfolding set_state_after_slides
  set_state_after_slides_lem d y n s hy ho h =
      let e : n % to_size s.dims.y ≡ n % d = ap (λ c. n % to_size c) h.devices in
      let P = λ (m : ℕ).
        Slid d y (n % d) (slides own cart_rank m s false).0
        × Slid d y (n % d) (slides own cart_rank n s false).0
        × ((slides own cart_rank m s false).1
            ≡ (not (n % d == 0) && (slid_back d y (n % d) == d - 1))) in
      subst P (sym e) (
        subst (λ m. Slid d y m (slides own cart_rank (n % d) s false).0) (mod-mod n d)
            (slides-start d y (n % d) s hy ho h),
        slides-start d y n s hy ho h,
        slides_result d y (n % d) s hy ho h
            ∙ ap (λ m. not (n % d == 0) && (slid_back d y m == d - 1)) (mod-mod n d),
      )
