-- ===== src/Frames/Traverse.antt =====
-- Going through the frames of a supercell, as the kernels do: from `getFirstFrame` on with
-- `getNextFrame`, or from `getLastFrame` on with `getPreviousFrame`, while the pointer is valid.
use piconalpaka.Prelude.{
  ℕ, zero, suc, ◌≡◌, ◌≢◌, refl, Option, none, some, List, [], ◌∷◌, arith, length, Bool, true, false,
  ◌∙◌, ap, reverse, reverse-cons, subst,
}
use piconalpaka.Frames.{
  Box, is_valid, checked, get_next_frame, get_previous_frame, get_first_frame, get_last_frame,
}
use piconalpaka.Frames.Segment.{
  Segment, Without, Holds, head_or, last_or, last_or-append, Segment-split, Without-split,
}

-- The frames from a pointer on; `none` if the fuel is used up.
unfoldable pub visit : (ℕ → Box → Option (ℕ × Bool)) → ℕ → ℕ × Bool → Box → Option (List ℕ)
visit next zero at b = none
visit next (suc n) (p, false) b = some []
visit next (suc n) (p, true) b = elim (next p b) [
  | none ↦ none
  | some at ↦ elim (visit next n at b) [ none ↦ none | some ps ↦ some (p ∷ ps) ]
]

is_valid-nonzero : (p : ℕ) → p ≢ 0 → is_valid p ≡ true
is_valid-nonzero p h = ground arith

visit_none : (next : ℕ → Box → Option (ℕ × Bool)) (b : Box) → visit next 1 (checked 0) b ≡ some []
unfolding visit
visit_none next b = refl

visit_valid :
    (next : ℕ → Box → Option (ℕ × Bool)) (n p : ℕ) (at : ℕ × Bool) (ps : List ℕ) (b : Box)
    → next p b ≡ some at
    → visit next n at b ≡ some ps
    → visit next (suc n) (p, true) b ≡ some (p ∷ ps)
unfolding visit
visit_valid next n p at ps b h k = rw (h, visit) (rw k refl)

forward :
    (b : Box) (previous : ℕ) (fs : List ℕ)
    → Segment b.frames previous fs 0
    → Without 0 fs
    → visit get_next_frame (suc (length fs)) (checked (head_or 0 fs)) b ≡ some fs
unfolding get_next_frame
forward b previous [] s w = visit_none get_next_frame b
forward b previous (f ∷ fs) s w =
    let found : get_next_frame f b ≡ some (checked (head_or 0 fs)) =
      rw (s.0.1, get_next_frame) (ap (λ q. some (checked q)) s.0.3) in
    rw (is_valid-nonzero f w.0) (
      visit_valid get_next_frame (suc (length fs)) f (checked (head_or 0 fs)) fs b found
        (forward b f fs s.1 w.1))

backward :
    (b : Box) (rs : List ℕ) (next : ℕ)
    → Segment b.frames 0 (reverse rs) next
    → Without 0 (reverse rs)
    → visit get_previous_frame (suc (length rs)) (checked (last_or 0 (reverse rs))) b ≡ some rs
unfolding get_previous_frame
backward b [] next s w = visit_none get_previous_frame b
backward b (r ∷ rs) next s w =
    let e = reverse-cons r rs in
    let parts =
      Segment-split b.frames 0 (reverse rs) (r ∷ []) next
        (subst (λ l. Segment b.frames 0 l next) e s) in
    let valid = Without-split 0 (reverse rs) (r ∷ []) (subst (Without 0) e w) in
    let previous = last_or 0 (reverse rs) in
    let link = parts.1.0 in
    let found : get_previous_frame r b ≡ some (checked previous) =
      rw (link.1, get_previous_frame) (ap (λ q. some (checked q)) link.2) in
    let at : last_or 0 (reverse (r ∷ rs)) ≡ r =
      ap (last_or 0) e ∙ last_or-append 0 (reverse rs) (r ∷ []) in
    rw (at, is_valid-nonzero r valid.1.0)
      (visit_valid get_previous_frame (suc (length rs)) r (checked previous) rs b found
        (backward b rs r parts.0 valid.0))

-- Going through a list from its first frame on visits its frames in order, and ends.
pub visit-get_first_frame :
    (idx : ℕ) (fs : List ℕ) (b : Box)
    → Holds b idx fs
    → visit get_next_frame (suc (length fs)) (get_first_frame idx b) b ≡ some fs
unfolding get_first_frame
visit-get_first_frame idx fs b h = rw h.first (forward b 0 fs h.linked h.valid)

-- Going through a list from its last frame on visits its frames in the opposite order, and ends.
pub visit-get_last_frame :
    (idx : ℕ) (rs : List ℕ) (b : Box)
    → Holds b idx (reverse rs)
    → visit get_previous_frame (suc (length rs)) (get_last_frame idx b) b ≡ some rs
unfolding get_last_frame
visit-get_last_frame idx rs b h = rw h.last (backward b rs 0 h.linked h.valid)
