-- ===== src/Frames/Last.antt =====
-- `setAsLastFrame` puts a frame behind a supercell's list.
use piconalpaka.Prelude.{
  ℕ, ◌≡◌, ◌≢◌, refl, true, some, List, [], ◌∷◌, ◌++◌, arith, ◌==◌, if◌then◌else◌, ◌∙◌, inl, inr,
  subst, sym,
}
use piconalpaka.Frames.{
  Frame, Box, set_next, set_first_ptr, set_last_ptr, set_as_last_frame, is_valid, with_frame,
  set_previous_lem, set_next_lem,
}
use piconalpaka.Frames.Segment.{
  unless, not_same, unless_among, Segment, Without, Holds, Segment-update, Segment-split,
  Segment-join, Without-split, Without-join, Distinct-snoc, Distinct-unsnoc, head_or-append,
  last_or-append, last_cases,
}
use piconalpaka.Frames.First.{Pushed}

abbrev behind : Frame → ℕ → Frame
behind f last = record f { previous_frame = last; next_frame = 0 }

abbrev linked : (p idx last : ℕ) → Frame → Box → Box
linked p idx last f b = with_frame p (behind f last) (
    set_last_ptr idx p
      (with_frame p (behind f last) (with_frame p (record f { next_frame = 0 }) b)))

run_linked :
    (p idx : ℕ) (f : Frame) (b : Box)
    → b.frames p ≡ some f
    → let old = (b.super_cells idx).last_frame_ptr in
      let c = linked p idx old f b in
      set_as_last_frame p idx b
      ≡ (if is_valid old then set_next old p c else some (set_first_ptr idx p c))
unfolding set_as_last_frame
run_linked p idx f b h =
    let old = (b.super_cells idx).last_frame_ptr in
    let f1 : Frame = record f { next_frame = 0 } in
    let b1 = with_frame p f1 b in
    let b2 = with_frame p (behind f old) b1 in
    rw (set_next_lem p 0 b f h, set_as_last_frame)
      (rw (set_previous_lem p old b1 f1 (ground arith))
        (rw (set_previous_lem p old (set_last_ptr idx p b2) (behind f old) (ground arith)) refl))

last_to_empty :
    (p idx : ℕ) (f : Frame) (b : Box)
    → b.frames p ≡ some f
    → p ≢ 0
    → Holds b idx []
    → (c : Box) × (set_as_last_frame p idx b ≡ some c) × Pushed b c p idx [] (p ∷ [])
last_to_empty p idx f b h valid holds =
    let old = (b.super_cells idx).last_frame_ptr in
    let c = set_first_ptr idx p (linked p idx old f b) in
    (
      c,
      run_linked p idx f b h ∙ ground (arith, holds.last),
      record {
        holds = record {
          first = ground arith;
          last = ground arith;
          linked = ((behind f old, ground arith, holds.last, refl), tt);
          valid = (valid, tt);
          distinct = (tt, tt);
        };
        elsewhere = λ j. unless (idx == j) (λ n. let ne = not_same idx j n in ground arith);
        others = λ q. unless_among p q [] (λ ne w. ground arith);
      },
    )

last_to_list :
    (p idx : ℕ) (xs : List ℕ) (q : ℕ) (f : Frame) (b : Box)
    → b.frames p ≡ some f
    → p ≢ 0
    → Without p (xs ++ q ∷ [])
    → Holds b idx (xs ++ q ∷ [])
    → (c : Box) × (set_as_last_frame p idx b ≡ some c)
      × Pushed b c p idx (xs ++ q ∷ []) ((xs ++ q ∷ []) ++ p ∷ [])
last_to_list p idx xs q f b h valid fresh holds =
    let old = (b.super_cells idx).last_frame_ptr in
    let old_q : old ≡ q = holds.last ∙ last_or-append 0 xs (q ∷ []) in
    let parts = Segment-split b.frames 0 xs (q ∷ []) 0 holds.linked in
    let new = Without-split p xs (q ∷ []) fresh in
    let live = Without-split 0 xs (q ∷ []) holds.valid in
    let unique = Distinct-unsnoc xs q holds.distinct in
    let g : Frame = parts.1.0.0 in
    let g' : Frame = record g { next_frame = p } in
    let c1 = linked p idx old f b in
    let at : c1.frames old ≡ some g = ground (arith, parts.1.0.1, old_q) in
    let is_live : is_valid old ≡ true = ground (arith, live.1.0) in
    let apart : Without old xs = rw old_q unique.1 in
    let c = with_frame old g' c1 in
    let front : Segment c.frames 0 xs q = Segment-update c1.frames old (some g') 0 xs q apart (
      Segment-update _ p _ 0 xs q new.0
        (Segment-update _ p _ 0 xs q new.0 (Segment-update _ p _ 0 xs q new.0 parts.0))) in
    (
      c,
      run_linked p idx f b h ∙ rw is_live (set_next_lem old p c1 g at),
      record {
        holds = record {
          first = ground (
            arith,
            holds.first,
            head_or-append 0 xs (q ∷ []),
            head_or-append 0 (xs ++ q ∷ []) (p ∷ []),
            head_or-append p xs (q ∷ []),
          );
          last = ground (arith, last_or-append 0 (xs ++ q ∷ []) (p ∷ []));
          linked =
              Segment-join c.frames 0 (xs ++ q ∷ []) (p ∷ []) 0
                (Segment-join c.frames 0 xs (q ∷ []) p front
                  ((g', ground (arith, old_q), parts.1.0.2, refl), tt))
                (
                  (
                    behind f old,
                    ground (arith, old_q, new.1.0),
                    old_q ∙ sym (last_or-append 0 xs (q ∷ [])),
                    refl,
                  ),
                  tt,
                );
          valid = Without-join 0 (xs ++ q ∷ []) (p ∷ []) holds.valid (valid, tt);
          distinct = Distinct-snoc (xs ++ q ∷ []) p holds.distinct fresh;
        };
        elsewhere = λ j. unless (idx == j) (λ n. let ne = not_same idx j n in ground arith);
        others = λ r.
            unless_among p r (xs ++ q ∷ [])
              (λ ne w. ground (arith, old_q, (Without-split r xs (q ∷ []) w).1.0));
      },
    )

-- `setAsLastFrame` on a frame of the heap that is not NULL and not in the list of supercell `idx`
-- succeeds, and puts it at the end of the list; the other supercells and the other frames stay as
-- they are.
pub set_as_last_frame_lem :
    (p idx : ℕ) (fs : List ℕ) (f : Frame) (b : Box)
    → b.frames p ≡ some f
    → p ≢ 0
    → Without p fs
    → Holds b idx fs
    → (c : Box) × (set_as_last_frame p idx b ≡ some c) × Pushed b c p idx fs (fs ++ p ∷ [])
set_as_last_frame_lem p idx fs f b h valid fresh holds = elim (last_cases fs) [
  | inl e ↦
      let P = λ (l : List ℕ).
        (c : Box) × (set_as_last_frame p idx b ≡ some c) × Pushed b c p idx l (l ++ p ∷ []) in
      subst P (sym e) (last_to_empty p idx f b h valid (subst (Holds b idx) e holds))
  | inr (xs, q, e) ↦
      let P = λ (l : List ℕ).
        (c : Box) × (set_as_last_frame p idx b ≡ some c) × Pushed b c p idx l (l ++ p ∷ []) in
      subst P (sym e) (
        last_to_list p idx xs q f b h valid (subst (Without p) e fresh)
          (subst (Holds b idx) e holds))
]
