-- ===== src/Frames/First.antt =====
-- `setAsFirstFrame` puts a frame in front of a supercell's list.
use piconalpaka.Prelude.{
  mem, ◌||◌, ℕ, ◌≡◌, ◌≢◌, refl, some, List, [], ◌∷◌, arith, ◌==◌, if◌then◌else◌, true, ◌∙◌,
}
use piconalpaka.Frames.{
  Frame, Box, set_previous, set_first_ptr, set_last_ptr, set_as_first_frame, is_valid, with_frame,
  set_previous_lem, set_next_lem,
}
use piconalpaka.Frames.Segment.{unless, not_same, unless_among, Without, Holds, Segment-update}

-- The frame that is linked in front of `first`.
abbrev pub in_front : Frame → ℕ → Frame
in_front f first = record f { previous_frame = 0; next_frame = first }

-- The box after the three writes to the new frame, which is linked in front of `first`.
abbrev linked : (p idx first : ℕ) → Frame → Box → Box
linked p idx first f b = with_frame p (in_front f first) (
    set_first_ptr idx p
      (with_frame p (in_front f first) (with_frame p (record f { previous_frame = 0 }) b)))

-- The call up to its last branch.
run_linked :
    (p idx : ℕ) (f : Frame) (b : Box)
    → b.frames p ≡ some f
    → let old = (b.super_cells idx).first_frame_ptr in
      let c = linked p idx old f b in
      set_as_first_frame p idx b
      ≡ (if is_valid old then set_previous old p c else some (set_last_ptr idx p c))
unfolding set_as_first_frame
run_linked p idx f b h =
    let old = (b.super_cells idx).first_frame_ptr in
    let f1 : Frame = record f { previous_frame = 0 } in
    let b1 = with_frame p f1 b in
    let b2 = with_frame p (in_front f old) b1 in
    rw (set_previous_lem p 0 b f h, set_as_first_frame)
      (rw (set_next_lem p old b1 f1 (ground arith))
        (rw (set_next_lem p old (set_first_ptr idx p b2) (in_front f old) (ground arith)) refl))

-- What the call leaves: the frame `p` in front of the list `fs` of supercell `idx`, and all other
-- supercells, and the frames that are not in the list, as they were.
pub record Pushed (b c : Box) (p idx : ℕ) (fs after : List ℕ) : Type 0 where
  pub holds : Holds c idx after
  pub elsewhere :
      (j : ℕ) → c.super_cells j ≡ (if idx == j then c.super_cells j else b.super_cells j)
  pub others : (q : ℕ) → c.frames q ≡ (if p == q || mem q fs then c.frames q else b.frames q)

first_to_empty :
    (p idx : ℕ) (f : Frame) (b : Box)
    → b.frames p ≡ some f
    → p ≢ 0
    → Holds b idx []
    → (c : Box) × (set_as_first_frame p idx b ≡ some c) × Pushed b c p idx [] (p ∷ [])
first_to_empty p idx f b h valid holds =
    let old = (b.super_cells idx).first_frame_ptr in
    let c = set_last_ptr idx p (linked p idx old f b) in
    (
      c,
      run_linked p idx f b h ∙ ground (arith, holds.first),
      record {
        holds = record {
          first = ground arith;
          last = ground arith;
          linked = ((in_front f old, ground arith, refl, holds.first), tt);
          valid = (valid, tt);
          distinct = (tt, tt);
        };
        elsewhere = λ j. unless (idx == j) (λ n. let ne = not_same idx j n in ground arith);
        others = λ q. unless_among p q [] (λ ne w. ground arith);
      },
    )

first_to_list :
    (p idx q : ℕ) (fs : List ℕ) (f : Frame) (b : Box)
    → b.frames p ≡ some f
    → p ≢ 0
    → Without p (q ∷ fs)
    → Holds b idx (q ∷ fs)
    → (c : Box) × (set_as_first_frame p idx b ≡ some c) × Pushed b c p idx (q ∷ fs) (p ∷ q ∷ fs)
first_to_list p idx q fs f b h valid fresh holds =
    let old = (b.super_cells idx).first_frame_ptr in
    let g : Frame = holds.linked.0.0 in
    let g' : Frame = record g { previous_frame = p } in
    let c1 = linked p idx old f b in
    let at : c1.frames old ≡ some g = ground (arith, holds.linked.0.1, holds.first) in
    let live : is_valid old ≡ true = ground (arith, holds.first, holds.valid) in
    let apart : Without old fs = rw holds.first holds.distinct.0 in
    let c = with_frame old g' c1 in
    (
      c,
      run_linked p idx f b h ∙ rw live (set_previous_lem old p c1 g at),
      record {
        holds = record {
          first = ground arith;
          last = ground (arith, holds.last);
          linked = (
            (in_front f old, ground (arith, holds.first), refl, holds.first),
            (
              (g', ground arith, refl, holds.linked.0.3),
              Segment-update c1.frames old (some g') q fs 0 apart (
                  Segment-update _ p _ q fs 0 fresh.1 (
                    Segment-update _ p _ q fs 0 fresh.1
                      (Segment-update _ p _ q fs 0 fresh.1 holds.linked.1))),
            ),
          );
          valid = (valid, holds.valid);
          distinct = (fresh, holds.distinct);
        };
        elsewhere = λ j. unless (idx == j) (λ n. let ne = not_same idx j n in ground arith);
        others = λ r. unless_among p r (q ∷ fs) (λ ne w. ground (arith, holds.first));
      },
    )

-- `setAsFirstFrame` on a frame of the heap that is not NULL and not in the list of supercell `idx`
-- succeeds, and puts it in front of the list; the other supercells and the other frames stay as
-- they are.
pub set_as_first_frame_lem :
    (p idx : ℕ) (fs : List ℕ) (f : Frame) (b : Box)
    → b.frames p ≡ some f
    → p ≢ 0
    → Without p fs
    → Holds b idx fs
    → (c : Box) × (set_as_first_frame p idx b ≡ some c) × Pushed b c p idx fs (p ∷ fs)
set_as_first_frame_lem p idx [] f b h valid fresh holds = first_to_empty p idx f b h valid holds
set_as_first_frame_lem p idx (q ∷ fs) f b h valid fresh holds =
    first_to_list p idx q fs f b h valid fresh holds
