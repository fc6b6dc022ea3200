-- ===== src/Frames/Remove.antt =====
-- `removeLastFrame` takes the last frame off a supercell's list.
use piconalpaka.Prelude.{
  mem, ℕ, ◌≡◌, refl, true, false, not, Bool, none, some, List, [], ◌∷◌, ◌++◌, arith, ◌==◌,
  if◌then◌else◌, ◌∙◌, sym, inl, inr, subst, ap,
}
use piconalpaka.Frames.{
  Frame, Box, set_first_ptr, set_last_ptr, remove_frame, remove_valid, remove_last_frame, is_valid,
  with_frame, set_next_lem, ◌>>=◌,
}
use piconalpaka.Frames.Segment.{
  unless, not_same, unless_mem, Without, Holds, Segment-update, Segment-split, Segment-join,
  Without-split, Distinct-unsnoc, head_or-append, last_or-append, last_cases,
}

abbrev pub is_empty : List ℕ → Bool
is_empty [] = true
is_empty (f ∷ fs) = false

is_empty-snoc : (xs : List ℕ) (q : ℕ) → is_empty (xs ++ q ∷ []) ≡ false
is_empty-snoc [] q = refl
is_empty-snoc (x ∷ xs) q = refl

-- What the call leaves: the list without its last frame `q`, which is off the heap; all other
-- supercells, and the frames that were not in the list, as they were.
pub record Popped (b c : Box) (q idx : ℕ) (xs : List ℕ) : Type 0 where
  pub holds : Holds c idx xs
  pub freed : c.frames q ≡ none
  pub elsewhere :
      (j : ℕ) → c.super_cells j ≡ (if idx == j then c.super_cells j else b.super_cells j)
  pub others : (r : ℕ) → c.frames r ≡ (if mem r (xs ++ q ∷ []) then c.frames r else b.frames r)

remove_only :
    (idx q : ℕ) (b : Box)
    → Holds b idx (q ∷ [])
    → (c : Box) × (remove_last_frame idx b ≡ some (false, c)) × Popped b c q idx []
unfolding remove_last_frame remove_valid
remove_only idx q b holds =
    let g : Frame = holds.linked.0.0 in
    let last = (b.super_cells idx).last_frame_ptr in
    let c = remove_frame last (set_last_ptr idx 0 (set_first_ptr idx 0 b)) in
    let at : b.frames last ≡ some g = ground (arith, holds.linked.0.1, holds.last) in
    let live : is_valid last ≡ true = ground (arith, holds.last, holds.valid.0) in
    let alone : is_valid g.previous_frame ≡ false = ground (arith, holds.linked.0.2) in
    (
      c,
      rw (live, remove_last_frame) (rw (at, ◌>>=◌) (rw (alone, remove_valid) refl)),
      record {
        holds = record {
          first = ground arith;
          last = ground arith;
          linked = tt;
          valid = tt;
          distinct = tt;
        };
        freed = ground (arith, holds.last);
        elsewhere = λ j. unless (idx == j) (λ n. let ne = not_same idx j n in ground arith);
        others = λ r. unless_mem r (q ∷ []) (λ w. ground (arith, holds.last, w.0));
      },
    )

remove_behind :
    (idx : ℕ) (ys : List ℕ) (p q : ℕ) (b : Box)
    → Holds b idx ((ys ++ p ∷ []) ++ q ∷ [])
    → (c : Box) × (remove_last_frame idx b ≡ some (true, c)) × Popped b c q idx (ys ++ p ∷ [])
unfolding remove_last_frame remove_valid
remove_behind idx ys p q b holds =
    let xs = ys ++ p ∷ [] in
    let parts = Segment-split b.frames 0 xs (q ∷ []) 0 holds.linked in
    let inner = Segment-split b.frames 0 ys (p ∷ []) q parts.0 in
    let valid = Without-split 0 xs (q ∷ []) holds.valid in
    let valid_p = Without-split 0 ys (p ∷ []) valid.0 in
    let unique = Distinct-unsnoc xs q holds.distinct in
    let unique_p = Distinct-unsnoc ys p unique.0 in
    let off_q = Without-split q ys (p ∷ []) unique.1 in
    let g : Frame = parts.1.0.0 in
    let g' : Frame = inner.1.0.0 in
    let last = (b.super_cells idx).last_frame_ptr in
    let last_q : last ≡ q = holds.last ∙ last_or-append 0 xs (q ∷ []) in
    let prev_p : g.previous_frame ≡ p = parts.1.0.2 ∙ last_or-append 0 ys (p ∷ []) in
    let prev = g.previous_frame in
    let at : b.frames last ≡ some g = ground (arith, parts.1.0.1, last_q) in
    let at_prev : b.frames prev ≡ some g' = ground (arith, inner.1.0.1, prev_p) in
    let live : is_valid last ≡ true = ground (arith, last_q, valid.1.0) in
    let live_prev : is_valid prev ≡ true = ground (arith, prev_p, valid_p.1.0) in
    let c =
      remove_frame last
        (set_last_ptr idx prev (with_frame prev (record g' { next_frame = 0 }) b)) in
    let apart : Without prev ys = rw prev_p unique_p.1 in
    let apart_last : Without last ys = rw last_q off_q.0 in
    (
      c,
      rw (live, remove_last_frame)
          (rw (at, ◌>>=◌)
            (rw (live_prev, remove_valid) (rw (set_next_lem prev 0 b g' at_prev) refl))),
      record {
        holds = record {
          first = ground (
            arith,
            holds.first,
            head_or-append 0 xs (q ∷ []),
            head_or-append q ys (p ∷ []),
            head_or-append 0 ys (p ∷ []),
          );
          last = ground (arith, last_or-append 0 ys (p ∷ []));
          linked =
              Segment-join c.frames 0 ys (p ∷ []) 0
                (Segment-update _ last none 0 ys p apart_last
                  (Segment-update b.frames prev _ 0 ys p apart inner.0))
                (
                  (
                    record g' { next_frame = 0 },
                    ground (arith, prev_p, last_q, off_q.1.0),
                    inner.1.0.2,
                    refl,
                  ),
                  tt,
                );
          valid = valid.0;
          distinct = unique.0;
        };
        freed = ground (arith, last_q);
        elsewhere = λ j. unless (idx == j) (λ n. let ne = not_same idx j n in ground arith);
        others = λ r. unless_mem r (xs ++ q ∷ []) (λ w.
            let s = Without-split r xs (q ∷ []) w in
            ground (arith, last_q, prev_p, s.1.0, (Without-split r ys (p ∷ []) s.0).1.0));
      },
    )

-- `removeLastFrame` on a list that is not empty succeeds, takes the last frame off it, and returns
-- whether any are left.
pub remove_last_frame_lem :
    (idx : ℕ) (xs : List ℕ) (q : ℕ) (b : Box)
    → Holds b idx (xs ++ q ∷ [])
    → (c : Box) × (remove_last_frame idx b ≡ some (not (is_empty xs), c)) × Popped b c q idx xs
remove_last_frame_lem idx xs q b holds = elim (last_cases xs) [
  | inl e ↦ subst Result (sym e) (remove_only idx q b (subst Held e holds))
  | inr (ys, p, e) ↦
      let r = remove_behind idx ys p q b (subst Held e holds) in
      subst Result (sym e) (r.0, r.1 ∙ ap (λ t. some (not t, r.0)) (sym (is_empty-snoc ys p)), r.2)
]
  where
    Held : List ℕ → Type 0
    Held l = Holds b idx (l ++ q ∷ [])

    Result : List ℕ → Type 0
    Result l =
        (c : Box) × (remove_last_frame idx b ≡ some (not (is_empty l), c)) × Popped b c q idx l

-- `removeLastFrame` on an empty list changes nothing, and returns false.
pub remove_last_frame-empty :
    (idx : ℕ) (b : Box) → Holds b idx [] → remove_last_frame idx b ≡ some (false, b)
unfolding remove_last_frame
remove_last_frame-empty idx b holds = ground (arith, holds.last)
