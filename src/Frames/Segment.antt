-- ===== src/Frames/Segment.antt =====
-- The list of frames that a supercell holds.
use piconalpaka.Prelude.{
  mem, Bool, true, false, ◌||◌, update, ℕ, ◌≡◌, ◌≢◌, refl, Option, some, List, [], ◌∷◌, ◌++◌, arith,
  ◌==◌, if◌then◌else◌, All, ◌∙◌, sym, ◌⊎◌, inl, inr, ap,
}
use piconalpaka.Frames.{Frame, Box}

-- The first and last pointer of a list, or another pointer if it is empty.
abbrev pub head_or : ℕ → List ℕ → ℕ
head_or d [] = d
head_or d (f ∷ fs) = f

abbrev pub last_or : ℕ → List ℕ → ℕ
last_or d [] = d
last_or d (f ∷ fs) = last_or f fs

-- The frame at `p` has these links.
abbrev pub Links : (ℕ → Option Frame) → ℕ → ℕ → ℕ → Type 0
Links h p previous next =
    (f : Frame) × (h p ≡ some f) × (f.previous_frame ≡ previous) × (f.next_frame ≡ next)

-- The frames `fs`, linked in this order, behind the frame `previous` and before the frame `next`.
abbrev pub Segment : (ℕ → Option Frame) → ℕ → List ℕ → ℕ → Type 0
Segment h previous [] next = Unit {0}
Segment h previous (f ∷ fs) next = Links h f previous (head_or next fs) × Segment h f fs next

-- No frame of the list is `p`.
abbrev pub Without : ℕ → List ℕ → Type 0
Without p fs = All (λ f. f ≢ p) fs

abbrev pub Distinct : List ℕ → Type 0
Distinct [] = Unit {0}
Distinct (f ∷ fs) = Without f fs × Distinct fs

-- The frames of supercell `idx`, in order.
pub record Holds (b : Box) (idx : ℕ) (fs : List ℕ) : Type 0 where
  pub first : (b.super_cells idx).first_frame_ptr ≡ head_or 0 fs
  pub last : (b.super_cells idx).last_frame_ptr ≡ last_or 0 fs
  pub linked : Segment b.frames 0 fs 0
  pub valid : Without 0 fs
  pub distinct : Distinct fs

-- What holds of the frames of a segment is not changed by a write elsewhere.
pub Segment-update :
    (h : ℕ → Option Frame) (p : ℕ) (v : Option Frame) (previous : ℕ) (fs : List ℕ) (next : ℕ)
    → Without p fs
    → Segment h previous fs next
    → Segment (update h p v) previous fs next
Segment-update h p v previous [] next w s = tt
Segment-update h p v previous (f ∷ fs) next w s =
    ((s.0.0, ground (arith, s.0.1), s.0.2, s.0.3), Segment-update h p v f fs next w.1 s.1)

pub head_or-append : (d : ℕ) (xs ys : List ℕ) → head_or d (xs ++ ys) ≡ head_or (head_or d ys) xs
head_or-append d [] ys = refl
head_or-append d (x ∷ xs) ys = refl

pub last_or-append : (d : ℕ) (xs ys : List ℕ) → last_or d (xs ++ ys) ≡ last_or (last_or d xs) ys
last_or-append d [] ys = refl
last_or-append d (x ∷ xs) ys = last_or-append x xs ys

pub Segment-split :
    (h : ℕ → Option Frame) (previous : ℕ) (xs ys : List ℕ) (next : ℕ)
    → Segment h previous (xs ++ ys) next
    → Segment h previous xs (head_or next ys) × Segment h (last_or previous xs) ys next
Segment-split h previous [] ys next s = (tt, s)
Segment-split h previous (x ∷ xs) ys next s =
    let r = Segment-split h x xs ys next s.1 in
    (((s.0.0, s.0.1, s.0.2, s.0.3 ∙ head_or-append next xs ys), r.0), r.1)

pub Segment-join :
    (h : ℕ → Option Frame) (previous : ℕ) (xs ys : List ℕ) (next : ℕ)
    → Segment h previous xs (head_or next ys)
    → Segment h (last_or previous xs) ys next
    → Segment h previous (xs ++ ys) next
Segment-join h previous [] ys next s t = t
Segment-join h previous (x ∷ xs) ys next s t = (
  (s.0.0, s.0.1, s.0.2, s.0.3 ∙ sym (head_or-append next xs ys)),
  Segment-join h x xs ys next s.1 t,
)

pub Without-split : (p : ℕ) (xs ys : List ℕ) → Without p (xs ++ ys) → Without p xs × Without p ys
Without-split p [] ys w = (tt, w)
Without-split p (x ∷ xs) ys w = let r = Without-split p xs ys w.1 in ((w.0, r.0), r.1)

pub Without-join : (p : ℕ) (xs ys : List ℕ) → Without p xs → Without p ys → Without p (xs ++ ys)
Without-join p [] ys v w = w
Without-join p (x ∷ xs) ys v w = (v.0, Without-join p xs ys v.1 w)

-- A list with another frame at its end.
pub Distinct-snoc : (xs : List ℕ) (q : ℕ) → Distinct xs → Without q xs → Distinct (xs ++ q ∷ [])
Distinct-snoc [] q d w = (tt, tt)
Distinct-snoc (x ∷ xs) q d w =
    (Without-join x xs (q ∷ []) d.0 ((λ e. w.0 (sym e)), tt), Distinct-snoc xs q d.1 w.1)

pub Distinct-unsnoc : (xs : List ℕ) (q : ℕ) → Distinct (xs ++ q ∷ []) → Distinct xs × Without q xs
Distinct-unsnoc [] q d = (tt, tt)
Distinct-unsnoc (x ∷ xs) q d =
    let r = Distinct-unsnoc xs q d.1 in
    let w = Without-split x xs (q ∷ []) d.0 in ((w.0, r.0), ((λ e. w.1.0 (sym e)), r.1))

-- A list is empty or has a last frame.
pub last_cases : (fs : List ℕ) → (fs ≡ []) ⊎ ((xs : List ℕ) × (q : ℕ) × (fs ≡ xs ++ q ∷ []))
last_cases [] = inl refl
last_cases (f ∷ fs) = elim (last_cases fs) [
  | inl e ↦ inr ([], f, ap (◌∷◌ f) e)
  | inr (xs, q, e) ↦ inr (f ∷ xs, q, ap (◌∷◌ f) e)
]

-- What is kept outside of a case.
pub unless {ℓ} : {A : Type ℓ} {x y : A} (c : Bool) → (c ≡ false → x ≡ y) → x ≡ (if c then x else y)
unless true h = refl
unless false h = h refl

pub not_same : (p q : ℕ) → (p == q) ≡ false → q ≢ p
not_same p q h = ground arith

mem-Without : (p : ℕ) (fs : List ℕ) → mem p fs ≡ false → Without p fs
mem-Without p [] h = tt
mem-Without p (f ∷ fs) h = (ground arith, mem-Without p fs (or_false (f == p) (mem p fs) h))
  where
    or_false : (a b : Bool) → (a || b) ≡ false → b ≡ false
    or_false true b h = absurd (ground (arith, h))
    or_false false b h = h

-- The frames that are kept: all but `p` and those of the list, or all but those of the list.
pub unless_among {ℓ} :
    {A : Type ℓ} {x y : A} (p q : ℕ) (fs : List ℕ)
    → (q ≢ p → Without q fs → x ≡ y)
    → x ≡ (if p == q || mem q fs then x else y)
unless_among p q fs h =
    unless (p == q || mem q fs) (λ e. let w = mem-Without q (p ∷ fs) e in h (λ s. w.0 (sym s)) w.1)

pub unless_mem {ℓ} :
    {A : Type ℓ} {x y : A} (q : ℕ) (fs : List ℕ)
    → (Without q fs → x ≡ y)
    → x ≡ (if mem q fs then x else y)
unless_mem q fs h = unless (mem q fs) (λ e. h (mem-Without q fs e))
