-- ===== src/Frames/Alloc.antt =====
-- `getEmptyFrame`. The allocator is mallocMC's: `malloc` takes its state to a pointer, 0 if there is
-- no memory, and a new state. `garbage` is what stands in new memory.
use piconalpaka.Prelude.{
  update, ℕ, zero, suc, ◌≡◌, ◌≢◌, refl, some, map, arith, ◌==◌, if◌then◌else◌, ◌∙◌, Bool-cases, inl,
  inr, true, ap, subst, ◌<◌,
}
use piconalpaka.Frames.{Frame, Box, is_valid}

-- `const int maxTries = 13`
abbrev pub max_tries : ℕ
max_tries = 13

-- Every particle of a new frame is disabled.
abbrev pub disabled : Frame → Frame
disabled f = record f { multi_mask = map (λ _. 0) f.multi_mask }

module _ {A : Type 0} (malloc : A → ℕ × A) (garbage : A → Frame) where
  -- One round of the loop: the pointer, the allocator and the heap behind it. The `break` behind a
  -- success is commented out in the source.
  unfoldable pub try_malloc : A → Box → ℕ × A × Box
  try_malloc a b =
      let (tmp, a') = malloc a in
      if is_valid tmp
      then (tmp, a', record b { frames = update b.frames tmp (some (disabled (garbage a))) })
      else (tmp, a', b)

  -- The loop, with the rounds left and the pointer `tmp` so far.
  unfoldable pub tries : ℕ → ℕ → A → Box → ℕ × A × Box
  tries zero tmp a b = (tmp, a, b)
  tries (suc n) tmp a b = let (tmp', a', b') = try_malloc a b in tries n tmp' a' b'

  unfoldable pub get_empty_frame : A → Box → ℕ × A × Box
  get_empty_frame a b = tries max_tries 0 a b

  -- The allocator after `n` calls of `malloc`.
  abbrev pub after : ℕ → A → A
  after zero a = a
  after (suc n) a = after n (malloc a).1

  -- A frame on the heap.
  abbrev pub Allocated : ℕ → Box → Type 0
  Allocated p b = (f : Frame) × (b.frames p ≡ some f)

  try_malloc_lem :
      (a : A) (b : Box) → ((try_malloc a b).0 ≡ (malloc a).0) × ((try_malloc a b).1 ≡ (malloc a).1)
  unfolding try_malloc
  try_malloc_lem a b = elim (Bool-cases (is_valid (malloc a).0)) [
    | inl e ↦ rw (e, try_malloc) (refl, refl)
    | inr e ↦ rw (e, try_malloc) (refl, refl)
  ]

  try_malloc_new :
      (a : A) (b : Box)
      → (malloc a).0 ≢ 0
      → (try_malloc a b).2.frames (malloc a).0 ≡ some (disabled (garbage a))
  unfolding try_malloc
  try_malloc_new a b h =
      let e : is_valid (malloc a).0 ≡ true = ground arith in rw (e, try_malloc) (ground arith)

  try_malloc_keeps : (a : A) (b : Box) (p : ℕ) → Allocated p b → Allocated p (try_malloc a b).2
  unfolding try_malloc
  try_malloc_keeps a b p (f, h) = elim (Bool-cases (is_valid (malloc a).0)) [
    | inr e ↦ rw (e, try_malloc) (f, h)
    | inl e ↦
        rw (e, try_malloc)
          (elim (Bool-cases ((malloc a).0 == p)) [
            | inl same ↦ (disabled (garbage a), rw same refl)
            | inr other ↦ (f, rw other h)
          ])
  ]

  tries_keeps :
      (n tmp : ℕ) (a : A) (b : Box) (p : ℕ) → Allocated p b → Allocated p (tries n tmp a b).2
  unfolding tries
  tries_keeps zero tmp a b p h = h
  tries_keeps (suc n) tmp a b p h =
      tries_keeps n (try_malloc a b).0 (try_malloc a b).1 (try_malloc a b).2 p
        (try_malloc_keeps a b p h)

  tries_last :
      (n tmp : ℕ) (a : A) (b : Box)
      → ((tries (suc n) tmp a b).0 ≡ (malloc (after n a)).0)
        × ((tries (suc n) tmp a b).1 ≡ after (suc n) a)
  unfolding tries
  tries_last zero tmp a b = try_malloc_lem a b
  tries_last (suc n) tmp a b =
      let r = try_malloc_lem a b in
      let t = tries_last n (try_malloc a b).0 (try_malloc a b).1 (try_malloc a b).2 in
      (t.0 ∙ ap (λ c. (malloc (after n c)).0) r.1, t.1 ∙ ap (after (suc n)) r.1)

  tries_holds :
      (n tmp i : ℕ) (a : A) (b : Box)
      → i < n
      → (malloc (after i a)).0 ≢ 0
      → Allocated (malloc (after i a)).0 (tries n tmp a b).2
  unfolding tries
  tries_holds zero tmp i a b h ne = absurd (omega arith)
  tries_holds (suc n) tmp zero a b h ne =
      tries_keeps n (try_malloc a b).0 (try_malloc a b).1 (try_malloc a b).2 (malloc a).0
        (disabled (garbage a), try_malloc_new a b ne)
  tries_holds (suc n) tmp (suc i) a b h ne =
      let r = (try_malloc_lem a b).1 in
      let P = λ (c : A).
        Allocated (malloc (after i c)).0
          (tries n (try_malloc a b).0 (try_malloc a b).1 (try_malloc a b).2).2 in
      subst P r (
        tries_holds n (try_malloc a b).0 i (try_malloc a b).1 (try_malloc a b).2 (omega arith)
          (rw r ne))

  -- For a try of `getEmptyFrame` for which the allocator has memory, whichever of the 13 it is: its frame
  -- is on the heap at the end; the allocator has been called 13 times, and the pointer that is
  -- returned is the one of the last try.
  pub get_empty_frame_leaks :
      (a : A) (b : Box) (i : ℕ)
      → i < 13
      → (malloc (after i a)).0 ≢ 0
      → Allocated (malloc (after i a)).0 (get_empty_frame a b).2
        × ((get_empty_frame a b).0 ≡ (malloc (after 12 a)).0)
        × ((get_empty_frame a b).1 ≡ after 13 a)
  unfolding get_empty_frame
  get_empty_frame_leaks a b i h ne =
      let t = tries_last 12 0 a b in (tries_holds 13 0 i a b h ne, t.0, t.1)
