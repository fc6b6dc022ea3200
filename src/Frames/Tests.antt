-- ===== src/Frames/Tests.antt =====
-- Lists of frames on a concrete heap.
use piconalpaka.Prelude.{
  ℕ, ◌≡◌, ◌≢◌, refl, none, some, [], ◌∷◌, arith, ◌==◌, if◌then◌else◌, true, suc,
}
use piconalpaka.Frames.{
  Frame, Box, set_as_first_frame, set_as_last_frame, remove_last_frame, get_first_frame,
  get_next_frame,
}
use piconalpaka.Frames.Segment.{Holds, Without}
use piconalpaka.Frames.First.{Pushed, set_as_first_frame_lem}
use piconalpaka.Frames.Last.{set_as_last_frame_lem}
use piconalpaka.Frames.Remove.{Popped, remove_last_frame_lem}
use piconalpaka.Frames.Traverse.{visit, visit-get_first_frame}
use piconalpaka.Frames.Alloc.{get_empty_frame, get_empty_frame_leaks, Allocated}

-- Supercell 5 holds the frames 1 and 2, and frame 3 is new.
abbrev link : ℕ → ℕ → Frame
link previous next = record { previous_frame = previous; next_frame = next; multi_mask = 1 ∷ [] }

abbrev two_frames : Box
two_frames = record {
  frames = λ p.
      if p == 1
      then some (link 0 2)
      else (if p == 2 then some (link 1 0) else (if p == 3 then some (link 7 8) else none));
  super_cells = λ i.
      if i == 5
      then record { first_frame_ptr = 1; last_frame_ptr = 2 }
      else record { first_frame_ptr = 0; last_frame_ptr = 0 };
}

two_frames-Holds : Holds two_frames 5 (1 ∷ 2 ∷ [])
two_frames-Holds = record {
  first = refl;
  last = refl;
  linked = ((link 0 2, refl, refl, refl), ((link 1 0, refl, refl, refl), tt));
  valid = ((λ e. absurd (omega (arith, e))), ((λ e. absurd (omega (arith, e))), tt));
  distinct = (((λ e. absurd (omega (arith, e))), tt), (tt, tt));
}

three_is_new : Without 3 (1 ∷ 2 ∷ [])
three_is_new = ((λ e. absurd (omega (arith, e))), ((λ e. absurd (omega (arith, e))), tt))

three_is_valid : ◌≢◌ {A = ℕ} 3 0
three_is_valid e = absurd (omega (arith, e))

set_as_first_frame_example :
    (c : Box) × (set_as_first_frame 3 5 two_frames ≡ some c)
    × Pushed two_frames c 3 5 (1 ∷ 2 ∷ []) (3 ∷ 1 ∷ 2 ∷ [])
set_as_first_frame_example =
    set_as_first_frame_lem 3 5 (1 ∷ 2 ∷ []) (link 7 8) two_frames refl three_is_valid three_is_new
      two_frames-Holds

set_as_last_frame_example :
    (c : Box) × (set_as_last_frame 3 5 two_frames ≡ some c)
    × Pushed two_frames c 3 5 (1 ∷ 2 ∷ []) (1 ∷ 2 ∷ 3 ∷ [])
set_as_last_frame_example =
    set_as_last_frame_lem 3 5 (1 ∷ 2 ∷ []) (link 7 8) two_frames refl three_is_valid three_is_new
      two_frames-Holds

remove_last_frame_example :
    (c : Box) × (remove_last_frame 5 two_frames ≡ some (true, c)) × Popped two_frames c 2 5 (1 ∷ [])
remove_last_frame_example = remove_last_frame_lem 5 (1 ∷ []) 2 two_frames two_frames-Holds

visit-get_first_frame_example :
    visit get_next_frame 3 (get_first_frame 5 two_frames) two_frames ≡ some (1 ∷ 2 ∷ [])
visit-get_first_frame_example = visit-get_first_frame 5 (1 ∷ 2 ∷ []) two_frames two_frames-Holds

-- An allocator that counts, and has no memory for the first call.
abbrev count : ℕ → ℕ × ℕ
count n = (n, suc n)

abbrev no_frames : Box
no_frames = record {
  frames = λ p. none;
  super_cells = λ i. record { first_frame_ptr = 0; last_frame_ptr = 0 };
}

get_empty_frame_leaks_example :
    Allocated count (λ n. link n n) 1 (get_empty_frame count (λ n. link n n) 0 no_frames).2
    × ((get_empty_frame count (λ n. link n n) 0 no_frames).0 ≡ 12)
    × ((get_empty_frame count (λ n. link n n) 0 no_frames).1 ≡ 13)
get_empty_frame_leaks_example =
    get_empty_frame_leaks count (λ n. link n n) 0 no_frames 1 (omega arith)
      (λ e. absurd (omega (arith, e)))
