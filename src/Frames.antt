-- ===== src/Frames.antt =====
-- src/libPMacc/include/particles/memory/boxes/ParticlesBox.hpp: the frames of each supercell as a
-- doubly linked list on a heap. A pointer is a number, and 0 is NULL. One thread at a time: the
-- memory fences and the atomicity of the exchange have no counterpart. `none` is an access through
-- a pointer to no frame, which is undefined in the source.
mod Tests
pub mod Segment
pub mod First
pub mod Last
pub mod Remove
pub mod Alloc
pub mod Traverse
use piconalpaka.Prelude.{
  ℕ, zero, suc, ◌+◌, Bool, true, false, not, Option, none, some, List, [], ◌∷◌, map, ◌==◌,
  if◌then◌else◌, ltb, ◌≡◌, refl, update, ◌>>=◌,
}

-- A frame: its links, and the `multiMask_` of its particles. What else a particle holds does not
-- matter here.
pub record Frame : Type 0 where
  pub previous_frame : ℕ
  pub next_frame : ℕ
  pub multi_mask : List ℕ

-- src/libPMacc/include/particles/memory/dataTypes/SuperCell.hpp
pub record SuperCell : Type 0 where
  pub first_frame_ptr : ℕ
  pub last_frame_ptr : ℕ

-- The frames on the heap, and the supercells by their index.
pub record Box : Type 0 where
  pub frames : ℕ → Option Frame
  pub super_cells : ℕ → SuperCell

-- `Pointer::isValid`
abbrev pub is_valid : ℕ → Bool
is_valid p = not (p == 0)

-- `p->previousFrame = v` and `p->nextFrame = v`
unfoldable pub set_previous : ℕ → ℕ → Box → Option Box
set_previous p v b = elim (b.frames p) [
  | none ↦ none
  | some f ↦ some (record b { frames = update b.frames p (some (record f { previous_frame = v })) })
]

unfoldable pub set_next : ℕ → ℕ → Box → Option Box
set_next p v b = elim (b.frames p) [
  | none ↦ none
  | some f ↦ some (record b { frames = update b.frames p (some (record f { next_frame = v })) })
]

abbrev pub set_first_ptr : ℕ → ℕ → Box → Box
set_first_ptr idx p b = record b {
  super_cells = update b.super_cells idx (record (b.super_cells idx) { first_frame_ptr = p });
}

abbrev pub set_last_ptr : ℕ → ℕ → Box → Box
set_last_ptr idx p b = record b {
  super_cells = update b.super_cells idx (record (b.super_cells idx) { last_frame_ptr = p });
}

-- `setAsFirstFrame`; the exchange stores the new pointer and returns the old one.
unfoldable pub set_as_first_frame : ℕ → ℕ → Box → Option Box
set_as_first_frame frame idx b = do
  b1 ← set_previous frame 0 b
  b2 ← set_next frame (b1.super_cells idx).first_frame_ptr b1
  let old_first = (b2.super_cells idx).first_frame_ptr
  b3 ← set_next frame old_first (set_first_ptr idx frame b2)
  if is_valid old_first then set_previous old_first frame b3 else some (set_last_ptr idx frame b3)

-- `setAsLastFrame`
unfoldable pub set_as_last_frame : ℕ → ℕ → Box → Option Box
set_as_last_frame frame idx b = do
  b1 ← set_next frame 0 b
  b2 ← set_previous frame (b1.super_cells idx).last_frame_ptr b1
  let old_last = (b2.super_cells idx).last_frame_ptr
  b3 ← set_previous frame old_last (set_last_ptr idx frame b2)
  if is_valid old_last then set_next old_last frame b3 else some (set_first_ptr idx frame b3)

-- `removeFrame` gives the frame back to the heap.
abbrev pub remove_frame : ℕ → Box → Box
remove_frame p b = record b { frames = update b.frames p none }

-- The two cases of `removeLastFrame`, for a list of frames that is not empty.
unfoldable pub remove_valid : ℕ → ℕ → Frame → Box → Option (Bool × Box)
remove_valid idx last f b =
    let prev = f.previous_frame in
    if is_valid prev
    then (set_next prev 0 b >>= λ b1. some (true, remove_frame last (set_last_ptr idx prev b1)))
    else some (false, remove_frame last (set_last_ptr idx 0 (set_first_ptr idx 0 b)))

-- `removeLastFrame`, with the value that it returns
unfoldable pub remove_last_frame : ℕ → Box → Option (Bool × Box)
remove_last_frame idx b =
    let last = (b.super_cells idx).last_frame_ptr in
    if is_valid last then (b.frames last >>= λ f. remove_valid idx last f b) else some (false, b)

-- `getNextFrame`, `getPreviousFrame`, `getFirstFrame` and `getLastFrame` on the device, where
-- `mapPtr` changes no pointer: the pointer, and whether it is valid.
abbrev pub checked : ℕ → ℕ × Bool
checked p = (p, is_valid p)

unfoldable pub get_next_frame : ℕ → Box → Option (ℕ × Bool)
get_next_frame p b = b.frames p >>= λ f. some (checked f.next_frame)

unfoldable pub get_previous_frame : ℕ → Box → Option (ℕ × Bool)
get_previous_frame p b = b.frames p >>= λ f. some (checked f.previous_frame)

unfoldable pub get_first_frame : ℕ → Box → ℕ × Bool
get_first_frame idx b = checked (b.super_cells idx).first_frame_ptr

unfoldable pub get_last_frame : ℕ → Box → ℕ × Bool
get_last_frame idx b = checked (b.super_cells idx).last_frame_ptr

-- What a write does, if the frame is there.
abbrev pub with_frame : ℕ → Frame → Box → Box
with_frame p f b = record b { frames = update b.frames p (some f) }

pub set_previous_lem :
    (p v : ℕ) (b : Box) (f : Frame)
    → b.frames p ≡ some f
    → set_previous p v b ≡ some (with_frame p (record f { previous_frame = v }) b)
unfolding set_previous
set_previous_lem p v b f h = rw (h, set_previous) refl

pub set_next_lem :
    (p v : ℕ) (b : Box) (f : Frame)
    → b.frames p ≡ some f
    → set_next p v b ≡ some (with_frame p (record f { next_frame = v }) b)
unfolding set_next
set_next_lem p v b f h = rw (h, set_next) refl
