-- ===== src/Project/RoundTrip.antt =====
-- `reduce` and `extend` are inverse to one another at the six directions of one dimension.
use piconalpaka.Prelude.{ℕ, ◌≡◌, refl, ℤ, pos, ◌-ℤ◌, eqb_ℤ, if◌then◌else◌, ◌||◌, sym}
use piconalpaka.Dimensions.{DataSpace1, DataSpace2, DataSpace3, cell3_ext}
use piconalpaka.Mask.{
  relative_directions2, relative_directions3, right, left, bottom, top, back, front,
}
use piconalpaka.Project.{reduce2, reduce3, extend1, extend2}

-- The directions of one dimension of three.
pub data Single : ℕ → Type 0 where
  to_right : Single right
  to_left : Single left
  to_bottom : Single bottom
  to_top : Single top
  to_back : Single back
  to_front : Single front

-- The coordinate of a cell in the dimension of a direction, and where `extend` puts it.
abbrev pub across : ℕ → DataSpace3 → ℤ
across ex c =
    let d = relative_directions3 ex in
    if eqb_ℤ d.x (pos 0) then (if eqb_ℤ d.y (pos 0) then c.z else c.y) else c.x

abbrev pub edge : ℕ → DataSpace3 → DataSpace3 → ℤ
edge ex target offset =
    let d = relative_directions3 ex in
    if eqb_ℤ d.x (pos 1) || eqb_ℤ d.y (pos 1) || eqb_ℤ d.z (pos 1)
    then across ex target -ℤ across ex offset -ℤ pos 1
    else across ex offset

-- In a direction of one dimension, the extension of a cell of the plane lies at the target's edge
-- (less the offset) on that side, and reduces to the cell again.
pub reduce3-extend2 :
    (ex : ℕ) (ds : DataSpace2) (target offset : DataSpace3)
    → Single ex
    → (reduce3 (extend2 ds ex target offset) ex ≡ ds)
      × (across ex (extend2 ds ex target offset) ≡ edge ex target offset)
unfolding reduce3 extend2 relative_directions3
reduce3-extend2 ex ds target offset to_right = (refl, refl)
reduce3-extend2 ex ds target offset _ = (refl, refl)

-- In a direction of one dimension, a cell at that edge is the extension of its reduction.
pub extend2-reduce3 :
    (ex : ℕ) (c target offset : DataSpace3)
    → Single ex
    → across ex c ≡ edge ex target offset
    → extend2 (reduce3 c ex) ex target offset ≡ c
unfolding reduce3 extend2 relative_directions3
extend2-reduce3 ex c target offset to_right h = cell3_ext (sym h) refl refl
extend2-reduce3 ex c target offset to_left h = cell3_ext (sym h) refl refl
extend2-reduce3 ex c target offset to_bottom h = cell3_ext refl (sym h) refl
extend2-reduce3 ex c target offset to_top h = cell3_ext refl (sym h) refl
extend2-reduce3 ex c target offset to_back h = cell3_ext refl refl (sym h)
extend2-reduce3 ex c target offset to_front h = cell3_ext refl refl (sym h)

-- The directions of one dimension of two.
pub data Single2 : ℕ → Type 0 where
  to_right : Single2 right
  to_left : Single2 left
  to_bottom : Single2 bottom
  to_top : Single2 top

-- In a direction of one dimension of a plane, the extension of a cell of the line reduces to it again.
pub reduce2-extend1 :
    (ex : ℕ) (ds : DataSpace1) (target offset : DataSpace2)
    → Single2 ex
    → reduce2 (extend1 ds ex target offset) ex ≡ ds
unfolding reduce2 extend1 relative_directions2
reduce2-extend1 ex ds target offset Single2.to_right = refl
reduce2-extend1 ex ds target offset _ = refl
