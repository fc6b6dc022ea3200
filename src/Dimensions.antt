-- ===== src/Dimensions.antt =====
-- src/libPMacc/include/dimensions/DataSpace.hpp: vectors of `int`, one record for each dimension,
-- with the component-wise operators that they inherit from math/vector/Vector.hpp.
mod Tests
pub mod Linear
use piconalpaka.Prelude.{◌≡◌, ℕ, Bool, ℤ, pos, ◌+ℤ◌, ◌-ℤ◌, ◌*ℤ◌, ltb_ℤ, ◌||◌}

pub record DataSpace1 : Type 0 where
  pub x : ℤ

pub record DataSpace2 : Type 0 where
  pub x : ℤ
  pub y : ℤ

pub record DataSpace3 : Type 0 where
  pub x : ℤ
  pub y : ℤ
  pub z : ℤ

-- `DataSpace::create`
abbrev pub create2 : ℤ → DataSpace2
create2 v = record { x = v; y = v }

abbrev pub create3 : ℤ → DataSpace3
create3 v = record { x = v; y = v; z = v }

-- `operator+`, `operator-` and `operator*` between vectors
abbrev pub add2 : DataSpace2 → DataSpace2 → DataSpace2
add2 a b = record { x = a.x +ℤ b.x; y = a.y +ℤ b.y }

abbrev pub add3 : DataSpace3 → DataSpace3 → DataSpace3
add3 a b = record { x = a.x +ℤ b.x; y = a.y +ℤ b.y; z = a.z +ℤ b.z }

abbrev pub sub2 : DataSpace2 → DataSpace2 → DataSpace2
sub2 a b = record { x = a.x -ℤ b.x; y = a.y -ℤ b.y }

abbrev pub sub3 : DataSpace3 → DataSpace3 → DataSpace3
sub3 a b = record { x = a.x -ℤ b.x; y = a.y -ℤ b.y; z = a.z -ℤ b.z }

-- `productOfComponents`
abbrev pub product2 : DataSpace2 → ℤ
product2 a = a.x *ℤ a.y

abbrev pub product3 : DataSpace3 → ℤ
product3 a = a.x *ℤ a.y *ℤ a.z

-- `isOneDimensionGreaterThan`
pub one_dimension_greater2 : DataSpace2 → DataSpace2 → Bool
one_dimension_greater2 a b = ltb_ℤ b.x a.x || ltb_ℤ b.y a.y

unfoldable pub one_dimension_greater3 : DataSpace3 → DataSpace3 → Bool
one_dimension_greater3 a b = ltb_ℤ b.x a.x || ltb_ℤ b.y a.y || ltb_ℤ b.z a.z

-- A point with coordinates that are not negative.
abbrev pub cell2 : ℕ → ℕ → DataSpace2
cell2 a b = record { x = pos a; y = pos b }

abbrev pub cell3 : ℕ → ℕ → ℕ → DataSpace3
cell3 a b c = record { x = pos a; y = pos b; z = pos c }

pub cell2_ext :
    {a a' b b' : ℤ}
    → a ≡ a'
    → b ≡ b'
    → ◌≡◌ {A = DataSpace2} (record { x = a; y = b }) (record { x = a'; y = b' })
cell2_ext p q = λ i. record { x = p i; y = q i }

pub cell3_ext :
    {a a' b b' c c' : ℤ}
    → a ≡ a'
    → b ≡ b'
    → c ≡ c'
    → ◌≡◌ {A = DataSpace3} (record { x = a; y = b; z = c }) (record { x = a'; y = b'; z = c' })
cell3_ext p q r = λ i. record { x = p i; y = q i; z = r i }
