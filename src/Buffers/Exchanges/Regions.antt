-- ===== src/Buffers/Exchanges/Regions.antt =====
-- The regions that two neighbouring devices exchange, in
-- src/libPMacc/include/memory/buffers/ExchangeIntern.hpp and GridBuffer.hpp.
use piconalpaka.Prelude.{
  ℕ, ◌/◌, ◌<◌, ◌≤◌, ◌≡◌, ℤ, pos, negsuc, ◌+ℤ◌, ◌-ℤ◌, ◌*ℤ◌, eqb_ℤ, false, ◌&&◌, ◌||◌, ◌==◌,
  if◌then◌else◌, arith, refl, some, ◌∙◌, subst, sym, ap, inl, inr,
}
use piconalpaka.Dimensions.{DataSpace3, cell3, cell3_ext, create3, sub3, one_dimension_greater3}
use piconalpaka.Mask.{
  relative, relative_directions3, mask_of, contains_exchange_type, mirrored_exchange_type, right,
  left, bottom, top, back, front,
}
use piconalpaka.Mask.Mirror.{mirrored_exchange_type_lem}
use piconalpaka.Mask.Directions.{contains-relative}
use piconalpaka.Buffers.Exchanges.{
  border_area, guard_area, offset_along, exchange_type_to_offset, exchange_type_to_dim,
  exchange_intern, exchange_size, send_exchange, receive_exchange, Region, GridLayout,
}

-- A dimension with the relative offset `d`
abbrev part : ℤ → ℕ → ℤ → ℤ → ℤ → ℤ
part d area size border guarding =
    if eqb_ℤ d (pos 1)
    then (if area == guard_area
        then size -ℤ border -ℤ guarding +ℤ guarding
        else size -ℤ border -ℤ guarding)
    else (if area == guard_area && eqb_ℤ d (negsuc 0) then border -ℤ guarding else border)

-- The layout and the guarding cells, for extents that are not negative
abbrev pub layout : DataSpace3 → DataSpace3 → GridLayout
layout n g = record { data_space = n; guard = g }

-- The other device's region, as the sender sees it: moved by one domain in the direction
abbrev pub moved : DataSpace3 → DataSpace3 → DataSpace3 → DataSpace3
moved d n offset = record {
  x = offset.x +ℤ d.x *ℤ n.x;
  y = offset.y +ℤ d.y *ℤ n.y;
  z = offset.z +ℤ d.z *ℤ n.z;
}

abbrev send_area : ℕ → ℕ
send_area p = if p == guard_area then border_area else guard_area

abbrev receive_area : ℕ → ℕ
receive_area p = if p == guard_area then guard_area else border_area

-- The parts of the two exchanges in a dimension are one domain apart.
parts :
    (p j n g c : ℕ)
    → c ≤ g
    → c ≤ n
    → part (relative j) (send_area p) (pos n +ℤ pos g +ℤ pos g) (pos g) (pos c)
      ≡ part (pos 0 -ℤ relative j) (receive_area p) (pos n +ℤ pos g +ℤ pos g) (pos g) (pos c)
        +ℤ relative j *ℤ pos n
parts p j n g c h k = ground (arith, h, k)

along :
    (ex up down : ℕ) (d : ℤ) (area : ℕ) (size border guarding : ℤ)
    → contains_exchange_type (mask_of ex) up ≡ eqb_ℤ d (pos 1)
    → contains_exchange_type (mask_of ex) down ≡ eqb_ℤ d (negsuc 0)
    → offset_along ex up down area size border guarding ≡ part d area size border guarding
along ex up down d area size border guarding p q = rw (p, q) refl

-- Both exchange data in the same dimensions.
both :
    (ex m up down k : ℕ)
    → contains_exchange_type (mask_of ex) up ≡ eqb_ℤ (relative k) (pos 1)
    → contains_exchange_type (mask_of ex) down ≡ eqb_ℤ (relative k) (negsuc 0)
    → contains_exchange_type (mask_of m) up ≡ eqb_ℤ (pos 0 -ℤ relative k) (pos 1)
    → contains_exchange_type (mask_of m) down ≡ eqb_ℤ (pos 0 -ℤ relative k) (negsuc 0)
    → (contains_exchange_type (mask_of ex) down || contains_exchange_type (mask_of ex) up)
      ≡ (contains_exchange_type (mask_of m) down || contains_exchange_type (mask_of m) up)
both ex m up down k p q r s = rw (p, q, r, s) (ground arith)

-- What the direction `ex` contains, for the relative offsets `d`
abbrev Contains : ℕ → DataSpace3 → Type 0
Contains ex d =
    let has = contains_exchange_type (mask_of ex) in
    (has right ≡ eqb_ℤ d.x (pos 1))
    × (has left ≡ eqb_ℤ d.x (negsuc 0))
    × (has bottom ≡ eqb_ℤ d.y (pos 1))
    × (has top ≡ eqb_ℤ d.y (negsuc 0))
    × (has back ≡ eqb_ℤ d.z (pos 1))
    × (has front ≡ eqb_ℤ d.z (negsuc 0))

some-injective : {a b : ℕ} → some a ≡ some b → a ≡ b
some-injective h = cc

mirror_lt : (ex m : ℕ) → mirrored_exchange_type ex ≡ some m → ex < 27
mirror_lt ex m e = elim (mirrored_exchange_type_lem ex) [
  | inl (k, q, back_again, rel, h) ↦ h
  | inr (q, h) ↦ cc
]

mirror_facts :
    (ex m : ℕ)
    → mirrored_exchange_type ex ≡ some m
    → Contains ex (relative_directions3 ex)
      × Contains m (sub3 (create3 (pos 0)) (relative_directions3 ex))
mirror_facts ex m e = elim (mirrored_exchange_type_lem ex) [
  | inl (k, q, again, rel, h) ↦
      let same : k ≡ m = some-injective (sym q ∙ e) in
      (
        contains-relative ex h,
        subst (λ j. Contains j (sub3 (create3 (pos 0)) (relative_directions3 ex))) same
            (subst (Contains k) rel (contains-relative k (mirror_lt k ex again))),
      )
  | inr (q, h) ↦ cc
]

sizes :
    (ex m : ℕ) (n g c : DataSpace3)
    → mirrored_exchange_type ex ≡ some m
    → exchange_size ex (layout n g) c ≡ exchange_size m (layout n g) c
unfolding exchange_size exchange_type_to_dim relative_directions3
sizes ex m n g c e =
    let (s, r) = mirror_facts ex m e in
    cell3_ext (ap (λ b. if b then c.x else n.x) (both ex m right left ex s.0 s.1 r.0 r.1))
      (ap (λ b. if b then c.y else n.y) (both ex m bottom top (ex / 3) s.2 s.3 r.2 r.3))
      (ap (λ b. if b then c.z else n.z) (both ex m back front (ex / 3 / 3) s.4 s.5 r.4 r.5))

module _ (p ex m nx ny nz gx gy gz cx cy cz : ℕ) (e : mirrored_exchange_type ex ≡ some m)
    (bx : cx ≤ gx) (by : cy ≤ gy) (bz : cz ≤ gz) (kx : cx ≤ nx) (ky : cy ≤ ny) (kz : cz ≤ nz) where
  offsets :
      let l = layout (cell3 nx ny nz) (cell3 gx gy gz) in
      exchange_type_to_offset ex l (cell3 cx cy cz) (send_area p)
      ≡ moved
          (relative_directions3 ex)
          (cell3 nx ny nz)
          (exchange_type_to_offset m l (cell3 cx cy cz) (receive_area p))
  unfolding exchange_type_to_offset relative_directions3
  offsets =
      let (s, r) = mirror_facts ex m e in
      cell3_ext (rw (s.0, s.1, r.0, r.1) (parts p ex nx gx cx bx kx))
        (rw (s.2, s.3, r.2, r.3) (parts p (ex / 3) ny gy cy by ky))
        (rw (s.4, s.5, r.4, r.5) (parts p (ex / 3 / 3) nz gz cz bz kz))

  -- A direction `ex` with the mirror `m`, extents (nx, ny, nz), a guard (gx, gy, gz), guarding cells
  -- that exceed neither the guard nor the extents, and any data place `p`: the send exchange for `ex`
  -- and the receive exchange for `m` are made, their regions have the same size, and the receive
  -- region, moved by one domain in the direction `ex`, is the send region.
  pub send_receive_lem :
      let l = layout (cell3 nx ny nz) (cell3 gx gy gz) in
      (s : Region) × (r : Region) × (send_exchange l (cell3 cx cy cz) p ex ≡ some s)
      × (receive_exchange l (cell3 cx cy cz) p m ≡ some r)
      × (s.size ≡ r.size)
      × (s.offset ≡ moved (relative_directions3 ex) (cell3 nx ny nz) r.offset)
  unfolding send_exchange receive_exchange exchange_intern one_dimension_greater3
  send_receive_lem =
      let l = layout (cell3 nx ny nz) (cell3 gx gy gz) in
      let c = cell3 cx cy cz in
      let fits : one_dimension_greater3 c (cell3 gx gy gz) ≡ false = ground (arith, bx, by, bz) in
      (
        record {
          size = exchange_size ex l c;
          offset = exchange_type_to_offset ex l c (send_area p);
        },
        record {
          size = exchange_size m l c;
          offset = exchange_type_to_offset m l c (receive_area p);
        },
        rw fits refl,
        rw fits refl,
        sizes ex m (cell3 nx ny nz) (cell3 gx gy gz) c e,
        offsets,
      )
