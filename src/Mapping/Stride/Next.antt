-- ===== src/Mapping/Stride/Next.antt =====
-- `next` goes through the offsets in their linear order, and says when they are over.
use native.Mathlib.Nat.{mod-eq_of_lt}
use piconalpaka.Prelude.{ℕ, ◌+◌, ◌*◌, ◌<◌, ◌≤◌, ◌≡◌, refl, arith, ltb, pos, to_int32_pos}
use piconalpaka.Dimensions.{create3}
use piconalpaka.Dimensions.Linear.{map_pos3}
use piconalpaka.Dimensions.Linear.RoundTrip.{map_cell3-map_pos3}
use piconalpaka.Mapping.Stride.{StrideMapping, stride_next}

grows : (a s : ℕ) → 0 < s → a ≤ a * s
grows a s h = grind arith

-- For a positive stride whose cube is below 2^31 - 1: from the `k`-th of the stride^3 offsets,
-- `next` goes to the one after it, and returns whether there is such an offset; nothing else of the
-- mapping changes.
pub stride_next_lem :
    (m : StrideMapping) (k : ℕ)
    → 0 < m.stride
    → m.stride * m.stride * m.stride < 2147483647
    → k < m.stride * m.stride * m.stride
    → m.offset ≡ map_pos3 (create3 (pos m.stride)) k
    → stride_next m ≡ (
      record m { offset = map_pos3 (create3 (pos m.stride)) (k + 1) },
      ltb (k + 1) (m.stride * m.stride * m.stride),
    )
unfolding stride_next
stride_next_lem m k positive small h e =
    let plane : m.stride * m.stride < 2147483648 =
      omega (arith, grows (m.stride * m.stride) m.stride positive) in
    rw
      (
        e,
        map_cell3-map_pos3 m.stride m.stride m.stride k positive positive plane (omega arith),
        to_int32_pos k (omega arith),
        mod-eq_of_lt {n = k + 1} {m = 4294967296} (omega arith),
      )
      refl
