-- ===== src/Buffers.antt =====
-- src/libPMacc/include/memory/buffers/Buffer.hpp: the current size of a buffer, and the extents that
-- it takes. The extents are not negative, and are natural numbers here; `setSizeHost` first waits for
-- the event system, which Events models. Exchanges models the regions of the exchanges.
mod Tests
pub mod Exchanges
pub mod Extents
pub mod Grid
use piconalpaka.Prelude.{ℕ, ◌+◌, ◌-◌, ◌*◌, ◌/◌, Option, none, some, leb, if◌then◌else◌}

pub record Extents2 : Type 0 where
  pub x : ℕ
  pub y : ℕ

pub record Extents3 : Type 0 where
  pub x : ℕ
  pub y : ℕ
  pub z : ℕ

-- `getCurrentDataSpace`, in one, two and three dimensions
unfoldable pub current_data_space1 : ℕ → ℕ
current_data_space1 current_size = current_size

unfoldable pub current_data_space2 : Extents2 → ℕ → Extents2
current_data_space2 data_space n =
    if leb n data_space.x
    then record { x = n; y = 1 }
    else record { x = data_space.x; y = (n + data_space.x - 1) / data_space.x }

unfoldable pub current_data_space3 : Extents3 → ℕ → Extents3
current_data_space3 data_space n =
    let plane = data_space.x * data_space.y in
    if leb n data_space.x
    then record { x = n; y = 1; z = 1 }
    else if leb n plane
    then record { x = data_space.x; y = (n + data_space.x - 1) / data_space.x; z = 1 }
    else record { x = data_space.x; y = data_space.y; z = (n + plane - 1) / plane }

abbrev pub cells2 : Extents2 → ℕ
cells2 e = e.x * e.y

abbrev pub cells3 : Extents3 → ℕ
cells3 e = e.x * e.y * e.z

-- A buffer in three dimensions, with `*current_size_buf`
pub record Buffer3 : Type 0 where
  pub data_space : Extents3
  pub current_size : ℕ

-- The constructor
unfoldable pub new_buffer3 : Extents3 → Buffer3
new_buffer3 data_space = record { data_space = data_space; current_size = cells3 data_space }

-- `setSizeHost`; `none` is the failed assertion.
unfoldable pub set_size_host : ℕ → Buffer3 → Option Buffer3
set_size_host new_size b =
    if leb new_size (cells3 b.data_space) then some (record b { current_size = new_size }) else none
