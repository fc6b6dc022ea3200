-- ===== src/Events/Streams.antt =====
-- src/libPMacc/include/eventSystem/streams/StreamController.hpp and events/EventPool.hpp: the streams
-- and the events that are given out in turn. A stream and an event is its number in the vector.
pub mod Turns
use piconalpaka.Prelude.{
  ℕ, zero, suc, ◌+◌, ◌*◌, ◌%◌, ◌<◌, ◌≤◌, Bool, true, false, Option, none, some, ◌==◌, if◌then◌else◌,
  ◌≡◌, ◌↔◌, ◌⊎◌, arith, refl, sym, ap, ◌∙◌, Bool-cases, inl, inr, ◌>>=◌, List, [], ◌∷◌,
}

-- `streams.size()`, `currentStreamIndex` and `isActivated`
pub record StreamController : Type 0 where
  pub streams : ℕ
  pub current_stream_index : ℕ
  pub is_activated : Bool

-- The constructor
abbrev pub no_streams : StreamController
no_streams = record { streams = 0; current_stream_index = 0; is_activated = false }

-- `addStreams` and `activate`
unfoldable pub add_streams : ℕ → StreamController → StreamController
add_streams count s = record s { streams = s.streams + count }

unfoldable pub activate : StreamController → StreamController
activate s = record (add_streams 1 s) { is_activated = true }

-- `getNextStream`; `none` is the `runtime_error`.
unfoldable pub get_next_stream : StreamController → Option (ℕ × StreamController)
get_next_stream s =
    if s.is_activated
    then some (
      s.current_stream_index,
      record s {
        current_stream_index =
            if s.current_stream_index + 1 == s.streams then 0 else s.current_stream_index + 1;
      },
    )
    else none

-- `EventPool`: `events.size()` and `currentEventIndex`
pub record EventPool : Type 0 where
  pub events : ℕ
  pub current_event_index : ℕ

-- `addEvents`
unfoldable pub add_events : ℕ → EventPool → EventPool
add_events count s = record s { events = s.events + count }

-- The constructor
unfoldable pub new_event_pool : EventPool
new_event_pool = add_events 1 (record { events = 0; current_event_index = 0 })

-- `getNextEvent`
unfoldable pub get_next_event : EventPool → ℕ × EventPool
get_next_event s = (
  s.current_event_index,
  record s { current_event_index = (s.current_event_index + 1) % s.events },
)

-- What is given out lives.
abbrev pub IsReady : StreamController → Type 0
IsReady s = (s.is_activated ≡ true) × (s.current_stream_index < s.streams)

-- `n` calls of `getNextStream`, with what they return
unfoldable pub get_streams : ℕ → StreamController → Option (List ℕ × StreamController)
get_streams zero s = some ([], s)
get_streams (suc n) s =
    let rest = get_streams n in get_next_stream s >>= λ r. rest r.1 >>= λ q. some (r.0 ∷ q.0, q.1)

-- The numbers that follow one another, from `i` on and from 0 again behind the last one
abbrev pub in_turn : ℕ → ℕ → ℕ → List ℕ
in_turn zero i size = []
in_turn (suc n) i size = i % size ∷ in_turn n (suc i) size
