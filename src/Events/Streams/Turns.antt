-- ===== src/Events/Streams/Turns.antt =====
-- The order in which src/libPMacc/include/eventSystem/streams/StreamController.hpp gives the streams.
use piconalpaka.Prelude.{
  ℕ, zero, suc, ◌+◌, ◌%◌, ◌<◌, some, ◌==◌, ◌≡◌, arith, refl, sym, ap, ap₂, ◌∙◌, Bool-cases, inl,
  inr, ◌∷◌, All,
}
use native.Mathlib.Nat.{mod-eq_of_lt, mod_self, mod-add-mod, mod-lt}
use piconalpaka.Events.Streams.{
  StreamController, EventPool, get_next_stream, get_streams, in_turn, IsReady, add_events,
  get_next_event,
}

in_turn_mod : (n i j size : ℕ) → i % size ≡ j % size → in_turn n i size ≡ in_turn n j size
in_turn_mod zero i j size h = refl
in_turn_mod (suc n) i j size h =
    ap₂ (λ x xs. x ∷ xs) h (in_turn_mod n (suc i) (suc j) size (next h))
  where
    next : i % size ≡ j % size → suc i % size ≡ suc j % size
    next e = suc_mod i ∙ (ap (λ k. (k + 1) % size) e ∙ sym (suc_mod j))
      where
        suc_mod : (k : ℕ) → suc k % size ≡ (k % size + 1) % size
        suc_mod k = ap (λ x. x % size) (omega arith) ∙ sym (mod-add-mod k size 1)

in_turn_bound : (n i size : ℕ) → 0 < size → All (λ k. k < size) (in_turn n i size)
in_turn_bound zero i size h = tt
in_turn_bound (suc n) i size h = (mod-lt i h, in_turn_bound n (suc i) size h)

pub step :
    (s : StreamController)
    → IsReady s
    → (t : StreamController) × (get_next_stream s ≡ some (s.current_stream_index, t))
      × IsReady t
      × (t.streams ≡ s.streams)
      × ((n : ℕ)
          → in_turn n t.current_stream_index s.streams
            ≡ in_turn n (suc s.current_stream_index) s.streams)
unfolding get_next_stream
step s h = elim (Bool-cases (s.current_stream_index + 1 == s.streams)) [
  | inl e ↦ (
    record s { current_stream_index = 0 },
    rw (h.0, e) refl,
    (h.0, ground (arith, h.1)),
    refl,
    λ n. in_turn_mod n 0 (suc s.current_stream_index) s.streams (
        let q : suc s.current_stream_index ≡ s.streams = ground (arith, e) in
        mod-eq_of_lt (ground (arith, h.1)) ∙ sym (ap (λ k. k % s.streams) q ∙ mod_self s.streams)),
  )
  | inr e ↦ (
    record s { current_stream_index = s.current_stream_index + 1 },
    rw (h.0, e) refl,
    (h.0, ground (arith, h.1, e)),
    refl,
    λ n. ap (λ i. in_turn n i s.streams) (omega arith),
  )
]

-- An activated controller with a position among its streams: `getNextStream` returns and keeps the
-- position among the streams, and successive calls give the streams in turn.
pub get_streams_lem :
    (n : ℕ) (s : StreamController)
    → IsReady s
    → (t : StreamController) × (get_streams n s
        ≡ some (in_turn n s.current_stream_index s.streams, t))
      × IsReady t
      × (t.streams ≡ s.streams)
      × All (λ k. k < s.streams) (in_turn n s.current_stream_index s.streams)
unfolding get_streams
get_streams_lem zero s h = (s, refl, h, refl, tt)
get_streams_lem (suc n) s h =
    let (t, g, rt, st, turn) = step s h in
    let r = get_streams_lem n t rt in
    let first = mod-eq_of_lt h.1 in
    (
      r.0,
      rw (get_streams, g)
          (rw r.1 (
            ap₂ (λ i is. some (i ∷ is, r.0)) (sym first)
              (ap (in_turn n t.current_stream_index) st ∙ turn n))),
      r.2,
      r.3 ∙ st,
      in_turn_bound (suc n) s.current_stream_index s.streams (omega (arith, h.1)),
    )

-- A pool with a position among its events: `getNextEvent` returns one of the events, and it and
-- `addEvents` keep the position among them.
pub get_next_event_lem :
    (s : EventPool)
    → s.current_event_index < s.events
    → ((get_next_event s).0 < s.events)
      × ((get_next_event s).1.current_event_index < (get_next_event s).1.events)
      × ((count : ℕ) → (add_events count s).current_event_index < (add_events count s).events)
unfolding get_next_event add_events
get_next_event_lem s h =
    (h, mod-lt (s.current_event_index + 1) (omega (arith, h)), λ count. omega (arith, h))
