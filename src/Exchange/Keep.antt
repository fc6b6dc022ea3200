-- ===== src/Exchange/Keep.antt =====
-- A turn of a thread keeps `IsPushing`.
use piconalpaka.Prelude.{
  ℕ, ◌+◌, ◌-◌, ◌<◌, ◌≤◌, ◌≡◌, ◌≢◌, ◌⊎◌, inl, inr, some, min, arith, refl, false, ◌==◌, update,
  Bool-cases,
}
use native.Mathlib.Nat.{mod-eq_of_lt}
use piconalpaka.Exchange.{
  ExchangeStack, ExchangeMemoryIndex, Pushing, Pusher, start, over, reserve, write, tile, null,
  push_n, turn, add_uint32,
}
use piconalpaka.Exchange.Family.{total, total-update, le-total, total-le}
use piconalpaka.Exchange.Threads.{
  first, behind, claimed, waiting, indexed, address, IsOver, IsFull, IsWritten,
}
use piconalpaka.Exchange.Invariant.{IsPushing}

indexed-le : (p : Pusher) → indexed p ≤ 1
indexed-le (start c cell) = omega arith
indexed-le (over o c cell) = omega arith
indexed-le (reserve o c cell) = omega arith
indexed-le (write a o c cell) = omega arith
indexed-le (tile a o c cell) = omega arith
indexed-le null = omega arith

IsWritten-other :
    (m : ExchangeStack) (a : ℕ) (x : ExchangeMemoryIndex) (q : Pusher)
    → ((b : ℕ) → address q ≡ some b → (a == b) ≡ false)
    → IsWritten m q
    → IsWritten (record m { indices = update m.indices a x }) q
IsWritten-other m a x (tile b o c cell) d w = rw (d b refl) w
IsWritten-other m a x (start c cell) d w = tt
IsWritten-other m a x (over o c cell) d w = tt
IsWritten-other m a x (reserve o c cell) d w = tt
IsWritten-other m a x (write b o c cell) d w = tt
IsWritten-other m a x null d w = tt

module _ {max_size all n : ℕ} {s : Pushing} (inv : IsPushing max_size all n s) (i : ℕ)
    (lt : i < n) where
  -- The facts that a turn of thread `i` at `p`, which goes to `p'`, uses
  record Mover (p p' : Pusher) : Type 0 where
    at : s.threads i ≡ p
    waits :
        total waiting n (update s.threads i p') + waiting p ≡ total waiting n s.threads + waiting p'
    claims :
        total (claimed max_size) n (update s.threads i p') + claimed max_size p
        ≡ total (claimed max_size) n s.threads + claimed max_size p'
    places :
        total indexed n (update s.threads i p') + indexed p ≡ total indexed n s.threads + indexed p'
    mine :
        (first max_size p ≤ behind max_size p)
        × (behind max_size p ≤ min s.stack.current_size max_size)
    surely : IsFull max_size s.stack p
    plain : add_uint32 s.stack.current_size (waiting p) ≡ s.stack.current_size + waiting p
    place : add_uint32 s.stack.index_size (1 - indexed p) ≡ s.stack.index_size + (1 - indexed p)
    own : (a : ℕ) → address p ≡ some a → a < s.stack.index_size

  mover : (p' : Pusher) → Mover (s.threads i) p'
  mover p' = record {
    at = refl;
    waits = total-update waiting n s.threads i p' lt;
    claims = total-update (claimed max_size) n s.threads i p' lt;
    places = total-update indexed n s.threads i p' lt;
    mine = (inv.ordered i lt, inv.within i lt);
    surely = inv.full i lt;
    plain = mod-eq_of_lt (omega (arith, le-total waiting n s.threads i lt, inv.room, inv.small));
    place =
        mod-eq_of_lt (omega (arith, total-le indexed n s.threads indexed-le, inv.taken, inv.few));
    own = λ a e. inv.placed i a lt e;
  }

  -- The counters, for a thread at `p`
  Counts : Pusher → Type 0
  Counts p =
      let r = push_n max_size s.stack p in
      let pc = update s.threads i r.1 in
      (r.0.current_size + total waiting n pc ≤ max_size + all)
      × ((r.0.current_size + total waiting n pc ≡ all) ⊎ (max_size ≤ r.0.current_size))
      × (total (claimed max_size) n pc + total waiting n pc ≤ all)
      × (total (claimed max_size) n pc ≡ min r.0.current_size max_size)

  counts : (p : Pusher) → Mover p (push_n max_size s.stack p).1 → Counts p
  unfolding Counts push_n
  counts (start c cell) f =
      ground (
        arith, f.plain, f.waits, f.claims, inv.room, inv.exact, inv.counted, inv.covered, inv.small,
      )
  counts (over o c cell) f =
      ground
        (arith, f.waits, f.claims, f.mine, f.surely, inv.room, inv.exact, inv.counted, inv.covered)
  counts (reserve o c cell) f =
      ground (arith, f.waits, f.claims, f.mine, inv.room, inv.exact, inv.counted, inv.covered)
  counts (write a o c cell) f =
      ground (arith, f.waits, f.claims, f.mine, inv.room, inv.exact, inv.counted, inv.covered)
  counts (tile a o c cell) f =
      ground (arith, f.waits, f.claims, f.mine, inv.room, inv.exact, inv.counted, inv.covered)
  counts null f =
      ground (arith, f.waits, f.claims, f.mine, inv.room, inv.exact, inv.counted, inv.covered)

  -- The ranges
  abbrev Ranges : Pusher → Type 0
  Ranges p =
      let r = push_n max_size s.stack p in
      (j : ℕ)
      → j < n
      → (first max_size (update s.threads i r.1 j) ≤ behind max_size (update s.threads i r.1 j))
        × (behind max_size (update s.threads i r.1 j) ≤ min r.0.current_size max_size)
        × IsFull max_size r.0 (update s.threads i r.1 j)

  ranges : (p : Pusher) → Mover p (push_n max_size s.stack p).1 → Ranges p
  unfolding push_n
  ranges (start c cell) f j l =
      ground (arith, f.plain, inv.ordered j l, inv.within j l, inv.full j l)
  ranges (over o c cell) f j l =
      ground (arith, f.mine, f.surely, inv.ordered j l, inv.within j l, inv.full j l)
  ranges _ f j l = ground (arith, f.mine, inv.ordered j l, inv.within j l, inv.full j l)

  abbrev Apart : Pusher → Type 0
  Apart p =
      let r = push_n max_size s.stack p in
      let q = update s.threads i r.1 in
      (j k : ℕ)
      → j < n
      → k < n
      → j ≢ k
      → (behind max_size (q j) ≤ first max_size (q k))
        ⊎ (behind max_size (q k) ≤ first max_size (q j))

  parts-Apart : (p : Pusher) → Mover p (push_n max_size s.stack p).1 → Apart p
  unfolding push_n
  parts-Apart _ f j k jl kl d = ground (
    arith,
    f.at,
    f.plain,
    f.mine,
    f.surely,
    inv.within j jl,
    inv.within k kl,
    inv.apart j k jl kl d,
  )

  abbrev Pending : Pusher → Type 0
  Pending p =
      let r = push_n max_size s.stack p in
      max_size < r.0.current_size → (j : ℕ) × (j < n) × IsOver (update s.threads i r.1 j)

  is_pending : (p : Pusher) → Mover p (push_n max_size s.stack p).1 → Pending p
  unfolding push_n
  is_pending (start c cell) f h = (i, lt, ground (arith, f.plain, h))
  is_pending (over o c cell) f h = absurd (omega (arith, h))
  is_pending _ f h = let (j, l, o) = inv.pending h in (j, l, ground (arith, f.at, o))

  abbrev Taken : Pusher → Type 0
  Taken p =
      let r = push_n max_size s.stack p in
      let q = update s.threads i r.1 in
      (r.0.index_size ≡ total indexed n q)
      × ((j a : ℕ) → j < n → address (q j) ≡ some a → a < r.0.index_size)

  is_Taken : (p : Pusher) → Mover p (push_n max_size s.stack p).1 → Taken p
  unfolding push_n
  is_Taken (reserve o c cell) f = (
    ground (arith, f.places, f.place, inv.taken),
    λ j a l e. ground (arith, f.place, inv.placed j a l),
  )
  is_Taken _ f =
      (ground (arith, f.places, inv.taken), λ j a l e. ground (arith, f.own a, inv.placed j a l))

  abbrev Unique : Pusher → Type 0
  Unique p =
      let q = update s.threads i (push_n max_size s.stack p).1 in
      (j k a : ℕ) → j < n → k < n → address (q j) ≡ some a → address (q k) ≡ some a → j ≡ k

  is_Unique : (p : Pusher) → Mover p (push_n max_size s.stack p).1 → Unique p
  unfolding push_n
  is_Unique _ f j k a jl kl d e =
      ground (arith, f.at, inv.placed j a jl, inv.placed k a kl, inv.unique j k a jl kl)

  abbrev Written : Pusher → Type 0
  Written p =
      let r = push_n max_size s.stack p in
      (j : ℕ) → j < n → IsWritten r.0 (update s.threads i r.1 j)

  is_Written : (p : Pusher) → Mover p (push_n max_size s.stack p).1 → Written p
  unfolding push_n
  is_Written (write a o c cell) f j l = elim (Bool-cases (i == j)) [
    | inl e ↦ rw e (ground arith)
    | inr e ↦ rw e (
        IsWritten-other s.stack a (record { super_cell = cell; start_idx = o; count = c })
          (s.threads j) (λ b q. ground (arith, f.at, inv.unique i j b lt l, e, q))
          (inv.written j l))
  ]
  is_Written _ f j l = ground (arith, f.at, inv.written j l, inv.written i lt)

-- A turn of any of the threads keeps the invariant `IsPushing`: the claims of the threads are apart and
-- fill the stack from its start, the size exceeds the stack only while a thread is about to reset it,
-- and each index that has been written is that of its tile.
pub turn-IsPushing :
    {max_size all n : ℕ} {s : Pushing}
    → IsPushing max_size all n s
    → (i : ℕ) → i < n
    → IsPushing max_size all n (turn max_size i s)
unfolding turn Counts
turn-IsPushing {max_size} {all} {n} {s} inv i lt =
    let f = mover inv i lt (push_n max_size s.stack (s.threads i)).1 in
    let (room, exact, counted, covered) = counts inv i lt (s.threads i) f in
    let r = ranges inv i lt (s.threads i) f in
    let (taken, placed) = is_Taken inv i lt (s.threads i) f in
    record {
      small = inv.small;
      few = inv.few;
      room = room;
      exact = exact;
      counted = counted;
      covered = covered;
      ordered = λ j l. (r j l).0;
      within = λ j l. (r j l).1;
      apart = parts-Apart inv i lt (s.threads i) f;
      full = λ j l. (r j l).2;
      pending = is_pending inv i lt (s.threads i) f;
      taken = taken;
      placed = placed;
      unique = is_Unique inv i lt (s.threads i) f;
      written = is_Written inv i lt (s.threads i) f;
    }
