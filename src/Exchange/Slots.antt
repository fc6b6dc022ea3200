-- ===== src/Exchange/Slots.antt =====
-- What the threads have pushed when all are done, in
-- src/libPMacc/include/particles/memory/boxes/ExchangePushDataBox.hpp.
use piconalpaka.Prelude.{
  ℕ, ◌+◌, ◌<◌, ◌≤◌, ◌≡◌, ◌≢◌, ◌⊎◌, inl, inr, some, min, arith, refl, Bool-cases, ltb, sym, ◌∙◌,
}
use piconalpaka.Dimensions.{DataSpace3}
use piconalpaka.Exchange.{Pushing, Pusher, start, over, reserve, write, tile, null, ExchangeStack}
use piconalpaka.Exchange.Family.{total, total_zero}
use piconalpaka.Exchange.Threads.{
  first, behind, claimed, waiting, indexed, address, IsOver, IsFull, IsWritten,
}
use piconalpaka.Exchange.Invariant.{IsPushing, Reach, here, later}
use piconalpaka.Exchange.Keep.{turn-IsPushing}

abbrev pub IsStart : Pusher → Type 0
IsStart (start count cell) = Unit
IsStart _ = ⊥

abbrev pub IsDone : Pusher → Type 0
IsDone (tile a old_size count cell) = Unit
IsDone null = Unit
IsDone _ = ⊥

-- An empty stack, and threads that are about to push
pub record Starts (max_size n : ℕ) (s : Pushing) : Type 0 where
  pub empty : s.stack.current_size ≡ 0
  pub no_index : s.stack.index_size ≡ 0
  pub at_start : (i : ℕ) → i < n → IsStart (s.threads i)
  pub fits : max_size + total waiting n s.threads < 4294967296
  pub few : n + 1 < 4294967296

record Nothing (max_size : ℕ) (m : ExchangeStack) (p : Pusher) : Type 0 where
  no_claim : claimed max_size p ≡ 0
  no_index : indexed p ≡ 0
  at_first : first max_size p ≡ 0
  at_end : behind max_size p ≡ 0
  no_place : (a : ℕ) → address p ≢ some a
  not_full : IsFull max_size m p
  not_written : IsWritten m p

IsStart-Nothing : (max_size : ℕ) (m : ExchangeStack) (p : Pusher) → IsStart p → Nothing max_size m p
IsStart-Nothing max_size m (start c cell) h = record {
  no_claim = refl;
  no_index = refl;
  at_first = refl;
  at_end = refl;
  no_place = λ a e. cc;
  not_full = tt;
  not_written = tt;
}
IsStart-Nothing max_size m (over o c cell) h = absurd h
IsStart-Nothing max_size m (reserve o c cell) h = absurd h
IsStart-Nothing max_size m (write a o c cell) h = absurd h
IsStart-Nothing max_size m (tile a o c cell) h = absurd h
IsStart-Nothing max_size m null h = absurd h

pub Starts-IsPushing :
    {max_size n : ℕ} {s : Pushing}
    → Starts max_size n s
    → IsPushing max_size (total waiting n s.threads) n s
Starts-IsPushing {max_size} {n} {s} b =
    let none_at =
      λ (i : ℕ) (l : i < n). IsStart-Nothing max_size s.stack (s.threads i) (b.at_start i l) in
    let claims : total (claimed max_size) n s.threads ≡ 0 =
      total_zero (claimed max_size) n s.threads (λ i l. (none_at i l).no_claim) in
    let places : total indexed n s.threads ≡ 0 =
      total_zero indexed n s.threads (λ i l. (none_at i l).no_index) in
    record {
      small = b.fits;
      few = b.few;
      room = omega (arith, b.empty);
      exact = inl (omega (arith, b.empty));
      counted = omega (arith, claims);
      covered = omega (arith, claims, b.empty);
      ordered = λ i l. omega (arith, (none_at i l).at_first, (none_at i l).at_end);
      within = λ i l. omega (arith, (none_at i l).at_end);
      apart = λ i j l m d. inl (omega (arith, (none_at i l).at_end));
      full = λ i l. (none_at i l).not_full;
      pending = λ h. absurd (omega (arith, h, b.empty));
      taken = b.no_index ∙ sym places;
      placed = λ i a l e. absurd ((none_at i l).no_place a e);
      unique = λ i j a l m e f. absurd ((none_at i l).no_place a e);
      written = λ i l. (none_at i l).not_written;
    }

Reach-IsPushing :
    {max_size all n : ℕ} {s t : Pushing}
    → IsPushing max_size all n s
    → Reach max_size n s t
    → IsPushing max_size all n t
Reach-IsPushing inv here = inv
Reach-IsPushing inv (later i l r) = turn-IsPushing (Reach-IsPushing inv r) i l

-- Two tiles are apart, within the stack, and their indices are at places of their own.
pub record Filled (max_size all n : ℕ) (t : Pushing) : Type 0 where
  pub size : t.stack.current_size ≡ min all max_size
  pub tiles : total (claimed max_size) n t.threads ≡ min all max_size
  pub within :
      (i a o c : ℕ) (cell : DataSpace3)
      → i < n
      → t.threads i ≡ tile a o c cell
      → (o + c ≤ max_size)
        × (a < t.stack.index_size)
        × (t.stack.indices a ≡ record { super_cell = cell; start_idx = o; count = c })
  pub apart :
      (i j a b o p c d : ℕ) (x y : DataSpace3)
      → i < n
      → j < n
      → i ≢ j
      → t.threads i ≡ tile a o c x
      → t.threads j ≡ tile b p d y
      → ((o + c ≤ p) ⊎ (p + d ≤ o)) × (a ≢ b)
  pub indices : t.stack.index_size ≡ total indexed n t.threads

done_facts : (p : Pusher) → IsDone p → (waiting p ≡ 0) × (IsOver p → ⊥)
done_facts (tile a o c x) h = (refl, λ g. g)
done_facts null h = (refl, λ g. g)
done_facts (start c x) h = absurd h
done_facts (over o c x) h = absurd h
done_facts (reserve o c x) h = absurd h
done_facts (write a o c x) h = absurd h

-- `n` threads push onto an empty stack, in any order of their turns, and less than 2^32 elements are asked
-- for, beside those that fit. When all are done, the size of the stack is the smaller of what they asked for
-- and what fits; the tiles have that many elements, lie within the stack, are apart from one another, and
-- each has its index at a place of its own.
pub push_n_lem :
    {max_size n : ℕ} {s t : Pushing}
    → Starts max_size n s
    → Reach max_size n s t
    → ((i : ℕ) → i < n → IsDone (t.threads i))
    → Filled max_size (total waiting n s.threads) n t
push_n_lem {max_size} {n} {s} {t} b r d =
    let inv = Reach-IsPushing (Starts-IsPushing b) r in
    let none_waits : total waiting n t.threads ≡ 0 =
      total_zero waiting n t.threads (λ i l. (done_facts (t.threads i) (d i l)).0) in
    let size : t.stack.current_size ≡ min (total waiting n s.threads) max_size =
      elim (Bool-cases (ltb max_size t.stack.current_size)) [
        | inl h ↦
            let (i, l, o) = inv.pending (ground (arith, h)) in
            absurd ((done_facts (t.threads i) (d i l)).1 o)
        | inr h ↦ ground (arith, h, none_waits, inv.exact, inv.counted, inv.covered)
      ] in
    record {
      size = size;
      tiles = inv.covered ∙ omega (arith, size);
      within =
          λ i a o c x l e. ground (arith, e, inv.within i l, inv.placed i a l, inv.written i l);
      apart = λ i j a b o p c d x y l m ne e f.
          ground (arith, e, f, inv.apart i j l m ne, inv.unique i j a l m);
      indices = inv.taken;
    }
