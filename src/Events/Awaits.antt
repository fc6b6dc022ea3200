-- ===== src/Events/Awaits.antt =====
-- What a task of src/libPMacc/include/eventSystem waits for: the abstract view of an event handle.
use piconalpaka.Prelude.{
  ◌||◌, ℕ, ◌+◌, ◌<◌, true, false, Option, none, some, ◌==◌, if◌then◌else◌, update, ◌≡◌, ◌≢◌, ◌↔◌,
  arith, refl, sym, mem, Bool-cases, inl, inr, ◌⊎◌, zero, suc,
}
use piconalpaka.Events.{
  Kind, active, logical_and, Task, System, is_idle, is_finished, get_itask_if_not_finished,
  get_passive_itask_if_not_finished, get_active_itask_if_not_finished, find,
}
use piconalpaka.Events.Invariant.{
  one, waits, waits_at, connected_at, active_at, idle_at, connected, observers_at, count, alone,
  IsConsistent,
}

-- `Awaits h e j`: the task `e` ends after the task `j`, which is not a connected one and lives.
pub data Awaits (h : ℕ → Option Task) : ℕ → ℕ → Type 0 where
  self : {i : ℕ} → 0 < active_at (h i) → Awaits h i i
  next : {l i j : ℕ} → 0 < waits_at i (h l) → Awaits h i j → Awaits h l j

abbrev pub live_at : Option Task → ℕ
live_at o = active_at o + connected_at o

live_active : (o : Option Task) → 0 < active_at o → 0 < live_at o
live_active o h = omega (arith, h)

pub live_waits : (i : ℕ) (o : Option Task) → 0 < waits_at i o → 0 < live_at o
live_waits i none h = absurd (omega (arith, h))
live_waits i (some t) h = go t.kind h
  where
    go : (k : Kind) → 0 < waits i k → 0 < alone k + connected k
    go active g = absurd (omega (arith, g))
    go (logical_and a b) g = omega arith

pub Awaits-live : {h : ℕ → Option Task} {e j : ℕ} → Awaits h e j → 0 < live_at (h e)
Awaits-live (self a) = live_active _ a
Awaits-live (next w r) = live_waits _ _ w

pub Awaits-map :
    {h h' : ℕ → Option Task}
    → ((i : ℕ) → 0 < active_at (h i) → 0 < active_at (h' i))
    → ((l i : ℕ) → 0 < waits_at i (h l) → 0 < live_at (h i) → 0 < waits_at i (h' l))
    → {e j : ℕ} → Awaits h e j
    → Awaits h' e j
Awaits-map f g (self a) = self (f _ a)
Awaits-map f g (next w r) = next (g _ _ w (Awaits-live r)) (Awaits-map f g r)

pub no_waits : (k : ℕ) (o : Option Task) → 0 < active_at o → waits_at k o ≡ 0
no_waits k none g = absurd (omega (arith, g))
no_waits k (some t) g = go t.kind g
  where
    go : (x : Kind) → 0 < alone x → waits k x ≡ 0
    go active g = refl
    go (logical_and a b) g = absurd (omega (arith, g))

-- Without the task `i`, which waits for none, the others wait for what they waited for but `i`.
module _ {h : ℕ → Option Task} {i : ℕ} (a : 0 < active_at (h i)) where
  Awaits-without : {e j : ℕ} → Awaits h e j → i ≢ j → Awaits (update h i none) e j
  Awaits-without (self {i = k} b) d = let e : (i == k) ≡ false = ground (arith, d) in self (rw e b)
  Awaits-without (next {l = l} {i = k} w r) d = elim (Bool-cases (i == l)) [
    | inl e ↦ absurd (ground (arith, e, w, a, no_waits k (h i)))
    | inr e ↦ next (rw e w) (Awaits-without r d)
  ]

  Awaits-with : {e j : ℕ} → Awaits (update h i none) e j → Awaits h e j × (i ≢ j)
  Awaits-with (self {i = k} b) = elim (Bool-cases (i == k)) [
    | inl e ↦ absurd (ground (arith, e, b))
    | inr e ↦ (self (ground (arith, e, b)), λ q. ground (arith, e, q))
  ]
  Awaits-with (next {l = l} {i = k} w r) = elim (Bool-cases (i == l)) [
    | inl e ↦ absurd (ground (arith, e, w))
    | inr e ↦ (next (ground (arith, e, w)) (Awaits-with r).0, (Awaits-with r).1)
  ]

  pub Awaits-update : (e j : ℕ) → Awaits (update h i none) e j ↔ (Awaits h e j × (i ≢ j))
  Awaits-update e j = (Awaits-with, λ r. Awaits-without r.0 r.1)

-- A living connected task waits for some task that is not a connected one.
waits_some :
    (o : Option Task) → 0 < connected_at o → idle_at o ≡ false → (i : ℕ) × (0 < waits_at i o)
unfolding is_idle
waits_some none c b = absurd (omega (arith, c))
waits_some (some t) c b = go t.kind c b
  where
    go : (k : Kind) → 0 < connected k → is_idle k ≡ false → (i : ℕ) × (0 < waits i k)
    go active c b = absurd (omega (arith, c))
    go (logical_and zero b) c e = (b, ground (arith, e))
    go (logical_and (suc a) b) c e = (suc a, ground arith)

live_observed : (l : ℕ) (o : Option Task) → 0 < count l (observers_at o) → 0 < live_at o
live_observed l none h = absurd (omega (arith, h))
live_observed l (some t) h = go t.kind
  where
    go : (k : Kind) → 0 < alone k + connected k
    go active = omega arith
    go (logical_and a b) = omega arith

-- Every living task is, or waits for, one that is not a connected one.
pub Awaits-some :
    (s : System)
    → IsConsistent s
    → (n e : ℕ) → e < n
    → 0 < live_at (s.objects e)
    → (j : ℕ) × Awaits s.objects e j
Awaits-some s c zero e lt h = absurd (omega (arith, lt))
Awaits-some s c (suc n) e lt h = elim (positive_or_zero (active_at (s.objects e))) [
  | inl a ↦ (e, self a)
  | inr a ↦
      let w = waits_some (s.objects e) (omega (arith, a, h)) (c.busy e) in
      let i = w.0 in
      let o : 0 < count e (observers_at (s.objects i)) = omega (arith, c.observed i e, w.1) in
      let r =
        Awaits-some s c n i (omega (arith, lt, c.older i e w.1))
          (live_observed e (s.objects i) o) in
      (r.0, next w.1 r.1)
]
  where
    positive_or_zero : (x : ℕ) → (0 < x) ⊎ (x ≡ 0)
    positive_or_zero zero = inr refl
    positive_or_zero (suc x) = inl (omega arith)

-- A search in the two maps
pub get_itask_lem :
    (e : ℕ) (s : System)
    → get_itask_if_not_finished e s
      ≡ (if mem e s.passive_tasks || mem e s.tasks then some e else none)
unfolding get_itask_if_not_finished get_passive_itask_if_not_finished
    get_active_itask_if_not_finished find
get_itask_lem e s = ground arith

-- The maps have the tasks that live.
pub live_maps :
    (s : System) (e : ℕ)
    → IsConsistent s
    → one (mem e s.passive_tasks || mem e s.tasks) ≡ live_at (s.objects e)
live_maps s e c = go (s.objects e) (c.passive e) (c.actives e)
  where
    go :
        (o : Option Task)
        → one (mem e s.passive_tasks) ≡ connected_at o + 0
        → one (mem e s.tasks) ≡ active_at o
        → one (mem e s.passive_tasks || mem e s.tasks) ≡ live_at o
    go none q r = ground (arith, q, r)
    go (some t) q r = kind t.kind q r
      where
        kind :
            (k : Kind)
            → one (mem e s.passive_tasks) ≡ connected k + 0
            → one (mem e s.tasks) ≡ alone k
            → one (mem e s.passive_tasks || mem e s.tasks) ≡ alone k + connected k
        kind active q r = ground (arith, q, r)
        kind (logical_and a b) q r = ground (arith, q, r)

is_finished_live :
    (s : System) (e : ℕ) → IsConsistent s → (is_finished e s ≡ true) ↔ (live_at (s.objects e) ≡ 0)
unfolding is_finished
is_finished_live s e c =
    rw (get_itask_lem e s, sym (live_maps s e c))
      (elim (Bool-cases (mem e s.passive_tasks || mem e s.tasks)) [
        | inl x ↦ rw x (λ y. absurd (ground (arith, y)), λ y. absurd (ground (arith, y)))
        | inr x ↦ rw x (λ y. refl, λ y. refl)
      ])

-- Where the maps, the objects and the observers are consistent: `isFinished` answers true exactly
-- if there is no task left that is not a connected one and that the handle waits for.
pub is_finished_lem :
    (s : System) (e : ℕ)
    → IsConsistent s
    → (is_finished e s ≡ true) ↔ ((j : ℕ) → ¬ Awaits s.objects e j)
is_finished_lem s e c = (
  λ f j r. absurd (omega (arith, Awaits-live r, (is_finished_live s e c).0 f)),
  λ f. (is_finished_live s e c).1 (
      zero_unless (live_at (s.objects e))
        (λ l. let r = Awaits-some s c (suc e) e (omega arith) l in f r.0 r.1)),
)
  where
    zero_unless : (x : ℕ) → ¬ (0 < x) → x ≡ 0
    zero_unless zero h = refl
    zero_unless (suc x) h = absurd (h (omega arith))
