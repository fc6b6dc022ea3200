-- ===== src/Events/Execute/Poll.antt =====
-- `execute` of src/libPMacc/include/eventSystem/Manager.tpp for tasks that only look whether their
-- work is done, as those for a stream and for MPI do.
use piconalpaka.Prelude.{
  ℕ, zero, suc, ◌+◌, ◌≤◌, ◌<◌, Bool, true, false, Option, none, some, List, ◌==◌, ltb,
  if◌then◌else◌, mem, ◌≡◌, ◌≢◌, ◌⊎◌, ◌↔◌, arith, refl, sym, ap, ◌∙◌, subst, Bool-cases, inl, inr,
}
use piconalpaka.Events.{Task, System, erase, finish_task}
use piconalpaka.Events.Execute.Above.{Above, above_lem, left, left-above}
use piconalpaka.Events.Execute.{above, execute_from, execute}
use piconalpaka.Events.Invariant.{IsConsistent, active_at, found_younger, mem-erase}
use piconalpaka.Events.Awaits.{Awaits, self, next}
use piconalpaka.Events.Finish.{finish_task_lem}

-- The work of the tasks is done or not, and to look changes nothing.
abbrev pub polls : (ℕ → Bool) → ℕ → System → Option (Bool × System)
polls done id s = some (done id, s)

pub Awaits-mem :
    (s : System) → IsConsistent s → {e j : ℕ} → Awaits s.objects e j → mem j s.tasks ≡ true
Awaits-mem s c (self {i = i} a) = ground (arith, c.actives i, a)
Awaits-mem s c (next w r) = Awaits-mem s c r

iter_Consistent :
    (s : System) (o : Option ℕ) → IsConsistent s → IsConsistent (record s { iter = o })
iter_Consistent s o c = record {
  observed = c.observed;
  managed = c.managed;
  passive = c.passive;
  actives = c.actives;
  older = c.older;
  busy = c.busy;
  fresh = c.fresh;
  positive = c.positive;
  counter = c.counter;
}

-- The iterator is at a key, and the fuel is enough for the keys from there.
abbrev Ready : ℕ → System → Option ℕ → Type 0
Ready fuel s none = 0 < fuel
Ready fuel s (some k) = (mem k s.tasks ≡ true) × (s.global_id < k + fuel)

Ready-above :
    (fuel k : ℕ) (s : System) (is : List ℕ)
    → s.global_id ≤ k + fuel
    → k < s.global_id
    → ((i : ℕ) → mem i is ≡ true → k < i → mem i s.tasks ≡ true)
    → Ready fuel s (above k is)
Ready-above fuel k s is f l h = go (above k is) (above_lem k is)
  where
    go : (o : Option ℕ) → Above k is o → Ready fuel s o
    go none a = omega (arith, f, l)
    go (some i) a = (h i a.0 a.1, omega (arith, f, a.1))

-- The answer `r.0` is that of `task_to_wait`; else the tasks are visited, and those that are done
-- have ended.
record Visited (done : ℕ → Bool) (task_to_wait : ℕ) (s : System) (o : Option ℕ) (r : Bool × System)
    : Type 0 where
  consistent : IsConsistent r.1
  fewer : {e j : ℕ} → Awaits r.1.objects e j → Awaits s.objects e j
  visited : {e j : ℕ} → r.0 ≡ false → Awaits r.1.objects e j → left o j ≡ true → done j ≡ false
  stays : {e j : ℕ} → Awaits s.objects e j → done j ≡ false → Awaits r.1.objects e j
  keeps : {e j : ℕ} → Awaits s.objects e j → Awaits r.1.objects j j → Awaits r.1.objects e j
  found : r.0 ≡ true → mem task_to_wait r.1.tasks ≡ false
  asked : r.0 ≡ true → mem task_to_wait s.tasks ≡ true
  at_end : r.1.iter ≡ none
  counters : r.1.global_id ≡ s.global_id

active_some : (o : Option Task) → 0 < active_at o → (t : Task) × (o ≡ some t)
active_some none h = absurd (omega (arith, h))
active_some (some t) h = (t, refl)

mem_younger : (s : System) (k : ℕ) → IsConsistent s → mem k s.tasks ≡ true → k < s.global_id
mem_younger s k c m = found_younger c (active_some (s.objects k) (ground (arith, m, c.actives k))).1

-- The loop from a state on, with the iterator at `o`
abbrev Loop : (ℕ → Bool) → ℕ → ℕ → System → Option ℕ → Type 0
Loop done wait fuel s o =
    (r : Bool × System) × (execute_from (polls done) fuel wait s ≡ some r) × Visited done wait s o r

module _ (done : ℕ → Bool) (wait fuel k : ℕ) (s : System)
    (loop : (v : System) (o : Option ℕ)
      → IsConsistent v
      → v.iter ≡ o
      → Ready fuel v o
      → Loop done wait fuel v o)
    (c : IsConsistent s) (e : s.iter ≡ some k) (m : mem k s.tasks ≡ true)
    (f : s.global_id < k + suc fuel) where
  v : System
  v = record s { iter = above k s.tasks }

  younger : k < s.global_id
  younger = mem_younger s k c m

  waiting :
      done k ≡ false
      → execute_from (polls done) (suc fuel) wait s ≡ execute_from (polls done) fuel wait v
  unfolding execute_from v
  waiting d = rw (execute_from, e) (rw m (rw d refl))

  ended :
      (u : System)
      → done k ≡ true
      → finish_task k v ≡ some u
      → execute_from (polls done) (suc fuel) wait s ≡ (
          if wait == k
          then some (true, record u { iter = none })
          else execute_from (polls done) fuel wait u)
  unfolding execute_from v
  ended u d g = rw (execute_from, e) (rw m (rw (d, g) refl))

  at_waiting : done k ≡ false → Loop done wait (suc fuel) s (some k)
  unfolding v
  at_waiting d =
      let r =
        loop v (above k s.tasks) (iter_Consistent s (above k s.tasks) c) refl
          (Ready-above fuel k s s.tasks (omega (arith, f)) younger (λ i h l. h)) in
      let g = r.2 in
      (
        r.0,
        waiting d ∙ r.1,
        record {
          consistent = g.consistent;
          fewer = g.fewer;
          visited = λ {e} {j} b a l. elim (Bool-cases (ltb k j)) [
            | inl q ↦ g.visited b a (left-above k s.tasks j (Awaits-mem s c (g.fewer a)) ∙ q)
            | inr q ↦ let w : k ≡ j = ground (arith, l, q) in subst (λ j. done j ≡ false) w d
          ];
          stays = g.stays;
          keeps = g.keeps;
          asked = g.asked;
          found = g.found;
          at_end = g.at_end;
          counters = g.counters;
        },
      )

  at_done : done k ≡ true → Loop done wait (suc fuel) s (some k)
  unfolding v
  at_done d =
      let q = finish_task_lem v k (iter_Consistent s (above k s.tasks) c) m in
      after d q.0 q.1 q.2 q.3 q.4 q.5 q.6
    where
      differ : {j : ℕ} → done k ≡ true → done j ≡ false → k ≢ j
      differ a b q = ground (arith, subst (λ i. done i ≡ true) q a, b)

      after :
          done k ≡ true
          → (u : System) → finish_task k v ≡ some u
          → IsConsistent u
          → ((e j : ℕ) → Awaits u.objects e j ↔ (Awaits s.objects e j × (k ≢ j)))
          → u.tasks ≡ erase k s.tasks
          → u.global_id ≡ s.global_id
          → u.iter ≡ above k s.tasks
          → Loop done wait (suc fuel) s (some k)
      after d u g cu aw ts ids it = elim (Bool-cases (wait == k)) [
        | inl w ↦ (
          (true, record u { iter = none }),
          ended u d g ∙ rw w refl,
          record {
            consistent = iter_Consistent u none cu;
            fewer = λ {e} {j} a. ((aw e j).0 a).0;
            visited = λ b a l. absurd (ground (arith, b));
            stays = λ {e} {j} a b. (aw e j).1 (a, differ d b);
            keeps = λ {e} {j} a b. (aw e j).1 (a, ((aw j j).0 b).1);
            asked =
                λ b. let q : k ≡ wait = ground (arith, w) in subst (λ i. mem i s.tasks ≡ true) q m;
            found = λ b. ap (mem wait) ts ∙ (mem-erase k wait s.tasks ∙ ground (arith, w));
            at_end = refl;
            counters = ids;
          },
        )
        | inr w ↦
            let r = loop u (above k s.tasks) cu it (
              Ready-above fuel k u s.tasks (omega (arith, f, ids)) (omega (arith, younger, ids))
                (λ i h l. ap (mem i) ts ∙ (mem-erase k i s.tasks ∙ ground (arith, h, l)))) in
            let h = r.2 in
            (
              r.0,
              ended u d g ∙ (rw w refl ∙ r.1),
              record {
                consistent = h.consistent;
                fewer = λ {e} {j} a. ((aw e j).0 (h.fewer a)).0;
                visited = λ {e} {j} b a l.
                    let x = (aw e j).0 (h.fewer a) in
                    h.visited b a
                      (left-above k s.tasks j (Awaits-mem s c x.0) ∙ ground (arith, l, x.1));
                stays = λ {e} {j} a b. h.stays ((aw e j).1 (a, differ d b)) b;
                keeps = λ {e} {j} a b. h.keeps ((aw e j).1 (a, ((aw j j).0 (h.fewer b)).1)) b;
                asked = λ b.
                    ground (arith, mem-erase k wait s.tasks, sym (h.asked b) ∙ ap (mem wait) ts);
                found = h.found;
                at_end = h.at_end;
                counters = h.counters ∙ ids;
              },
            )
      ]

loop :
    (done : ℕ → Bool) (wait fuel : ℕ) (s : System) (o : Option ℕ)
    → IsConsistent s
    → s.iter ≡ o
    → Ready fuel s o
    → Loop done wait fuel s o
unfolding execute_from
loop done wait zero s none c e h = absurd (omega (arith, h))
loop done wait zero s (some k) c e h = absurd (omega (arith, h.1, mem_younger s k c h.0))
loop done wait (suc fuel) s none c e h = (
  (false, s),
  simp (execute_from, e) refl,
  record {
    consistent = c;
    fewer = λ a. a;
    visited = λ b a l. absurd (ground (arith, l));
    stays = λ a b. a;
    keeps = λ a b. a;
    asked = λ b. absurd (ground (arith, b));
    found = λ b. absurd (ground (arith, b));
    at_end = e;
    counters = refl;
  },
)
loop done wait (suc fuel) s (some k) c e h = elim (Bool-cases (done k)) [
  | inl d ↦ at_done done wait fuel k s (loop done wait fuel) c e h.0 h.1 d
  | inr d ↦ at_waiting done wait fuel k s (loop done wait fuel) c e h.0 h.1 d
]

-- Each handle waits for those of its tasks that still live.
abbrev pub Shrinks : System → System → Type 0
Shrinks s u = (e j : ℕ) → Awaits u.objects e j ↔ (Awaits s.objects e j × Awaits u.objects j j)

pub Awaits-last : {h : ℕ → Option Task} {e j : ℕ} → Awaits h e j → Awaits h j j
Awaits-last (self x) = self x
Awaits-last (next w r) = Awaits-last r

pub Shrinks_of :
    (s u : System)
    → ((e j : ℕ) → Awaits u.objects e j → Awaits s.objects e j)
    → ((e j : ℕ) → Awaits s.objects e j → Awaits u.objects j j → Awaits u.objects e j)
    → Shrinks s u
Shrinks_of s u f g e j = (λ a. (f e j a, Awaits-last a), λ a. g e j a.0 a.1)

-- Where the maps, the objects and the observers are consistent, no call of `execute` is under way,
-- and to look at a task changes nothing: `execute` ends with the fuel given, accesses no deleted
-- object and keeps the consistency. If its answer is false, then each handle waits for what it
-- waited for before, but for the tasks that are done. If it is true, then the task that was asked
-- for was active and is not any more, each handle waits for those of its tasks that still live, and
-- for all that is not done.
pub execute_lem :
    (done : ℕ → Bool) (task_to_wait : ℕ) (s : System)
    → IsConsistent s
    → s.iter ≡ none
    → (r : Bool × System) × (execute (polls done) s.global_id task_to_wait s ≡ some r)
      × IsConsistent r.1
      × (r.1.iter ≡ none)
      × (r.1.global_id ≡ s.global_id)
      × (((r.0 ≡ false)
            × ((e j : ℕ) → Awaits r.1.objects e j ↔ (Awaits s.objects e j × (done j ≡ false))))
          ⊎ ((r.0 ≡ true)
              × (mem task_to_wait s.tasks ≡ true)
              × (mem task_to_wait r.1.tasks ≡ false)
              × Shrinks s r.1
              × ((e j : ℕ) → (Awaits s.objects e j × (done j ≡ false)) → Awaits r.1.objects e j)))
unfolding execute
execute_lem done task_to_wait s c e =
    let v = record s { iter = above 0 s.tasks } in
    let r =
      loop done task_to_wait s.global_id v (above 0 s.tasks) (iter_Consistent s (above 0 s.tasks) c)
        refl (Ready-above s.global_id 0 s s.tasks (omega arith) c.counter (λ i h l. h)) in
    let g = r.2 in
    (
      r.0,
      simp (execute, e) r.1,
      g.consistent,
      g.at_end,
      g.counters,
      elim (Bool-cases r.0.0) [
        | inr b ↦ inl (
          b,
          λ e j. (
            λ a. (
              g.fewer a,
              g.visited b a (
                  left-above 0 s.tasks j (Awaits-mem s c (g.fewer a))
                  ∙ positive j (Awaits-mem s c (g.fewer a))),
            ),
            λ a. g.stays a.0 a.1,
          ),
        )
        | inl b ↦ inr (
          b,
          g.asked b,
          g.found b,
          Shrinks_of s r.0.1 (λ e j. g.fewer) (λ e j. g.keeps),
          λ e j a. g.stays a.0 a.1,
        )
      ],
    )
  where
    positive : (j : ℕ) → mem j s.tasks ≡ true → ltb 0 j ≡ true
    positive zero m = absurd (ground (arith, m, c.actives 0, c.positive))
    positive (suc j) m = ground arith
