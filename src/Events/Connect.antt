-- ===== src/Events/Connect.antt =====
-- The connection of two tasks by `operator+=` in src/libPMacc/include/eventSystem/events/EventTask.tpp.
use piconalpaka.Prelude.{
  ℕ, suc, ◌≤◌, ◌<◌, true, false, Option, some, List, [], ◌∷◌, ◌==◌, ltb, subst, update, ◌≡◌, ◌⊎◌,
  ◌↔◌, arith, refl, ap, Bool-cases, inl, inr,
}
use piconalpaka.Events.{
  Observer, manager, task_logical_and, logical_and, has, is_idle, Task, System, insert,
  add_observer, combine, new_logical_and, add_passive_task, add_event, get_itask_if_not_finished,
}
use piconalpaka.Events.Invariant.{
  count, waits, waits_at, active_at, IsConsistent, mem-insert, found_positive, found_younger,
}
use piconalpaka.Events.Cascade.{update-update}
use piconalpaka.Events.Awaits.{Awaits-live, Awaits, self, next, Awaits-map}

has-count : (l : ℕ) (os : List Observer) → count l os ≡ 0 → has (task_logical_and l) os ≡ false
has-count l [] h = refl
has-count l (manager ∷ os) h = has-count l os h
has-count l (task_logical_and k ∷ os) h = elim (Bool-cases (k == l)) [
  | inl e ↦ absurd (ground (arith, h, e))
  | inr e ↦ rw e (has-count l os (ground (arith, h, e)))
]

-- The objects after the connection of `a` and `b` to the new task `n`
joined_objects : (ℕ → Option Task) → (n a b : ℕ) (ta tb : Task) → ℕ → Option Task
joined_objects h n a b ta tb =
    update
      (update (update h a (some (record ta { observers = task_logical_and n ∷ ta.observers }))) b
        (some (record tb { observers = task_logical_and n ∷ tb.observers })))
      n
      (some (record {
        kind = logical_and a b;
        task_type = combine ta.task_type tb.task_type;
        observers = manager ∷ [];
      }))

pub Awaits-younger :
    (s : System) → IsConsistent s → {e j : ℕ} → Awaits s.objects e j → e < s.global_id
Awaits-younger s c {e = e} a = elim (Bool-cases (ltb e s.global_id)) [
  | inl l ↦ ground (arith, l)
  | inr l ↦ absurd (ground (arith, Awaits-live a, c.fresh e (ground (arith, l))))
]

module _ (s : System) (a b : ℕ) (ta tb : Task) where
  pub joined : System
  joined = record s {
    global_id = suc s.global_id;
    objects = joined_objects s.objects s.global_id a b ta tb;
    passive_tasks = insert s.global_id s.passive_tasks;
  }

-- What `operator+=` does to the handles: it is to wait for both.
abbrev pub Joins : System → ℕ → ℕ → ℕ × System → Type 0
Joins s id other r =
    IsConsistent r.1
    × ((j : ℕ) → Awaits r.1.objects r.0 j ↔ (Awaits s.objects id j ⊎ Awaits s.objects other j))
    × ((e j : ℕ) → Awaits s.objects e j ↔ (Awaits r.1.objects e j × (e < s.global_id)))
    × (s.global_id ≤ r.1.global_id)
    × (r.1.iter ≡ s.iter)

module _ (s : System) (a b : ℕ) (ta tb : Task) (c : IsConsistent s) (found : s.objects a ≡ some ta)
    (found' : s.objects b ≡ some tb) (differ : (a == b) ≡ false) where
  u : System
  u = joined s a b ta tb

  n : ℕ
  n = s.global_id

  joined_Consistent : IsConsistent u
  unfolding u joined joined_objects n is_idle
  joined_Consistent =
      let la = found_younger c found in
      let lb = found_younger c found' in
      let pa = found_positive c found in
      let pb = found_positive c found' in
      let new = c.fresh s.global_id (omega arith) in
      record {
        observed = λ i l. elim (Bool-cases (s.global_id == l)) [
          | inl e ↦
              ground
                (arith, e, new, c.observed i s.global_id, found, found', la, lb, pa, pb, differ)
          | inr e ↦ ground (arith, e, c.observed i l, found, found', la, lb, differ)
        ];
        managed = λ i. ground (arith, c.managed i, found, found', la, lb);
        passive = λ i. ground (
          arith,
          c.passive i,
          found,
          found',
          la,
          lb,
          new,
          mem-insert s.global_id i s.passive_tasks,
        );
        actives = λ i. ground (arith, c.actives i, found, found', la, lb, new);
        older = λ i l g. elim (Bool-cases (s.global_id == l)) [
          | inl e ↦ ground (arith, e, la, lb, g)
          | inr e ↦ ground (arith, e, c.older i l, found, found', la, lb, g)
        ];
        busy = λ i. ground (arith, c.busy i, found, found', pa, pb);
        fresh = λ i g. ground (arith, c.fresh i (omega (arith, g)), la, lb, g);
        positive = ground (arith, c.positive, pa, pb, la);
        counter = omega arith;
      }

  active_joined : (i : ℕ) → active_at (u.objects i) ≡ active_at (s.objects i)
  unfolding u joined joined_objects n
  active_joined i =
      let new = c.fresh s.global_id (omega arith) in ground (arith, found, found', new)

  waits_joined : (i l : ℕ) → (n == l) ≡ false → waits_at i (u.objects l) ≡ waits_at i (s.objects l)
  unfolding u joined joined_objects n
  waits_joined i l e = ground (arith, found, found', e)

  waits_new : (i : ℕ) → waits_at i (u.objects n) ≡ waits i (logical_and a b)
  unfolding u joined joined_objects n
  waits_new i = ground arith

  no_waits_new : (l : ℕ) → waits_at n (s.objects l) ≡ 0
  unfolding n
  no_waits_new l =
      let new = c.fresh s.global_id (omega arith) in ground (arith, c.observed s.global_id l, new)

  waits_old : (i l : ℕ) → 0 < waits_at i (s.objects l) → (n == l) ≡ false
  unfolding n
  waits_old i l w =
      let new = c.fresh s.global_id (omega arith) in
      elim (Bool-cases (s.global_id == l)) [
        | inl e ↦ absurd (ground (arith, w, e, new))
        | inr e ↦ e
      ]

  Awaits-to_joined : {e j : ℕ} → Awaits s.objects e j → Awaits u.objects e j
  Awaits-to_joined =
      Awaits-map (λ i x. omega (arith, active_joined i, x))
        (λ l i x y. omega (arith, waits_joined i l (waits_old i l x), x))

  Awaits-of_joined : {e j : ℕ} → Awaits u.objects e j → (n == e) ≡ false → Awaits s.objects e j
  Awaits-of_joined (self {i = i} x) d = self (omega (arith, active_joined i, x))
  Awaits-of_joined (next {l = l} {i = i} x r) d =
      let w : 0 < waits_at i (s.objects l) = omega (arith, waits_joined i l d, x) in
      elim (Bool-cases (n == i)) [
        | inl e ↦ absurd (ground (arith, e, w, no_waits_new l))
        | inr e ↦ next w (Awaits-of_joined r e)
      ]

  Awaits-new :
      {e j : ℕ} → Awaits u.objects e j → e ≡ n → Awaits s.objects a j ⊎ Awaits s.objects b j
  unfolding n
  Awaits-new (self {i = i} x) q =
      let new = c.fresh s.global_id (omega arith) in
      absurd (ground (arith, x, active_joined i, q, new))
  Awaits-new {j = j} (next {l = l} {i = i} x r) q =
      let w : 0 < waits i (logical_and a b) =
        subst (λ k. 0 < k) (waits_new i) (subst (λ k. 0 < waits_at i (u.objects k)) q x) in
      elim (Bool-cases (a == i)) [
        | inl e ↦
            let p : i ≡ a = ground (arith, e) in
            inl (
              Awaits-of_joined (subst (λ k. Awaits u.objects k j) p r)
                (let la = found_younger c found in ground (arith, la)))
        | inr e ↦
            let p : i ≡ b = ground (arith, e, w) in
            inr (
              Awaits-of_joined (subst (λ k. Awaits u.objects k j) p r)
                (let lb = found_younger c found' in ground (arith, lb)))
      ]

  Awaits-joined : (j : ℕ) → Awaits u.objects n j ↔ (Awaits s.objects a j ⊎ Awaits s.objects b j)
  Awaits-joined j = (
    λ r. Awaits-new r refl,
    λ r. elim r [
      | inl x ↦ next (waits_is a (ground (arith, pa))) (Awaits-to_joined x)
      | inr x ↦ next (waits_is b (ground (arith, pb))) (Awaits-to_joined x)
    ],
  )
    where
      pa : 0 < a
      pa = found_positive c found

      pb : 0 < b
      pb = found_positive c found'

      waits_is : (i : ℕ) → 0 < waits i (logical_and a b) → 0 < waits_at i (u.objects n)
      waits_is i h = omega (arith, waits_new i, h)

  pub joined_lem : Joins s a b (s.global_id, joined s a b ta tb)
  unfolding u n joined
  joined_lem = (
    joined_Consistent,
    Awaits-joined,
    λ e j. (λ a. (Awaits-to_joined a, Awaits-younger s c a), λ r. Awaits-of_joined r.0 (old e r.1)),
    omega arith,
    refl,
  )
    where
      old : (e : ℕ) → e < s.global_id → (s.global_id == e) ≡ false
      old e d = ground (arith, d)

  pub connect :
      get_itask_if_not_finished a s ≡ some a
      → get_itask_if_not_finished b s ≡ some b
      → add_event a b s ≡ some (s.global_id, joined s a b ta tb)
  unfolding add_event new_logical_and add_passive_task u joined joined_objects add_observer n
  connect ea eb =
      let new = c.fresh s.global_id (omega arith) in
      let ha =
        has-count s.global_id ta.observers (ground (arith, c.observed a s.global_id, found, new)) in
      let hb =
        has-count s.global_id tb.observers
          (ground (arith, c.observed b s.global_id, found', new)) in
      let same : (s.global_id == s.global_id) ≡ true = ground arith in
      rw (add_event, differ, ea, eb)
        (rw (found, found')
          (rw (same, ha, hb)
            (ap
              (λ o. some (
                s.global_id,
                record s {
                  global_id = suc s.global_id;
                  objects = o;
                  passive_tasks = insert s.global_id s.passive_tasks;
                },
              ))
              (update-update _ s.global_id _ _))))
