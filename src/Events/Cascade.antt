-- ===== src/Events/Cascade.antt =====
-- The destructors of src/libPMacc/include/eventSystem/tasks: a notification deletes the connected
-- tasks that it finishes, which notify in turn.
use piconalpaka.Prelude.{
  ℕ, zero, suc, ◌+◌, ◌≤◌, ◌<◌, true, false, Option, none, some, List, [], ◌∷◌, ◌==◌, update, ◌≡◌,
  ◌↔◌, arith, refl, sym, ◌∙◌, subst, Bool-cases, inl, inr,
}
use piconalpaka.Events.{
  Observer, manager, task_logical_and, Task, System, erase, is_idle, finish_subtask, event, notify,
  delete_task,
}
use piconalpaka.Events.Invariant.{
  one, waits, waits_at, active_at, Consistent, found_younger, mem-erase, update-at,
}
use piconalpaka.Events.Awaits.{Awaits, Awaits-map}
use piconalpaka.Events.Change.{
  due, due_manager, waits_cases, alone-waits, kind-finish_subtask, waits-is_idle,
  waits-finish_subtask, change_Consistent, remove_Consistent,
}

-- What a notification keeps
pub record Same (s u : System) : Type 0 where
  pub counters : u.global_id ≡ s.global_id
  pub lists : u.tasks ≡ s.tasks
  pub places : u.iter ≡ s.iter
  pub gone : (i : ℕ) → s.objects i ≡ none → u.objects i ≡ none
  pub awaits : (e j : ℕ) → Awaits s.objects e j ↔ Awaits u.objects e j

pub Same-trans : {s t u : System} → Same s t → Same t u → Same s u
Same-trans a b = record {
  counters = b.counters ∙ a.counters;
  lists = b.lists ∙ a.lists;
  places = b.places ∙ a.places;
  gone = λ i h. b.gone i (a.gone i h);
  awaits = λ e j.
      (λ x. (b.awaits e j).0 ((a.awaits e j).0 x), λ x. (a.awaits e j).1 ((b.awaits e j).1 x));
}

-- `event` at the manager
erase-Consistent :
    (s : System) (p : ℕ → ℕ → ℕ) (m : ℕ → ℕ) (id : ℕ) (os : List Observer)
    → s.objects id ≡ none
    → Consistent s (due id (manager ∷ os) p) (due_manager id (manager ∷ os) m)
    → Consistent
        (record s { passive_tasks = erase id s.passive_tasks })
        (due id os p)
        (due_manager id os m)
erase-Consistent s p m id os d h = record {
  observed = h.observed;
  managed = h.managed;
  passive = λ i. ground (arith, h.passive i, mem-erase id i s.passive_tasks, d);
  actives = h.actives;
  older = h.older;
  busy = h.busy;
  fresh = h.fresh;
  positive = h.positive;
  counter = h.counter;
}

pub update-update :
    (f : ℕ → Option Task) (l : ℕ) (a b : Option Task) → update (update f l a) l b ≡ update f l b
update-update f l a b = λ x i. same i x
  where
    same : (i : ℕ) → update (update f l a) l b i ≡ update f l b i
    same i = ground arith

-- What the deletion of a task does that is younger than `n`
abbrev pub Deletes : (ℕ → System → Option System) → ℕ → ℕ → Type 0
Deletes f g n =
    (l : ℕ) (s : System) (p : ℕ → ℕ → ℕ) (m : ℕ → ℕ) (t : Task)
    → n < l
    → l < g
    → s.global_id ≡ g
    → s.objects l ≡ some t
    → let v = record s { objects = update s.objects l none } in
      Consistent v (due l t.observers p) (due_manager l t.observers m)
      → (u : System) × (f l s ≡ some u) × Consistent u p m × Same v u

-- A task that waits for one less, which does not live, or that is taken out then
Awaits-less :
    (h : ℕ → Option Task) (id l : ℕ) (o : Option Task)
    → h id ≡ none
    → active_at (h l) ≡ 0
    → active_at o ≡ 0
    → ((i : ℕ) → waits_at i (h l) ≡ one (id == i) + waits_at i o)
    → (e j : ℕ) → Awaits h e j ↔ Awaits (update h l o) e j
Awaits-less h id l o gone a a' w e j = (
  Awaits-map (λ i x. ground (arith, x, a))
      (λ k i x y. elim (Bool-cases (l == k)) [
        | inl q ↦ ground (arith, q, x, y, w i, gone)
        | inr q ↦ ground (arith, q, x)
      ]),
  Awaits-map (λ i x. ground (arith, x, a, a'))
      (λ k i x y. elim (Bool-cases (l == k)) [
        | inl q ↦ ground (arith, q, x, w i)
        | inr q ↦ ground (arith, q, x)
      ]),
)

-- The connected task `l` waits for the task `id`, which does not live any more.
module _ (s : System) (p : ℕ → ℕ → ℕ) (m : ℕ → ℕ) (id l : ℕ) (os : List Observer) (t : Task)
    (gone : s.objects id ≡ none) (h : Consistent s (due id (task_logical_and l ∷ os) p) m)
    (found : s.objects l ≡ some t) where
  waits_for : 0 < waits id t.kind
  waits_for = ground (arith, h.observed id l, gone, found)

  one_less : (i : ℕ) → waits i t.kind ≡ one (id == i) + waits i (finish_subtask id t.kind)
  one_less i = waits-finish_subtask id i t.kind waits_for

  others : (i k : ℕ) → (l == k) ≡ false → due id (task_logical_and l ∷ os) p i k ≡ due id os p i k
  others i k e = ground (arith, e)

  due_less : (i : ℕ) → due id (task_logical_and l ∷ os) p i l ≡ one (id == i) + due id os p i l
  due_less i = ground arith

  finish_Consistent :
      is_idle (finish_subtask id t.kind) ≡ false
      → Consistent
          (record s {
            objects = update s.objects l (some (record t { kind = finish_subtask id t.kind }));
          })
          (due id os p)
          m
  finish_Consistent e =
      change_Consistent s (due id (task_logical_and l ∷ os) p) (due id os p) m l t h found others
        (record t { kind = finish_subtask id t.kind }) refl (kind-finish_subtask id t.kind).0
        (kind-finish_subtask id t.kind).1 e (λ i. omega (arith, due_less i, one_less i))
        (λ i. omega (arith, one_less i))

  end_Consistent :
      is_idle (finish_subtask id t.kind) ≡ true
      → Consistent
          (record s { objects = update s.objects l none })
          (due l t.observers (due id os p))
          (due_manager l t.observers m)
  end_Consistent e =
      remove_Consistent s (due id (task_logical_and l ∷ os) p) (due id os p) m l t h found others
        s.tasks (λ i. ground (arith, h.actives i, alone-waits id t.kind waits_for, found))
        (λ i. omega (arith, due_less i, one_less i, waits-is_idle i (finish_subtask id t.kind) e))

-- What a call does after which the calls of the task `id` at `os` are to come
abbrev Ends : System → ℕ → List Observer → (ℕ → ℕ → ℕ) → (ℕ → ℕ) → Option System → Type 0
Ends s id os p m r =
    (u : System) × (r ≡ some u) × Consistent u (due id os p) (due_manager id os m) × Same s u

Same-update :
    (s : System) (id l : ℕ) (o : Option Task) (t : Task)
    → s.objects id ≡ none
    → s.objects l ≡ some t
    → 0 < waits id t.kind
    → active_at o ≡ 0
    → ((i : ℕ) → waits i t.kind ≡ one (id == i) + waits_at i o)
    → Same s (record s { objects = update s.objects l o })
Same-update s id l o t gone found w a c = record {
  counters = refl;
  lists = refl;
  places = refl;
  gone = λ i e. ground (arith, e, found);
  awaits =
      Awaits-less s.objects id l o gone (ground (arith, found, alone-waits id t.kind w)) a
        (λ i. ground (arith, found, c i));
}

-- `event` at a connected task
module _ (f : ℕ → System → Option System) (id : ℕ) (p : ℕ → ℕ → ℕ) (m : ℕ → ℕ) (s : System) (l : ℕ)
    (os : List Observer) (t : Task) (deletes : Deletes f s.global_id id)
    (gone : s.objects id ≡ none)
    (h : Consistent s (due id (task_logical_and l ∷ os) p) (due_manager id os m))
    (found : s.objects l ≡ some t) where
  finished : Task
  finished = record t { kind = finish_subtask id t.kind }

  waits_l : 0 < waits_at id (s.objects l)
  waits_l = ground (arith, h.observed id l, gone)

  waits_t : 0 < waits id t.kind
  waits_t = ground (arith, waits_l, found)

  one_less' : (i : ℕ) → waits i t.kind ≡ one (id == i) + waits i (finish_subtask id t.kind)
  one_less' i = waits-finish_subtask id i t.kind waits_t

  delete_lem :
      is_idle (finish_subtask id t.kind) ≡ true
      → Ends s id os p m (f l (record s { objects = update s.objects l (some finished) }))
  unfolding finished
  delete_lem e =
      let v = record s { objects = update s.objects l (some finished) } in
      let c = end_Consistent s p (due_manager id os m) id l os t gone h found e in
      let r =
        deletes l v (due id os p) (due_manager id os m) finished (h.older id l waits_l)
          (found_younger h found) refl (update-at s.objects l (some finished))
          (rw (update-update s.objects l (some finished) none) c) in
      (
        r.0,
        r.1,
        r.2,
        Same-trans
            (Same-update s id l none t gone found waits_t refl
              (λ i. omega (arith, one_less' i, waits-is_idle i (finish_subtask id t.kind) e)))
            (subst (λ o. Same (record s { objects = o }) r.0)
              (update-update s.objects l (some finished) none) r.3),
      )

  event_connected : Ends s id os p m (event f (task_logical_and l) id s)
  unfolding event finished
  event_connected =
      rw (event, found)
        (elim (Bool-cases (is_idle (finish_subtask id t.kind))) [
          | inl e ↦ rw e (delete_lem e)
          | inr e ↦ rw e (
            record s { objects = update s.objects l (some finished) },
            refl,
            finish_Consistent s p (due_manager id os m) id l os t gone h found e,
            Same-update s id l (some finished) t gone found waits_t
                ((kind-finish_subtask id t.kind).1 ∙ alone-waits id t.kind waits_t) one_less',
          )
        ])

module _ (f : ℕ → System → Option System) (id : ℕ) (p : ℕ → ℕ → ℕ) (m : ℕ → ℕ) where
  event_lem :
      (s : System) (o : Observer) (os : List Observer)
      → Deletes f s.global_id id
      → s.objects id ≡ none
      → Consistent s (due id (o ∷ os) p) (due_manager id (o ∷ os) m)
      → Ends s id os p m (event f o id s)
  unfolding event
  event_lem s manager os d gone h = (
    record s { passive_tasks = erase id s.passive_tasks },
    refl,
    erase-Consistent s p m id os gone h,
    record {
      counters = refl;
      lists = refl;
      places = refl;
      gone = λ i e. e;
      awaits = λ e j. (λ x. x, λ x. x);
    },
  )
  event_lem s (task_logical_and l) os d gone h =
      let r = waits_cases id (s.objects l) (ground (arith, h.observed id l, gone)) in
      event_connected f id p m s l os r.0 d gone h r.1

  notify_lem :
      (s : System) (os : List Observer)
      → Deletes f s.global_id id
      → s.objects id ≡ none
      → Consistent s (due id os p) (due_manager id os m)
      → Ends s id [] p m (notify f id os s)
  unfolding notify
  notify_lem s [] d gone h = (
    s,
    refl,
    h,
    record {
      counters = refl;
      lists = refl;
      places = refl;
      gone = λ i e. e;
      awaits = λ e j. (λ x. x, λ x. x);
    },
  )
  notify_lem s (o ∷ os) d gone h =
      let r = event_lem s o os d gone h in
      let u = r.0 in
      let q =
        notify_lem u os (subst (λ g. Deletes f g id) (sym r.3.counters) d) (r.3.gone id gone) r.2 in
      rw (notify, r.1) (q.0, q.1, q.2, Same-trans r.3 q.3)

due_none :
    (s : System) (id : ℕ) (p : ℕ → ℕ → ℕ) (m : ℕ → ℕ)
    → Consistent s (due id [] p) (due_manager id [] m)
    → Consistent s p m
due_none s id p m h = record {
  observed = λ i l. ground (arith, h.observed i l);
  managed = h.managed;
  passive = λ i. ground (arith, h.passive i);
  actives = h.actives;
  older = h.older;
  busy = h.busy;
  fresh = h.fresh;
  positive = h.positive;
  counter = h.counter;
}

-- The fuel is enough: what a notification deletes is younger than the task that notifies.
pub delete_task_lem : (fuel g n : ℕ) → g ≤ n + fuel → Deletes (delete_task fuel) g n
unfolding delete_task
delete_task_lem zero g n le l s p m t lt lt' e found h = absurd (omega (arith, le, lt, lt'))
delete_task_lem (suc fuel) g n le l s p m t lt lt' e found h =
    let v = record s { objects = update s.objects l none } in
    let d : Deletes (delete_task fuel) g l = delete_task_lem fuel g l (omega (arith, le, lt)) in
    let r =
      notify_lem (delete_task fuel) l p m v t.observers
        (subst (λ g. Deletes (delete_task fuel) g l) (sym e) d) (update-at s.objects l none) h in
    rw (delete_task, found) (r.0, r.1, due_none r.0 l p m r.2, r.3)
