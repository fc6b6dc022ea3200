-- ===== src/Events/Change.antt =====
-- One change of an object of src/libPMacc/include/eventSystem: a connected task waits for one task
-- less, or a task is taken out.
use piconalpaka.Prelude.{
  ℕ, ◌+◌, ◌≤◌, ◌<◌, true, false, Option, none, some, List, ◌==◌, if◌then◌else◌, update, mem, ◌≡◌,
  arith, refl, ap, ◌∙◌, Bool-cases, inl, inr,
}
use piconalpaka.Events.{Observer, Kind, active, logical_and, Task, System, is_idle, finish_subtask}
use piconalpaka.Events.Invariant.{
  one, count, managers, waits, waits_at, observers_at, connected_at, active_at, idle_at, Consistent,
  connected, alone,
}

-- With the calls of the task `id` at `os` still to come
abbrev pub due : ℕ → List Observer → (ℕ → ℕ → ℕ) → ℕ → ℕ → ℕ
due id os p i l = if id == i then count l os + p i l else p i l

abbrev pub due_manager : ℕ → List Observer → (ℕ → ℕ) → ℕ → ℕ
due_manager id os m i = if id == i then managers os + m i else m i

pub waits_cases : (i : ℕ) (o : Option Task) → 0 < waits_at i o → (t : Task) × (o ≡ some t)
waits_cases i none h = absurd (omega (arith, h))
waits_cases i (some t) h = (t, refl)

pub kind-finish_subtask :
    (id : ℕ) (k : Kind)
    → (connected (finish_subtask id k) ≡ connected k) × (alone (finish_subtask id k) ≡ alone k)
unfolding finish_subtask
kind-finish_subtask id active = (refl, refl)
kind-finish_subtask id (logical_and a b) = ground arith

pub waits-is_idle : (i : ℕ) (k : Kind) → is_idle k ≡ true → waits i k ≡ 0
unfolding is_idle
waits-is_idle i active h = refl
waits-is_idle i (logical_and a b) h = ground arith

pub alone-waits : (i : ℕ) (k : Kind) → 0 < waits i k → alone k ≡ 0
alone-waits i active h = absurd (omega (arith, h))
alone-waits i (logical_and a b) h = refl

pub waits-finish_subtask :
    (id i : ℕ) (k : Kind)
    → 0 < waits id k
    → waits i k ≡ one (id == i) + waits i (finish_subtask id k)
unfolding finish_subtask
waits-finish_subtask id i active h = absurd (omega (arith, h))
waits-finish_subtask id i (logical_and a b) h = ground arith

module _ (s : System) (p p' : ℕ → ℕ → ℕ) (m : ℕ → ℕ) (l : ℕ) (t : Task) (h : Consistent s p m)
    (found : s.objects l ≡ some t) (others : (i k : ℕ) → (l == k) ≡ false → p i k ≡ p' i k) where
  -- A connected task that waits for one task less
  pub change_Consistent :
      (t' : Task)
      → t'.observers ≡ t.observers
      → connected_at (some t') ≡ connected_at (some t)
      → active_at (some t') ≡ active_at (some t)
      → idle_at (some t') ≡ false
      → ((i : ℕ) → p i l + waits i t'.kind ≡ p' i l + waits i t.kind)
      → ((i : ℕ) → waits i t'.kind ≤ waits i t.kind)
      → Consistent (record s { objects = update s.objects l (some t') }) p' m
  change_Consistent t' o c a d w less =
      let same : (i : ℕ)
          → observers_at (update s.objects l (some t') i) ≡ observers_at (s.objects i) =
        λ i. ground (arith, found, o) in
      record {
        observed = λ i k. elim (Bool-cases (l == k)) [
          | inl e ↦
              ap (λ os. count k os + p' i k) (same i)
              ∙ (let q : l ≡ k = ground (arith, e) in
                  ground (arith, e, q, h.observed i l, w i, found))
          | inr e ↦
              ap (λ os. count k os + p' i k) (same i)
              ∙ ground (arith, h.observed i k, others i k, e)
        ];
        managed = λ i. ground (arith, h.managed i, h.managed l, found, o, c);
        passive = λ i. ground (arith, h.passive i, h.passive l, found, o, c);
        actives = λ i. ground (arith, h.actives i, h.actives l, found, o, a);
        older = λ i k g. elim (Bool-cases (l == k)) [
          | inl e ↦ ground (arith, e, h.older i l, less i, found, g)
          | inr e ↦ ground (arith, e, h.older i k, g)
        ];
        busy = λ i. ground (arith, h.busy i, d);
        fresh = λ i g. ground (arith, h.fresh i g, h.fresh l, found);
        positive = ground (arith, h.positive, found);
        counter = h.counter;
      }

  -- The destructor has taken the task out, and its notifications are still to come.
  pub remove_Consistent :
      (is : List ℕ)
      → ((i : ℕ) → one (mem i is) ≡ (if l == i then 0 else active_at (s.objects i)))
      → ((i : ℕ) → p i l ≡ p' i l + waits i t.kind)
      → Consistent
          (record s { objects = update s.objects l none; tasks = is })
          (due l t.observers p')
          (due_manager l t.observers m)
  remove_Consistent is a w = record {
    observed = λ i k. elim (Bool-cases (l == k)) [
      | inl e ↦
          let q : l ≡ k = ground (arith, e) in
          elim (Bool-cases (l == i)) [
            | inl e' ↦ ground (arith, e, e', q, h.observed l l, w l, found)
            | inr e' ↦ ground (arith, e, e', q, h.observed i l, w i, found)
          ]
      | inr e ↦ elim (Bool-cases (l == i)) [
        | inl e' ↦ ground (arith, e, e', h.observed l k, others l k, found)
        | inr e' ↦ ground (arith, e, e', h.observed i k, others i k, found)
      ]
    ];
    managed = λ i. ground (arith, h.managed i, found);
    passive = λ i. ground (arith, h.passive i, h.managed i, found);
    actives = λ i. ground (arith, a i);
    older = λ i k g. ground (arith, h.older i k, g);
    busy = λ i. ground (arith, h.busy i);
    fresh = λ i g. ground (arith, h.fresh i g);
    positive = ground (arith, h.positive);
    counter = h.counter;
  }
