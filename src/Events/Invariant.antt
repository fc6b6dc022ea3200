-- ===== src/Events/Invariant.antt =====
-- What holds between the objects, the observers and the maps of
-- src/libPMacc/include/eventSystem, also in the middle of a notification.
use piconalpaka.Prelude.{
  ℕ, zero, suc, ◌+◌, ◌≤◌, ◌<◌, Bool, true, false, Option, none, some, List, [], ◌∷◌, ◌==◌, ltb,
  if◌then◌else◌, update, mem, ◌≡◌, arith, refl, Bool-cases, inl, inr,
}
use piconalpaka.Events.{
  Observer, manager, task_logical_and, Kind, active, logical_and, Task, System, no_tasks, erase,
  insert, is_idle,
}

abbrev pub one : Bool → ℕ
one true = 1
one false = 0

-- How often a list has the connected task `l`, and the manager
abbrev pub count : ℕ → List Observer → ℕ
count l [] = 0
count l (manager ∷ os) = count l os
count l (task_logical_and m ∷ os) = one (m == l) + count l os

abbrev pub managers : List Observer → ℕ
managers [] = 0
managers (manager ∷ os) = suc (managers os)
managers (task_logical_and m ∷ os) = managers os

-- How often the task `i` is one of those that a task waits for
abbrev pub waits : ℕ → Kind → ℕ
waits i active = 0
waits i (logical_and a b) = if i == 0 then 0 else one (a == i) + one (b == i)

abbrev pub waits_at : ℕ → Option Task → ℕ
waits_at i none = 0
waits_at i (some t) = waits i t.kind

abbrev pub observers_at : Option Task → List Observer
observers_at none = []
observers_at (some t) = t.observers

abbrev pub connected : Kind → ℕ
connected active = 0
connected (logical_and a b) = 1

abbrev pub connected_at : Option Task → ℕ
connected_at none = 0
connected_at (some t) = connected t.kind

abbrev pub alone : Kind → ℕ
alone active = 1
alone (logical_and a b) = 0

abbrev pub active_at : Option Task → ℕ
active_at none = 0
active_at (some t) = alone t.kind

abbrev pub idle_at : Option Task → Bool
idle_at none = false
idle_at (some t) = is_idle t.kind

-- `p i l`: how many calls of `event` by the task `i` at the connected task `l` are still to come;
-- `m i`: those at the manager.
pub record Consistent (s : System) (p : ℕ → ℕ → ℕ) (m : ℕ → ℕ) : Type 0 where
  pub observed : (i l : ℕ) → count l (observers_at (s.objects i)) + p i l ≡ waits_at i (s.objects l)
  pub managed : (i : ℕ) → managers (observers_at (s.objects i)) ≡ connected_at (s.objects i)
  pub passive : (i : ℕ) → one (mem i s.passive_tasks) ≡ connected_at (s.objects i) + m i
  pub actives : (i : ℕ) → one (mem i s.tasks) ≡ active_at (s.objects i)
  pub older : (i l : ℕ) → 0 < waits_at i (s.objects l) → i < l
  pub busy : (i : ℕ) → idle_at (s.objects i) ≡ false
  pub fresh : (i : ℕ) → s.global_id ≤ i → s.objects i ≡ none
  pub positive : s.objects 0 ≡ none
  pub counter : 0 < s.global_id

-- Between the operations: no call is still to come.
abbrev pub IsConsistent : System → Type 0
IsConsistent s = Consistent s (λ i l. 0) (λ i. 0)

pub no_tasks-IsConsistent : IsConsistent no_tasks
no_tasks-IsConsistent = ground arith

pub update-at {ℓ} : {A : Type ℓ} (f : ℕ → A) (p : ℕ) (v : A) → update f p v p ≡ v
update-at f p v = let e : (p == p) ≡ true = ground arith in rw e refl

pub update-other {ℓ} :
    {A : Type ℓ} (f : ℕ → A) (p q : ℕ) (v : A) → (p == q) ≡ false → update f p v q ≡ f q
update-other f p q v e = rw e refl

pub mem-erase : (i j : ℕ) (xs : List ℕ) → mem j (erase i xs) ≡ (if i == j then false else mem j xs)
unfolding erase
mem-erase i j [] = ground arith
mem-erase i j (x ∷ xs) = ground (arith, mem-erase i j xs)

pub mem-insert : (i j : ℕ) (xs : List ℕ) → mem j (insert i xs) ≡ (if i == j then true else mem j xs)
unfolding insert
mem-insert i j [] = ground arith
mem-insert i j (x ∷ xs) = ground (arith, mem-insert i j xs)

pub found_younger :
    {s : System} {p : ℕ → ℕ → ℕ} {m : ℕ → ℕ} {l : ℕ} {t : Task}
    → Consistent s p m
    → s.objects l ≡ some t
    → l < s.global_id
found_younger {s = s} {l = l} h found = elim (Bool-cases (ltb l s.global_id)) [
  | inl e ↦ ground (arith, e)
  | inr e ↦ absurd (ground (arith, e, found, h.fresh l (ground (arith, e))))
]

pub found_positive :
    {s : System} {p : ℕ → ℕ → ℕ} {m : ℕ → ℕ} {l : ℕ} {t : Task}
    → Consistent s p m
    → s.objects l ≡ some t
    → 0 < l
found_positive {l = zero} h found = absurd (ground (arith, found, h.positive))
found_positive {l = suc l} h found = omega arith
