-- ===== src/Events/Execute/Rounds.antt =====
-- The calls of `execute` while `waitForFinished` waits, in
-- src/libPMacc/include/eventSystem/Manager.tpp.
use piconalpaka.Prelude.{
  ℕ, ◌<◌, Bool, true, false, Option, none, some, mem, ◌≡◌, ◌↔◌, arith, refl, ap, ◌∙◌, subst, inl,
  inr,
}
use piconalpaka.Events.{
  System, Task, Kind, active, logical_and, is_some, find, get_active_itask_if_not_finished,
  get_passive_itask_if_not_finished,
}
use piconalpaka.Events.Execute.{execute}
use piconalpaka.Events.Execute.Poll.{polls, execute_lem, Awaits-mem, Shrinks, Shrinks_of}
use piconalpaka.Events.Invariant.{IsConsistent, active_at, connected_at, alone, connected}
use piconalpaka.Events.Awaits.{Awaits, self, next, no_waits, Awaits-live}

pub passive_some :
    (id : ℕ) (s : System)
    → is_some (get_passive_itask_if_not_finished id s) ≡ mem id s.passive_tasks
unfolding get_passive_itask_if_not_finished find
passive_some id s = ground arith

pub active_mem :
    (id : ℕ) (s : System) → is_some (get_active_itask_if_not_finished id s) ≡ mem id s.tasks
unfolding get_active_itask_if_not_finished find
active_mem id s = ground arith

one_kind : (o : Option Task) → 0 < connected_at o → active_at o ≡ 0
one_kind none h = refl
one_kind (some t) h = go t.kind h
  where
    go : (k : Kind) → 0 < connected k → alone k ≡ 0
    go active h = absurd (omega (arith, h))
    go (logical_and a b) h = refl

-- A task that was passive, and is not any more, waits for none.
pub passive_ended :
    (s u : System) (id : ℕ)
    → IsConsistent s
    → IsConsistent u
    → Shrinks s u
    → mem id s.passive_tasks ≡ true
    → mem id u.passive_tasks ≡ false
    → (j : ℕ) → ¬ Awaits u.objects id j
passive_ended s u id c d fewer m n j a =
    let p : 0 < active_at (u.objects id) = ground (arith, Awaits-live a, d.passive id, n) in
    let q = Awaits-mem s c ((fewer id id).0 (self p)).0 in
    ground (arith, q, c.actives id, c.passive id, m, one_kind (s.objects id))

only_self : {h : ℕ → Option Task} {e k : ℕ} → Awaits h e k → 0 < active_at (h e) → k ≡ e
only_self (self x) a = refl
only_self {h = h} {e = e} (next {i = i} w r) a = absurd (omega (arith, w, no_waits i (h e) a))

-- So does one that was active.
pub active_ended :
    (s u : System) (id : ℕ)
    → IsConsistent s
    → IsConsistent u
    → Shrinks s u
    → mem id s.tasks ≡ true
    → mem id u.tasks ≡ false
    → (j : ℕ) → ¬ Awaits u.objects id j
active_ended s u id c d fewer m n j a =
    let q = only_self ((fewer id j).0 a).0 (ground (arith, c.actives id, m)) in
    ground (arith, n, Awaits-mem u d (subst (λ k. Awaits u.objects id k) q a))

-- The waiting ends, and the handle `id` waits for none then.
abbrev pub Ended : System → ℕ → Option System → Type 0
Ended s id o =
    (u : System) × (o ≡ some u)
    × IsConsistent u
    × (u.iter ≡ none)
    × ((j : ℕ) → ¬ Awaits u.objects id j)
    × Shrinks s u

-- One round: the tasks that are done have ended.
abbrev pub Round : (ℕ → Bool) → System → System → Type 0
Round done s u =
    IsConsistent u
    × (u.iter ≡ none)
    × (u.global_id ≡ s.global_id)
    × ((e j : ℕ) → Awaits u.objects e j ↔ (Awaits s.objects e j × (done j ≡ false)))

pub round_lem :
    (done : ℕ → Bool) (s : System)
    → IsConsistent s
    → s.iter ≡ none
    → (u : System) × (execute (polls done) s.global_id 0 s ≡ some (false, u)) × Round done s u
round_lem done s c e =
    let q = execute_lem done 0 s c e in
    elim q.5 [
      | inl x ↦ (q.0.1, q.1 ∙ ap (λ b. some (b, q.0.1)) x.0, (q.2, q.3, q.4, x.1))
      | inr x ↦ absurd (ground (arith, x.1, c.actives 0, c.positive))
    ]

pub Shrinks_trans : (s u v : System) → Shrinks s u → Shrinks u v → Shrinks s v
Shrinks_trans s u v f g e j = (
  λ a. let b = (g e j).0 a in (((f e j).0 b.0).0, b.1),
  λ a. (g e j).1 ((f e j).1 (a.0, ((g j j).0 a.1).0), a.1),
)

pub Round_Shrinks : (done : ℕ → Bool) (s u : System) → Round done s u → Shrinks s u
Round_Shrinks done s u r =
    Shrinks_of s u (λ e j a. ((r.3 e j).0 a).0) (λ e j a b. (r.3 e j).1 (a, ((r.3 j j).0 b).1))
