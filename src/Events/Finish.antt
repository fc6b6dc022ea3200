-- ===== src/Events/Finish.antt =====
-- The end of a task in `Manager::execute` of src/libPMacc/include/eventSystem/Manager.tpp.
use piconalpaka.Prelude.{
  ℕ, suc, ◌<◌, true, Option, none, some, update, mem, ◌≡◌, ◌≢◌, ◌↔◌, arith, refl,
}
use piconalpaka.Events.{
  Task, System, erase, find, get_active_itask_if_not_finished, delete_task, finish_task,
}
use piconalpaka.Events.Invariant.{
  waits, active_at, IsConsistent, Consistent, mem-erase, found_positive, found_younger,
}
use piconalpaka.Events.Awaits.{Awaits, Awaits-update, no_waits}
use piconalpaka.Events.Change.{remove_Consistent, due, due_manager}
use piconalpaka.Events.Cascade.{delete_task_lem}

active_cases : (o : Option Task) → 0 < active_at o → (t : Task) × (o ≡ some t)
active_cases none h = absurd (omega (arith, h))
active_cases (some t) h = (t, refl)

module _ (s : System) (id : ℕ) (t : Task) (c : IsConsistent s) (found : s.objects id ≡ some t)
    (a : 0 < active_at (s.objects id)) where
  removed : System
  removed = record s { objects = update s.objects id none; tasks = erase id s.tasks }

  removed-Consistent :
      Consistent removed (due id t.observers (λ i l. 0)) (due_manager id t.observers (λ i. 0))
  unfolding removed
  removed-Consistent =
      let w : (i : ℕ) → waits i t.kind ≡ 0 =
        λ i. ground (arith, no_waits i (s.objects id) a, found) in
      remove_Consistent s (λ i l. 0) (λ i l. 0) (λ i. 0) id t c found (λ i k e. refl)
        (erase id s.tasks) (λ i. ground (arith, mem-erase id i s.tasks, c.actives i))
        (λ i. omega (arith, w i))

  delete_active :
      (u : System) × (delete_task (suc s.global_id) id (record s { tasks = erase id s.tasks })
        ≡ some u)
      × IsConsistent u
      × ((e j : ℕ) → Awaits u.objects e j ↔ (Awaits s.objects e j × (id ≢ j)))
      × (u.tasks ≡ erase id s.tasks)
      × (u.global_id ≡ s.global_id)
      × (u.iter ≡ s.iter)
  unfolding removed
  delete_active =
      let d =
        delete_task_lem (suc s.global_id) s.global_id 0 (omega arith) id
          (record s { tasks = erase id s.tasks }) (λ i l. 0) (λ i. 0) t (found_positive c found)
          (found_younger c found) refl found removed-Consistent in
      (
        d.0,
        d.1,
        d.2,
        λ e j. (
          λ x. (Awaits-update {i = id} a e j).0 ((d.3.awaits e j).1 x),
          λ x. (d.3.awaits e j).0 ((Awaits-update {i = id} a e j).1 x),
        ),
        d.3.lists,
        d.3.counters,
        d.3.places,
      )

-- Where the maps, the objects and the observers are consistent, and for a task in the map of the
-- active tasks: the end of the task accesses no deleted object, with the fuel given, and keeps the
-- consistency; each handle then waits for the tasks that it waited for before, but this one.
pub finish_task_lem :
    (s : System) (id : ℕ)
    → IsConsistent s
    → mem id s.tasks ≡ true
    → (u : System) × (finish_task id s ≡ some u)
      × IsConsistent u
      × ((e j : ℕ) → Awaits u.objects e j ↔ (Awaits s.objects e j × (id ≢ j)))
      × (u.tasks ≡ erase id s.tasks)
      × (u.global_id ≡ s.global_id)
      × (u.iter ≡ s.iter)
unfolding finish_task get_active_itask_if_not_finished find
finish_task_lem s id c h =
    let a : 0 < active_at (s.objects id) = ground (arith, c.actives id, h) in
    let r = active_cases (s.objects id) a in rw (finish_task, h) (delete_active s id r.0 c r.1 a)
