-- ===== src/Events/Add.antt =====
-- A new task of src/libPMacc/include/eventSystem: the constructor of `ITask` and `Manager::addTask`.
use piconalpaka.Prelude.{arith}
use piconalpaka.Events.{TaskType, System, is_idle, add_task}
use piconalpaka.Events.Invariant.{IsConsistent, mem-insert}

module _ (type : TaskType) (s : System) (c : IsConsistent s) where
  -- A new task keeps the maps, the objects and the observers consistent.
  pub add_task-IsConsistent : IsConsistent (add_task type s).1
  unfolding add_task is_idle
  add_task-IsConsistent =
      let new = c.fresh s.global_id (omega arith) in
      record {
        observed = λ i l.
            ground (arith, c.observed i l, c.observed i s.global_id, c.observed s.global_id l, new);
        managed = λ i. ground (arith, c.managed i);
        passive = λ i. ground (arith, c.passive i, new);
        actives = λ i. ground (arith, c.actives i, new, mem-insert s.global_id i s.tasks);
        older = λ i l g. ground (arith, c.older i l, g);
        busy = λ i. ground (arith, c.busy i);
        fresh = λ i g. ground (arith, c.fresh i, g);
        positive = ground (arith, c.positive, c.counter);
        counter = omega arith;
      }
