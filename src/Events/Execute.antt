-- ===== src/Events/Execute.antt =====
-- `execute` and the waiting of src/libPMacc/include/eventSystem/Manager.tpp.
pub mod Above
pub mod Poll
pub mod Rounds
pub mod Wait
use piconalpaka.Prelude.{
  ℕ, zero, suc, ◌+◌, Bool, true, false, not, Option, none, some, List, [], ◌∷◌, ◌==◌, ltb,
  if◌then◌else◌, mem, ◌>>=◌,
}
use piconalpaka.Events.{
  Task, System, finish_task, is_some, get_active_itask_if_not_finished,
  get_passive_itask_if_not_finished,
}

-- The smaller of a key and a further one
abbrev pub least : ℕ → Option ℕ → ℕ
least i none = i
least i (some k) = if ltb k i then k else i

-- The iterator after the key `id`: the least larger key, or the end
unfoldable pub above : ℕ → List ℕ → Option ℕ
above id [] = none
above id (i ∷ is) = let rest = above id is in if ltb id i then some (least i rest) else rest

-- `executeIntern` of the tasks is a parameter: the answer of a task, and what it does to the rest.
-- `none` is an access to a deleted object, also by an iterator to an erased entry.
module _ (execute_intern : ℕ → System → Option (Bool × System)) where
  -- The loop of `execute`, on fuel, as the tasks can add tasks
  unfoldable pub execute_from : ℕ → ℕ → System → Option (Bool × System)
  execute_from zero task_to_wait s = none
  execute_from (suc fuel) task_to_wait s =
      let rest = execute_from fuel task_to_wait in
      elim s.iter [
        | none ↦ some (false, s)
        | some id ↦
            if not (mem id s.tasks)
            then none
            else execute_intern id (record s { iter = above id s.tasks }) >>= λ r.
                if not r.0
                then rest r.1
                else finish_task id r.1 >>= λ u.
                    if task_to_wait == id then some (true, record u { iter = none }) else rest u
      ]

  -- `execute`: from the first key, if the iterator is at the end
  unfoldable pub execute : ℕ → ℕ → System → Option (Bool × System)
  execute fuel task_to_wait s =
      execute_from fuel task_to_wait
        (elim s.iter [ none ↦ record s { iter = above 0 s.tasks } | some id ↦ s ])

-- The loops of `waitForFinished`; what the tasks do differs from round to round, and `fuel` is for
-- the rounds.
module _ (execute_intern : ℕ → ℕ → System → Option (Bool × System)) where
  unfoldable pub wait_passive : ℕ → ℕ → ℕ → ℕ → System → Option System
  wait_passive zero size round id s = none
  wait_passive (suc fuel) size round id s =
      let rest = wait_passive fuel size (suc round) id in
      execute (execute_intern round) size 0 s >>= λ r.
      if is_some (get_passive_itask_if_not_finished id r.1) then rest r.1 else some r.1

  unfoldable pub wait_active : ℕ → ℕ → ℕ → ℕ → System → Option System
  wait_active zero size round id s = none
  wait_active (suc fuel) size round id s =
      let rest = wait_active fuel size (suc round) id in
      execute (execute_intern round) size id s >>= λ r.
      if r.0
      then some r.1
      else if is_some (get_active_itask_if_not_finished id r.1)
      then rest r.1
      else some r.1

  -- `waitForFinished`
  unfoldable pub wait_for_finished : ℕ → ℕ → ℕ → System → Option System
  wait_for_finished fuel size id s =
      if is_some (get_passive_itask_if_not_finished id s)
      then wait_passive fuel size 0 id s
      else if is_some (get_active_itask_if_not_finished id s)
      then wait_active fuel size 0 id s
      else some s
