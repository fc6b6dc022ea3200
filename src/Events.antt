-- ===== src/Events.antt =====
-- src/libPMacc/include/eventSystem: the tasks, their observers, the two maps of the manager
-- (Manager.tpp), the connection of two tasks to one (TaskLogicalAnd.hpp), and the handles of tasks
-- (EventTask.tpp). A task is named by its identifier, which is also its pointer; 0 is NULL. The
-- keys of `tasks` and `passiveTasks` are lists; an object that is deleted is `none` in `objects`.
-- What `std::set<IEvent*>` orders by address is a list: the theorems are about any order of it.
mod Tests
pub mod Invariant
pub mod Awaits
pub mod Change
pub mod Cascade
pub mod Finish
pub mod Add
pub mod Connect
pub mod Handles
pub mod Execute
pub mod Streams
pub mod Transactions
pub mod Tasks
use piconalpaka.Prelude.{
  ℕ, zero, suc, ◌+◌, Bool, true, false, ◌&&◌, Option, none, some, List, [], ◌∷◌, ◌==◌, ltb,
  if◌then◌else◌, update, mem, ◌>>=◌, not,
}

-- `ITask::TaskType`
pub data TaskType : Type 0 where
  task_unknown task_cuda task_mpi task_host : TaskType

-- An `IEvent` that is registered at a task: the manager, or a `TaskLogicalAnd`. TaskSend and TaskReceive,
-- which the Factory registers at the tasks that they start, are in Events/Tasks, and not among these.
pub data Observer : Type 0 where
  manager : Observer
  task_logical_and : ℕ → Observer

-- `task1` and `task2` of a `TaskLogicalAnd`; the other tasks have none.
pub data Kind : Type 0 where
  active : Kind
  logical_and : ℕ → ℕ → Kind

pub record Task : Type 0 where
  pub kind : Kind
  pub task_type : TaskType
  pub observers : List Observer

-- The identifier that the next task gets, the living objects, the maps of `Manager`, and the static
-- iterator of `Manager::execute`: a key of `tasks`, or the end
pub record System : Type 0 where
  pub global_id : ℕ
  pub objects : ℕ → Option Task
  pub tasks : List ℕ
  pub passive_tasks : List ℕ
  pub iter : Option ℕ

-- The static counter of `ITask` starts at 1.
abbrev pub no_tasks : System
no_tasks = record {
  global_id = 1;
  objects = λ i. none;
  tasks = [];
  passive_tasks = [];
  iter = none;
}

-- `std::map::erase` and `tasks[id] = task`, in the order of the keys
unfoldable pub erase : ℕ → List ℕ → List ℕ
erase id [] = []
erase id (i ∷ is) = let rest = erase id is in if i == id then rest else i ∷ rest

unfoldable pub insert : ℕ → List ℕ → List ℕ
insert id [] = id ∷ []
insert id (i ∷ is) =
    let rest = insert id is in
    if ltb id i then id ∷ i ∷ is else if id == i then i ∷ is else i ∷ rest

-- `find` in one of the maps
unfoldable pub find : ℕ → List ℕ → Option ℕ
find id is = if mem id is then some id else none

unfoldable pub get_passive_itask_if_not_finished : ℕ → System → Option ℕ
get_passive_itask_if_not_finished id s = find id s.passive_tasks

unfoldable pub get_active_itask_if_not_finished : ℕ → System → Option ℕ
get_active_itask_if_not_finished id s = find id s.tasks

-- The passive tasks first
unfoldable pub get_itask_if_not_finished : ℕ → System → Option ℕ
get_itask_if_not_finished id s = elim (get_passive_itask_if_not_finished id s) [
  | some t ↦ some t
  | none ↦ get_active_itask_if_not_finished id s
]

abbrev pub is_some {ℓ} : {A : Type ℓ} → Option A → Bool
is_some none = false
is_some (some _) = true

-- `EventTask::isFinished`
unfoldable pub is_finished : ℕ → System → Bool
is_finished id s = not (is_some (get_itask_if_not_finished id s))

-- A comparison of the pointers
abbrev pub same : Observer → Observer → Bool
same manager manager = true
same (task_logical_and a) (task_logical_and b) = a == b
same _ _ = false

abbrev pub has : Observer → List Observer → Bool
has o [] = false
has o (p ∷ ps) = if same p o then true else has o ps

-- `EventNotify::addObserver`
unfoldable pub add_observer : Observer → Task → Task
add_observer o t = if has o t.observers then t else record t { observers = o ∷ t.observers }

-- The constructor of `ITask`, and `Manager::addTask`
unfoldable pub add_task : TaskType → System → ℕ × System
add_task type s = (
  s.global_id,
  record s {
    global_id = suc s.global_id;
    objects =
        update s.objects s.global_id
          (some (record { kind = active; task_type = type; observers = [] }));
    tasks = insert s.global_id s.tasks;
  },
)

-- `TaskLogicalAnd::combine`: the type; that of a `StreamTask` is `TASK_CUDA` before.
unfoldable pub combine : TaskType → TaskType → TaskType
combine task_mpi task_cuda = task_mpi
combine task_cuda task_mpi = task_mpi
combine task_mpi task_mpi = task_mpi
combine _ _ = task_cuda

-- `new TaskLogicalAnd(s1, s2)`, which observes both; the pointers are of living objects.
unfoldable pub new_logical_and : ℕ → ℕ → System → Option (ℕ × System)
new_logical_and s1 s2 s =
    let id = s.global_id in
    s.objects s1 >>= λ t1. s.objects s2 >>= λ t2. some (
      id,
      record s {
        global_id = suc id;
        objects =
            update
              (update (update s.objects s1 (some (add_observer (task_logical_and id) t1))) s2
                (some (add_observer (task_logical_and id) t2)))
              id
              (some (record {
                kind = logical_and s1 s2;
                task_type = combine t1.task_type t2.task_type;
                observers = [];
              }));
      },
    )

-- `Manager::addPassiveTask`
unfoldable pub add_passive_task : ℕ → System → Option System
add_passive_task id s = s.objects id >>= λ t. some (record s {
  objects = update s.objects id (some (add_observer manager t));
  passive_tasks = insert id s.passive_tasks;
})

-- `EventTask::operator+=`: the new identifier of the handle
unfoldable pub add_event : ℕ → ℕ → System → Option (ℕ × System)
add_event id other s = if id == other then some (id, s) else elim (get_itask_if_not_finished id s) [
  | none ↦ some (other, s)
  | some my_task ↦ elim (get_itask_if_not_finished other s) [
    | none ↦ some (id, s)
    | some other_task ↦ new_logical_and my_task other_task s >>= λ r.
        add_passive_task r.0 r.1 >>= λ t. some (r.0, t)
  ]
]

-- `TaskLogicalAnd::event` on the fields; an unknown identifier changes nothing.
unfoldable pub finish_subtask : ℕ → Kind → Kind
finish_subtask id active = active
finish_subtask id (logical_and a b) =
    if a == id then logical_and 0 b else if b == id then logical_and a 0 else logical_and a b

-- `TaskLogicalAnd::executeIntern`
unfoldable pub is_idle : Kind → Bool
is_idle active = false
is_idle (logical_and a b) = a == 0 && b == 0

-- `event` of an observer; `delete_task` is what `delete this` does.
module _ (delete_task : ℕ → System → Option System) where
  unfoldable pub event : Observer → ℕ → System → Option System
  event manager id s = some (record s { passive_tasks = erase id s.passive_tasks })
  event (task_logical_and l) id s = s.objects l >>= λ t.
      let kind = finish_subtask id t.kind in
      let u = record s { objects = update s.objects l (some (record t { kind = kind })) } in
      if is_idle kind then delete_task l u else some u

  -- `EventNotify::notify`
  unfoldable pub notify : ℕ → List Observer → System → Option System
  notify id [] s = some s
  notify id (o ∷ os) s = event o id s >>= notify id os

-- The destructor of a task, on fuel for the objects that `notify` deletes in turn. The calls do not
-- read the object that is being deleted: it is taken out first. `none` is an access to an object
-- that does not live, or the end of the fuel.
unfoldable pub delete_task : ℕ → ℕ → System → Option System
delete_task zero id s = none
delete_task (suc fuel) id s = s.objects id >>= λ t.
    notify (delete_task fuel) id t.observers (record s { objects = update s.objects id none })

-- `Manager::execute` at a task that is done: `tasks.erase(id)`, then `__delete(taskPtr)`. The
-- test of the map is for a task that an inner call has deleted.
unfoldable pub finish_task : ℕ → System → Option System
finish_task id s = elim (get_active_itask_if_not_finished id s) [
  | none ↦ some s
  | some t ↦ delete_task (suc s.global_id) t (record s { tasks = erase id s.tasks })
]
