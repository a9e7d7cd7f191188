-- ===== src/Task/Queue.antt =====
-- src/lib/task.c: adding, starting, reporting and updating tasks. A function that changes the table
-- takes it and returns the new one; the C result 0 is `ok` and -1 is `fail`, or `none` where no task
-- is given back.
use freenote_probe.Base.{
  ℕ, Bool, not, ◌&&◌, Option, none, some, ◌==◌, if◌then◌else◌, ◌>>=◌, get_elem?, set,
}
use freenote_probe.Base.Int.{ℤ, eq_ℤ}
use freenote_probe.Clock.{Timeval}
use freenote_probe.Task.Types.{
  valid_task_magic, null_task, Task, Tasks, Code, init_task, eq_stat, statustest, typetest, idtest,
  tasks_itest, invalid, todo, running, complete, impossible, ok, fail,
}

unfoldable pub task_add : Tasks → Task → Tasks × Code
task_add tasks t =
    let slot = tasks_itest (typetest null_task) tasks in
    if not (t.magic == valid_task_magic) then (tasks, fail) else elim slot [
      | none ↦ (tasks, fail)
      | some i ↦ (set tasks i (record t { status = todo }), ok)
    ]

unfoldable pub valid_task : Task → Bool
valid_task task =
    task.magic == valid_task_magic
    && not (eq_stat task.status invalid)
    && not (eq_ℤ task.type null_task)

-- The fields that the table keeps.
keep : Task → Task → Task
keep old task = record task {
  magic = old.magic;
  status = old.status;
  type = old.type;
  workid = old.workid;
}

unfoldable pub update_task : Tasks → Task → Tasks × Code
unfolding keep
update_task tasks task =
    elim (tasks_itest (idtest task.taskid) tasks >>= λ i.
    (get_elem? tasks i >>= λ t. some (set tasks i (keep t task)))) [
      | none ↦ (tasks, fail)
      | some tasks' ↦ (tasks', ok)
    ]

start : Timeval → Task → Task
start now t = record t { status = running; time_started = now }

-- The task to perform, marked as running in the table and in the copy.
unfoldable pub get_task : Tasks → Timeval → Option (Task × Tasks)
unfolding start
get_task tasks now = tasks_itest (statustest todo) tasks >>= λ i.
    (get_elem? tasks i >>= λ t. some (start now t, set tasks i (start now t)))

pub data Finished : Type 0 where
  completed gave_up : Finished

-- A finished task, which leaves the table: one that is complete, or if there is none one that is
-- impossible. The C function returns 0, 1, or -1 with no task.
take_out : Finished → Tasks → ℕ → Option (Finished × Task × Tasks)
take_out r tasks i = get_elem? tasks i >>= λ t. some (r, t, set tasks i init_task)

unfoldable pub get_completed : Tasks → Option (Finished × Task × Tasks)
unfolding take_out
get_completed tasks =
    let gave_up_slot = tasks_itest (statustest impossible) tasks in
    elim (tasks_itest (statustest complete) tasks) [
      | none ↦ gave_up_slot >>= take_out gave_up tasks
      | some i ↦ take_out completed tasks i
    ]

-- With a place to put the task: a task that is waiting is started.
unfoldable pub get_task_id : Tasks → ℤ → Timeval → Option (Task × Tasks)
unfolding start
get_task_id tasks id now = tasks_itest (idtest id) tasks >>= λ i.
    (get_elem? tasks i >>= λ t.
    (let t' = if eq_stat t.status todo then start now t else t in some (t', set tasks i t')))
