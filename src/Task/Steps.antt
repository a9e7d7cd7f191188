-- ===== src/Task/Steps.antt =====
-- src/lib/task.c: the table under any sequence of the calls that the probe makes.
use freenote_probe.Base.{some, ◌≡◌, ◌≢◌, ℕ}
use freenote_probe.Base.Int.{ℤ, pos}
use freenote_probe.Clock.{Timeval}
use freenote_probe.Task.Types.{Task, Tasks, TaskStat, invalid, Code, null_task}
use freenote_probe.Task.Queue.{
  Finished, task_add, get_task, get_completed, get_task_id, update_task,
}
use freenote_probe.Task.Status.{task_set_status}
use freenote_probe.Task.Slots.{
  IsValid, task_add-IsValid, get_task-IsValid, get_completed-IsValid, get_task_id-IsValid,
  update_task-IsValid,
}
use freenote_probe.Task.Impossible.{task_set_status-IsValid}

-- One call on the table: a task with a type and an id is added, a task is started or reported, one
-- is looked up, updated, or given a status.
pub data Step : Tasks → Tasks → Type 0 where
  add : {ts : Tasks} (t : Task) → t.type ≢ null_task → t.taskid ≢ pos 0 → Step ts (task_add ts t).0
  take : {ts ts' : Tasks} (now : Timeval) {t : Task} → get_task ts now ≡ some (t, ts') → Step ts ts'
  report :
      {ts ts' : Tasks} {r : Finished} {t : Task} → get_completed ts ≡ some (r, t, ts') → Step ts ts'
  look :
      {ts ts' : Tasks} (id : ℤ) (now : Timeval) {t : Task}
      → id ≢ pos 0
      → get_task_id ts id now ≡ some (t, ts')
      → Step ts ts'
  update : {ts : Tasks} (t : Task) → t.taskid ≢ pos 0 → Step ts (update_task ts t).0
  set_status :
      {ts ts' : Tasks} (depth : ℕ) (id : ℤ) (status : TaskStat) (now : Timeval) {code : Code}
      → id ≢ pos 0
      → status ≢ invalid
      → task_set_status depth ts id status now ≡ some (ts', code)
      → Step ts ts'

pub data Reach (ts : Tasks) : Tasks → Type 0 where
  here : Reach ts ts
  next : {us vs : Tasks} → Reach ts us → Step us vs → Reach ts vs

Step-IsValid : {ts ts' : Tasks} → Step ts ts' → IsValid ts → IsValid ts'
Step-IsValid (add t y id) h = task_add-IsValid t h y id
Step-IsValid (take now e) h = get_task-IsValid now h e
Step-IsValid (report e) h = get_completed-IsValid h e
Step-IsValid (look id now nz e) h = get_task_id-IsValid id now h nz e
Step-IsValid (update t nz) h = update_task-IsValid t h nz
Step-IsValid (set_status depth id status now nz ne e) h =
    task_set_status-IsValid depth id status now h nz ne e

-- Calls lead from a well-formed table only to well-formed ones, which have their 15 slots, each empty
-- as `init_task` leaves it or with a task that `valid_task` accepts and an id other than 0, if: a task
-- that is added has a type and an id other than 0, the id of a task that is looked up, updated or
-- given a status is not 0, no task is given the status INVALID, and each call returns.
pub Reach-IsValid : {ts ts' : Tasks} → IsValid ts → Reach ts ts' → IsValid ts'
Reach-IsValid h here = h
Reach-IsValid h (next r s) = Step-IsValid s (Reach-IsValid h r)
