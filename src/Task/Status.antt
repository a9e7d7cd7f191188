-- ===== src/Task/Status.antt =====
-- src/lib/task.c: `task_set_status`, and `mark_impossible`, which it calls for a task that cannot
-- be done.
use freenote_probe.Base.{
  ℕ, zero, suc, ◌+◌, Option, none, some, if◌then◌else◌, ◌>>=◌, length, get_elem?, set,
}
use freenote_probe.Base.Int.{ℤ}
use freenote_probe.Clock.{Timeval, time_difference}
use freenote_probe.Task.Types.{
  TaskStat, Task, Tasks, Code, idtest, paternity_test, tasks_itest, complete, impossible, ok, fail,
}

-- `mark_impossible` and the function `mark` that it runs on each child. Each call walks the whole
-- table, and each child's mark calls it again for the children of the child. C sets no bound on the
-- depth, so the model takes fuel for it, and `none` is a recursion that is deeper.
unfoldable pub mark : (ℤ → Tasks → Option Tasks) → ℕ → Task → Tasks → Option Tasks
mark descend i t tasks = descend t.taskid (set tasks i (record t { status = impossible }))

-- One slot of the walk: `paternity_test`, then `mark`.
unfoldable pub visit : (ℤ → Tasks → Option Tasks) → ℤ → ℕ → Task → Tasks → Option Tasks
unfolding mark
visit descend parentid i t tasks =
    if paternity_test parentid t then mark descend i t tasks else some tasks

-- The walk of `tasks_test_do` over `left` slots from slot `i` on.
unfoldable pub walk : (ℤ → Tasks → Option Tasks) → ℤ → ℕ → ℕ → Tasks → Option Tasks
walk descend parentid zero i tasks = some tasks
walk descend parentid (suc left) i tasks = get_elem? tasks i >>= λ t.
    (visit descend parentid i t tasks >>= λ tasks'. walk descend parentid left (i + 1) tasks')

unfoldable pub mark_impossible : ℕ → ℤ → Tasks → Option Tasks
unfolding walk visit
mark_impossible zero parentid tasks = none
mark_impossible (suc depth) parentid tasks =
    walk (mark_impossible depth) parentid (length tasks) 0 tasks

-- `none` is the unbounded recursion of `mark_impossible`.
finish_status : ℕ → ℤ → TaskStat → Timeval → ℕ → Task → Tasks → Option Tasks
finish_status depth taskid complete now i t tasks =
    some (set tasks i (record t { total_time = time_difference t.time_started now }))
finish_status depth taskid impossible now i t tasks = mark_impossible depth taskid tasks
finish_status depth taskid status now i t tasks = some tasks

unfoldable pub task_set_status : ℕ → Tasks → ℤ → TaskStat → Timeval → Option (Tasks × Code)
unfolding finish_status
task_set_status depth tasks taskid status now = elim (tasks_itest (idtest taskid) tasks) [
  | none ↦ some (tasks, fail)
  | some i ↦ get_elem? tasks i >>= λ t.
      (let t' = record t { status = status } in
        finish_status depth taskid status now i t' (set tasks i t') >>= λ out. some (out, ok))
]
