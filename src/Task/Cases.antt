-- ===== src/Task/Cases.antt =====
-- What each operation of src/lib/task.c does, by the outcome of its search.
use freenote_probe.Base.{
  set-set, ℕ, none, some, if◌then◌else◌, ◌>>=◌, ◌≡◌, ◌≢◌, refl, arith, set, inl, inr, ◌⊎◌, count,
  ==_iff,
}
use freenote_probe.Base.Int.{ℤ}
use freenote_probe.Clock.{Timeval, time_difference}
use freenote_probe.Task.Types.{
  valid_task_magic, TaskStat, null_task, Task, Tasks, init_task, eq_stat, statustest, typetest,
  idtest, tasks_itest, todo, running, complete, impossible, ok, fail,
}
use freenote_probe.Task.Queue.{
  task_add, get_task, get_completed, get_task_id, update_task, completed, gave_up,
}
use freenote_probe.Task.Status.{task_set_status, mark_impossible}
use freenote_probe.Task.Table.{Found, tasks_itest-cases}

pub task_add-cases :
    (ts : Tasks) (t : Task)
    → t.magic ≡ valid_task_magic
    → (task_add ts t ≡ (ts, fail)) × (count (typetest null_task) ts ≡ 0)
      ⊎ ((f : Found (typetest null_task) ts) × (task_add ts t
            ≡ (set ts f.index (record t { status = todo }), ok)))
unfolding task_add
task_add-cases ts t m = elim (tasks_itest-cases (typetest null_task) ts) [
  | inl (missing, nothing) ↦ inl (rw ((==_iff t.magic valid_task_magic).1 m, missing), nothing)
  | inr f ↦ inr (f, rw ((==_iff t.magic valid_task_magic).1 m, f.searched))
]

pub task_add_bad_magic :
    (ts : Tasks) (t : Task) → t.magic ≢ valid_task_magic → task_add ts t ≡ (ts, fail)
unfolding task_add
task_add_bad_magic ts t m = ground arith

abbrev pub started : Timeval → Task → Task
started now t = record t { status = running; time_started = now }

pub get_task-cases :
    (ts : Tasks) (now : Timeval)
    → (get_task ts now ≡ none) × (count (statustest todo) ts ≡ 0)
      ⊎ ((f : Found (statustest todo) ts) × (get_task ts now
            ≡ some (started now f.task, set ts f.index (started now f.task))))
unfolding get_task
get_task-cases ts now = elim (tasks_itest-cases (statustest todo) ts) [
  | inl (missing, nothing) ↦ inl (rw missing, nothing)
  | inr f ↦ inr (f, rw (f.searched, f.holds))
]

pub get_completed-cases :
    (ts : Tasks)
    → ((get_completed ts ≡ none)
        × (count (statustest complete) ts ≡ 0)
        × (count (statustest impossible) ts ≡ 0))
      ⊎ ((f : Found (statustest complete) ts) × (get_completed ts
            ≡ some (completed, f.task, set ts f.index init_task)))
      ⊎ ((f : Found (statustest impossible) ts) × (get_completed ts
            ≡ some (gave_up, f.task, set ts f.index init_task))
          × (count (statustest complete) ts ≡ 0))
unfolding get_completed
get_completed-cases ts = elim (tasks_itest-cases (statustest complete) ts) [
  | inr f ↦ inr (inl (f, rw (f.searched, get_completed, f.holds)))
  | inl (missing, nothing) ↦ elim (tasks_itest-cases (statustest impossible) ts) [
    | inl (missing', nothing') ↦ inl (rw (missing, missing', get_completed), nothing, nothing')
    | inr f ↦ inr (inr (f, rw (missing, f.searched, get_completed, f.holds), nothing))
  ]
]

-- The task that `get_task_id` leaves in the slot.
abbrev pub resumed : Timeval → Task → Task
resumed now t = if eq_stat t.status todo then started now t else t

pub get_task_id-cases :
    (ts : Tasks) (id : ℤ) (now : Timeval)
    → (get_task_id ts id now ≡ none) × (count (idtest id) ts ≡ 0)
      ⊎ ((f : Found (idtest id) ts) × (get_task_id ts id now
            ≡ some (resumed now f.task, set ts f.index (resumed now f.task))))
unfolding get_task_id
get_task_id-cases ts id now = elim (tasks_itest-cases (idtest id) ts) [
  | inl (missing, nothing) ↦ inl (rw missing, nothing)
  | inr f ↦ inr (f, rw (f.searched, f.holds))
]

-- The new data, with what the table keeps of the task.
abbrev pub updated : Task → Task → Task
updated old task = record task {
  magic = old.magic;
  status = old.status;
  type = old.type;
  workid = old.workid;
}

pub update_task-cases :
    (ts : Tasks) (task : Task)
    → (update_task ts task ≡ (ts, fail)) × (count (idtest task.taskid) ts ≡ 0)
      ⊎ ((f : Found (idtest task.taskid) ts) × (update_task ts task
            ≡ (set ts f.index (updated f.task task), ok)))
unfolding update_task
update_task-cases ts task = elim (tasks_itest-cases (idtest task.taskid) ts) [
  | inl (missing, nothing) ↦ inl (rw (missing, update_task), nothing)
  | inr f ↦ inr (f, rw (f.searched, update_task, f.holds))
]

pub task_set_status_unknown :
    (depth : ℕ) (ts : Tasks) (id : ℤ) (status : TaskStat) (now : Timeval)
    → tasks_itest (idtest id) ts ≡ none
    → task_set_status depth ts id status now ≡ some (ts, fail)
unfolding task_set_status
task_set_status_unknown depth ts id status now e = rw (e, task_set_status)

-- A completed task also gets the time that it took.
abbrev pub timed : Timeval → Task → Task
timed now t = record t { status = complete; total_time = time_difference t.time_started now }

module _ (depth : ℕ) (ts : Tasks) (id : ℤ) (now : Timeval) (f : Found (idtest id) ts) where
  pub task_set_status_complete :
      task_set_status depth ts id complete now ≡ some (set ts f.index (timed now f.task), ok)
  task_set_status_complete =
      unfold task_set_status in rw (f.searched, task_set_status, f.holds, set-set)

  pub task_set_status_impossible : task_set_status depth ts id impossible now ≡ (
      mark_impossible depth id (set ts f.index (record f.task { status = impossible })) >>= λ out.
      some (out, ok))
  task_set_status_impossible = unfold task_set_status in rw (f.searched, task_set_status, f.holds)

  -- The other statuses are written and nothing else happens.
  pub task_set_status_plain :
      (status : TaskStat)
      → status ≢ complete
      → status ≢ impossible
      → task_set_status depth ts id status now
        ≡ some (set ts f.index (record f.task { status = status }), ok)
  task_set_status_plain complete c i = absurd (c refl)
  task_set_status_plain impossible c i = absurd (i refl)
  task_set_status_plain _ c i = unfold task_set_status in rw (f.searched, task_set_status, f.holds)
