-- ===== src/Tests/Queue.antt =====
-- src/lib/task.c on concrete tables.
use freenote_probe.Base.{
  ℕ, zero, suc, ◌+◌, ◌-◌, ◌≡◌, ◌≢◌, ◌⊎◌, inl, inr, refl, none, some, [], ◌∷◌, All, replicate, count,
  arith, get_elem?, set,
}
use freenote_probe.Base.Int.{ℤ, pos, negsuc}
use freenote_probe.CString.{codes, strchr, atoi, isspace}
use freenote_probe.CString.Search.{Lacks-strchr}
use freenote_probe.Clock.{Timeval}
use freenote_probe.Task.Types.{
  Task, Tasks, ok, todo, complete, impossible, init_task, valid_task_magic, null_task, empty_table,
  statustest, tasks_itest,
}
use freenote_probe.Task.Queue.{task_add, get_completed, Finished, completed, gave_up}
use freenote_probe.Task.Describe.{nv_to_task}
use freenote_probe.Task.Status.{task_set_status, mark_impossible, walk, visit, mark}
use freenote_probe.Task.Slots.{IsTask, SlotOk, IsValid}
use freenote_probe.Task.Recursion.{Ranked, mark_impossible-Ranked}
use freenote_probe.Task.Counts.{free, finished, get_completed_lem}
use freenote_probe.Task.Steps.{here, next, add, Reach-IsValid}
use freenote_probe.Task.Received.{description, described, nv_to_task-description}

abbrev now : Timeval
now = record { tv_sec = pos 9; tv_usec = pos 0 }

abbrev parent_task : Task
parent_task = record init_task {
  magic = valid_task_magic;
  status = complete;
  type = pos 1;
  taskid = pos 7;
}

abbrev child_task : Task
child_task = record init_task {
  magic = valid_task_magic;
  status = todo;
  type = pos 2;
  taskid = pos 8;
  parent = pos 7;
}

abbrev table : Tasks
table = parent_task ∷ child_task ∷ replicate 13 init_task

abbrev marked_table : Tasks
marked_table = parent_task ∷ record child_task { status = impossible } ∷ replicate 13 init_task

parent_task-IsTask : IsTask parent_task
parent_task-IsTask = record {
  magic_ok = refl;
  status_ok = λ e. cc;
  type_ok = λ e. ground (arith, e);
  taskid_ok = λ e. ground (arith, e);
}

child_task-IsTask : IsTask child_task
child_task-IsTask = record {
  magic_ok = refl;
  status_ok = λ e. cc;
  type_ok = λ e. ground (arith, e);
  taskid_ok = λ e. ground (arith, e);
}

empty-SlotOk : (n : ℕ) → All SlotOk (replicate n init_task)
empty-SlotOk zero = tt
empty-SlotOk (suc n) = (inl refl, empty-SlotOk n)

table-IsValid : IsValid table
table-IsValid = record {
  size = refl;
  slots = (inr parent_task-IsTask, (inr child_task-IsTask, empty-SlotOk 13));
}

empty_table-IsValid : IsValid empty_table
empty_table-IsValid = record { size = refl; slots = empty-SlotOk 15 }

seven-nonzero : pos 7 ≢ pos 0
seven-nonzero e = ground (arith, e)

eight-nonzero : pos 8 ≢ pos 0
eight-nonzero e = ground (arith, e)

twelve-nonzero : atoi (codes "12") ≢ pos 0
unfolding atoi isspace
twelve-nonzero e = ground (arith, e)

two-nonzero : pos 2 ≢ null_task
two-nonzero e = ground (arith, e)

-- The rank of an id: the child stands below its parent.
abbrev rank_of : ℤ → ℕ
rank_of (pos n) = 10 - n
rank_of (negsuc n) = 0

empty-Ranked : (n : ℕ) → All (Ranked rank_of) (replicate n init_task)
empty-Ranked zero = tt
empty-Ranked (suc n) = (inl refl, empty-Ranked n)

table-marked : mark_impossible 2 (pos 7) table ≡ some marked_table
unfolding mark_impossible walk visit mark
table-marked = refl

status-set :
    task_set_status 3 table (pos 7) impossible now
    ≡ some (
      record parent_task { status = impossible }
          ∷ record child_task { status = impossible }
          ∷ replicate 13 init_task,
      ok,
    )
unfolding task_set_status mark_impossible walk visit mark tasks_itest
status-set = refl

Reach-IsValid_example : IsValid (task_add empty_table child_task).0
Reach-IsValid_example =
    Reach-IsValid empty_table-IsValid (next here (add child_task two-nonzero eight-nonzero))

mark_impossible-Ranked_example : (us : Tasks) × (mark_impossible 4 (pos 7) table ≡ some us)
mark_impossible-Ranked_example =
    mark_impossible-Ranked rank_of 4 (pos 7) table seven-nonzero (omega arith) table-IsValid
      (inl refl, (inr (omega arith), empty-Ranked 13))

get_completed_example :
    (finished table ≡ 0) × (count (statustest impossible) table ≡ 0) × (get_completed table ≡ none)
    ⊎ ((r : Finished) × (i : ℕ) × (t : Task) × (get_elem? table i ≡ some t)
        × (get_completed table ≡ some (r, t, set table i init_task))
        × (free (set table i init_task) ≡ free table + 1)
        × ((r ≡ completed) × (t.status ≡ complete)
            ⊎ (r ≡ gave_up) × (t.status ≡ impossible) × (finished table ≡ 0)))
get_completed_example = get_completed_lem table table-IsValid

nv_to_task-description_example :
    nv_to_task (pos 4) (codes "12") (description b'3' [] b'G' (codes "ET") (codes "http://h/"))
    ≡ some (described (pos 4) (codes "12") (codes "3,GET,http://h/") (codes "http://h/"))
nv_to_task-description_example =
    nv_to_task-description (pos 4) (codes "12") b'3' [] b'G' (codes "ET") (codes "http://h/")
      twelve-nonzero tt (Lacks-strchr (codes "ET") _ (unfold strchr in refl))
