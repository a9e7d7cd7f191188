-- ===== src/Task/Counts.antt =====
-- src/lib/task.c: the number of free, waiting, running and finished slots.
use freenote_probe.Base.{
  count-set, ℕ, ◌+◌, Bool, none, some, ◌≡◌, ◌≢◌, refl, ap, arith, set, inl, inr, ◌⊎◌, All-get_elem?,
  count, get_elem?,
}
use freenote_probe.Base.Int.{eq_ℤ_iff}
use freenote_probe.Clock.{Timeval}
use freenote_probe.Task.Types.{
  valid_task_magic, null_task, Task, Tasks, init_task, eq_stat, statustest, typetest, todo, running,
  complete, impossible, ok, fail,
}
use freenote_probe.Task.Queue.{task_add, get_task, get_completed, Finished, completed, gave_up}
use freenote_probe.Task.Cases.{task_add-cases, started, get_task-cases, get_completed-cases}
use freenote_probe.Task.Table.{eq_stat_eq, count-set_drop, count-set_rise, eq_ℤ_ne, Found}
use freenote_probe.Task.Slots.{IsTask, SlotOk, IsValid, Found-IsTask}

abbrev pub free : Tasks → ℕ
free = count (typetest null_task)

abbrev pub waiting : Tasks → ℕ
waiting = count (statustest todo)

abbrev pub working : Tasks → ℕ
working = count (statustest running)

abbrev pub finished : Tasks → ℕ
finished = count (statustest complete)

-- In a well-formed table the slot of type 0 is empty.
Found-free : {ts : Tasks} (f : Found (typetest null_task) ts) → IsValid ts → f.task ≡ init_task
Found-free {ts} f h = elim (All-get_elem? SlotOk ts f.index h.slots f.holds) [
  | inl e ↦ e
  | inr k ↦ absurd (k.type_ok ((eq_ℤ_iff f.task.type null_task).0 f.passes))
]

-- `task_add` of a task with the right magic and a type other than 0 fails and changes nothing if no
-- slot is free; otherwise it succeeds, takes one free slot, and one more task waits.
pub task_add_lem :
    (ts : Tasks) (t : Task)
    → IsValid ts
    → t.magic ≡ valid_task_magic
    → t.type ≢ null_task
    → (free ts ≡ 0) × (task_add ts t ≡ (ts, fail))
      ⊎ ((task_add ts t).1 ≡ ok)
        × (free (task_add ts t).0 + 1 ≡ free ts)
        × (waiting (task_add ts t).0 ≡ waiting ts + 1)
task_add_lem ts t h m y = elim (task_add-cases ts t m) [
  | inl (e, none_free) ↦ inl (none_free, e)
  | inr (f, e) ↦
      let empty = Found-free f h in
      let added = record t { status = todo } in
      inr (
        rw e (
          refl,
          count-set_drop (typetest null_task) ts f.index added f.holds f.passes
              (eq_ℤ_ne t.type null_task y),
          count-set_rise (statustest todo) ts f.index added f.holds (ap (statustest todo) empty)
              refl,
        ))
]

-- `get_task` gives nothing exactly if no task waits; otherwise it gives a running task, and one task
-- less waits, one more runs, and as many slots are free.
pub get_task_lem :
    (ts : Tasks) (now : Timeval)
    → (waiting ts ≡ 0) × (get_task ts now ≡ none)
      ⊎ ((t : Task) × (ts' : Tasks) × (get_task ts now ≡ some (t, ts'))
          × (t.status ≡ running)
          × (t.time_started ≡ now)
          × (waiting ts' + 1 ≡ waiting ts)
          × (working ts' ≡ working ts + 1)
          × (free ts' ≡ free ts))
get_task_lem ts now = elim (get_task-cases ts now) [
  | inl (e, nothing) ↦ inl (nothing, e)
  | inr (f, e) ↦
      let s = started now f.task in
      let was : f.task.status ≡ todo = eq_stat_eq f.task.status todo f.passes in
      inr (
        s,
        set ts f.index s,
        e,
        refl,
        refl,
        count-set_drop (statustest todo) ts f.index s f.holds f.passes refl,
        count-set_rise (statustest running) ts f.index s f.holds (ap (λ k. eq_stat k running) was)
            refl,
        omega (arith, count-set (typetest null_task) ts f.index s f.holds),
      )
]

-- In a well-formed table `get_completed` either finds no task complete and none impossible, and gives
-- nothing; or there is such a task, and it gives the task of one slot and empties this slot as
-- `init_task` does, leaving all others as they are. The task is complete, which is the result 0; or it
-- is impossible and no task of the table is complete, which is the result 1.
pub get_completed_lem :
    (ts : Tasks)
    → IsValid ts
    → (finished ts ≡ 0) × (count (statustest impossible) ts ≡ 0) × (get_completed ts ≡ none)
      ⊎ ((r : Finished) × (i : ℕ) × (t : Task) × (get_elem? ts i ≡ some t)
          × (get_completed ts ≡ some (r, t, set ts i init_task))
          × (free (set ts i init_task) ≡ free ts + 1)
          × ((r ≡ completed) × (t.status ≡ complete)
              ⊎ (r ≡ gave_up) × (t.status ≡ impossible) × (finished ts ≡ 0)))
get_completed_lem ts h = elim (get_completed-cases ts) [
  | inl (e, a, b) ↦ inl (a, b, e)
  | inr (inl (f, e)) ↦ inr (
    completed,
    f.index,
    f.task,
    f.holds,
    e,
    freed f (Found-IsTask f h refl),
    inl (refl, eq_stat_eq f.task.status complete f.passes),
  )
  | inr (inr (f, e, nothing)) ↦ inr (
    gave_up,
    f.index,
    f.task,
    f.holds,
    e,
    freed f (Found-IsTask f h refl),
    inr (refl, eq_stat_eq f.task.status impossible f.passes, nothing),
  )
]
  where
    freed :
        {test : Task → Bool} (f : Found test ts)
        → IsTask f.task
        → free (set ts f.index init_task) ≡ free ts + 1
    freed f k =
        count-set_rise (typetest null_task) ts f.index init_task f.holds
          (eq_ℤ_ne f.task.type null_task k.type_ok) refl
