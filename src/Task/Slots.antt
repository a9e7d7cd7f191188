-- ===== src/Task/Slots.antt =====
-- Well-formed tables of tasks, and the operations of src/lib/task.c on them.
use freenote_probe.Base.{
  ℕ, suc, Bool, true, false, ◌==◌, some, [], ◌∷◌, ◌≡◌, ◌≢◌, refl, ap, sym, ◌∙◌, arith, length, set,
  Bool-cases, inl, inr, ◌⊎◌, All, All-set, All-get_elem?, length-set, ==_iff,
}
use freenote_probe.Base.Int.{ℤ, pos}
use freenote_probe.Clock.{Timeval}
use freenote_probe.Task.Types.{
  valid_task_magic, max_tasks, TaskStat, null_task, Task, Tasks, init_task, eq_stat, idtest,
  tasks_each_do, tasks_init, invalid, todo,
}
use freenote_probe.Task.Queue.{
  task_add, valid_task, get_task, get_completed, get_task_id, update_task, Finished,
}
use freenote_probe.Task.Cases.{
  task_add-cases, task_add_bad_magic, started, get_task-cases, get_completed-cases, resumed,
  get_task_id-cases, update_task-cases,
}
use freenote_probe.Task.Table.{eq_stat_ne, eq_ℤ_ne, Found}

-- A task as `valid_task` accepts it, with an id other than 0.
pub record IsTask (t : Task) : Type 0 where
  pub magic_ok : t.magic ≡ valid_task_magic
  pub status_ok : t.status ≢ invalid
  pub type_ok : t.type ≢ null_task
  pub taskid_ok : t.taskid ≢ pos 0

-- A slot is empty, as `init_task` leaves it, or holds a task.
abbrev pub SlotOk : Task → Type 0
SlotOk t = (t ≡ init_task) ⊎ IsTask t

pub record IsValid (ts : Tasks) : Type 0 where
  pub size : length ts ≡ max_tasks
  pub slots : All SlotOk ts

pub valid_task-IsTask : (t : Task) → valid_task t ≡ true → t.taskid ≢ pos 0 → IsTask t
unfolding valid_task
valid_task-IsTask t h id = record {
  magic_ok = ground arith;
  status_ok = λ e. ground (arith, e);
  type_ok = λ e. ground (arith, e);
  taskid_ok = id;
}

pub IsTask-valid_task : {t : Task} → IsTask t → valid_task t ≡ true
unfolding valid_task
IsTask-valid_task {t} h = rw (
  (==_iff t.magic valid_task_magic).1 h.magic_ok,
  eq_stat_ne t.status invalid h.status_ok,
  eq_ℤ_ne t.type null_task h.type_ok,
)

pub IsValid-set : {ts : Tasks} (i : ℕ) (v : Task) → IsValid ts → SlotOk v → IsValid (set ts i v)
IsValid-set {ts} i v h task = record {
  size = length-set ts i v ∙ h.size;
  slots = All-set SlotOk ts i v h.slots task;
}

-- The slot that a test found holds a task if the test fails on an empty slot.
pub Found-IsTask :
    {test : Task → Bool} {ts : Tasks} (f : Found test ts)
    → IsValid ts
    → test init_task ≡ false
    → IsTask f.task
Found-IsTask {test} {ts} f h empty = elim (All-get_elem? SlotOk ts f.index h.slots f.holds) [
  | inl e ↦ let c : true ≡ false = sym f.passes ∙ ap test e ∙ empty in cc
  | inr task ↦ task
]

-- A task that is well-formed stays so under a new status.
pub IsTask-status :
    {t : Task} (status : TaskStat)
    → IsTask t
    → status ≢ invalid
    → IsTask (record t { status = status })
IsTask-status status h ne = record {
  magic_ok = h.magic_ok;
  status_ok = ne;
  type_ok = h.type_ok;
  taskid_ok = h.taskid_ok;
}

IsTask-started : {t : Task} (now : Timeval) → IsTask t → IsTask (started now t)
IsTask-started now h = record {
  magic_ok = h.magic_ok;
  status_ok = λ e. cc;
  type_ok = h.type_ok;
  taskid_ok = h.taskid_ok;
}

-- The test for an id other than 0 fails on an empty slot.
pub idtest_empty : (id : ℤ) → id ≢ pos 0 → idtest id init_task ≡ false
idtest_empty id h = eq_ℤ_ne (pos 0) id (λ e. h (sym e))

tasks_each_do-IsValid :
    (ts : Tasks)
    → (length (tasks_each_do (λ _. init_task) ts) ≡ length ts)
      × All SlotOk (tasks_each_do (λ _. init_task) ts)
unfolding tasks_each_do
tasks_each_do-IsValid [] = (refl, tt)
tasks_each_do-IsValid (t ∷ ts) = let (n, h) = tasks_each_do-IsValid ts in (ap suc n, (inl refl, h))

pub tasks_init-IsValid : (ts : Tasks) → length ts ≡ max_tasks → IsValid (tasks_init ts)
tasks_init-IsValid ts h =
    unfold tasks_init in
    record { size = (tasks_each_do-IsValid ts).0 ∙ h; slots = (tasks_each_do-IsValid ts).1 }

pub task_add-IsValid :
    {ts : Tasks} (t : Task)
    → IsValid ts
    → t.type ≢ null_task
    → t.taskid ≢ pos 0
    → IsValid (task_add ts t).0
task_add-IsValid {ts} t h y id = elim (Bool-cases (t.magic == valid_task_magic)) [
  | inl e ↦
      let m = (==_iff t.magic valid_task_magic).0 e in
      elim (task_add-cases ts t m) [
        | inl (e', _) ↦ rw e' h
        | inr (f, e') ↦ rw e' (
            IsValid-set f.index _ h
              (inr (record { magic_ok = m; status_ok = λ q. cc; type_ok = y; taskid_ok = id })))
      ]
  | inr e ↦ rw (task_add_bad_magic ts t (λ m. cc (sym e ∙ (==_iff t.magic valid_task_magic).1 m))) h
]

pub get_task-IsValid :
    {ts : Tasks} (now : Timeval) {t : Task} {ts' : Tasks}
    → IsValid ts
    → get_task ts now ≡ some (t, ts')
    → IsValid ts'
get_task-IsValid {ts} now {t} {ts'} h e = elim (get_task-cases ts now) [
  | inl (missing, _) ↦ cc
  | inr (f, done) ↦
      let same : set ts f.index (started now f.task) ≡ ts' = cc in
      rw (← same) (IsValid-set f.index _ h (inr (IsTask-started now (Found-IsTask f h refl))))
]

pub get_completed-IsValid :
    {ts : Tasks} {r : Finished} {t : Task} {ts' : Tasks}
    → IsValid ts
    → get_completed ts ≡ some (r, t, ts')
    → IsValid ts'
get_completed-IsValid {ts} {r} {t} {ts'} h e = elim (get_completed-cases ts) [
  | inl (missing, _, _) ↦ cc
  | inr (inl (f, done)) ↦ emptied f.index cc
  | inr (inr (f, done, _)) ↦ emptied f.index cc
]
  where
    emptied : (i : ℕ) → set ts i init_task ≡ ts' → IsValid ts'
    emptied i same = rw (← same) (IsValid-set i init_task h (inl refl))

pub get_task_id-IsValid :
    {ts : Tasks} (id : ℤ) (now : Timeval) {t : Task} {ts' : Tasks}
    → IsValid ts
    → id ≢ pos 0
    → get_task_id ts id now ≡ some (t, ts')
    → IsValid ts'
get_task_id-IsValid {ts} id now {t} {ts'} h nz e = elim (get_task_id-cases ts id now) [
  | inl (missing, _) ↦ cc
  | inr (f, done) ↦
      let same : set ts f.index (resumed now f.task) ≡ ts' = cc in
      rw (← same) (
        IsValid-set f.index _ h
          (inr (resumed-IsTask f.task (Found-IsTask f h (idtest_empty id nz)))))
]
  where
    resumed-IsTask : (u : Task) → IsTask u → IsTask (resumed now u)
    resumed-IsTask u k = elim (Bool-cases (eq_stat u.status todo)) [
      | inl q ↦ rw q (IsTask-started now k)
      | inr q ↦ rw q k
    ]

pub update_task-IsValid :
    {ts : Tasks} (task : Task) → IsValid ts → task.taskid ≢ pos 0 → IsValid (update_task ts task).0
update_task-IsValid {ts} task h nz = elim (update_task-cases ts task) [
  | inl (done, _) ↦ rw done h
  | inr (f, done) ↦
      let k = Found-IsTask f h (idtest_empty task.taskid nz) in
      rw done (
        IsValid-set f.index _ h (
          inr (record {
            magic_ok = k.magic_ok;
            status_ok = k.status_ok;
            type_ok = k.type_ok;
            taskid_ok = nz;
          })))
]
