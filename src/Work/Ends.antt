-- ===== src/Work/Ends.antt =====
-- Runs of src/work.c that end, and what their calls of src/lib/task.c do to a well-formed table.
use freenote_probe.Base.{
  ℕ, ◌≤◌, false, some, [], ◌∷◌, if◌then◌else◌, ◌≡◌, ◌≢◌, refl, ap, sym, ◌∙◌, arith, get_elem?, set,
  count, count-set, Option-cases, inl, inr, ◌⊎◌, >>=-eq-some,
}
use freenote_probe.Base.Int.{ℤ, pos}
use freenote_probe.Clock.{Timeval}
use freenote_probe.Task.Types.{
  Task, Tasks, TaskStat, Code, ok, fail, invalid, todo, complete, impossible, eq_stat, statustest,
  idtest,
}
use freenote_probe.Task.Queue.{update_task}
use freenote_probe.Task.Status.{task_set_status, mark_impossible}
use freenote_probe.Task.Table.{Found, tasks_itest-cases}
use freenote_probe.Task.Cases.{
  updated, update_task-cases, timed, task_set_status_unknown, task_set_status_complete,
  task_set_status_impossible,
}
use freenote_probe.Task.Slots.{IsValid, update_task-IsValid}
use freenote_probe.Task.Impossible.{task_set_status-IsValid}
use freenote_probe.Task.Marking.{Marked, mark_impossible-Marked}
use freenote_probe.Task.Counts.{waiting}
use freenote_probe.Ran.{Ran}
use freenote_probe.Work.{
  bad_index, too_deep, out_of_fuel, lost, call, Run, value, stopped, ◌>>=◌, set_status,
}

-- A run that ends in time or is lost in a call, and whose result satisfies `P` if it has one.
abbrev pub Ends {ℓ} : {A : Type ℓ} → (A → Type 0) → Run A → Type 0
Ends P (value a) = P a
Ends P (stopped bad_index) = Unit
Ends P (stopped too_deep) = Unit
Ends P (stopped lost) = Unit
Ends P (stopped out_of_fuel) = ⊥

pub Ends->>= {ℓ κ} :
    {A : Type ℓ} {B : Type κ} (P : A → Type 0) (Q : B → Type 0) (m : Run A) (f : A → Run B)
    → Ends P m
    → ((a : A) → P a → Ends Q (f a))
    → Ends Q (m >>= f)
Ends->>= P Q (value a) f h k = k a h
Ends->>= P Q (stopped bad_index) f h k = tt
Ends->>= P Q (stopped too_deep) f h k = tt
Ends->>= P Q (stopped lost) f h k = tt
Ends->>= P Q (stopped out_of_fuel) f h k = absurd h

-- Of what a call of another module returns, nothing needs to be known.
pub Ends-call {ℓ κ} :
    {A : Type ℓ} {B : Type κ} (Q : B → Type 0) (m : Ran A) (f : A → Run B)
    → ((a : A) → Ends Q (f a))
    → Ends Q (call m >>= f)
Ends-call Q (Ran.returns a) f k = k a
Ends-call Q Ran.aborts f k = tt
Ends-call Q Ran.exits f k = tt
Ends-call Q Ran.faults f k = tt
Ends-call Q Ran.waits f k = tt

-- A well-formed table in which at most `n` tasks wait.
abbrev pub Kept : ℕ → Tasks → Type 0
Kept n ts = IsValid ts × (waiting ts ≤ n)

-- What a task of a status adds to the number of those that wait.
abbrev one_if : TaskStat → ℕ
one_if s = if eq_stat s todo then 1 else 0

pub Kept-set :
    (ts : Tasks) (i : ℕ) (v : Task) {t : Task}
    → get_elem? ts i ≡ some t
    → (eq_stat v.status todo ≡ false) ⊎ (v.status ≡ t.status)
    → waiting (set ts i v) ≤ waiting ts
Kept-set ts i v {t} at (inl other) =
    let e = count-set (statustest todo) ts i v at in omega (arith, rw other at e)
Kept-set ts i v {t} at (inr same) =
    let test : one_if v.status ≡ one_if t.status = ap one_if same in
    omega (arith, test, count-set (statustest todo) ts i v at)

pub Marked-waiting : (ts us : Tasks) → Marked ts us → waiting us ≤ waiting ts
Marked-waiting [] [] m = omega arith
Marked-waiting [] (u ∷ us) m = absurd m
Marked-waiting (t ∷ ts) [] m = absurd m
Marked-waiting (t ∷ ts) (u ∷ us) (inl e, m) = rw e (omega (arith, Marked-waiting ts us m))
Marked-waiting (t ∷ ts) (u ∷ us) (inr e, m) = rw e (omega (arith, Marked-waiting ts us m))

pub update_task-Kept :
    (ts : Tasks) (task : Task)
    → IsValid ts
    → task.taskid ≢ pos 0
    → Kept (waiting ts) (update_task ts task).0
update_task-Kept ts task h nz = (update_task-IsValid task h nz, fewer (update_task-cases ts task))
  where
    fewer :
        (update_task ts task ≡ (ts, fail)) × (count (idtest task.taskid) ts ≡ 0)
          ⊎ ((f : Found (idtest task.taskid) ts) × (update_task ts task
                ≡ (set ts f.index (updated f.task task), ok)))
        → waiting (update_task ts task).0 ≤ waiting ts
    fewer (inl (e, _)) = rw e (omega arith)
    fewer (inr (f, e)) = rw e (Kept-set ts f.index (updated f.task task) f.holds (inr refl))

-- The two statuses that a handler sets.
pub data Closing : TaskStat → Type 0 where
  completes : Closing complete
  gives_up : Closing impossible

Closing-ne-invalid : {s : TaskStat} → Closing s → s ≢ invalid
Closing-ne-invalid completes e = cc
Closing-ne-invalid gives_up e = cc

task_set_status-waiting :
    (depth : ℕ) (ts : Tasks) (id : ℤ) (s : TaskStat) (now : Timeval) {ts' : Tasks} {code : Code}
    → Closing s
    → task_set_status depth ts id s now ≡ some (ts', code)
    → waiting ts' ≤ waiting ts
task_set_status-waiting depth ts id s now {ts'} {code} c e =
    elim (tasks_itest-cases (idtest id) ts) [
      | inl (missing, _) ↦
          let u = task_set_status_unknown depth ts id s now missing in
          let same : ts ≡ ts' = cc in rw (← same) (omega arith)
      | inr f ↦ written f s c e
    ]
  where
    written :
        (f : Found (idtest id) ts) (s : TaskStat)
        → Closing s
        → task_set_status depth ts id s now ≡ some (ts', code)
        → waiting ts' ≤ waiting ts
    written f _ completes e =
        let done = task_set_status_complete depth ts id now f in
        let same : set ts f.index (timed now f.task) ≡ ts' = cc in
        rw (← same) (Kept-set ts f.index (timed now f.task) f.holds (inl refl))
    written f _ gives_up e =
        let done = task_set_status_impossible depth ts id now f in
        let mine = set ts f.index (record f.task { status = impossible }) in
        let (out, marked, e1) = >>=-eq-some (mark_impossible depth id mine) _ (sym done ∙ e) in
        let same : out ≡ ts' = cc in
        rw (← same) (
          omega (
            arith,
            Marked-waiting mine out (mark_impossible-Marked depth id mine out marked),
            Kept-set ts f.index (record f.task { status = impossible }) f.holds (inl refl),
          ))

pub set_status-Ends :
    (depth : ℕ) (ts : Tasks) (id : ℤ) (s : TaskStat) (now : Timeval)
    → Closing s
    → IsValid ts
    → id ≢ pos 0
    → Ends (Kept (waiting ts)) (set_status depth ts id s now)
unfolding set_status
set_status-Ends depth ts id s now c h nz = elim (Option-cases (task_set_status depth ts id s now)) [
  | inl deep ↦ rw (deep, set_status) tt
  | inr ((ts', code), done) ↦
      rw (done, set_status)
        (
          task_set_status-IsValid depth id s now h nz (Closing-ne-invalid c) done,
          task_set_status-waiting depth ts id s now c done,
        )
]
