-- ===== src/Task/Impossible.antt =====
-- `mark_impossible` and `task_set_status` of src/lib/task.c on well-formed tables.
use freenote_probe.Base.{
  >>=-eq-some, ℕ, zero, suc, ◌+◌, true, Option, some, ◌≡◌, ◌≢◌, sym, ◌∙◌, arith, length, get_elem?,
  set, Bool-cases, inl, inr, All-get_elem?,
}
use freenote_probe.Base.Int.{ℤ, pos, eq_ℤ_iff}
use freenote_probe.Clock.{Timeval}
use freenote_probe.Task.Types.{
  TaskStat, Task, Tasks, Code, idtest, paternity_test, invalid, complete, impossible,
}
use freenote_probe.Task.Status.{task_set_status, mark_impossible, visit, walk}
use freenote_probe.Task.Cases.{
  timed, task_set_status_unknown, task_set_status_complete, task_set_status_impossible,
  task_set_status_plain,
}
use freenote_probe.Task.Table.{Found, tasks_itest-cases}
use freenote_probe.Task.Slots.{
  IsTask, SlotOk, IsValid, IsValid-set, IsTask-status, idtest_empty, Found-IsTask,
}

-- A function on the table that keeps it well-formed where it returns, for ids other than 0.
abbrev pub Keeps : (ℤ → Tasks → Option Tasks) → Type 0
Keeps descend =
    (id : ℤ) (us us' : Tasks) → id ≢ pos 0 → IsValid us → descend id us ≡ some us' → IsValid us'

-- A child of a task with an id other than 0 is a task.
pub child-IsTask :
    {t : Task} (id : ℤ) → id ≢ pos 0 → SlotOk t → paternity_test id t ≡ true → IsTask t
child-IsTask {t} id nz (inl e) p = absurd (nz (sym ((eq_ℤ_iff (pos 0) id).0 (rw e at p))))
child-IsTask {t} id nz (inr k) p = k

pub visit-Keeps :
    (descend : ℤ → Tasks → Option Tasks)
    → Keeps descend
    → (id : ℤ) (i : ℕ) (t : Task) (us us' : Tasks) → id ≢ pos 0
    → IsValid us
    → SlotOk t
    → visit descend id i t us ≡ some us'
    → IsValid us'
unfolding visit
visit-Keeps descend keeps id i t us us' nz h s e = elim (Bool-cases (paternity_test id t)) [
  | inl p ↦
      let k = child-IsTask id nz s p in
      keeps t.taskid _ us' k.taskid_ok
        (IsValid-set i _ h (inr (IsTask-status impossible k (λ q. cc)))) (rw p at e)
  | inr p ↦ let same : us ≡ us' = ground (arith, p) in rw (← same) h
]

walk-Keeps :
    (descend : ℤ → Tasks → Option Tasks)
    → Keeps descend
    → (id : ℤ) (left i : ℕ) (us us' : Tasks) → id ≢ pos 0
    → IsValid us
    → walk descend id left i us ≡ some us'
    → IsValid us'
unfolding walk
walk-Keeps descend keeps id zero i us us' nz h e = let same : us ≡ us' = cc in rw (← same) h
walk-Keeps descend keeps id (suc left) i us us' nz h e =
    let (t, at, e1) = >>=-eq-some (get_elem? us i) _ e in
    let (mid, visited, e2) = >>=-eq-some (visit descend id i t us) _ e1 in
    walk-Keeps descend keeps id left (i + 1) mid us' nz
      (visit-Keeps descend keeps id i t us mid nz h (All-get_elem? SlotOk us i h.slots at) visited)
      e2

pub mark_impossible-Keeps : (depth : ℕ) → Keeps (mark_impossible depth)
unfolding mark_impossible
mark_impossible-Keeps zero id us us' nz h e = cc
mark_impossible-Keeps (suc depth) id us us' nz h e =
    walk-Keeps (mark_impossible depth) (mark_impossible-Keeps depth) id (length us) 0 us us' nz h e

module _ (depth : ℕ) {ts : Tasks} (id : ℤ) (now : Timeval) (f : Found (idtest id) ts)
    (h : IsValid ts) (nz : id ≢ pos 0) where
  known : IsTask f.task
  known = Found-IsTask f h (idtest_empty id nz)

  complete-IsValid : IsValid (set ts f.index (timed now f.task))
  complete-IsValid = IsValid-set f.index _ h (
      inr (record {
        magic_ok = known.magic_ok;
        status_ok = λ q. cc;
        type_ok = known.type_ok;
        taskid_ok = known.taskid_ok;
      }))

  written-IsValid :
      (s : TaskStat) → s ≢ invalid → IsValid (set ts f.index (record f.task { status = s }))
  written-IsValid s ne = IsValid-set f.index _ h (inr (IsTask-status s known ne))

  found-IsValid :
      (s : TaskStat) {ts' : Tasks} {code : Code}
      → s ≢ invalid
      → task_set_status depth ts id s now ≡ some (ts', code)
      → IsValid ts'
  found-IsValid complete {ts'} ne e =
      let done = task_set_status_complete depth ts id now f in
      let same : set ts f.index (timed now f.task) ≡ ts' = cc in rw (← same) complete-IsValid
  found-IsValid impossible {ts'} ne e =
      let done = task_set_status_impossible depth ts id now f in
      let (out, marked, e1) =
        >>=-eq-some
          (mark_impossible depth id (set ts f.index (record f.task { status = impossible }))) _
          (sym done ∙ e) in
      let same : out ≡ ts' = cc in
      rw (← same) (mark_impossible-Keeps depth id _ out nz (written-IsValid impossible ne) marked)
  found-IsValid s {ts'} ne e =
      let done = task_set_status_plain depth ts id now f s (λ q. cc) (λ q. cc) in
      let same : set ts f.index (record f.task { status = s }) ≡ ts' = cc in
      rw (← same) (written-IsValid s ne)

-- `task_set_status` keeps the table well-formed for every id other than 0 and every status but the
-- one of an empty slot.
pub task_set_status-IsValid :
    (depth : ℕ) {ts : Tasks} (id : ℤ) (status : TaskStat) (now : Timeval) {ts' : Tasks}
    {code : Code}
    → IsValid ts
    → id ≢ pos 0
    → status ≢ invalid
    → task_set_status depth ts id status now ≡ some (ts', code)
    → IsValid ts'
task_set_status-IsValid depth {ts} id status now {ts'} {code} h nz ne e =
    elim (tasks_itest-cases (idtest id) ts) [
      | inl (missing, _) ↦
          let u = task_set_status_unknown depth ts id status now missing in
          let same : ts ≡ ts' = cc in rw (← same) h
      | inr f ↦ found-IsValid depth id now f h nz status ne e
    ]
