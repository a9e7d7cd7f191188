-- ===== src/Collection/Taken.antt =====
-- The finished tasks of a well-formed table, and how `get_completed` of src/lib/task.c takes one out.
use freenote_probe.Base.{
  ℕ, ◌+◌, ◌≤◌, none, some, [], ◌∷◌, if◌then◌else◌, ◌≡◌, refl, ap, arith, length, get_elem?, set,
  count, count-set, inl, inr, ◌⊎◌,
}
use freenote_probe.Task.Types.{
  Task, Tasks, TaskStat, complete, impossible, eq_stat, statustest, typetest, null_task, init_task,
}
use freenote_probe.Task.Queue.{get_completed, Finished}
use freenote_probe.Task.Table.{count-set_drop, count-set_rise, eq_stat_eq, eq_ℤ_ne}
use freenote_probe.Task.Cases.{get_completed-cases}
use freenote_probe.Task.Slots.{IsValid, IsTask, Found-IsTask, get_completed-IsValid}
use freenote_probe.Task.Counts.{free}
use freenote_probe.Collection.Reported.{reported, picked-nil, picked-first, picked-set}

-- The tasks that are complete or impossible.
abbrev pub ended : Tasks → ℕ
ended ts = count (statustest complete) ts + count (statustest impossible) ts

pub ended-le : (ts : Tasks) → ended ts ≤ length ts
ended-le [] = omega arith
ended-le (t ∷ ts) = omega (arith, one t.status, ended-le ts)
  where
    one :
        (s : TaskStat)
        → (if eq_stat s complete then 1 else 0) + (if eq_stat s impossible then 1 else 0) ≤ 1
    one s = grind arith

-- A task that `get_completed` gives, and the table that it leaves.
pub record Taken (ts : Tasks) : Type 0 where
  pub gcv : Finished
  pub task : Task
  pub left : Tasks
  pub given : get_completed ts ≡ some (gcv, task, left)
  pub is_task : IsTask task
  pub valid : IsValid left
  pub fewer : ended left + 1 ≡ ended ts
  pub freed : free left ≡ free ts + 1
  pub first : reported ts ≡ task ∷ reported left

freed_slot :
    (ts : Tasks) (i : ℕ) {t : Task}
    → get_elem? ts i ≡ some t
    → IsTask t
    → free (set ts i init_task) ≡ free ts + 1
freed_slot ts i {t} at k =
    count-set_rise (typetest null_task) ts i init_task at (eq_ℤ_ne t.type null_task k.type_ok) refl

pub taken : (ts : Tasks) → IsValid ts → ((get_completed ts ≡ none) × (ended ts ≡ 0)) ⊎ Taken ts
taken ts h = elim (get_completed-cases ts) [
  | inl (e, a, b) ↦ inl (e, omega (arith, a, b))
  | inr (inl (f, e)) ↦
      let was : f.task.status ≡ complete = eq_stat_eq f.task.status complete f.passes in
      let other : (if eq_stat f.task.status impossible then 1 else 0) ≡ 0 = ap one_impossible was in
      let dropped =
        count-set_drop (statustest complete) ts f.index init_task f.holds f.passes refl in
      let kept = count-set (statustest impossible) ts f.index init_task f.holds in
      inr (record {
        gcv = _;
        task = f.task;
        left = set ts f.index init_task;
        given = e;
        is_task = Found-IsTask f h refl;
        valid = get_completed-IsValid h e;
        fewer = omega (arith, dropped, kept, other);
        freed = freed_slot ts f.index f.holds (Found-IsTask f h refl);
        first =
            rw
              (
                picked-first (statustest complete) ts f.index init_task f.searched f.holds refl,
                picked-set (statustest impossible) ts f.index init_task f.holds
                    (ap (λ k. eq_stat k impossible) was) refl,
              )
              refl;
      })
  | inr (inr (f, e, none_complete)) ↦
      let was : f.task.status ≡ impossible = eq_stat_eq f.task.status impossible f.passes in
      let other : (if eq_stat f.task.status complete then 1 else 0) ≡ 0 = ap one_complete was in
      let dropped =
        count-set_drop (statustest impossible) ts f.index init_task f.holds f.passes refl in
      let kept = count-set (statustest complete) ts f.index init_task f.holds in
      inr (record {
        gcv = _;
        task = f.task;
        left = set ts f.index init_task;
        given = e;
        is_task = Found-IsTask f h refl;
        valid = get_completed-IsValid h e;
        fewer = omega (arith, dropped, kept, other);
        freed = freed_slot ts f.index f.holds (Found-IsTask f h refl);
        first =
            rw
              (
                picked-first (statustest impossible) ts f.index init_task f.searched f.holds refl,
                picked-set (statustest complete) ts f.index init_task f.holds
                    (ap (λ k. eq_stat k complete) was) refl,
                picked-nil (statustest complete) ts none_complete,
              )
              refl;
      })
]
  where
    one_impossible : TaskStat → ℕ
    one_impossible s = if eq_stat s impossible then 1 else 0

    one_complete : TaskStat → ℕ
    one_complete s = if eq_stat s complete then 1 else 0
