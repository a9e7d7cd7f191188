-- ===== src/Dispatch/Jobs.antt =====
-- src/lib/dispatch.c: lists of well-formed jobs, and the table that they are added to.
use freenote_probe.Base.{
  ℕ, zero, suc, ◌+◌, ◌≤◌, ◌<◌, true, false, some, List, [], ◌∷◌, ◌≡◌, ◌≢◌, refl, ◌∙◌, arith, lt→ltb,
  length, inl, inr,
}
use freenote_probe.Base.Int.{ℤ, pos}
use freenote_probe.CString.{Bytes, codes, streq, atoi}
use freenote_probe.CString.Search.{Lacks}
use freenote_probe.NvPair.{NvPair}
use freenote_probe.NvPair.Slots.{filled}
use freenote_probe.Task.Types.{Tasks, null_task, data_size}
use freenote_probe.Task.Queue.{valid_task}
use freenote_probe.Task.Table.{eq_ℤ_ne}
use freenote_probe.Task.Describe.{nv_to_task}
use freenote_probe.Task.Slots.{IsValid, task_add-IsValid}
use freenote_probe.Task.Counts.{free, waiting, task_add_lem}
use freenote_probe.Task.Received.{
  description, described, nv_to_task-description, valid_task-described,
}
use freenote_probe.Dispatch.{add_valid, add_work}

-- A pair that stands for a task: a name that is a number other than 0, and a description with a type
-- other than 0 and a URL that fits the task.
pub record IsJob (p : NvPair) : Type 0 where
  pub t : ℕ
  pub type : Bytes
  pub a : ℕ
  pub action : Bytes
  pub url : Bytes
  pub value_is : p.value ≡ description t type a action url
  pub type_ok : Lacks b',' type
  pub action_ok : Lacks b',' action
  pub name_ok : streq p.name (codes "work_id") ≡ false
  pub id_ok : atoi p.name ≢ pos 0
  pub kind_ok : atoi p.value ≢ null_task
  pub fits : length url < data_size

abbrev pub AllJobs : List NvPair → Type 0
AllJobs [] = Unit
AllJobs (p ∷ ps) = IsJob p × AllJobs ps

job_task :
    (work_id : ℤ) (p : NvPair) (j : IsJob p)
    → nv_to_task work_id p.name p.value ≡ some (described work_id p.name p.value j.url)
job_task work_id p j = rw (j.value_is) (
    nv_to_task-description work_id p.name j.t j.type j.a j.action j.url j.id_ok j.type_ok
      j.action_ok
    ∙ rw (lt→ltb _ _ j.fits) refl)

-- The table after `n` tasks were added to `ts`.
pub record Added (n : ℕ) (ts out : Tasks) : Type 0 where
  pub valid : IsValid out
  pub taken : free out + n ≡ free ts
  pub queued : waiting out ≡ waiting ts + n

add_valid-Added :
    (work_id : ℤ) (p : NvPair) (j : IsJob p) (ts : Tasks)
    → IsValid ts
    → 0 < free ts
    → Added 1 ts (add_valid ts (described work_id p.name p.value j.url))
unfolding add_valid
add_valid-Added work_id p j ts h room =
    let t = described work_id p.name p.value j.url in
    let is_valid : valid_task t ≡ true =
      valid_task-described work_id p.name p.value j.url
      ∙ rw (eq_ℤ_ne (atoi p.value) null_task j.kind_ok) refl in
    let still = task_add-IsValid t h j.kind_ok j.id_ok in
    rw is_valid (elim (task_add_lem ts t h refl j.kind_ok) [
      | inl (full, _) ↦ absurd (omega (arith, full))
      | inr (_, taken, queued) ↦ record { valid = still; taken = taken; queued = queued }
    ])

pub add_work-AllJobs :
    (work_id : ℤ) (ps : List NvPair) (empty : ℕ) (ts : Tasks)
    → AllJobs ps
    → IsValid ts
    → length ps ≤ free ts
    → (out : Tasks) × (add_work work_id (filled ps empty) ts ≡ some out) × Added (length ps) ts out
unfolding add_work
add_work-AllJobs work_id [] empty ts jobs h room =
    (ts, unused empty, record { valid = h; taken = omega arith; queued = omega arith })
  where
    unused : (n : ℕ) → add_work work_id (filled [] n) ts ≡ some ts
    unused zero = refl
    unused (suc n) = unused n
add_work-AllJobs work_id (p ∷ ps) empty ts (j, jobs) h room =
    let mid = add_valid ts (described work_id p.name p.value j.url) in
    let one = add_valid-Added work_id p j ts h (omega arith) in
    let (out, added, more) =
      add_work-AllJobs work_id ps empty mid jobs one.valid (omega (arith, one.taken)) in
    (
      out,
      rw (j.name_ok, job_task work_id p j) added,
      record {
        valid = more.valid;
        taken = omega (arith, more.taken, one.taken);
        queued = omega (arith, more.queued, one.queued);
      },
    )
