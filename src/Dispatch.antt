-- ===== src/Dispatch.antt =====
-- src/lib/dispatch.c: what `dispatch_getwork` does with the list that the dispatch server sent. The
-- exchange of messages before it is not modelled: its outcome `rv` is an argument.
pub mod Table
pub mod Jobs
pub mod Message
pub mod CheckIn
use freenote_probe.Base.{
  ℕ, Bool, true, false, not, Option, none, some, List, [], ◌∷◌, ◌>>=◌, if◌then◌else◌, take,
}
use freenote_probe.Base.Int.{ℤ, pos, eq_ℤ}
use freenote_probe.CString.{Bytes, codes, streq, atoi}
use freenote_probe.NvPair.{NvPair, NvList, nv_hash}
use freenote_probe.Task.Types.{Task, Tasks, Code, fail}
use freenote_probe.Task.Queue.{task_add, valid_task}
use freenote_probe.Task.Describe.{nv_to_task}

-- A received task goes into the table if it is valid; whether there was room is not looked at.
unfoldable pub add_valid : Tasks → Task → Tasks
add_valid tasks t = if valid_task t then (task_add tasks t).0 else tasks

-- The loop over the slots of the list, which passes over the pair `work_id`. `none` is a fault in
-- `nv_to_task`.
unfoldable pub add_work : ℤ → List (Option NvPair) → Tasks → Option Tasks
unfolding add_valid
add_work work_id [] tasks = some tasks
add_work work_id (none ∷ slots) tasks = add_work work_id slots tasks
add_work work_id (some p ∷ slots) tasks =
    let rest =
      nv_to_task work_id p.name p.value >>= λ t. add_work work_id slots (add_valid tasks t) in
    if streq p.name (codes "work_id") then add_work work_id slots tasks else rest

-- The end of `dispatch_getwork`, from the lookup of `work_id` on.
unfoldable pub take_work : Code → NvList → Tasks → Option (Code × Tasks)
unfolding add_work
take_work rv nvl tasks = elim (nv_hash nvl (codes "work_id")) [
  | none ↦ some (fail, tasks)
  | some wh ↦
      let work_id = atoi wh in
      let rest = add_work work_id (take nvl.size nvl.nvp) tasks >>= λ out. some (rv, out) in
      if eq_ℤ work_id (pos 0) then some (fail, tasks) else rest
]
