-- ===== src/Collection.antt =====
-- src/lib/collection.c: how `collection_report` gathers the finished tasks in a list. Sending the
-- list is not modelled.
pub mod Reported
pub mod Taken
pub mod Gather
use freenote_probe.Base.{
  ℕ, zero, suc, ◌+◌, ◌-◌, Option, none, some, List, ◌>>=◌, if◌then◌else◌, ltb, length,
}
use freenote_probe.Base.Int.{ℤ}
use freenote_probe.CString.{Bytes, codes}
use freenote_probe.CString.Decimal.{decimal}
use freenote_probe.NvPair.{NvList, nv_list_init, nv_list_insert}
use freenote_probe.Task.Types.{Task, Tasks, max_tasks}
use freenote_probe.Task.Queue.{get_completed}
use freenote_probe.Task.Text.{task_to_s}

abbrev pub int_to_s_size : ℕ
int_to_s_size = 10

-- A text printed into a buffer of `size` bytes, with its terminator: `none` is a write outside of it.
abbrev pub printed : ℕ → Bytes → Option Bytes
printed size text = if ltb (length text) size then some text else none

-- `wid` holds the work id of the first task that was gathered; before that it is not set.
abbrev pub note_work : Option Bytes → Task → Option (Option Bytes)
note_work none t = printed int_to_s_size (decimal t.workid) >>= λ wid. some (some wid)
note_work (some wid) t = some (some wid)

-- The loop: each finished task leaves the table, and its text is stored under its id. `none` is a
-- fault, or the end of the fuel. A task without a text leaves the buffer `buf` unset, a fault.
unfoldable pub gather :
    (ℕ → Bytes) → ℕ → NvList → Option Bytes → Tasks → Option (NvList × Option Bytes × Tasks)
gather inet_ntoa zero nvl wid tasks = none
gather inet_ntoa (suc fuel) nvl wid tasks = elim (get_completed tasks) [
  | none ↦ some (nvl, wid, tasks)
  | some (gcv, t, tasks') ↦ task_to_s inet_ntoa t >>= λ text.
      (printed 256 text >>= λ buf.
      (note_work wid t >>= λ wid'.
      (printed int_to_s_size (decimal t.taskid) >>= λ tid.
      (nv_list_insert nvl tid buf 0 >>= λ r. gather inet_ntoa fuel r.0 wid' tasks'))))
]

-- The list to report, and the table without the tasks in it. The table has 15 slots, so 16 rounds
-- are enough. With no finished task the text of `wid` is not set, a fault.
unfoldable pub report_list : (ℕ → Bytes) → Tasks → Option (NvList × Tasks)
unfolding gather
report_list inet_ntoa tasks =
    gather inet_ntoa (max_tasks + 1) (nv_list_init (max_tasks + 1)) none tasks >>= λ g.
    (g.1 >>= λ wid. (nv_list_insert g.0 (codes "work_id") wid 0 >>= λ r. some (r.0, g.2)))
