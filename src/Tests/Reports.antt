-- ===== src/Tests/Reports.antt =====
-- src/lib/collection.c and `task_to_s` on a table with one finished task.
use freenote_probe.Base.{
  ℕ, zero, suc, ◌+◌, ◌≡◌, inl, inr, refl, some, List, [], ◌∷◌, ◌++◌, All, replicate, arith,
}
use freenote_probe.Base.Int.{pos}
use freenote_probe.CString.{Bytes, codes}
use freenote_probe.CString.Decimal.{digits, decimal}
use freenote_probe.Clock.{time_ms}
use freenote_probe.NvPair.{NvPair, NvList}
use freenote_probe.NvPair.Slots.{Holds}
use freenote_probe.Task.Types.{Task, Tasks, complete, init_task, valid_task_magic, cond_success}
use freenote_probe.Task.Slots.{IsTask, SlotOk, IsValid}
use freenote_probe.Task.Counts.{free}
use freenote_probe.Task.Text.{print_numbers, task_to_s}
use freenote_probe.Collection.{report_list}
use freenote_probe.Collection.Reported.{picked, reported}
use freenote_probe.Collection.Taken.{ended}
use freenote_probe.Collection.Gather.{FitsBuffers, Pairs, report_list-Holds}

abbrev address : ℕ → Bytes
address a = codes "10.0.0.1"

abbrev page_task : Task
page_task = record init_task {
  magic = valid_task_magic;
  status = complete;
  type = pos 2;
  err = cond_success;
  taskid = pos 8;
  http_code = pos 200;
}

abbrev table : Tasks
table = page_task ∷ replicate 14 init_task

page_task-IsTask : IsTask page_task
page_task-IsTask = record {
  magic_ok = refl;
  status_ok = λ e. cc;
  type_ok = λ e. ground (arith, e);
  taskid_ok = λ e. ground (arith, e);
}

slots_empty : (n : ℕ) → All SlotOk (replicate n init_task)
slots_empty zero = tt
slots_empty (suc n) = (inl refl, slots_empty n)

table-IsValid : IsValid table
table-IsValid = record { size = refl; slots = (inr page_task-IsTask, slots_empty 14) }

page-printed : task_to_s address page_task ≡ some (codes "2,1,200,10.0.0.1,0,0,0,0,0,0,0,0,0")
unfolding task_to_s print_numbers decimal digits time_ms
page-printed = refl

page_task-FitsBuffers : FitsBuffers address page_task
unfolding task_to_s print_numbers decimal digits time_ms
page_task-FitsBuffers = (
  omega arith,
  omega arith,
  (λ text e.
      let same : codes "2,1,200,10.0.0.1,0,0,0,0,0,0,0,0,0" ≡ text = cc in
      rw (← same) (omega arith)),
)

report_list-Holds_example :
    (nvl : NvList) × (out : Tasks) × (ps : List NvPair) × (report_list address table
      ≡ some (nvl, out))
    × Holds nvl (ps ++ record { name = codes "work_id"; value = decimal page_task.workid } ∷ [])
    × Pairs address (reported table) ps
    × IsValid out
    × (ended out ≡ 0)
    × (free out ≡ free table + ended table)
unfolding picked
report_list-Holds_example =
    report_list-Holds address table page_task [] table-IsValid refl (page_task-FitsBuffers, tt)
