-- ===== src/Tests/Working.antt =====
-- src/work.c over a concrete network: every host resolves, every page is there, and a call takes a
-- second.
use freenote_probe.Base.{ℕ, zero, suc, ◌+◌, inl, inr, refl, some, ◌∷◌, All, replicate, arith}
use freenote_probe.Base.Int.{pos}
use freenote_probe.CString.{Bytes, codes}
use freenote_probe.Task.Types.{Task, Tasks, ok, todo, init_task, valid_task_magic, zero_time}
use freenote_probe.Task.Slots.{IsTask, SlotOk, IsValid}
use freenote_probe.Ran
use freenote_probe.Work.{Network, Answer, process_tasks}
use freenote_probe.Work.Ends.{Ends}
use freenote_probe.Work.Loop.{Done, process_tasks-Done}

abbrev answer : Answer
answer = record {
  status = pos 200;
  head_len = pos 100;
  body_len = pos 900;
  redirect_tv = zero_time;
  connect_tv = zero_time;
  first_byte_tv = zero_time;
  page_tv = zero_time;
}

-- The outside world is a count of seconds, and a request is its URL.
abbrev web : Network Bytes ℕ
web = record {
  current_time = λ w. record { tv_sec = pos w; tv_usec = pos 0 };
  url2http = λ url w. Ran.returns (some url, w + 1);
  resolve_cached = λ req w. Ran.returns (7, zero_time, w + 1);
  http_get = λ req w. Ran.returns (ok, answer, w + 1);
  http_recurse = λ req url w. Ran.returns (pos 1, w + 1);
  resolve = λ host w. Ran.returns (w + 1);
  icmp_ping = λ host w. Ran.returns (ok, w + 1);
}

abbrev page_task : Task
page_task = record init_task {
  magic = valid_task_magic;
  status = todo;
  type = pos 2;
  taskid = pos 8;
  content = codes "http://h/";
}

abbrev host_task : Task
host_task = record page_task { type = pos 5; content = codes "h" }

abbrev ping_task : Task
ping_task = record page_task { type = pos 6; content = codes "h" }

abbrev odd_task : Task
odd_task = record page_task { type = pos 9 }

abbrev table : Tasks
table = page_task ∷ replicate 14 init_task

page_task-IsTask : IsTask page_task
page_task-IsTask = record {
  magic_ok = refl;
  status_ok = λ e. cc;
  type_ok = λ e. ground (arith, e);
  taskid_ok = λ e. ground (arith, e);
}

empty-slots : (n : ℕ) → All SlotOk (replicate n init_task)
empty-slots zero = tt
empty-slots (suc n) = (inl refl, empty-slots n)

table-IsValid : IsValid table
table-IsValid = record { size = refl; slots = (inr page_task-IsTask, empty-slots 14) }

process_tasks-Done_example : Ends (Done web 3) (process_tasks web 3 2 table 0)
process_tasks-Done_example = process_tasks-Done web 3 2 table 0 table-IsValid (omega arith)
