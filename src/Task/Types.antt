-- ===== src/Task/Types.antt =====
-- src/lib/task.h, and the table functions of src/lib/task.c: tasks, the tests that the searches
-- run, the search and the initialisation. The table is a list of `max_tasks` slots.
use freenote_probe.Base.{
  ℕ, suc, Bool, true, false, Option, none, some, List, [], ◌∷◌, if◌then◌else◌, ◌>>=◌, replicate,
}
use freenote_probe.Base.Int.{ℤ, pos, eq_ℤ}
use freenote_probe.CString.{Bytes}
use freenote_probe.Clock.{Timeval}

abbrev pub valid_task_magic : ℕ
valid_task_magic = 0x9E3779B9

-- ~VALID_TASK_MAGIC, in 32 bits.
abbrev pub null_magic : ℕ
null_magic = 0x61C88646

abbrev pub max_tasks : ℕ
max_tasks = 15

-- The size of the `data` field.
abbrev pub data_size : ℕ
data_size = 1024

abbrev pub inaddr_none : ℕ
inaddr_none = 0xFFFFFFFF

pub data TaskStat : Type 0 where
  invalid todo running complete reported impossible : TaskStat

pub data ErrorCond : Type 0 where
  cond_undefined cond_success cond_dns_failure cond_http_timeout : ErrorCond
  cond_redirects_exceeded cond_other_problem : ErrorCond

-- The type of a task is the number that the server sends: `task_type` names 0 to 7 of them.
abbrev pub null_task : ℤ
null_task = pos 0

abbrev pub max_task_types : ℤ
max_task_types = pos 7

pub record Task : Type 0 where
  pub magic : ℕ
  pub status : TaskStat
  pub type : ℤ
  pub err : ErrorCond
  pub taskid : ℤ
  pub workid : ℤ
  pub parent : ℤ
  pub content : Bytes
  pub body_size : ℤ
  pub http_code : ℤ
  pub components : ℤ
  pub ip_addr : ℕ
  pub resolve_time : Timeval
  pub redirect_time : Timeval
  pub connect_time : Timeval
  pub first_byte_time : Timeval
  pub ctime : Timeval
  pub page_time : Timeval
  pub total_time : Timeval
  pub time_started : Timeval

abbrev pub Tasks : Type 0
Tasks = List Task

pub data Code : Type 0 where
  ok fail : Code

abbrev pub zero_time : Timeval
zero_time = record { tv_sec = pos 0; tv_usec = pos 0 }

-- What `init_task` writes.
abbrev pub init_task : Task
init_task = record {
  magic = null_magic;
  status = invalid;
  type = null_task;
  err = cond_undefined;
  taskid = pos 0;
  workid = pos 0;
  parent = pos 0;
  content = [];
  body_size = pos 0;
  http_code = pos 0;
  components = pos 0;
  ip_addr = inaddr_none;
  resolve_time = zero_time;
  redirect_time = zero_time;
  connect_time = zero_time;
  first_byte_time = zero_time;
  ctime = zero_time;
  page_time = zero_time;
  total_time = zero_time;
  time_started = zero_time;
}

-- Equality of the enumeration's values.
abbrev pub eq_stat : TaskStat → TaskStat → Bool
eq_stat invalid invalid = true
eq_stat todo todo = true
eq_stat running running = true
eq_stat complete complete = true
eq_stat reported reported = true
eq_stat impossible impossible = true
eq_stat _ _ = false

-- The tests; each is the C function's result other than -1.
abbrev pub statustest : TaskStat → Task → Bool
statustest status t = eq_stat t.status status

abbrev pub typetest : ℤ → Task → Bool
typetest type t = eq_ℤ t.type type

abbrev pub idtest : ℤ → Task → Bool
idtest id t = eq_ℤ t.taskid id

abbrev pub paternity_test : ℤ → Task → Bool
paternity_test parent t = eq_ℤ t.parent parent

-- The first slot that passes, or `none` for -1.
unfoldable pub tasks_itest : (Task → Bool) → Tasks → Option ℕ
tasks_itest test [] = none
tasks_itest test (t ∷ ts) = if test t then some 0 else (tasks_itest test ts >>= λ i. some (suc i))

-- `tasks_test_do` with no test, over a function that changes its own slot alone.
unfoldable pub tasks_each_do : (Task → Task) → Tasks → Tasks
tasks_each_do run [] = []
tasks_each_do run (t ∷ ts) = run t ∷ tasks_each_do run ts

unfoldable pub tasks_init : Tasks → Tasks
unfolding tasks_each_do
tasks_init tasks = tasks_each_do (λ _. init_task) tasks

unfoldable pub tasks_clear : Tasks → Tasks
unfolding tasks_init
tasks_clear tasks = tasks_init tasks

-- A static array starts as zero bytes; `tasks_init` is called before it is used.
abbrev pub empty_table : Tasks
empty_table = replicate max_tasks init_task
