-- ===== src/Work.antt =====
-- src/work.c: `process_tasks` and the handlers of the kinds of tasks. What the network modules do is
-- a parameter: each of their calls takes the state of the outside world and returns the next one, or
-- does not return; the clock is read from that state.
pub mod Ends
pub mod Handlers
pub mod Loop
use freenote_probe.Base.{
  ℕ, zero, suc, ◌+◌, Bool, true, false, not, Option, none, some, List, [], ◌∷◌, ◌==◌, if◌then◌else◌,
}
use freenote_probe.Base.Int.{ℤ, pos, negsuc, ◌+ℤ◌, ◌-ℤ◌, eq_ℤ}
use freenote_probe.CString.{Bytes}
use freenote_probe.Ran
use freenote_probe.Ran.{Ran}
use freenote_probe.Clock.{Timeval, time_difference}
use freenote_probe.Task.Types.{
  Task, Tasks, TaskStat, Code, ok, fail, complete, impossible, inaddr_none, cond_success,
  cond_dns_failure, cond_redirects_exceeded, cond_other_problem,
}
use freenote_probe.Task.Queue.{get_task, get_task_id, update_task, valid_task}
use freenote_probe.Task.Status.{task_set_status}

-- Where a run stops without a result: a handler table read outside its bounds, the recursion of
-- `mark_impossible` deeper than its fuel, a loop longer than its fuel, or a call of another module that
-- does not return, as it aborts or leaves the program, faults, or waits.
pub data Stop : Type 0 where
  bad_index too_deep out_of_fuel lost : Stop

pub data Run {ℓ} (A : Type ℓ) : Type ℓ where
  value : A → Run A
  stopped : Stop → Run A

infixl 5 ◌>>=◌
abbrev pub ◌>>=◌ {ℓ κ} : {A : Type ℓ} {B : Type κ} → Run A → (A → Run B) → Run B
value a >>= f = f a
stopped s >>= f = stopped s

-- A call of another module.
abbrev pub call {ℓ} : {A : Type ℓ} → Ran A → Run A
call (Ran.returns a) = value a
call Ran.aborts = stopped lost
call Ran.exits = stopped lost
call Ran.faults = stopped lost
call Ran.waits = stopped lost

-- What the handlers read of a request after `http_get`.
pub record Answer : Type 0 where
  pub status : ℤ
  pub head_len : ℤ
  pub body_len : ℤ
  pub redirect_tv : Timeval
  pub connect_tv : Timeval
  pub first_byte_tv : Timeval
  pub page_tv : Timeval

-- The calls of the network modules, over a request type `R` and the outside world `W`.
pub record Network (R W : Type 0) : Type 0 where
  pub current_time : W → Timeval
  pub url2http : Bytes → W → Ran (Option R × W)
  pub resolve_cached : R → W → Ran (ℕ × Timeval × W)
  pub http_get : R → W → Ran (Code × Answer × W)
  pub http_recurse : R → Bytes → W → Ran (ℤ × W)
  pub resolve : Bytes → W → Ran W
  pub icmp_ping : Bytes → W → Ran (Code × W)

-- The task with what an answer says of it.
abbrev pub answered : Task → Code → Answer → Task
answered task r req = record task {
  err = elim r [
    | ok ↦ cond_success
    | fail ↦ if eq_ℤ req.status (pos 302) then cond_redirects_exceeded else cond_other_problem
  ];
  http_code = req.status;
  body_size = req.head_len +ℤ req.body_len;
  redirect_time = req.redirect_tv;
  connect_time = req.connect_tv;
  first_byte_time = req.first_byte_tv;
  page_time = req.page_tv;
}

-- `task_set_status` for a handler, which does not look at its result.
unfoldable pub set_status : ℕ → Tasks → ℤ → TaskStat → Timeval → Run Tasks
set_status depth tasks id status now = elim (task_set_status depth tasks id status now) [
  | none ↦ stopped too_deep
  | some (tasks', code) ↦ value tasks'
]

module _ {R W : Type 0} (net : Network R W) (depth : ℕ) where
  -- The request has been answered: the components of the page are fetched, and the task is
  -- complete.
  unfoldable pub finish_http : R → Task → Code → Tasks → W → Run (Code × Tasks × W)
  unfolding set_status
  finish_http req task r tasks w =
      let started = net.current_time w in
      call (net.http_recurse req task.content w) >>= λ (components, w').
      (let task' = record task {
        components = components -ℤ pos 1;
        ctime = time_difference (net.current_time w') started;
      } in
        set_status depth (update_task tasks task').0 task.taskid complete (net.current_time w')
        >>= λ tasks'. value (r, tasks', w'))

  -- The result with the task as it is stored.
  abbrev pub give_up : Task → Tasks → W → Run (Code × Tasks × W)
  give_up task tasks w = value (fail, (update_task tasks task).0, w)

  -- The request with its address.
  unfoldable pub fetch : R → Task → Tasks → W → Run (Code × Tasks × W)
  unfolding finish_http
  fetch req task tasks w = call (net.resolve_cached req w) >>= λ (addr, resolve_tv, w1).
      (let task1 = record task { ip_addr = addr; resolve_time = resolve_tv } in
        if addr == inaddr_none
        then give_up (record task1 { err = cond_dns_failure }) tasks w1
        else (call (net.http_get req w1) >>= λ (r, answer, w2).
            finish_http req (answered task1 r answer) r tasks w2))

  unfoldable pub do_http_task : Task → Tasks → W → Run (Code × Tasks × W)
  unfolding fetch
  do_http_task task tasks w = call (net.url2http task.content w) >>= λ (req, w1). (elim req [
    | none ↦ give_up (record task { err = cond_other_problem }) tasks w1
    | some r ↦ fetch r task tasks w1
  ])

  -- The address that is tested is the task's own: what `resolve` finds is not stored.
  unfoldable pub do_dns_task : Task → Tasks → W → Run (Code × Tasks × W)
  unfolding set_status
  do_dns_task task tasks w = call (net.resolve task.content w) >>= λ w'.
      (if task.ip_addr == inaddr_none
        then value (ok, tasks, w')
        else (set_status depth tasks task.taskid complete (net.current_time w') >>= λ tasks'.
            value (ok, tasks', w')))

  unfoldable pub do_icmp_task : Task → Tasks → W → Run (Code × Tasks × W)
  do_icmp_task task tasks w =
      call (net.icmp_ping task.content w) >>= λ (r, w'). value (r, tasks, w')

  unfoldable pub error_task : Task → Tasks → W → Run (Code × Tasks × W)
  unfolding set_status
  error_task task tasks w =
      set_status depth tasks task.taskid impossible (net.current_time w) >>= λ tasks'.
      value (fail, tasks', w)

  -- `handle_task[type]`, as `populate_handlers` fills the array for a system with ICMP.
  unfoldable pub handle_task : ℤ → Task → Tasks → W → Run (Code × Tasks × W)
  unfolding do_http_task do_dns_task do_icmp_task error_task
  handle_task (negsuc n) task tasks w = stopped bad_index
  handle_task (pos zero) task tasks w = error_task task tasks w
  handle_task (pos (suc zero)) task tasks w = do_http_task task tasks w
  handle_task (pos (suc (suc zero))) task tasks w = do_http_task task tasks w
  handle_task (pos (suc (suc (suc zero)))) task tasks w = do_http_task task tasks w
  handle_task (pos (suc (suc (suc (suc zero))))) task tasks w = do_http_task task tasks w
  handle_task (pos (suc (suc (suc (suc (suc zero)))))) task tasks w = do_dns_task task tasks w
  handle_task (pos (suc (suc (suc (suc (suc (suc zero))))))) task tasks w =
      do_icmp_task task tasks w
  handle_task (pos (suc (suc (suc (suc (suc (suc (suc n)))))))) task tasks w = stopped bad_index

  unfoldable pub do_task : Task → Tasks → W → Run (Code × Tasks × W)
  unfolding handle_task
  do_task task tasks w =
      if valid_task task then handle_task task.type task tasks w else value (fail, tasks, w)

  -- After a task was performed: one that failed becomes impossible, and `get_task_id` looks it up.
  unfoldable pub settle : ℤ → Code → Tasks → W → Run (Tasks × W)
  unfolding set_status
  settle id r tasks w =
      elim r [ ok ↦ value tasks | fail ↦ set_status depth tasks id impossible (net.current_time w) ]
      >>= λ tasks'. (elim (get_task_id tasks' id (net.current_time w)) [
        | none ↦ value (tasks', w)
        | some (task, tasks'') ↦ value (tasks'', w)
      ])

  -- The loop of `process_tasks`, which ends when no task waits.
  unfoldable pub process_tasks : ℕ → Tasks → W → Run (Tasks × W)
  unfolding do_task settle
  process_tasks zero tasks w = stopped out_of_fuel
  process_tasks (suc fuel) tasks w = elim (get_task tasks (net.current_time w)) [
    | none ↦ value (tasks, w)
    | some (task, tasks') ↦ do_task task tasks' w >>= λ done.
        (settle task.taskid done.0 done.1 done.2 >>= λ next. process_tasks fuel next.0 next.1)
  ]
