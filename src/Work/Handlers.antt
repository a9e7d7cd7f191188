-- ===== src/Work/Handlers.antt =====
-- The handlers of src/work.c on a well-formed table, and the number of tasks that wait.
use freenote_probe.Base.{
  ℕ, zero, suc, ◌≤◌, true, false, Option, none, some, ◌==◌, ◌≡◌, ◌≢◌, refl, arith, set, Bool-cases,
  inl, inr, ◌⊎◌,
}
use freenote_probe.Base.Int.{ℤ, pos, negsuc, ◌-ℤ◌}
use freenote_probe.Clock.{time_difference}
use freenote_probe.Task.Types.{
  Task, Tasks, Code, ok, fail, todo, complete, impossible, inaddr_none, eq_stat, idtest,
  cond_dns_failure, cond_other_problem,
}
use freenote_probe.Task.Queue.{update_task, get_task_id, valid_task}
use freenote_probe.Task.Table.{Found}
use freenote_probe.Task.Cases.{resumed, started, get_task_id-cases}
use freenote_probe.Task.Slots.{IsValid, get_task_id-IsValid}
use freenote_probe.Task.Counts.{waiting}
use freenote_probe.Work.{
  value, Network, answered, set_status, finish_http, give_up, fetch, do_http_task, do_dns_task,
  do_icmp_task, error_task, handle_task, do_task, settle,
}
use freenote_probe.Work.Ends.{
  Ends, Ends->>=, Ends-call, Kept, Kept-set, update_task-Kept, completes, gives_up, set_status-Ends,
}

module _ {R W : Type 0} (net : Network R W) (depth : ℕ) where
  -- The result of a handler, with at most `n` waiting tasks.
  abbrev pub Handled : ℕ → Code × Tasks × W → Type 0
  Handled n r = Kept n r.1

  finish_http-Ends :
      (req : R) (task : Task) (r : Code) (ts : Tasks) (w : W)
      → IsValid ts
      → task.taskid ≢ pos 0
      → Ends (Handled (waiting ts)) (finish_http net depth req task r ts w)
  unfolding finish_http
  finish_http-Ends req task r ts w h nz =
      Ends-call (Handled (waiting ts)) (net.http_recurse req task.content w) _ (λ page.
        (let task' = record task {
          components = page.0 -ℤ pos 1;
          ctime = time_difference (net.current_time page.1) (net.current_time w);
        } in
          let (kept, fewer) = update_task-Kept ts task' h nz in
          let mid = (update_task ts task').0 in
          Ends->>= (Kept (waiting mid)) (Handled (waiting ts))
            (set_status depth mid task.taskid complete (net.current_time page.1)) _
            (set_status-Ends depth mid task.taskid complete _ completes kept nz)
            (λ ts' k. (k.0, omega (arith, k.1, fewer)))))

  fetch-Ends :
      (req : R) (task : Task) (ts : Tasks) (w : W)
      → IsValid ts
      → task.taskid ≢ pos 0
      → Ends (Handled (waiting ts)) (fetch net depth req task ts w)
  unfolding fetch
  fetch-Ends req task ts w h nz =
      Ends-call (Handled (waiting ts)) (net.resolve_cached req w) _ (λ found.
        (let task1 = record task { ip_addr = found.0; resolve_time = found.1 } in
          elim (Bool-cases (found.0 == inaddr_none)) [
            | inl e ↦ rw e (update_task-Kept ts (record task1 { err = cond_dns_failure }) h nz)
            | inr e ↦ rw e (
                Ends-call (Handled (waiting ts)) (net.http_get req found.2) _
                  (λ got. finish_http-Ends req (answered task1 got.0 got.1) got.0 ts got.2 h nz))
          ]))

  do_http_task-Ends :
      (task : Task) (ts : Tasks) (w : W)
      → IsValid ts
      → task.taskid ≢ pos 0
      → Ends (Handled (waiting ts)) (do_http_task net depth task ts w)
  unfolding do_http_task
  do_http_task-Ends task ts w h nz =
      Ends-call (Handled (waiting ts)) (net.url2http task.content w) _
        (λ (req, w1). by_request req w1)
    where
      by_request :
          (req : Option R) (w1 : W)
          → Ends (Handled (waiting ts)) (elim req [
            | none ↦ give_up net depth (record task { err = cond_other_problem }) ts w1
            | some r ↦ fetch net depth r task ts w1
          ])
      by_request none w1 = update_task-Kept ts (record task { err = cond_other_problem }) h nz
      by_request (some r) w1 = fetch-Ends r task ts w1 h nz

  do_dns_task-Ends :
      (task : Task) (ts : Tasks) (w : W)
      → IsValid ts
      → task.taskid ≢ pos 0
      → Ends (Handled (waiting ts)) (do_dns_task net depth task ts w)
  unfolding do_dns_task
  do_dns_task-Ends task ts w h nz =
      Ends-call (Handled (waiting ts)) (net.resolve task.content w) _ (λ w'.
        elim (Bool-cases (task.ip_addr == inaddr_none)) [
          | inl e ↦ rw e (h, omega arith)
          | inr e ↦ rw e (
              Ends->>= (Kept (waiting ts)) (Handled (waiting ts))
                (set_status depth ts task.taskid complete (net.current_time w')) _
                (set_status-Ends depth ts task.taskid complete _ completes h nz) (λ ts' k. k))
        ])

  do_icmp_task-Ends :
      (task : Task) (ts : Tasks) (w : W)
      → IsValid ts
      → Ends (Handled (waiting ts)) (do_icmp_task net depth task ts w)
  unfolding do_icmp_task
  do_icmp_task-Ends task ts w h =
      Ends-call (Handled (waiting ts)) (net.icmp_ping task.content w) _ (λ r. (h, omega arith))

  error_task-Ends :
      (task : Task) (ts : Tasks) (w : W)
      → IsValid ts
      → task.taskid ≢ pos 0
      → Ends (Handled (waiting ts)) (error_task net depth task ts w)
  unfolding error_task
  error_task-Ends task ts w h nz =
      Ends->>= (Kept (waiting ts)) (Handled (waiting ts))
        (set_status depth ts task.taskid impossible (net.current_time w)) _
        (set_status-Ends depth ts task.taskid impossible _ gives_up h nz) (λ ts' k. k)

  handle_task-Ends :
      (type : ℤ) (task : Task) (ts : Tasks) (w : W)
      → IsValid ts
      → task.taskid ≢ pos 0
      → Ends (Handled (waiting ts)) (handle_task net depth type task ts w)
  unfolding handle_task
  handle_task-Ends (negsuc n) task ts w h nz = tt
  handle_task-Ends (pos zero) task ts w h nz = error_task-Ends task ts w h nz
  handle_task-Ends (pos (suc zero)) task ts w h nz = do_http_task-Ends task ts w h nz
  handle_task-Ends (pos (suc (suc zero))) task ts w h nz = do_http_task-Ends task ts w h nz
  handle_task-Ends (pos (suc (suc (suc zero)))) task ts w h nz = do_http_task-Ends task ts w h nz
  handle_task-Ends (pos (suc (suc (suc (suc zero))))) task ts w h nz =
      do_http_task-Ends task ts w h nz
  handle_task-Ends (pos (suc (suc (suc (suc (suc zero)))))) task ts w h nz =
      do_dns_task-Ends task ts w h nz
  handle_task-Ends (pos (suc (suc (suc (suc (suc (suc zero))))))) task ts w h nz =
      do_icmp_task-Ends task ts w h
  handle_task-Ends (pos (suc (suc (suc (suc (suc (suc (suc n)))))))) task ts w h nz = tt

  -- Whatever the network does, performing a task keeps the table well-formed, and no more tasks wait
  -- afterwards.
  pub do_task-Ends :
      (task : Task) (ts : Tasks) (w : W)
      → IsValid ts
      → task.taskid ≢ pos 0
      → Ends (Handled (waiting ts)) (do_task net depth task ts w)
  unfolding do_task
  do_task-Ends task ts w h nz = elim (Bool-cases (valid_task task)) [
    | inl e ↦ rw e (handle_task-Ends task.type task ts w h nz)
    | inr e ↦ rw e (h, omega arith)
  ]

  looked_up :
      (id : ℤ) (ts : Tasks) (w : W) (n : ℕ)
      → Kept n ts
      → id ≢ pos 0
      → Ends
          (λ (r : Tasks × W). Kept n r.0)
          (elim (get_task_id ts id (net.current_time w)) [
            | none ↦ value (ts, w)
            | some (task, ts') ↦ value (ts', w)
          ])
  looked_up id ts w n h nz = elim (get_task_id-cases ts id (net.current_time w)) [
    | inl (e, _) ↦ rw e h
    | inr (f, e) ↦ rw e (
      get_task_id-IsValid id (net.current_time w) h.0 nz e,
      omega (arith, h.1, fewer f (Bool-cases (eq_stat f.task.status todo))),
    )
  ]
    where
      fewer :
          (f : Found (idtest id) ts)
          → (eq_stat f.task.status todo ≡ true) ⊎ (eq_stat f.task.status todo ≡ false)
          → waiting (set ts f.index (resumed (net.current_time w) f.task)) ≤ waiting ts
      fewer f (inl q) =
          rw q (Kept-set ts f.index (started (net.current_time w) f.task) f.holds (inl refl))
      fewer f (inr q) = rw q (Kept-set ts f.index f.task f.holds (inr refl))

  pub settle-Ends :
      (id : ℤ) (r : Code) (ts : Tasks) (w : W)
      → IsValid ts
      → id ≢ pos 0
      → Ends (λ (o : Tasks × W). Kept (waiting ts) o.0) (settle net depth id r ts w)
  unfolding settle
  settle-Ends id ok ts w h nz = looked_up id ts w (waiting ts) (h, omega arith) nz
  settle-Ends id fail ts w h nz =
      Ends->>= (Kept (waiting ts)) (λ (o : Tasks × W). Kept (waiting ts) o.0)
        (set_status depth ts id impossible (net.current_time w)) _
        (set_status-Ends depth ts id impossible _ gives_up h nz)
        (λ ts' k. looked_up id ts' w (waiting ts) k nz)
