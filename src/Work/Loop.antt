-- ===== src/Work/Loop.antt =====
-- The loop of `process_tasks` in src/work.c, and the tasks for which a handler does not do its work.
use freenote_probe.Base.{ℕ, zero, suc, ◌<◌, true, ◌≡◌, refl, arith, set, inl, inr, ==_iff}
use freenote_probe.Base.Int.{pos}
use freenote_probe.Task.Types.{Task, Tasks, Code, ok, todo, statustest, inaddr_none}
use freenote_probe.Task.Queue.{valid_task}
use freenote_probe.Task.Table.{count-set_drop}
use freenote_probe.Task.Cases.{started, get_task-cases}
use freenote_probe.Task.Slots.{IsValid, Found-IsTask, get_task-IsValid}
use freenote_probe.Task.Counts.{waiting}
use freenote_probe.Work.{
  bad_index, value, stopped, call, ◌>>=◌, Network, do_dns_task, do_icmp_task, handle_task, do_task,
  settle, process_tasks,
}
use freenote_probe.Work.Ends.{Ends, Ends->>=, Kept}
use freenote_probe.Work.Handlers.{do_task-Ends, settle-Ends}

module _ {R W : Type 0} (net : Network R W) (depth : ℕ) where
  -- A well-formed table in which no task waits.
  abbrev pub Done : Tasks × W → Type 0
  Done r = IsValid r.0 × (waiting r.0 ≡ 0)

  -- Whatever the network does, the loop of `process_tasks` ends from a well-formed table within one
  -- round more than tasks wait, unless a handler leaves the array of handlers, the recursion of
  -- `mark_impossible` is too deep, or one of the calls of `url2http`, `resolve_cached`, `http_get`,
  -- `http_recurse`, `resolve` and `icmp_ping` does not return; where the loop ends the table is
  -- well-formed, and no task waits.
  pub process_tasks-Done :
      (fuel : ℕ) (ts : Tasks) (w : W)
      → IsValid ts
      → waiting ts < fuel
      → Ends Done (process_tasks net depth fuel ts w)
  unfolding process_tasks
  process_tasks-Done zero ts w h lt = absurd (omega arith)
  process_tasks-Done (suc fuel) ts w h lt = elim (get_task-cases ts (net.current_time w)) [
    | inl (e, nothing) ↦ rw (e, process_tasks) (h, nothing)
    | inr (f, e) ↦
        let task = started (net.current_time w) f.task in
        let ts' = set ts f.index task in
        let nz = (Found-IsTask f h refl).taskid_ok in
        let valid = get_task-IsValid (net.current_time w) h e in
        let fewer = count-set_drop (statustest todo) ts f.index task f.holds f.passes refl in
        rw (e, process_tasks)
          (Ends->>= (λ (r : Code × Tasks × W). Kept (waiting ts') r.1) Done
            (do_task net depth task ts' w) _ (do_task-Ends net depth task ts' w valid nz)
            (λ done kept.
              Ends->>= (λ (r : Tasks × W). Kept (waiting done.1) r.0) Done
                (settle net depth task.taskid done.0 done.1 done.2) _
                (settle-Ends net depth task.taskid done.0 done.1 done.2 kept.0 nz)
                (λ next kept'.
                  process_tasks-Done fuel next.0 next.1 kept'.0
                    (omega (arith, kept.1, kept'.1, fewer, lt)))))
  ]

  -- A valid DNS task without an address, as every received task is, is not completed: performing it
  -- changes nothing in the table, whatever the resolver finds.
  pub do_task_dns :
      (task : Task) (ts : Tasks) (w : W)
      → valid_task task ≡ true
      → task.type ≡ pos 5
      → task.ip_addr ≡ inaddr_none
      → do_task net depth task ts w
        ≡ (call (net.resolve task.content w) >>= λ w'. value (ok, ts, w'))
  do_task_dns task ts w v five none_yet =
      let unset = (==_iff task.ip_addr inaddr_none).1 none_yet in
      unfold do_task handle_task do_dns_task in rw (v, five, unset)

  -- An ICMP task is performed, but its status does not change: the table is left as it is.
  pub do_task_icmp :
      (task : Task) (ts : Tasks) (w : W)
      → valid_task task ≡ true
      → task.type ≡ pos 6
      → do_task net depth task ts w
        ≡ (call (net.icmp_ping task.content w) >>= λ (r, w'). value (r, ts, w'))
  do_task_icmp task ts w v six = unfold do_task handle_task do_icmp_task in rw (v, six)

  -- A task with a type from 7 on is valid, and its handler is read behind the array of handlers.
  pub do_task_bad_index :
      (task : Task) (ts : Tasks) (w : W) (n : ℕ)
      → valid_task task ≡ true
      → task.type ≡ pos (suc (suc (suc (suc (suc (suc (suc n)))))))
      → do_task net depth task ts w ≡ stopped bad_index
  do_task_bad_index task ts w n v big = unfold do_task handle_task in rw (v, big)
