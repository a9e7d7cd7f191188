-- ===== src/Main.antt =====
-- src/main.c: the loop around the parts of the probe, `mainloop` and `mainiter`.
pub mod Limits
use freenote_probe.Base.{ℕ, zero, suc, ◌+◌, Bool, true, false, not, ◌&&◌, if◌then◌else◌}
use freenote_probe.Base.Int.{ℤ, pos, negsuc, eq_ℤ, ltb_ℤ}
use freenote_probe.Ran.{Ran, returns, exits, waits, ◌>>=◌}

-- The calls of src/lib/dispatch.c, src/work.c, src/lib/collection.c and src/net-modules/dns.c, and
-- everything that they change.
pub record Parts : Type 1 where
  pub State : Type 0
  pub get_jobs : State → Ran (ℤ × State)
  pub process_tasks : State → Ran (ℤ × State)
  pub send_results : State → Ran (ℤ × State)
  pub dns_cache_flush : State → State

abbrev pub is_last : ℤ → ℕ → Bool
is_last limit_runs jobs_completed =
    not (eq_ℤ limit_runs (pos 0)) && not (ltb_ℤ (pos jobs_completed) limit_runs)

abbrev pub counted : ℤ → ℕ → ℕ
counted r jobs_completed = if eq_ℤ r (pos 0) then jobs_completed + 1 else jobs_completed

module _ (parts : Parts) where
  open parts use {State, get_jobs, process_tasks, send_results, dns_cache_flush}

  -- A call whose failure ends the program.
  unfoldable pub do_or_die : Ran (ℤ × State) → Ran State
  do_or_die call = call >>= λ (r, s). if eq_ℤ r (negsuc 0) then exits else returns s

  -- `*retval` and the state afterwards; what it returns is 0 wherever it returns. A failure to get
  -- jobs is followed by a sleep.
  unfoldable pub mainiter : State → Ran (ℤ × State)
  mainiter s = get_jobs s >>= λ (r, s1).
      if eq_ℤ r (negsuc 0)
      then returns (negsuc 0, s1)
      else (do_or_die (process_tasks s1) >>= λ s2.
          do_or_die (send_results s2) >>= λ s3. returns (pos 0, dns_cache_flush s3))

  -- What `mainloop` returns, `jobs_completed`, and the state.
  abbrev pub Ended : Type 0
  Ended = ℤ × ℕ × State

  -- The loop with `rounds` iterations at most; where it goes on behind them it waits.
  unfoldable pub mainloop : ℕ → ℤ → ℕ → State → Ran Ended
  mainloop zero limit_runs jobs_completed s = waits
  mainloop (suc rounds) limit_runs jobs_completed s = mainiter s >>= λ (r, s1).
      if is_last limit_runs (counted r jobs_completed)
      then returns (if eq_ℤ r (pos 0) then pos 0 else negsuc 0, counted r jobs_completed, s1)
      else mainloop rounds limit_runs (counted r jobs_completed) s1

-- The order of the parts that can fail: the base directory, and the keys.
unfoldable pub subsystems_init : ℤ → ℤ → ℤ
subsystems_init fm_init_base dsa_init =
    if ltb_ℤ fm_init_base (pos 0)
    then negsuc 0
    else if ltb_ℤ dsa_init (pos 0)
    then negsuc 0
    else pos 0
