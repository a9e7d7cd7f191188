-- ===== src/Main/Limits.antt =====
-- src/main.c: when `mainloop` ends.
use freenote_probe.Base.{
  ℕ, zero, suc, ◌+◌, ◌<◌, true, false, ◌⊎◌, ◌≡◌, refl, arith, if◌then◌else◌, Bool-cases, inl, inr,
}
use freenote_probe.Base.Int.{ℤ, pos, negsuc, eq_ℤ}
use freenote_probe.Ran.{returns, Always, Always->>=, Always-then, Always-if}
use freenote_probe.Main.{Parts, do_or_die, mainiter, is_last, counted, Ended, mainloop}

module _ (parts : Parts) where
  open parts use {State, get_jobs, process_tasks, send_results, dns_cache_flush}

  -- `mainiter` says 0 or -1.
  abbrev ZeroOrMinus : ℤ × State → Type 0
  ZeroOrMinus (r, s) = (r ≡ pos 0) ⊎ (r ≡ negsuc 0)

  mainiter-ZeroOrMinus : (s : State) → Always ZeroOrMinus (mainiter parts s)
  unfolding mainiter
  mainiter-ZeroOrMinus s = Always-then ZeroOrMinus (get_jobs s) _ λ (r, s1).
      Always-if ZeroOrMinus (eq_ℤ r (negsuc 0)) _ _ (inr refl) (
        Always-then ZeroOrMinus (do_or_die parts (process_tasks s1)) _
          λ s2. Always-then ZeroOrMinus (do_or_die parts (send_results s2)) _ λ s3. inl refl)

  -- The limit is reached, with a success in the last iteration.
  abbrev pub AtLimit : ℕ → Ended parts → Type 0
  AtLimit limit (ret, jobs, s) = (ret ≡ pos 0) × (jobs ≡ limit)

  -- What follows an iteration; `more` is about the rest of the loop.
  after_iteration :
      (rounds limit jobs : ℕ) (r : ℤ) (s : State)
      → jobs < limit
      → ((done : ℕ)
          → done < limit
          → Always (AtLimit limit) (mainloop parts rounds (pos limit) done s))
      → (r ≡ pos 0) ⊎ (r ≡ negsuc 0)
      → Always (AtLimit limit) (
          if is_last (pos limit) (counted r jobs)
          then returns (if eq_ℤ r (pos 0) then pos 0 else negsuc 0, counted r jobs, s)
          else mainloop parts rounds (pos limit) (counted r jobs) s)
  after_iteration rounds limit jobs r s h more (inl success) =
      rw success (elim (Bool-cases (is_last (pos limit) (jobs + 1))) [
        | inl t ↦ let reached : jobs + 1 ≡ limit = ground (arith, t) in rw t (refl, reached)
        | inr t ↦ let below : jobs + 1 < limit = ground (arith, t) in rw t (more (jobs + 1) below)
      ])
  after_iteration rounds limit jobs r s h more (inr failure) =
      let on : is_last (pos limit) jobs ≡ false = ground arith in rw failure (rw on (more jobs h))

  -- Whatever the parts do: with a limit of runs, `mainloop` returns nothing but 0, and only after
  -- exactly as many successful iterations as the limit says.
  pub mainloop-AtLimit :
      (rounds limit jobs : ℕ) (s : State)
      → jobs < limit
      → Always (AtLimit limit) (mainloop parts rounds (pos limit) jobs s)
  unfolding mainloop
  mainloop-AtLimit zero limit jobs s h = tt
  mainloop-AtLimit (suc rounds) limit jobs s h =
      Always->>= ZeroOrMinus (AtLimit limit) (mainiter parts s) _ (mainiter-ZeroOrMinus s)
        λ (r, s1) result.
          after_iteration rounds limit jobs r s1 h
            (λ done below. mainloop-AtLimit rounds limit done s1 below) result

  -- Each part succeeds in every state.
  pub record Succeeds (jobs work send : State → State) : Type 0 where
    pub jobs_given : (s : State) → get_jobs s ≡ returns (pos 0, jobs s)
    pub work_done : (s : State) → process_tasks s ≡ returns (pos 0, work s)
    pub sent : (s : State) → send_results s ≡ returns (pos 0, send s)

  module _ (jobs work send : State → State) (ok : Succeeds jobs work send) where
    abbrev pub iteration : State → State
    iteration s = dns_cache_flush (send (work (jobs s)))

    abbrev pub iterate : ℕ → State → State
    iterate zero s = s
    iterate (suc n) s = iterate n (iteration s)

    mainiter-Succeeds : (s : State) → mainiter parts s ≡ returns (pos 0, iteration s)
    unfolding mainiter do_or_die
    mainiter-Succeeds s =
        rw (ok.jobs_given s) (rw (ok.work_done (jobs s)) (rw (ok.sent (work (jobs s))) refl))

    -- With a limit of runs and no failure, `mainloop` ends after as many iterations as are left below
    -- the limit, and each of them gets jobs, does them, sends the results and empties the cache of
    -- addresses, in this order.
    pub mainloop-Succeeds :
        (n rounds jobs_completed : ℕ) (s : State)
        → n < rounds
        → mainloop parts rounds (pos (jobs_completed + suc n)) jobs_completed s
          ≡ returns (pos 0, jobs_completed + suc n, iterate (suc n) s)
    unfolding mainloop
    mainloop-Succeeds n zero done s h = absurd (omega arith)
    mainloop-Succeeds zero (suc rounds) done s h =
        let last : is_last (pos (done + 1)) (done + 1) ≡ true = ground arith in
        rw (mainiter-Succeeds s) (rw last refl)
    mainloop-Succeeds (suc n) (suc rounds) done s h =
        let on : is_last (pos (done + suc (suc n))) (done + 1) ≡ false = ground arith in
        let same : done + suc (suc n) ≡ done + 1 + suc n = omega arith in
        rw (mainiter-Succeeds s)
          (rw on (rw same (mainloop-Succeeds n rounds (done + 1) (iteration s) (omega arith))))
