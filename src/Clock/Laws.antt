-- ===== src/Clock/Laws.antt =====
-- Differences and sums of well-formed times, as src/p_time.c computes them.
use freenote_probe.Base.{
  ltb, ltb→lt, ◌∙◌, ◌-◌, ℕ, ◌+◌, ◌/◌, ◌*◌, ◌≤◌, ◌<◌, ◌≡◌, arith, false, Bool-cases, inl, inr,
}
use freenote_probe.Base.Int.{ℤ, pos, ◌+ℤ◌, ◌-ℤ◌}
use freenote_probe.Clock.{Timeval, later, time_difference, time_sum, time_ms}

-- A well-formed time: seconds, and microseconds from 0 below a million.
abbrev pub time_at : ℤ → ℕ → Timeval
time_at sec usec = record { tv_sec = sec; tv_usec = pos usec }

-- `a` is not after `b`.
abbrev pub NotAfter : Timeval → Timeval → Type 0
NotAfter a b = later a b ≡ false

-- The difference does not depend on the order of the two times.
pub time_difference_comm : (a b : Timeval) → time_difference a b ≡ time_difference b a
unfolding time_difference
time_difference_comm a b = ground arith

module _ (sa sb : ℤ) (ua ub : ℕ) (h : NotAfter (time_at sa ua) (time_at sb ub)) where
  time_difference_plain :
      ua ≤ ub → time_difference (time_at sa ua) (time_at sb ub) ≡ time_at (sb -ℤ sa) (ub - ua)
  time_difference_plain le = unfold time_difference in rw h (ground arith)

  time_difference_borrows :
      ub < ua
      → ua < 1000000
      → time_difference (time_at sa ua) (time_at sb ub)
        ≡ time_at (sb -ℤ sa -ℤ pos 1) (ub + 1000000 - ua)
  time_difference_borrows lt ha = unfold time_difference in rw h (ground arith)

time_sum_plain :
    (sa d : ℤ) (ua u : ℕ)
    → ua + u < 1000000
    → time_sum (time_at sa ua) (time_at d u) ≡ time_at (sa +ℤ d) (ua + u)
unfolding time_sum
time_sum_plain sa d ua u h = ground arith

time_sum_carries :
    (sa d : ℤ) (ua u : ℕ)
    → 1000000 ≤ ua + u
    → time_sum (time_at sa ua) (time_at d u) ≡ time_at (sa +ℤ d +ℤ pos 1) (ua + u - 1000000)
unfolding time_sum
time_sum_carries sa d ua u h = ground arith

add_sub : (a b : ℤ) → a +ℤ (b -ℤ a) ≡ b
add_sub a b = ground arith

add_sub_one : (a b : ℤ) → a +ℤ (b -ℤ a -ℤ pos 1) +ℤ pos 1 ≡ b
add_sub_one a b = ground arith

-- Adding the difference to the earlier of two well-formed times gives the later one.
pub time_sum-time_difference :
    (sa sb : ℤ) (ua ub : ℕ)
    → ua < 1000000
    → ub < 1000000
    → NotAfter (time_at sa ua) (time_at sb ub)
    → time_sum (time_at sa ua) (time_difference (time_at sa ua) (time_at sb ub)) ≡ time_at sb ub
time_sum-time_difference sa sb ua ub ha hb h = elim (Bool-cases (ltb ub ua)) [
  | inl lt ↦
      let u : ua + (ub + 1000000 - ua) - 1000000 ≡ ub = omega (arith, ltb→lt ub ua lt) in
      rw (time_difference_borrows sa sb ua ub h (ltb→lt ub ua lt) ha)
        (time_sum_carries sa _ ua (ub + 1000000 - ua) (omega arith) ∙ rw (u, add_sub_one sa sb))
  | inr ge ↦
      let le : ua ≤ ub = ground (arith, ge) in
      let u : ua + (ub - ua) ≡ ub = omega arith in
      rw (time_difference_plain sa sb ua ub h le)
        (time_sum_plain sa _ ua (ub - ua) (omega arith) ∙ rw (u, add_sub sa sb))
]

-- The milliseconds of a well-formed time with no negative seconds count its microseconds, rounded
-- down.
pub time_ms_bounds :
    (sec usec : ℕ)
    → usec < 1000000
    → (ms : ℕ) × (time_ms (record { tv_sec = pos sec; tv_usec = pos usec }) ≡ pos ms)
      × (ms * 1000 ≤ sec * 1000000 + usec)
      × (sec * 1000000 + usec < ms * 1000 + 1000)
unfolding time_ms
time_ms_bounds sec usec h = (usec / 1000 + sec * 1000, ground arith, omega arith, omega arith)
