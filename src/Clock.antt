-- ===== src/Clock.antt =====
-- src/p_time.c: differences, sums and milliseconds of `struct timeval` values. The fields are
-- integers of unbounded size; the time of day itself is an argument wherever the code reads it.
pub mod Laws
use freenote_probe.Base.{ℕ, ◌+◌, ◌*◌, ◌/◌, ◌<◌, Bool, ◌&&◌, ◌||◌, if◌then◌else◌, ◌≡◌}
use freenote_probe.Base.Int.{ℤ, pos, negsuc, pos_part, neg_part, sub_ℕ, ◌+ℤ◌, ◌-ℤ◌, ltb_ℤ, eq_ℤ}

pub record Timeval : Type 0 where
  pub tv_sec : ℤ
  pub tv_usec : ℤ

abbrev pub later : Timeval → Timeval → Bool
later first second =
    ltb_ℤ second.tv_sec first.tv_sec
    || eq_ℤ first.tv_sec second.tv_sec && ltb_ℤ second.tv_usec first.tv_usec

-- A negative count of microseconds borrows a second.
pub borrow : Timeval → Timeval
borrow result =
    if ltb_ℤ result.tv_usec (pos 0)
    then record { tv_sec = result.tv_sec -ℤ pos 1; tv_usec = result.tv_usec +ℤ pos 1000000 }
    else result

unfoldable pub time_difference : Timeval → Timeval → Timeval
unfolding borrow
time_difference first second = borrow (
    if later first second
    then record {
      tv_sec = first.tv_sec -ℤ second.tv_sec;
      tv_usec = first.tv_usec -ℤ second.tv_usec;
    }
    else record {
      tv_sec = second.tv_sec -ℤ first.tv_sec;
      tv_usec = second.tv_usec -ℤ first.tv_usec;
    })

carry : Timeval → Timeval
carry result =
    if ltb_ℤ result.tv_usec (pos 1000000)
    then result
    else record { tv_sec = result.tv_sec +ℤ pos 1; tv_usec = result.tv_usec -ℤ pos 1000000 }

unfoldable pub time_sum : Timeval → Timeval → Timeval
unfolding carry
time_sum first second =
    carry
      (record { tv_sec = first.tv_sec +ℤ second.tv_sec; tv_usec = first.tv_usec +ℤ second.tv_usec })

-- C division by a positive constant, which rounds towards zero.
divide_ℤ : ℤ → ℕ → ℤ
divide_ℤ (pos n) d = pos (n / d)
divide_ℤ (negsuc n) d = sub_ℕ 0 ((n + 1) / d)

-- The value has the C type `int`; it is kept as it is where that would overflow.
unfoldable pub time_ms : Timeval → ℤ
unfolding divide_ℤ
time_ms t = divide_ℤ t.tv_usec 1000 +ℤ sub_ℕ (pos_part t.tv_sec * 1000) (neg_part t.tv_sec * 1000)
