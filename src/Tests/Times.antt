-- ===== src/Tests/Times.antt =====
-- src/p_time.c on concrete times.
use freenote_probe.Base.{◌≡◌, refl}
use freenote_probe.Base.Int.{pos}
use freenote_probe.Clock.{Timeval, time_difference}
use freenote_probe.Clock.Laws.{time_at}

abbrev early : Timeval
early = time_at (pos 3) 900000

abbrev late : Timeval
late = time_at (pos 5) 100000

difference-borrows : time_difference early late ≡ time_at (pos 1) 200000
unfolding time_difference
difference-borrows = refl
