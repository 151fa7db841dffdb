-- ===== src/Timeval/Elapsed.antt =====
-- The time between two times, and their order, of src/timeval.c.
use mn_protozoa.Base.{ℕ, ◌*◌, ◌^◌, ◌<◌, ◌≡◌, ◌↔◌, arith}
use mn_protozoa.Base.Int.{pos}
use mn_protozoa.Timeval.{Timeval, less, equal, greater, adjust, from_now, compare}
use mn_protozoa.Timeval.Adjusted.{usecs, usecs-adjust}

-- On times with less than a second of microseconds, `timeval_compare` is the order of the whole
-- times.
pub compare_iff :
    (s t : Timeval)
    → s.tv_usec < 1000000
    → t.tv_usec < 1000000
    → ((compare s t ≡ less) ↔ (usecs s < usecs t))
      × ((compare s t ≡ equal) ↔ (usecs s ≡ usecs t))
      × ((compare s t ≡ greater) ↔ (usecs t < usecs s))
unfolding compare
compare_iff s t hs ht = ground arith

-- Where the clock reads less than a second of microseconds, and for less than 2 ^ 32 / 1000
-- milliseconds, so that `ms * 1000` does not wrap: a time set some milliseconds from now is that many
-- milliseconds away.
pub from_now-adjust :
    (now : Timeval) (ms : ℕ)
    → now.tv_usec < 1000000
    → ms * 1000 < 2 ^ 32
    → from_now now (adjust now ms) ≡ pos ms
unfolding from_now
from_now-adjust now ms hn h = ground (arith, usecs-adjust now ms h)
