-- ===== src/Timeval/Tests.antt =====
-- The theorems on src/timeval.c at concrete times.
use mn_protozoa.Base.{◌≡◌, arith}
use mn_protozoa.Base.Int.{pos}
use mn_protozoa.Timeval.{Timeval, adjust, from_now}
use mn_protozoa.Timeval.Elapsed.{from_now-adjust}

abbrev noon : Timeval
noon = record { tv_sec = 43200; tv_usec = 999999 }

abbrev later : Timeval
later = record { tv_sec = 43201; tv_usec = 0 }

from_now-adjust_example : from_now noon (adjust noon 2500) ≡ pos 2500
from_now-adjust_example = from_now-adjust noon 2500 (omega arith) (omega arith)
