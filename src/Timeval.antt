-- ===== src/Timeval.antt =====
-- src/timeval.c. `gettimeofday` is a parameter: the current time is the argument `now` of whatever
-- reads the clock. It gives seconds since the epoch, so both fields are natural numbers.
pub mod Adjusted
pub mod Elapsed
mod Tests
use mn_protozoa.Base.{ℕ, zero, suc, ◌+◌, ◌-◌, ◌*◌, ◌/◌, ◌%◌, ◌^◌, ltb, leb, if◌then◌else◌}
use mn_protozoa.Base.Int.{ℤ, pos, sub_ℕ, quot, ◌+ℤ◌, ◌*ℤ◌, ltb_ℤ}

pub record Timeval : Type 0 where
  pub tv_sec : ℕ
  pub tv_usec : ℕ

-- `cl_compare_t` of src/clump.h
pub data Compare : Type 0 where
  less equal greater : Compare

-- The loop of `timeval_adjust`, on fuel.
unfoldable pub carry : ℕ → Timeval → Timeval
carry zero tv = tv
carry (suc fuel) tv =
    let rest = carry fuel (record { tv_sec = tv.tv_sec + 1; tv_usec = tv.tv_usec - 1000000 }) in
    if leb 1000000 tv.tv_usec then rest else tv

-- `ms * 1000` is unsigned and wraps at 2 ^ 32. Each round takes a second off, so the seconds held
-- in `tv_usec` are rounds enough.
unfoldable pub adjust : Timeval → ℕ → Timeval
unfolding carry
adjust tv ms =
    let usec = tv.tv_usec + ms * 1000 % 2 ^ 32 in
    carry (suc (usec / 1000000)) (record tv { tv_usec = usec })

-- `time_elapsed`
unfoldable pub elapsed : Timeval → Timeval → ℤ
elapsed start end' =
    sub_ℕ end'.tv_sec start.tv_sec *ℤ pos 1000 +ℤ quot (sub_ℕ end'.tv_usec start.tv_usec) 1000

-- `time_from_now`
unfoldable pub from_now : (now : Timeval) → Timeval → ℤ
unfolding elapsed
from_now now tv = let ms = elapsed now tv in if ltb_ℤ ms (pos 0) then pos 0 else ms

-- `time_since`
unfoldable pub since : (now : Timeval) → Timeval → ℤ
unfolding elapsed
since now tv = let ms = elapsed tv now in if ltb_ℤ ms (pos 0) then pos 0 else ms

-- `timeval_compare`
unfoldable pub compare : Timeval → Timeval → Compare
compare t0 t1 =
    if ltb t0.tv_sec t1.tv_sec
    then less
    else if ltb t1.tv_sec t0.tv_sec
    then greater
    else if ltb t0.tv_usec t1.tv_usec
    then less
    else if ltb t1.tv_usec t0.tv_usec
    then greater
    else equal
