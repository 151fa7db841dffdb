-- ===== src/Timer.antt =====
-- The timer of src/timer.c that the deferred packets arm. The system calls are parameters: what they
-- do to the state of the system, and what they return.
use mn_protozoa.Base.{◌*◌, ◌/◌, ◌%◌, ◌==◌, if◌then◌else◌}
use mn_protozoa.Base.Int.{ℤ, pos, ltb_ℤ, u32}
use mn_protozoa.Timeval.{Timeval}

-- `read` and `write` of one byte on the pipe, repeated on EINTR, and `setitimer` with an interval
-- of 0.
pub record Timers (S : Type 0) : Type 0 where
  pub read_pipe : S → ℤ × S
  pub write_pipe : S → ℤ × S
  pub setitimer : Timeval → S → ℤ × S

module _ {S : Type 0} (timers : Timers S) where
  unfoldable pub timer_read : S → ℤ × S
  timer_read s = timers.read_pipe s

  unfoldable pub timer_write : S → ℤ × S
  timer_write s = timers.write_pipe s

  -- `timer_arm`; its argument is unsigned.
  unfoldable pub timer_arm : ℤ → S → ℤ × S
  unfolding timer_write
  timer_arm ms s =
      let msec = u32 ms in
      let value : Timeval = record { tv_sec = msec / 1000; tv_usec = msec % 1000 * 1000 } in
      let written = timer_write s in
      if msec == 0
      then (if ltb_ℤ written.0 (pos 0) then written else timers.setitimer value written.1)
      else timers.setitimer value s

  unfoldable pub timer_disarm : S → ℤ × S
  timer_disarm s = timers.setitimer (record { tv_sec = 0; tv_usec = 0 }) s
