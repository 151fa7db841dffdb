-- ===== src/Timeval/Adjusted.antt =====
-- `timeval_adjust` of src/timeval.c against a division of the microseconds.
use mn_protozoa.Base.{
  ℕ, zero, suc, ◌+◌, ◌-◌, ◌*◌, ◌/◌, ◌%◌, ◌^◌, ◌<◌, ◌≡◌, refl, ◌∙◌, leb, arith, Bool-cases, inl, inr,
}
use mn_protozoa.Timeval.{Timeval, carry, adjust}

-- The whole time in microseconds.
abbrev pub usecs : Timeval → ℕ
usecs tv = tv.tv_sec * 1000000 + tv.tv_usec

-- Rounds of the loop that are enough take off every whole second.
carry_enough :
    (fuel : ℕ) (tv : Timeval)
    → tv.tv_usec / 1000000 < fuel
    → (usecs (carry fuel tv) ≡ usecs tv) × ((carry fuel tv).tv_usec < 1000000)
unfolding carry
carry_enough zero tv h = absurd (omega arith)
carry_enough (suc fuel) tv h = elim (Bool-cases (leb 1000000 tv.tv_usec)) [
  | inl e ↦
      let rest =
        carry_enough fuel (record { tv_sec = tv.tv_sec + 1; tv_usec = tv.tv_usec - 1000000 })
          (ground arith) in
      rw e (rest.0 ∙ ground arith, rest.1)
  | inr e ↦ rw e (refl, ground arith)
]

-- `timeval_adjust` moves a time on by exactly its milliseconds, where their product with 1000 fits
-- an unsigned int, and leaves less than a second of microseconds.
pub usecs-adjust :
    (tv : Timeval) (ms : ℕ)
    → ms * 1000 < 2 ^ 32
    → (usecs (adjust tv ms) ≡ usecs tv + ms * 1000) × ((adjust tv ms).tv_usec < 1000000)
unfolding adjust
usecs-adjust tv ms h =
    let usec = tv.tv_usec + ms * 1000 % 2 ^ 32 in
    let (same, small) =
      carry_enough (suc (usec / 1000000)) (record tv { tv_usec = usec }) (omega arith) in
    (omega (arith, same), small)
