-- ===== src/Ccreader/Loop.antt =====
-- The loop of a protocol reader ends, and leaves a valid buffer, if each of its rounds consumes
-- something from a valid buffer.
use mn_protozoa.Base.{ℕ, zero, suc, ◌+◌, ◌≤◌, ◌<◌, ◌≡◌, ◌∙◌, ◌⊎◌, inl, inr, leb, arith, Bool-cases}
use mn_protozoa.Base.Run.{Run, done}
use mn_protozoa.Buffer.Defs.{available}
use mn_protozoa.Buffer.Inv.{IsValid}
use mn_protozoa.Ccreader.Reading.{Decode, more, finished, Reading, read_loop, while_available}

module _ {S : Type 0} (size : ℕ) (decode : Reading S → Run (Decode × Reading S)) where
  -- One round of the loop, on each of its branches.
  pub loop_short :
      (fuel : ℕ) (r : Reading S)
      → available r.rxbuf < size
      → read_loop size decode (suc fuel) r ≡ done r
  unfolding read_loop
  loop_short fuel r h = ground arith

  pub loop_finished :
      (fuel : ℕ) (r r' : Reading S)
      → size ≤ available r.rxbuf
      → decode r ≡ done (finished, r')
      → read_loop size decode (suc fuel) r ≡ done r'
  unfolding read_loop
  loop_finished fuel r r' h e = ground arith

  pub loop_more :
      (fuel : ℕ) (r r' : Reading S)
      → size ≤ available r.rxbuf
      → decode r ≡ done (more, r')
      → read_loop size decode (suc fuel) r ≡ read_loop size decode fuel r'
  unfolding read_loop
  loop_more fuel r r' h e = ground arith

  -- What a round does to a valid buffer with enough bytes: it goes on with a valid buffer that has
  -- fewer, or it stops the loop with `Stopped`.
  abbrev pub Progress : (Reading S → Type 0) → Reading S → Type 0
  Progress Stopped r =
      (r' : Reading S) × ((decode r ≡ done (more, r'))
          × IsValid r'.rxbuf
          × (available r'.rxbuf < available r.rxbuf)
        ⊎ (decode r ≡ done (finished, r')) × IsValid r'.rxbuf × Stopped r')

  module _ (Stopped : Reading S → Type 0)
      (progress : (r : Reading S)
        → IsValid r.rxbuf
        → size ≤ available r.rxbuf
        → Progress Stopped r) where
    -- How the loop ends: a valid buffer, with less than a message, or stopped by a round.
    abbrev pub Ends : Run (Reading S) → Type 0
    Ends out =
        (r' : Reading S) × (out ≡ done r')
        × IsValid r'.rxbuf
        × ((available r'.rxbuf < size) ⊎ Stopped r')

    after_round :
        (fuel : ℕ) (r : Reading S)
        → size ≤ available r.rxbuf
        → ((r' : Reading S)
            → IsValid r'.rxbuf
            → available r'.rxbuf < available r.rxbuf
            → Ends (read_loop size decode fuel r'))
        → Progress Stopped r
        → Ends (read_loop size decode (suc fuel) r)
    after_round fuel r h rest (r', inl (e, v', less)) =
        let (r'', ends, v'', why) = rest r' v' less in
        (r'', loop_more fuel r r' h e ∙ ends, v'', why)
    after_round fuel r h rest (r', inr (e, v', why)) =
        (r', loop_finished fuel r r' h e, v', inr why)

    read_loop_total :
        (fuel : ℕ) (r : Reading S)
        → IsValid r.rxbuf
        → available r.rxbuf < fuel
        → Ends (read_loop size decode fuel r)
    read_loop_total zero r v h = absurd (omega arith)
    read_loop_total (suc fuel) r v h = elim (Bool-cases (leb size (available r.rxbuf))) [
      | inl e ↦
          after_round fuel r (ground arith) (λ r' v' less. read_loop_total fuel r' v' (omega arith))
            (progress r v (ground arith))
      | inr e ↦ (r, loop_short fuel r (ground arith), v, inl (ground arith))
    ]

    -- The loop returns on every valid buffer.
    pub while_available_total :
        (r : Reading S) → IsValid r.rxbuf → Ends (while_available size decode r)
    unfolding while_available
    while_available_total r v = read_loop_total (available r.rxbuf + 1) r v (omega arith)
