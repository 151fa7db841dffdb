-- ===== src/Ccwriter/Safety.antt =====
-- The writers of src/ccwriter.c: which deferred packets they change.
use mn_protozoa.Base.{
  ℕ, zero, suc, ◌+◌, ◌≤◌, ◌<◌, ◌≡◌, ◌≢◌, ◌⊎◌, inl, inr, refl, ap, ◌∙◌, true, ltb, Bool-cases, arith,
  some,
}
use mn_protozoa.Base.Int.{ℤ, pos, negsuc}
use mn_protozoa.Timeval.{Timeval}
use mn_protozoa.Timer.{Timers}
use mn_protozoa.Ccpacket.Packet.{Ccpacket}
use mn_protozoa.Defer.Queue.{Tree}
use mn_protozoa.Defer.Engine.{Defer}
use mn_protozoa.Defer.Memory.{equal_or_not}
use mn_protozoa.Ccwriter.Writer.{
  Ccwriter, World, Outcome, too_soon, check_deferred, do_write_to, do_write,
}
use mn_protozoa.Ccwriter.Slots.{check_deferred-Checked, kept}

-- Every packet has been deferred once at most since it was sent.
abbrev pub IsCounted : {T S : Type 0} → Defer T S → Type 0
IsCounted dfr = (i : ℕ) → (dfr.pkts i).n_cnt ≤ 1

module _ {T S : Type 0} (tree : Tree T) (timers : Timers S) where
  module _ (clock : ℕ → Timeval) (wtr : Ccwriter) where
    -- What sending to the packet at `i` changes.
    abbrev Written : ℕ → World T S → Outcome T S → Type 0
    Written i w out =
        ((j : ℕ) → j ≢ i → out.world.defer.pkts j ≡ w.defer.pkts j)
        × ((w.defer.pkts i).n_cnt ≤ 1 → (out.world.defer.pkts i).n_cnt ≤ 1)

    do_write_to-Written :
        (i : ℕ) (p : Ccpacket) (w : World T S)
        → Written i w (do_write_to tree timers clock wtr i p w)
    unfolding do_write_to
    do_write_to-Written i p w =
        let written = wtr.do_write w.txbuf p in
        elim (Bool-cases (too_soon (clock 0) wtr (w.defer.pkts i))) [
          | inl soon ↦
              let same = kept tree timers (clock 3) (clock 4) w.defer i wtr.gaptime (some p) in
              rw soon ((λ j ne. (same j).2 ne), λ h. rw ((same i).0) h)
          | inr late ↦ elim (Bool-cases (ltb 0 written.count)) [
            | inl sent ↦
                let (others, count, _) =
                  check_deferred-Checked tree timers clock wtr i written.packet w.defer in
                rw (late, sent) (others, count)
            | inr silent ↦ rw (late, silent) ((λ j ne. refl), λ h. h)
          ]
        ]

    -- A packet is handed to the protocol for a receiver from 1 to `n_rcv`, or not at all.
    abbrev Addressed : Ccpacket → World T S → Outcome T S → Type 0
    Addressed p w out =
        ((n : ℕ) × (p.receiver ≡ pos (suc n))
          × (n < wtr.n_rcv)
          × (out ≡ do_write_to tree timers clock wtr (wtr.deferred + n) p w))
        ⊎ (out ≡ record { count = 0; packet = p; world = w })

    do_write-Addressed :
        (p : Ccpacket) (w : World T S) → Addressed p w (do_write tree timers clock wtr p w)
    unfolding do_write
    do_write-Addressed p w = by_receiver p.receiver refl
      where
        by_receiver : (r : ℤ) → p.receiver ≡ r → Addressed p w (do_write tree timers clock wtr p w)
        by_receiver (pos zero) e = inr (rw e refl)
        by_receiver (negsuc n) e = inr (rw e refl)
        by_receiver (pos (suc n)) e = elim (Bool-cases (ltb n wtr.n_rcv)) [
          | inl fits ↦ inl (n, e, ground (arith, fits), rw (e, fits) refl)
          | inr over ↦ inr (rw (e, over) refl)
        ]

    -- Whatever the receiver of the packet, a writer changes none of the deferred packets but those
    -- that were allocated for it: a pointer before or behind its `n_rcv` packets is not written to.
    pub do_write_inside :
        (p : Ccpacket) (w : World T S) (j : ℕ)
        → (j < wtr.deferred) ⊎ (wtr.deferred + wtr.n_rcv ≤ j)
        → (do_write tree timers clock wtr p w).world.defer.pkts j ≡ w.defer.pkts j
    do_write_inside p w j outside = elim (do_write-Addressed p w) [
      | inl (n, e, fits, sent) ↦
          ap (λ o. o.world.defer.pkts j) sent
          ∙ (do_write_to-Written (wtr.deferred + n) p w).0 j (apart n fits outside)
      | inr dropped ↦ ap (λ o. o.world.defer.pkts j) dropped
    ]
      where
        apart :
            (n : ℕ)
            → n < wtr.n_rcv
            → (j < wtr.deferred) ⊎ (wtr.deferred + wtr.n_rcv ≤ j)
            → j ≢ wtr.deferred + n
        apart n fits (inl before) e = omega (arith, before, e)
        apart n fits (inr behind) e = omega (arith, fits, behind, e)

    -- Sending a packet keeps the invariant that each deferred packet has a count of 0 or 1.
    pub do_write-IsCounted :
        (p : Ccpacket) (w : World T S)
        → IsCounted w.defer
        → IsCounted (do_write tree timers clock wtr p w).world.defer
    do_write-IsCounted p w h j = elim (do_write-Addressed p w) [
      | inl (n, e, fits, sent) ↦
          let (others, count) = do_write_to-Written (wtr.deferred + n) p w in
          elim (equal_or_not j (wtr.deferred + n)) [
            | inl same ↦ rw (sent, same) (count (h (wtr.deferred + n)))
            | inr ne ↦ rw (sent, others j ne) (h j)
          ]
      | inr dropped ↦ rw dropped (h j)
    ]

  -- A packet with a receiver that the writer serves, and the packets that it sends.
  pub do_write-eq :
      (clock : ℕ → Timeval) (wtr : Ccwriter) (p : Ccpacket) (w : World T S) (n : ℕ)
      → p.receiver ≡ pos (suc n)
      → n < wtr.n_rcv
      → do_write tree timers clock wtr p w
        ≡ do_write_to tree timers clock wtr (wtr.deferred + n) p w
  unfolding do_write
  do_write-eq clock wtr p w n e fits =
      let small : ltb n wtr.n_rcv ≡ true = ground (arith, fits) in rw (e, small) refl

  pub served :
      (clock : ℕ → Timeval) (wtr : Ccwriter) (p : Ccpacket) (w : World T S) (n : ℕ)
      → p.receiver ≡ pos (suc n)
      → (do_write tree timers clock wtr p w).count ≢ 0
      → n < wtr.n_rcv
  unfolding do_write
  served clock wtr p w n e = elim (Bool-cases (ltb n wtr.n_rcv)) [
    | inl fits ↦ λ h. ground (arith, fits)
    | inr over ↦ rw (e, over) (λ h. absurd (h refl))
  ]

  -- What a packet that was sent leaves behind.
  pub went_out :
      (clock : ℕ → Timeval) (wtr : Ccwriter) (i : ℕ) (p : Ccpacket) (w : World T S)
      → (do_write_to tree timers clock wtr i p w).count ≢ 0
      → let written = wtr.do_write w.txbuf p in
        let out = do_write_to tree timers clock wtr i p w in
        (out.packet ≡ written.packet)
        × (out.world.defer ≡ check_deferred tree timers clock wtr written.packet i w.defer)
  unfolding do_write_to
  went_out clock wtr i p w =
      let written = wtr.do_write w.txbuf p in
      elim (Bool-cases (too_soon (clock 0) wtr (w.defer.pkts i))) [
        | inl soon ↦ rw soon (λ h. absurd (h refl))
        | inr late ↦ elim (Bool-cases (ltb 0 written.count)) [
          | inl sent ↦ rw (late, sent) (λ h. (refl, refl))
          | inr silent ↦ rw (late, silent) (λ h. absurd (h (ground (arith, silent))))
        ]
      ]
