-- ===== src/Ccwriter/Slots.antt =====
-- What the writer of src/ccwriter.c does to the deferred packets.
use mn_protozoa.Base.{
  ℕ, ◌+◌, ◌≤◌, ◌≡◌, ◌≢◌, inl, inr, refl, ap, ◌∙◌, Bool, true, false, ltb, Bool-cases, arith, Option,
  none, some, if◌then◌else◌,
}
use mn_protozoa.Base.Int.{negsuc}
use mn_protozoa.Timeval
use mn_protozoa.Timeval.{Timeval}
use mn_protozoa.Timer.{Timers}
use mn_protozoa.Ccpacket.Packet
use mn_protozoa.Ccpacket.Packet.{Ccpacket, is_expired}
use mn_protozoa.Ccpacket.Queries.{is_stop}
use mn_protozoa.Defer.Queue.{Tree}
use mn_protozoa.Defer.Engine.{
  DeferredPkt, Defer, update, take_out, put_in, defer_rearm, defer_packet,
}
use mn_protozoa.Defer.Memory.{update_self, update_other, update_field}
use mn_protozoa.Ccwriter.Writer.{Ccwriter, deferring, set_n_cnt, set_sent, check_deferred}

module _ {T S : Type 0} (tree : Tree T) (timers : Timers S) where
  pkts-defer_rearm :
      (now : Timeval) (dfr : Defer T S) → (defer_rearm tree timers now dfr).1.pkts ≡ dfr.pkts
  unfolding defer_rearm
  pkts-defer_rearm now dfr = ground arith

  pkts_armed :
      (later : Timeval) (out : Bool × Defer T S)
      → (if out.0 then defer_rearm tree timers later out.1 else (negsuc 0, out.1)).1.pkts
        ≡ out.1.pkts
  pkts_armed later (true, dfr) = pkts-defer_rearm later dfr
  pkts_armed later (false, dfr) = refl

  -- The packets after `defer_packet`, whether or not the tree could take the packet.
  pub pkts-defer_packet :
      (now later : Timeval) (dfr : Defer T S) (i : ℕ) (p : Ccpacket) (ms : ℕ)
      → (defer_packet tree timers now later dfr i (some p) ms).1.pkts
        ≡ update dfr.pkts i (record (dfr.pkts i) { tv = Timeval.adjust now ms; packet = p })
  unfolding defer_packet put_in take_out Packet.copy
  pkts-defer_packet now later dfr i p ms =
      pkts_armed later (put_in tree timers now (take_out tree timers dfr i) i p ms) ∙ ground arith

  pub pkts-defer_packet-none :
      (now later : Timeval) (dfr : Defer T S) (i : ℕ) (ms : ℕ)
      → (defer_packet tree timers now later dfr i none ms).1.pkts ≡ dfr.pkts
  unfolding defer_packet take_out
  pkts-defer_packet-none now later dfr i ms = pkts-defer_rearm later _

  -- The counts and the times of sending stay as they are, and so does every other packet.
  module _ (now later : Timeval) (dfr : Defer T S) (i : ℕ) (ms : ℕ) where
    abbrev pub after : Option Ccpacket → ℕ → DeferredPkt
    after p = (defer_packet tree timers now later dfr i p ms).1.pkts

    pub kept :
        (p : Option Ccpacket) (j : ℕ)
        → ((after p j).n_cnt ≡ (dfr.pkts j).n_cnt)
          × ((after p j).sent ≡ (dfr.pkts j).sent)
          × ((j ≢ i) → after p j ≡ dfr.pkts j)
    kept none j =
        let e = pkts-defer_packet-none now later dfr i ms in
        (ap (λ f. (f j).n_cnt) e, ap (λ f. (f j).sent) e, λ ne. ap (λ f. f j) e)
    kept (some p) j =
        let e = pkts-defer_packet now later dfr i p ms in
        let dpkt : DeferredPkt = record (dfr.pkts i) { tv = Timeval.adjust now ms; packet = p } in
        (
          ap (λ f. (f j).n_cnt) e ∙ update_field dfr.pkts i dpkt (λ d. d.n_cnt) j refl,
          ap (λ f. (f j).sent) e ∙ update_field dfr.pkts i dpkt (λ d. d.sent) j refl,
          λ ne. ap (λ f. f j) e ∙ update_other dfr.pkts i dpkt j ne,
        )

  module _ (clock : ℕ → Timeval) (wtr : Ccwriter) (i : ℕ) where
    -- `ccwriter_check_deferred` changes only the packet at `i`, keeps its count at 1 at most, and
    -- notes the time of sending.
    abbrev pub Checked : Defer T S → Defer T S → Type 0
    Checked dfr dfr' =
        ((j : ℕ) → j ≢ i → dfr'.pkts j ≡ dfr.pkts j)
        × ((dfr.pkts i).n_cnt ≤ 1 → (dfr'.pkts i).n_cnt ≤ 1)
        × ((dfr'.pkts i).sent ≡ clock 1)

    set_sent-Checked : (dfr : Defer T S) → Checked dfr (set_sent tree timers clock i (clock 1) dfr)
    set_sent-Checked dfr =
        let dpkt : DeferredPkt = record (dfr.pkts i) { sent = clock 1 } in
        (
          λ j ne. update_other dfr.pkts i dpkt j ne,
          λ h. rw (update_self dfr.pkts i dpkt) h,
          ap (λ d. d.sent) (update_self dfr.pkts i dpkt),
        )

    set_n_cnt-Checked :
        (n : ℕ) (dfr mid : Defer T S)
        → n ≤ 1
        → Checked dfr mid
        → Checked dfr (set_n_cnt tree timers clock i n mid)
    set_n_cnt-Checked n dfr mid small (others, count, sent) =
        let dpkt : DeferredPkt = record (mid.pkts i) { n_cnt = n } in
        (
          λ j ne. update_other mid.pkts i dpkt j ne ∙ others j ne,
          λ h. rw (update_self mid.pkts i dpkt) small,
          ap (λ d. d.sent) (update_self mid.pkts i dpkt) ∙ sent,
        )

    pub deferring-Checked :
        (p : Option Ccpacket) (ms : ℕ) (dfr mid : Defer T S)
        → Checked dfr mid
        → Checked dfr (deferring tree timers clock mid i p ms)
    deferring-Checked p ms dfr mid (others, count, sent) = (
      λ j ne. (kept (clock 3) (clock 4) mid i ms p j).2 ne ∙ others j ne,
      λ h. rw ((kept (clock 3) (clock 4) mid i ms p i).0) (count h),
      (kept (clock 3) (clock 4) mid i ms p i).1 ∙ sent,
    )

    pub check_deferred-Checked :
        (p : Ccpacket) (dfr : Defer T S)
        → Checked dfr (check_deferred tree timers clock wtr p i dfr)
    unfolding check_deferred
    check_deferred-Checked p dfr =
        let timed = set_sent tree timers clock i (clock 1) dfr in
        let h = set_sent-Checked dfr in
        elim (Bool-cases (is_stop p)) [
          | inl stop ↦ elim (Bool-cases (ltb (timed.pkts i).n_cnt 1)) [
            | inl few ↦
                let count = (kept (clock 3) (clock 4) timed i wtr.gaptime (some p) i).0 in
                rw (stop, few)
                  (set_n_cnt-Checked
                    (((deferring tree timers clock timed i (some p) wtr.gaptime).pkts i).n_cnt + 1)
                    dfr (deferring tree timers clock timed i (some p) wtr.gaptime)
                    (rw count (ground (arith, few)))
                    (deferring-Checked (some p) wtr.gaptime dfr timed h))
            | inr often ↦
                rw (stop, often)
                  (deferring-Checked none 0 dfr (set_n_cnt tree timers clock i 0 timed)
                    (set_n_cnt-Checked 0 dfr timed (omega arith) h))
          ]
          | inr moving ↦ elim (Bool-cases (is_expired (clock 2) p wtr.timeout)) [
            | inl expired ↦
                rw (moving, expired) (deferring-Checked (some p) wtr.timeout dfr timed h)
            | inr not_yet ↦ rw (moving, not_yet) (deferring-Checked none 0 dfr timed h)
          ]
        ]
