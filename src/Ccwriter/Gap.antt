-- ===== src/Ccwriter/Gap.antt =====
-- The gap that the writers of src/ccwriter.c keep between two packets to a receiver.
use mn_protozoa.Base.{ℕ, suc, ◌+◌, ◌≡◌, ◌≢◌, refl, ap, ◌∙◌, true, arith, none}
use mn_protozoa.Base.Int.{pos, ◌<ℤ◌}
use mn_protozoa.Timeval
use mn_protozoa.Timeval.{Timeval, Compare}
use mn_protozoa.Timer.{Timers}
use mn_protozoa.Ccpacket.Packet.{Ccpacket}
use mn_protozoa.Defer.Queue.{Tree, TreeLaws}
use mn_protozoa.Defer.Engine.{DeferredPkt}
use mn_protozoa.Defer.Memory.{update_self}
use mn_protozoa.Defer.Waiting.{Waits, defer_packet-Waits}
use mn_protozoa.Ccwriter.Writer.{Ccwriter, World, too_soon, do_write_to, do_write}
use mn_protozoa.Ccwriter.Slots.{check_deferred-Checked, pkts-defer_packet}
use mn_protozoa.Ccwriter.Safety.{do_write-eq, served, went_out}

module _ {T S : Type 0} (tree : Tree T) (laws : TreeLaws tree) (timers : Timers S) where
  -- A packet that was sent, and one that comes too soon.
  sent-do_write_to :
      (clock : ℕ → Timeval) (wtr : Ccwriter) (i : ℕ) (p : Ccpacket) (w : World T S)
      → (do_write_to tree timers clock wtr i p w).count ≢ 0
      → ((do_write_to tree timers clock wtr i p w).world.defer.pkts i).sent ≡ clock 1
  sent-do_write_to clock wtr i p w h =
      let q = (wtr.do_write w.txbuf p).packet in
      let (_, _, time) = check_deferred-Checked tree timers clock wtr i q w.defer in
      ap (λ d. (d.pkts i).sent) (went_out tree timers clock wtr i p w h).1 ∙ time

  held :
      (clock : ℕ → Timeval) (wtr : Ccwriter) (i : ℕ) (q : Ccpacket) (w : World T S)
      → ((c : ℕ → ℕ → Compare) (t : T) → tree.add c i t ≢ none)
      → too_soon (clock 0) wtr (w.defer.pkts i) ≡ true
      → let out = do_write_to tree timers clock wtr i q w in
        let dpkt = out.world.defer.pkts i in
        (out.count ≡ 0)
        × (out.world.txbuf ≡ w.txbuf)
        × (dpkt.packet ≡ q)
        × (dpkt.tv ≡ Timeval.adjust (clock 3) wtr.gaptime)
        × Waits tree laws i out.world.defer
  unfolding do_write_to
  held clock wtr i q w room soon =
      let dpkt : DeferredPkt = record (w.defer.pkts i) {
        tv = Timeval.adjust (clock 3) wtr.gaptime;
        packet = q;
      } in
      let e = pkts-defer_packet tree timers (clock 3) (clock 4) w.defer i q wtr.gaptime in
      let self = ap (λ f. f i) e ∙ update_self w.defer.pkts i dpkt in
      let waits =
        defer_packet-Waits tree laws timers i room (clock 3) (clock 4) w.defer q wtr.gaptime in
      rw soon (refl, refl, ap (λ d. d.packet) self, ap (λ d. d.tv) self, waits)

  -- After a packet went out through a writer, a packet to the same receiver that comes before the
  -- gap time is over is not sent: the transmit buffer stays as it is and the count is 0. Where the tree
  -- can allocate a node, the packet then stands in the tree of the deferred ones, with the gap time
  -- from then on as its time.
  pub gap_kept :
      (clock clock' : ℕ → Timeval) (wtr : Ccwriter) (p q : Ccpacket) (w : World T S) (n : ℕ)
      → ((c : ℕ → ℕ → Compare) (t : T) → tree.add c (wtr.deferred + n) t ≢ none)
      → p.receiver ≡ pos (suc n)
      → q.receiver ≡ p.receiver
      → let out = do_write tree timers clock wtr p w in
        let out' = do_write tree timers clock' wtr q out.world in
        let dpkt = out'.world.defer.pkts (wtr.deferred + n) in
        out.count ≢ 0
        → Timeval.since (clock' 0) (clock 1) <ℤ pos wtr.gaptime
        → (out'.count ≡ 0)
          × (out'.world.txbuf ≡ out.world.txbuf)
          × (dpkt.packet ≡ q)
          × (dpkt.tv ≡ Timeval.adjust (clock' 3) wtr.gaptime)
          × Waits tree laws (wtr.deferred + n) out'.world.defer
  unfolding too_soon
  gap_kept clock clock' wtr p q w n room ep eq counted soon =
      let fits = served tree timers clock wtr p w n ep counted in
      let i = wtr.deferred + n in
      let first = do_write-eq tree timers clock wtr p w n ep fits in
      let w' = (do_write tree timers clock wtr p w).world in
      let second = do_write-eq tree timers clock' wtr q w' n (eq ∙ ep) fits in
      let counted' : (do_write_to tree timers clock wtr i p w).count ≢ 0 =
        λ zero. counted (ap (λ o. o.count) first ∙ zero) in
      let noted : (w'.defer.pkts i).sent ≡ clock 1 =
        ap (λ o. (o.world.defer.pkts i).sent) first ∙ sent-do_write_to clock wtr i p w counted' in
      rw second (held clock' wtr i q w' room (rw noted (ground (arith, soon))))
