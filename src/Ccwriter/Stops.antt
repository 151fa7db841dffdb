-- ===== src/Ccwriter/Stops.antt =====
-- The repetition of a stop by src/ccwriter.c and src/defer.c: it is deferred when it is sent, and when
-- the timer has fired for it, it is sent again and no longer waits.
use mn_protozoa.Base.{ℕ, ◌+◌, ◌<◌, ◌≡◌, ◌≢◌, refl, ap, ◌∙◌, true, false, ltb, arith, none, some}
use mn_protozoa.Timeval
use mn_protozoa.Timeval.{Timeval, Compare}
use mn_protozoa.Timer.{Timers}
use mn_protozoa.Ccpacket.Packet.{Ccpacket}
use mn_protozoa.Ccpacket.Queries.{is_stop}
use mn_protozoa.Defer.Queue.{Tree, TreeLaws, Ordered}
use mn_protozoa.Defer.Engine.{DeferredPkt, Defer, compare_pkts}
use mn_protozoa.Defer.Memory.{update_self, update_other}
use mn_protozoa.Defer.Lists.{times}
use mn_protozoa.Defer.Waiting.{Waits, defer_packet-Waits, reordered, still_out}
use mn_protozoa.Ccwriter.Writer.{
  Ccwriter, World, deferring, set_n_cnt, set_sent, too_soon, check_deferred, do_write_to,
}
use mn_protozoa.Ccwriter.Slots.{pkts-defer_packet, kept}

module _ {T S : Type 0} (tree : Tree T) (laws : TreeLaws tree) (timers : Timers S)
    (clock : ℕ → Timeval) (wtr : Ccwriter) (i : ℕ) where
  -- A packet that waits to be repeated.
  abbrev pub Repeats : Ccpacket → Defer T S → Type 0
  Repeats q dfr =
      ((dfr.pkts i).n_cnt ≡ 1)
      × ((dfr.pkts i).packet ≡ q)
      × ((dfr.pkts i).tv ≡ Timeval.adjust (clock 3) wtr.gaptime)
      × Waits tree laws i dfr

  -- The first stop is deferred.
  pub first_stop :
      (q : Ccpacket) (dfr : Defer T S)
      → ((c : ℕ → ℕ → Compare) (t : T) → tree.add c i t ≢ none)
      → is_stop q ≡ true
      → (dfr.pkts i).n_cnt ≡ 0
      → Repeats q (check_deferred tree timers clock wtr q i dfr)
  unfolding check_deferred
  first_stop q dfr room stop count =
      let timed = set_sent tree timers clock i (clock 1) dfr in
      let noted = update_self dfr.pkts i (record (dfr.pkts i) { sent = clock 1 }) in
      let few : ltb (timed.pkts i).n_cnt 1 ≡ true = rw (noted, count) refl in
      let out = deferring tree timers clock timed i (some q) wtr.gaptime in
      let same : (out.pkts i).n_cnt ≡ 0 =
        (kept tree timers (clock 3) (clock 4) timed i wtr.gaptime (some q) i).0
        ∙ ap (λ d. d.n_cnt) noted
        ∙ count in
      let held : DeferredPkt = record (timed.pkts i) {
        tv = Timeval.adjust (clock 3) wtr.gaptime;
        packet = q;
      } in
      let put : out.pkts i ≡ held =
        ap (λ f. f i) (pkts-defer_packet tree timers (clock 3) (clock 4) timed i q wtr.gaptime)
        ∙ update_self timed.pkts i held in
      let counted =
        update_self out.pkts i (record (out.pkts i) { n_cnt = (out.pkts i).n_cnt + 1 }) in
      rw (stop, few)
        (
          ap (λ d. d.n_cnt) counted ∙ ap (λ k. k + 1) same,
          ap (λ d. d.packet) counted ∙ ap (λ d. d.packet) put,
          ap (λ d. d.tv) counted ∙ ap (λ d. d.tv) put,
          defer_packet-Waits tree laws timers i room (clock 3) (clock 4) timed q wtr.gaptime,
        )

  -- The second is not, and the count begins again.
  pub second_stop :
      (q : Ccpacket) (dfr : Defer T S)
      → is_stop q ≡ true
      → (dfr.pkts i).n_cnt ≡ 1
      → Ordered (compare_pkts dfr.pkts) (laws.items dfr.tree)
      → times i (laws.items dfr.tree) ≡ 0
      → let dfr' = check_deferred tree timers clock wtr q i dfr in
        ((dfr'.pkts i).n_cnt ≡ 0) × (times i (laws.items dfr'.tree) ≡ 0)
  unfolding check_deferred
  second_stop q dfr stop count ordered absent =
      let timed = set_sent tree timers clock i (clock 1) dfr in
      let noted = update_self dfr.pkts i (record (dfr.pkts i) { sent = clock 1 }) in
      let often : ltb (timed.pkts i).n_cnt 1 ≡ false = rw (noted, count) refl in
      let mid = set_n_cnt tree timers clock i 0 timed in
      let zeroed = update_self timed.pkts i (record (timed.pkts i) { n_cnt = 0 }) in
      let others : (j : ℕ) → j ≢ i → mid.pkts j ≡ dfr.pkts j = λ j ne.
        update_other timed.pkts i (record (timed.pkts i) { n_cnt = 0 }) j ne
        ∙ update_other dfr.pkts i (record (dfr.pkts i) { sent = clock 1 }) j ne in
      rw (stop, often)
        (
          (kept tree timers (clock 3) (clock 4) mid i 0 none i).0 ∙ ap (λ d. d.n_cnt) zeroed,
          still_out tree laws timers (clock 3) (clock 4) mid i 0
              (reordered dfr.pkts mid.pkts i (laws.items dfr.tree) others absent ordered) absent,
        )

  -- A packet that is not too soon and that its protocol writes.
  pub goes_out :
      (p : Ccpacket) (w : World T S)
      → too_soon (clock 0) wtr (w.defer.pkts i) ≡ false
      → let written = wtr.do_write w.txbuf p in
        let out = do_write_to tree timers clock wtr i p w in
        0 < written.count
        → (out.world.txbuf ≡ written.txbuf)
          × (out.world.defer ≡ check_deferred tree timers clock wtr written.packet i w.defer)
  unfolding do_write_to
  goes_out p w late h =
      let sent : ltb 0 (wtr.do_write w.txbuf p).count ≡ true = ground (arith, h) in
      rw (late, sent) (refl, refl)
