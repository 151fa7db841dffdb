-- ===== src/Ccwriter/Repeated.antt =====
-- The repetition of a stop by src/ccwriter.c, through the timer of src/defer.c.
use mn_protozoa.Base.{ℕ, suc, ◌+◌, ◌<◌, ◌≡◌, ◌≢◌, sym, ap, ◌∙◌, true, false, ◌==◌, arith, none}
use mathlib.Core.Path.{subst}
use mn_protozoa.Base.Int.{pos}
use mn_protozoa.Buffer.Defs.{Buffer}
use mn_protozoa.Timeval
use mn_protozoa.Timeval.{Timeval, Compare}
use mn_protozoa.Timer.{Timers}
use mn_protozoa.Ccpacket.Packet.{Ccpacket}
use mn_protozoa.Ccpacket.Queries.{is_stop}
use mn_protozoa.Stats.{Stats}
use mn_protozoa.Defer.Queue.{Tree, TreeLaws, Ordered}
use mn_protozoa.Defer.Engine.{DeferredPkt, Defer, compare_pkts, take_out}
use mn_protozoa.Defer.Memory.{update_self, update_other}
use mn_protozoa.Defer.Next.{Shared, set_pkt, defer_packet_now}
use mn_protozoa.Defer.Order.{IsQueue, Alone, take_out_lem}
use mn_protozoa.Defer.Lists.{times}
use mn_protozoa.Defer.Waiting.{reordered}
use mn_protozoa.Ccwriter.Writer.{Ccwriter, World, too_soon, check_deferred, do_write_to, do_write}
use mn_protozoa.Ccwriter.Safety.{do_write-eq, served, went_out}
use mn_protozoa.Ccwriter.Stops.{Repeats, first_stop, second_stop, goes_out}

module _ {T S : Type 0} (tree : Tree T) (laws : TreeLaws tree) (timers : Timers S)
    (writers : ℕ → Ccwriter) (wtr : Ccwriter) (n : ℕ) (txbufs : ℕ → Buffer) (stats : Stats) where
  abbrev slot : ℕ
  slot = wtr.deferred + n

  -- The state when the timer has fired, with the transmit buffers of all writers.
  abbrev pub shared : Defer T S → Shared T S
  shared dfr = record { defer = dfr; txbufs = txbufs; stats = stats }

  module _ (clock : ℕ → Timeval) (dfr : Defer T S) (queue : IsQueue tree laws dfr)
      (alone : Alone tree laws slot dfr) where
    abbrev timed : Defer T S
    timed =
        set_pkt tree timers writers clock slot
          (record (dfr.pkts slot) { tv = Timeval.adjust (clock 5) wtr.timeout })
          (take_out tree timers dfr slot)

    abbrev world : World T S
    world = record { defer = timed; txbuf = txbufs (dfr.pkts slot).writer; stats = stats }

    slot-timed :
        timed.pkts slot ≡ record (dfr.pkts slot) { tv = Timeval.adjust (clock 5) wtr.timeout }
    unfolding take_out
    slot-timed =
        update_self dfr.pkts slot
          (record (dfr.pkts slot) { tv = Timeval.adjust (clock 5) wtr.timeout })

    timed-Ordered :
        Ordered (compare_pkts timed.pkts) (laws.items timed.tree)
        × (times slot (laws.items timed.tree) ≡ 0)
    unfolding take_out
    timed-Ordered =
        let (ordered, absent, _) = take_out_lem tree laws timers dfr slot queue alone in
        let dpkt : DeferredPkt = record (dfr.pkts slot) {
          tv = Timeval.adjust (clock 5) wtr.timeout;
        } in
        (
          reordered dfr.pkts timed.pkts slot (laws.items timed.tree)
              (λ j ne. update_other dfr.pkts slot dpkt j ne) absent ordered,
          absent,
        )

    -- The packet that the timer has fired for is a stop that was deferred once.
    fired :
        n < wtr.n_rcv
        → writers (dfr.pkts slot).writer ≡ wtr
        → (dfr.pkts slot).packet.receiver ≡ pos (suc n)
        → (dfr.pkts slot).n_cnt ≡ 1
        → too_soon (clock 0) wtr (dfr.pkts slot) ≡ false
        → let again = wtr.do_write (txbufs (dfr.pkts slot).writer) (dfr.pkts slot).packet in
          let after = defer_packet_now tree timers writers clock (shared dfr) slot in
          0 < again.count
          → is_stop again.packet ≡ true
          → (after.txbufs (dfr.pkts slot).writer ≡ again.txbuf)
            × ((after.defer.pkts slot).n_cnt ≡ 0)
            × (times slot (laws.items after.defer.tree) ≡ 0)
    unfolding defer_packet_now take_out too_soon
    fired fits ew er count late sent stop =
        let p = (dfr.pkts slot).packet in
        let again = wtr.do_write (txbufs (dfr.pkts slot).writer) p in
        let first = do_write-eq tree timers clock wtr p world n er fits in
        let late' : too_soon (clock 0) wtr (timed.pkts slot) ≡ false = rw slot-timed late in
        let (written, checked) = goes_out tree laws timers clock wtr slot p world late' sent in
        let count' : (timed.pkts slot).n_cnt ≡ 1 = ap (λ d. d.n_cnt) slot-timed ∙ count in
        let (zero, absent) =
          second_stop tree laws timers clock wtr slot again.packet timed stop count' timed-Ordered.0
            timed-Ordered.1 in
        let self : ((dfr.pkts slot).writer == (dfr.pkts slot).writer) ≡ true = ground arith in
        let out = do_write_to tree timers clock wtr slot p world in
        let dfr' = out.world.defer in
        let last = update_self dfr'.pkts slot (record (dfr'.pkts slot) { packet = out.packet }) in
        rw (ew, first, self)
          (
            written,
            ap (λ d. d.n_cnt) last ∙ ap (λ d. (d.pkts slot).n_cnt) checked ∙ zero,
            ap (λ d. times slot (laws.items d.tree)) checked ∙ absent,
          )

  -- A stop that goes out through a writer, to a receiver whose deferred packet has a count of 0, is
  -- deferred for the gap time, where the tree can allocate a node. When the timer has then fired for
  -- the deferred packet, which belongs to this writer, and it is not too soon, the writer is handed
  -- it again; if it writes a stop, this is not deferred another time: the transmit buffer is what the
  -- protocol makes of it, the count is 0 again and the packet has left the tree. This is so if the
  -- tree is in order when the timer fires and holds each packet once at most, no other waiting packet
  -- has the time of this one, and the protocol has not changed the receiver of the packet.
  pub stop_repeated :
      (clock clock' : ℕ → Timeval) (p : Ccpacket) (w : World T S)
      → ((c : ℕ → ℕ → Compare) (t : T) → tree.add c slot t ≢ none)
      → p.receiver ≡ pos (suc n)
      → (w.defer.pkts slot).n_cnt ≡ 0
      → let out = do_write tree timers clock wtr p w in
        let dfr = out.world.defer in
        let number = (dfr.pkts slot).writer in
        let again = wtr.do_write (txbufs number) out.packet in
        let after = defer_packet_now tree timers writers clock' (shared dfr) slot in
        out.count ≢ 0
        → is_stop out.packet ≡ true
        → IsQueue tree laws dfr
        → Alone tree laws slot dfr
        → writers number ≡ wtr
        → out.packet.receiver ≡ pos (suc n)
        → too_soon (clock' 0) wtr (dfr.pkts slot) ≡ false
        → 0 < again.count
        → is_stop again.packet ≡ true
        → Repeats tree laws timers clock wtr slot out.packet dfr
          × (after.txbufs number ≡ again.txbuf)
          × ((after.defer.pkts slot).n_cnt ≡ 0)
          × (times slot (laws.items after.defer.tree) ≡ 0)
  stop_repeated clock clock' p w room er zero counted stop queue alone ew er' late sent stop' =
      let fits = served tree timers clock wtr p w n er counted in
      let e = do_write-eq tree timers clock wtr p w n er fits in
      let first = do_write_to tree timers clock wtr slot p w in
      let counted' : first.count ≢ 0 = λ none. counted (ap (λ o. o.count) e ∙ none) in
      let (packet, checked) = went_out tree timers clock wtr slot p w counted' in
      let q = (wtr.do_write w.txbuf p).packet in
      let out = do_write tree timers clock wtr p w in
      let dfr = out.world.defer in
      let same_packet : out.packet ≡ q = ap (λ o. o.packet) e ∙ packet in
      let same : dfr ≡ check_deferred tree timers clock wtr q slot w.defer =
        ap (λ o. o.world.defer) e ∙ checked in
      let stop'' : is_stop q ≡ true = rw⁻¹ same_packet stop in
      let (count, held, time, waits) =
        first_stop tree laws timers clock wtr slot q w.defer room stop'' zero in
      let count' : (dfr.pkts slot).n_cnt ≡ 1 = ap (λ d. (d.pkts slot).n_cnt) same ∙ count in
      let held' : (dfr.pkts slot).packet ≡ out.packet =
        ap (λ d. (d.pkts slot).packet) same ∙ held ∙ sym same_packet in
      let number = (dfr.pkts slot).writer in
      let (written, cleared, gone) =
        fired clock' dfr queue alone fits ew (ap (λ k. k.receiver) held' ∙ er') count' late
          (subst (λ k. 0 < (wtr.do_write (txbufs number) k).count) (sym held') sent)
          (subst (λ k. is_stop (wtr.do_write (txbufs number) k).packet ≡ true) (sym held') stop') in
      (
        (
          count',
          held',
          ap (λ d. (d.pkts slot).tv) same ∙ time,
          subst (λ d. 0 < times slot (laws.items d.tree)) (sym same) waits,
        ),
        written ∙ ap (λ k. (wtr.do_write (txbufs number) k).txbuf) held',
        cleared,
        gone,
      )
