-- ===== src/Defer/Next.antt =====
-- The sending of a deferred packet by src/defer.c, when the timer has fired. The readings of the
-- clock are those of src/ccwriter.c, and two more.
use mn_protozoa.Base.{ℕ, ◌==◌, none, some, if◌then◌else◌}
use mn_protozoa.Base.Int.{ℤ, pos, negsuc, ltb_ℤ}
use mn_protozoa.Buffer.Defs.{Buffer}
use mn_protozoa.Timeval
use mn_protozoa.Timeval.{Timeval}
use mn_protozoa.Timer.{Timers, timer_read}
use mn_protozoa.Ccwriter.Writer
use mn_protozoa.Ccwriter.Writer.{Ccwriter, World, Outcome}
use mn_protozoa.Defer.Queue.{Tree}
use mn_protozoa.Defer.Engine.{DeferredPkt, Defer, update, take_out, defer_rearm}
use mn_protozoa.Stats.{Stats}

-- The deferred packets with all writers: each has a transmit buffer.
pub record Shared (T S : Type 0) : Type 0 where
  pub defer : Defer T S
  pub txbufs : ℕ → Buffer
  pub stats : Stats

module _ {T S : Type 0} (tree : Tree T) (timers : Timers S) (writers : ℕ → Ccwriter)
    (clock : ℕ → Timeval) where
  -- A write through the pointer to a packet.
  abbrev pub set_pkt : ℕ → DeferredPkt → Defer T S → Defer T S
  set_pkt i dpkt dfr = record dfr { pkts = update dfr.pkts i dpkt }

  -- `defer_packet_now`. The packet that it hands to the writer is the deferred one itself, which a
  -- protocol may change.
  unfoldable pub defer_packet_now : Shared T S → ℕ → Shared T S
  unfolding take_out
  defer_packet_now s i =
      let dfr = take_out tree timers s.defer i in
      let dpkt = dfr.pkts i in
      let wtr = writers dpkt.writer in
      let timed = set_pkt i (record dpkt { tv = Timeval.adjust (clock 5) wtr.timeout }) dfr in
      let out =
        Writer.do_write tree timers clock wtr dpkt.packet
          (record { defer = timed; txbuf = s.txbufs dpkt.writer; stats = s.stats }) in
      let after = out.world.defer in
      record {
        defer = set_pkt i (record (after.pkts i) { packet = out.packet }) after;
        txbufs = λ w. if w == dpkt.writer then out.world.txbuf else s.txbufs w;
        stats = out.world.stats;
      }

  -- `defer_next`
  unfoldable pub defer_next : Shared T S → ℤ × Shared T S
  unfolding defer_packet_now defer_rearm
  defer_next s =
      let read = timer_read timers s.defer.system in
      let s' = record s { defer = record (s.defer) { system = read.1 } } in
      if ltb_ℤ read.0 (pos 0)
      then (negsuc 0, s')
      else (let sent : Shared T S = elim (tree.peek s'.defer.tree) [
        | some i ↦ defer_packet_now s' i
        | none ↦ s'
      ] in
          let armed = defer_rearm tree timers (clock 6) sent.defer in
          (armed.0, record sent { defer = armed.1 }))
