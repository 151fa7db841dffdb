-- ===== src/Ccwriter/Writer.antt =====
-- The sending of a packet by src/ccwriter.c. The `do_write` callback of a protocol is a field of the
-- writer. What is logged is left out. The clock is read up to five times, and `clock k` is what the
-- reading `k` gives.
use mn_protozoa.Base.{ℕ, zero, suc, ◌+◌, ltb, Bool, Option, none, some, if◌then◌else◌}
use mn_protozoa.Base.Int.{pos, negsuc, ltb_ℤ}
use mn_protozoa.Buffer.Defs.{Buffer}
use mn_protozoa.Timeval
use mn_protozoa.Timeval.{Timeval}
use mn_protozoa.Timer.{Timers}
use mn_protozoa.Ccpacket.Packet.{Ccpacket, is_expired}
use mn_protozoa.Ccpacket.Queries.{is_stop}
use mn_protozoa.Ccwriter.Written.{Written}
use mn_protozoa.Defer.Queue.{Tree}
use mn_protozoa.Defer.Engine.{DeferredPkt, Defer, update, defer_packet, deferred_pkt_init}
use mn_protozoa.Stats
use mn_protozoa.Stats.{Stats, dom_out}

-- `struct ccwriter` less the channel and the list: `deferred` is where its packets stand in memory.
-- `auth` is whether the writer has a token, of which the protocols make no use.
pub record Ccwriter : Type 0 where
  pub do_write : Buffer → Ccpacket → Written
  pub deferred : ℕ
  pub n_rcv : ℕ
  pub gaptime : ℕ
  pub timeout : ℕ

-- What a writer works on: the deferred packets, the transmit buffer of its channel, and the
-- statistics.
pub record World (T S : Type 0) : Type 0 where
  pub defer : Defer T S
  pub txbuf : Buffer
  pub stats : Stats

-- The count that the writer returns, the packet, and the world.
pub record Outcome (T S : Type 0) : Type 0 where
  pub count : ℕ
  pub packet : Ccpacket
  pub world : World T S

-- `ccwriter_set_receivers`: the loop over the packets, and the writer with the memory that `malloc`
-- found.
unfoldable pub init_loop :
    (now : ℕ → Timeval) → (writer deferred n : ℕ) → (ℕ → DeferredPkt) → ℕ → DeferredPkt
init_loop now writer deferred zero pkts = pkts
init_loop now writer deferred (suc n) pkts =
    update (init_loop now writer deferred n pkts) (deferred + n)
      (deferred_pkt_init (now (n + n)) (now (n + n + 1)) writer)

-- `ccwriter_too_soon`
unfoldable pub too_soon : (now : Timeval) → Ccwriter → DeferredPkt → Bool
too_soon now wtr dpkt = ltb_ℤ (Timeval.since now dpkt.sent) (pos wtr.gaptime)

module _ {T S : Type 0} (tree : Tree T) (timers : Timers S) (clock : ℕ → Timeval) where
  -- `defer_packet` with the last two readings.
  abbrev pub deferring : Defer T S → ℕ → Option Ccpacket → ℕ → Defer T S
  deferring dfr i p ms = (defer_packet tree timers (clock 3) (clock 4) dfr i p ms).1

  -- Writing a packet's count.
  abbrev pub set_n_cnt : ℕ → ℕ → Defer T S → Defer T S
  set_n_cnt i n dfr = record dfr { pkts = update dfr.pkts i (record (dfr.pkts i) { n_cnt = n }) }

  -- `timeval_set_now(&dpkt->sent)`
  abbrev pub set_sent : ℕ → Timeval → Defer T S → Defer T S
  set_sent i now dfr = record dfr { pkts = update dfr.pkts i (record (dfr.pkts i) { sent = now }) }

  -- `ccwriter_check_deferred`
  unfoldable pub check_deferred : Ccwriter → Ccpacket → ℕ → Defer T S → Defer T S
  check_deferred wtr p i dfr =
      let timed = set_sent i (clock 1) dfr in
      if is_stop p
      then if ltb (timed.pkts i).n_cnt 1
        then (let out = deferring timed i (some p) wtr.gaptime in
            set_n_cnt i ((out.pkts i).n_cnt + 1) out)
        else deferring (set_n_cnt i 0 timed) i none 0
      else if is_expired (clock 2) p wtr.timeout
      then deferring timed i (some p) wtr.timeout
      else deferring timed i none 0

  -- `ccwriter_do_write_`, with the pointer to the packet of the receiver.
  unfoldable pub do_write_to : Ccwriter → ℕ → Ccpacket → World T S → Outcome T S
  do_write_to wtr i p w =
      if too_soon (clock 0) wtr (w.defer.pkts i)
      then record {
        count = 0;
        packet = p;
        world = record w { defer = deferring w.defer i (some p) wtr.gaptime };
      }
      else (let written = wtr.do_write w.txbuf p in
          record {
            count = written.count;
            packet = written.packet;
            world =
                if ltb 0 written.count
                then record {
                  defer = check_deferred wtr written.packet i w.defer;
                  txbuf = written.txbuf;
                  stats = Stats.count written.packet dom_out w.stats;
                }
                else record w { txbuf = written.txbuf };
          })

  -- `ccwriter_do_write`
  unfoldable pub do_write : Ccwriter → Ccpacket → World T S → Outcome T S
  unfolding do_write_to
  do_write wtr p w = elim p.receiver [
    | pos zero ↦ record { count = 0; packet = p; world = w }
    | pos (suc n) ↦
        if ltb n wtr.n_rcv
        then do_write_to wtr (wtr.deferred + n) p w
        else record { count = 0; packet = p; world = w }
    | negsuc n ↦ record { count = 0; packet = p; world = w }
  ]
