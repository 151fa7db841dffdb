-- ===== src/Defer/Engine.antt =====
-- The deferred packets of src/defer.c. `pkts` is the memory that holds them, and a pointer to one is
-- a number. The clock is read more than once, and each reading is an argument.
use mn_protozoa.Base.{ℕ, ◌==◌, Bool, true, false, Option, none, some, if◌then◌else◌}
use mn_protozoa.Base.Int.{ℤ, negsuc}
use mn_protozoa.Timeval
use mn_protozoa.Timeval.{Timeval, Compare}
use mn_protozoa.Timer.{Timers, timer_arm, timer_disarm}
use mn_protozoa.Ccpacket.Packet
use mn_protozoa.Ccpacket.Packet.{Ccpacket}
use mn_protozoa.Defer.Queue.{Tree}

-- `struct deferred_pkt`; a writer is a number, too.
pub record DeferredPkt : Type 0 where
  pub writer : ℕ
  pub tv : Timeval
  pub sent : Timeval
  pub packet : Ccpacket
  pub n_cnt : ℕ

-- `deferred_pkt_init`, with a packet that `ccpacket_create` could allocate.
unfoldable pub deferred_pkt_init : (now later : Timeval) → (writer : ℕ) → DeferredPkt
deferred_pkt_init now later writer = record {
  writer = writer;
  tv = record { tv_sec = 0; tv_usec = 0 };
  sent = now;
  packet = Packet.create later;
  n_cnt = 0;
}

-- `struct defer`, with the memory of the packets and the state of the system.
pub record Defer (T S : Type 0) : Type 0 where
  pub tree : T
  pub pkts : ℕ → DeferredPkt
  pub system : S

-- Writing through a pointer.
abbrev pub update : (ℕ → DeferredPkt) → ℕ → DeferredPkt → ℕ → DeferredPkt
update pkts i dpkt j = if j == i then dpkt else pkts j

-- `compare_pkts`
abbrev pub compare_pkts : (ℕ → DeferredPkt) → ℕ → ℕ → Compare
compare_pkts pkts i j = Timeval.compare (pkts i).tv (pkts j).tv

module _ {T S : Type 0} (tree : Tree T) (timers : Timers S) where
  -- `defer_rearm`
  unfoldable pub defer_rearm : (now : Timeval) → Defer T S → ℤ × Defer T S
  defer_rearm now dfr = elim (tree.peek dfr.tree) [
    | some i ↦
        let out = timer_arm timers (Timeval.from_now now (dfr.pkts i).tv) dfr.system in
        (out.0, record dfr { system = out.1 })
    | none ↦ let out = timer_disarm timers dfr.system in (out.0, record dfr { system = out.1 })
  ]

  -- The removal of a packet from the tree, which the functions below begin with.
  unfoldable pub take_out : Defer T S → ℕ → Defer T S
  take_out dfr i = record dfr { tree = tree.remove (compare_pkts dfr.pkts) i dfr.tree }

  -- What `cl_rbtree_add` has left.
  abbrev pub added : Defer T S → (ℕ → DeferredPkt) → Option T → Bool × Defer T S
  added dfr pkts none = (false, record dfr { pkts = pkts })
  added dfr pkts (some t) = (true, record dfr { tree = t; pkts = pkts })

  -- The packet put in, in `defer_packet`; it gives whether a node could be allocated.
  unfoldable pub put_in : (now : Timeval) → Defer T S → ℕ → Ccpacket → ℕ → Bool × Defer T S
  put_in now dfr i p ms =
      let dpkt = dfr.pkts i in
      let pkts =
        update dfr.pkts i
          (record dpkt { tv = Timeval.adjust now ms; packet = Packet.copy dpkt.packet p }) in
      added dfr pkts (tree.add (compare_pkts pkts) i dfr.tree)

  -- `defer_packet`. The clock gives `now`, and `later` when the timer is armed.
  unfoldable pub defer_packet :
      (now later : Timeval) → Defer T S → ℕ → Option Ccpacket → ℕ → ℤ × Defer T S
  unfolding take_out put_in defer_rearm
  defer_packet now later dfr i none ms = defer_rearm later (take_out dfr i)
  defer_packet now later dfr i (some p) ms =
      let out = put_in now (take_out dfr i) i p ms in
      if out.0 then defer_rearm later out.1 else (negsuc 0, out.1)
