-- ===== src/Ccwriter/Tests.antt =====
-- The theorems on src/ccwriter.c, and on the bits of a message, at concrete bytes.
use mn_protozoa.Base.{
  ℕ, ◌+◌, ◌≡◌, ◌≢◌, refl, ap, false, inr, true, List, [], ◌∷◌, none, some, arith, set,
}
use mn_protozoa.Base.Int.{pos}
use mn_protozoa.Timeval
use mn_protozoa.Timeval.{Timeval}
use mn_protozoa.Timer.{Timers}
use mn_protozoa.Stats
use mn_protozoa.Ccpacket.Packet.{
  Ccpacket, get_pan_mode, get_preset_mode, get_menu, get_ack, get_camera, get_zoom, get_focus,
  get_iris, get_wiper,
}
use mn_protozoa.Ccpacket.Modes
use mn_protozoa.Ccpacket.Queries.{is_stop}
use mn_protozoa.Defer.Queue.{Tree, TreeLaws}
use mn_protozoa.Ccwriter.Writer.{
  Ccwriter, World, Outcome, init_loop, too_soon, check_deferred, do_write,
}
use mn_protozoa.Ccwriter.Written.{Written}
use mn_protozoa.Ccwriter.Protocols.{pelco_d, axis, settings}
use mn_protozoa.Ccwriter.Ready.{served_lem, init_loop_lem}
use mn_protozoa.Ccwriter.Gap.{gap_kept}
use mn_protozoa.Ccwriter.Repeated.{stop_repeated}
use mn_protozoa.Ccwriter.Safety.{do_write_inside}
use mn_protozoa.Ccwriter.Stops.{Repeats}
use mn_protozoa.Defer.Listed.{insert, delete, listed, listed-TreeLaws, room}
use mn_protozoa.Defer.Engine.{defer_packet}
use mn_protozoa.Defer.Next.{Shared, defer_packet_now}
use mn_protozoa.Defer.Order.{IsQueue}
use mn_protozoa.Defer.Lists.{times}
use mn_protozoa.Defer.Waiting.{Waits}
use mn_protozoa.Buffer.Defs.{Buffer}
use mn_protozoa.Buffer.Queue.{pushed}
use mn_protozoa.Ccwriter.Append.{message, message-eq-pushed}

abbrev tx : Buffer
tx = record { mem = 1 ∷ 2 ∷ 3 ∷ 4 ∷ []; pin = 2; pout = 1 }

message-eq-pushed_example : message tx 2 (λ m. set m 0 7) ≡ pushed tx (7 ∷ 0 ∷ [])
message-eq-pushed_example =
    message-eq-pushed tx 2 (λ m. set m 0 7) (record { ordered = omega arith; inside = omega arith })
      refl

abbrev packet : Ccpacket
packet = record {
  receiver = pos 2;
  flags = 0;
  pan = pos 0;
  tilt = pos 0;
  preset = pos 0;
  expire = record { tv_sec = 0; tv_usec = 0 };
}

abbrev on_time : ℕ → Timeval
on_time sec = record { tv_sec = sec; tv_usec = 0 }

-- A tree that is never asked for its order, and a system that counts what it is asked.
abbrev unordered : Tree (List ℕ)
unordered = record { add = λ c i l. some (i ∷ l); remove = λ c i l. l; peek = λ l. none }

abbrev timers : Timers ℕ
timers = record {
  read_pipe = λ s. (pos 1, s + 1);
  write_pipe = λ s. (pos 1, s + 1);
  setitimer = λ tv s. (pos 0, s + 1);
}

-- Three receivers at 4, 5 and 6, with a protocol that sends one byte.
abbrev wtr : Ccwriter
wtr = record {
  do_write = λ b p. record { count = 1; txbuf = pushed b (9 ∷ []); packet = p };
  deferred = 4;
  n_rcv = 3;
  gaptime = 80;
  timeout = 15000;
}

abbrev world : World (List ℕ) ℕ
world = record {
  defer = record {
    tree = [];
    pkts = λ i. record { writer = 0; tv = on_time 0; sent = on_time 0; packet = packet; n_cnt = 0 };
    system = 0;
  };
  txbuf = tx;
  stats = Stats.init true;
}

abbrev clock : ℕ → Timeval
clock k = on_time 10

abbrev out : Outcome (List ℕ) ℕ
out = do_write unordered timers clock wtr packet world

do_write_inside_example : out.world.defer.pkts 7 ≡ world.defer.pkts 7
do_write_inside_example =
    do_write_inside unordered timers clock wtr packet world 7 (inr (omega arith))

abbrev laws : TreeLaws listed
laws = listed-TreeLaws

-- The packet sent, with the tree that keeps its order.
abbrev sent : Outcome (List ℕ) ℕ
sent = do_write listed timers clock wtr packet world

gap_kept_example :
    let out' = do_write listed timers clock wtr packet sent.world in
    (out'.count ≡ 0)
    × (out'.world.txbuf ≡ sent.world.txbuf)
    × ((out'.world.defer.pkts 5).packet ≡ packet)
    × ((out'.world.defer.pkts 5).tv ≡ record { tv_sec = 10; tv_usec = 80000 })
    × Waits listed laws 5 out'.world.defer
unfolding Timeval.adjust
gap_kept_example =
    gap_kept listed laws timers clock clock wtr packet packet world 1 (room 5) refl refl
      (unfold do_write too_soon Timeval.since in (λ e. omega (arith, e)))
      (unfold Timeval.since in omega arith)

-- A second later, the timer has fired.
abbrev clock' : ℕ → Timeval
clock' k = on_time 11

abbrev repeated : Shared (List ℕ) ℕ
repeated =
    defer_packet_now listed timers (λ k. wtr) clock'
      (record { defer = sent.world.defer; txbufs = λ k. tx; stats = Stats.init true }) 5

stops : is_stop packet ≡ true
unfolding is_stop get_pan_mode get_preset_mode get_menu get_ack get_camera get_zoom get_focus
    get_iris get_wiper Modes.pan Modes.preset Modes.menu Modes.ack Modes.camera Modes.zoom
    Modes.focus Modes.iris Modes.wiper
stops = refl

-- The packet went out, and waits alone.
sent_tree :
    (laws.items sent.world.defer.tree ≡ 5 ∷ [])
    × (sent.count ≡ 1)
    × (sent.packet ≡ packet)
    × (too_soon (clock' 0) wtr (sent.world.defer.pkts 5) ≡ false)
unfolding do_write too_soon Timeval.since listed-TreeLaws check_deferred defer_packet insert delete
sent_tree = (rw stops refl, refl, refl, rw stops refl)

waiting : IsQueue listed laws sent.world.defer
waiting = record {
  ordered = rw (sent_tree.0) (tt, tt);
  once = λ j. rw (sent_tree.0) (ground arith);
}

abbrev number : ℕ
number = (sent.world.defer.pkts 5).writer

stop_repeated_example :
    Repeats listed laws timers clock wtr 5 sent.packet sent.world.defer
    × (repeated.txbufs number ≡ pushed tx (9 ∷ []))
    × ((repeated.defer.pkts 5).n_cnt ≡ 0)
    × (times 5 (laws.items repeated.defer.tree) ≡ 0)
stop_repeated_example =
    stop_repeated listed laws timers (λ k. wtr) wtr 1 (λ k. tx) (Stats.init true) clock clock'
      packet world (room 5) refl refl (λ e. omega (arith, sent_tree.1, e)) (rw (sent_tree.2) stops)
      waiting (rw (sent_tree.0) (λ j h ne. absurd (ground (arith, h, ne)))) refl
      (ap (λ q. q.receiver) (sent_tree.2)) (sent_tree.3) (omega arith) (rw (sent_tree.2) stops)

init_loop_lem_example :
    let ready = init_loop on_time 3 4 2 world.defer.pkts in
    ((ready 5).writer ≡ 3)
    × ((ready 5).n_cnt ≡ 0)
    × ((ready 5).sent ≡ on_time 2)
    × ((ready 5).tv ≡ on_time 0)
    × (ready 6 ≡ world.defer.pkts 6)
init_loop_lem_example =
    init_loop_lem on_time 3 4 world.defer.pkts 2 6 1 (inr (omega arith)) (omega arith)

no_axis : Buffer → Ccpacket → Written
no_axis b p = record { count = 0; txbuf = b; packet = p }

served_lem_example : ((settings true no_axis pelco_d).callback tx packet).count ≡ 1
served_lem_example = served_lem true no_axis pelco_d (λ e. not_axis e) tx packet
  where
    not_axis : pelco_d ≢ axis
    not_axis e = ground arith
