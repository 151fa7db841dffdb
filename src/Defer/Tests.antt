-- ===== src/Defer/Tests.antt =====
-- The theorem on src/defer.c at concrete packets.
use mn_protozoa.Base.{ℕ, ◌+◌, refl, inl, some, List, [], ◌∷◌, arith}
use mn_protozoa.Base.Int.{pos}
use mn_protozoa.Timeval
use mn_protozoa.Timeval.{Timeval}
use mn_protozoa.Timer.{Timers}
use mn_protozoa.Ccpacket.Packet.{Ccpacket}
use mn_protozoa.Defer.Engine.{DeferredPkt, Defer, defer_packet}
use mn_protozoa.Defer.Listed.{listed, listed-TreeLaws}
use mn_protozoa.Defer.Order.{IsQueue, defer_packet-IsQueue}

abbrev packet : Ccpacket
packet = record {
  receiver = pos 1;
  flags = 0;
  pan = pos 0;
  tilt = pos 0;
  preset = pos 0;
  expire = record { tv_sec = 0; tv_usec = 0 };
}

abbrev at : ℕ → Timeval
at sec = record { tv_sec = sec; tv_usec = 0 }

-- The packet at `i` is to be sent `i` seconds after the start.
abbrev waiting : ℕ → DeferredPkt
waiting i = record { writer = 0; tv = at i; sent = at 0; packet = packet; n_cnt = 0 }

-- A system that counts what it is asked.
abbrev timers : Timers ℕ
timers = record {
  read_pipe = λ s. (pos 1, s + 1);
  write_pipe = λ s. (pos 1, s + 1);
  setitimer = λ tv s. (pos 0, s + 1);
}

abbrev queue : Defer (List ℕ) ℕ
queue = record { tree = 2 ∷ 3 ∷ 5 ∷ []; pkts = waiting; system = 0 }

queue-IsQueue : IsQueue listed listed-TreeLaws queue
unfolding Timeval.compare listed-TreeLaws
queue-IsQueue = record {
  ordered = ((inl refl, (inl refl, tt)), ((inl refl, tt), (tt, tt)));
  once = λ j. ground arith;
}

defer_packet-IsQueue_example :
    IsQueue listed listed-TreeLaws
      (defer_packet listed timers (at 4) (at 4) queue 3 (some packet) 500).1
defer_packet-IsQueue_example =
    defer_packet-IsQueue listed listed-TreeLaws timers queue 3 queue-IsQueue
      (unfold Timeval.compare listed-TreeLaws in (λ j h ne. ground (arith, h, ne))) (at 4) (at 4)
      (some packet) 500
