-- ===== src/Ccreader/Tests.antt =====
-- The theorems on src/ccreader.c at a concrete reader.
use mn_protozoa.Base.{ℕ, suc, ◌≡◌, ◌↔◌, refl, List, [], ◌∷◌, arith}
use mn_protozoa.Base.Int.{ℤ, pos, negsuc, ◌≤ℤ◌, ◌+ℤ◌}
use mn_protozoa.Timeval
use mn_protozoa.Timeval.{Timeval}
use mn_protozoa.Ccpacket.Packet.{Ccpacket, set_receiver}
use mn_protozoa.Ccreader.Nodes.{Ccnode, Ccreader, get_receiver, next_camera, previous_camera}
use mn_protozoa.Ccreader.Writers.{Sent, do_writers, process_packet}
use mn_protozoa.Ccreader.Addressing.{get_receiver_iff, camera_keys}
use mn_protozoa.Ccreader.Delivery.{do_writers-deliver, process_packet-deliver}

abbrev packet : Ccpacket
packet = record {
  receiver = pos 5;
  flags = 3;
  pan = pos 7;
  tilt = pos 0;
  preset = pos 0;
  expire = record { tv_sec = 0; tv_usec = 0 };
}

abbrev first : Ccnode ℕ
first = record { writer = 0; range_first = pos 1; range_last = pos 8; shift = pos 16 }

abbrev second : Ccnode ℕ
second = record { writer = 1; range_first = pos 6; range_last = pos 8; shift = pos 0 }

abbrev third : Ccnode ℕ
third = record { writer = 2; range_first = pos 1; range_last = pos 1024; shift = negsuc 0 }

abbrev rdr : Ccreader ℕ
rdr = record { packet = packet; timeout = 30; flags = 0; head = first ∷ second ∷ third ∷ [] }

-- Writers that record what they got.
abbrev recording : ℕ → Ccpacket → List (ℕ × ℤ) → Sent (List (ℕ × ℤ))
recording w p s = record { res = 1; packet = p; state = (w, p.receiver) ∷ s }

do_writers-deliver_example :
    do_writers recording rdr []
    ≡ record { res = 2; packet = packet; state = (2, pos 4) ∷ (0, pos 21) ∷ [] }
unfolding get_receiver set_receiver
do_writers-deliver_example = do_writers-deliver recording (λ w p s. refl) rdr []

get_receiver_iff_example :
    (pos 0 ≤ℤ get_receiver first (pos 5))
    × ((get_receiver first (pos 5) ≡ pos (suc 20))
        ↔ (pos 1 ≤ℤ pos 5) × (pos 5 ≤ℤ pos 8) × (pos 5 +ℤ pos 16 ≡ pos (suc 20)))
get_receiver_iff_example = get_receiver_iff first (pos 5) 20

camera_keys_example :
    ((next_camera rdr).packet.receiver ≡ pos 6) × (previous_camera (next_camera rdr) ≡ rdr)
camera_keys_example = camera_keys rdr 5 refl (omega arith)

-- Statistics that record the receiver of the packet, and a clock that stands still.
abbrev counted : Ccpacket → List (ℕ × ℤ) → List (ℕ × ℤ)
counted p s = (9, p.receiver) ∷ s

abbrev clock : List (ℕ × ℤ) → Timeval × List (ℕ × ℤ)
clock s = (record { tv_sec = 3; tv_usec = 0 }, s)

process_packet-deliver_example : process_packet recording counted clock rdr [] ≡ record {
  res = 2;
  packet = record {
    receiver = pos 0;
    flags = 0;
    pan = pos 0;
    tilt = pos 0;
    preset = pos 0;
    expire = record { tv_sec = 3; tv_usec = 30000 };
  };
  state = (2, pos 4) ∷ (0, pos 21) ∷ (9, pos 5) ∷ [];
}
unfolding get_receiver set_receiver Timeval.adjust
process_packet-deliver_example =
    process_packet-deliver recording (λ w p s. refl) counted clock rdr []
