-- ===== src/Joystick/Tests.antt =====
-- The theorems on src/joystick.c at concrete events.
use mn_protozoa.Base.{ℕ, ◌+◌, ◌<◌, ◌≤◌, ◌≡◌, ◌↔◌, refl, true, List, [], ◌∷◌, arith}
use mn_protozoa.Base.Int.{pos, negsuc, abs}
use mn_protozoa.Base.Run.{done}
use mn_protozoa.Buffer.Defs.{Buffer, available}
use mn_protozoa.Buffer.Inv.{IsValid}
use mn_protozoa.Ccpacket.Flags.{cc_preset_store, speed_max}
use mn_protozoa.Ccpacket.Packet.{Ccpacket, get_preset_mode}
use mn_protozoa.Ccreader.Nodes.{Ccreader}
use mn_protozoa.Ccreader.Writers.{Sent}
use mn_protozoa.Joystick.Events.{
  jevent_octets, jspeed_max, decode_speed, decode_pressed, decode_event, remap_speed,
}
use mn_protozoa.Joystick.Presets.{release_stores}
use mn_protozoa.Joystick.Read.{Events, do_read, joystick_do_read_total}
use mn_protozoa.Joystick.Speeds.{remap_speed_lem}

abbrev blank : Ccpacket
blank = record {
  receiver = pos 1;
  flags = 0;
  pan = pos 0;
  tilt = pos 0;
  preset = pos 0;
  expire = record { tv_sec = 0; tv_usec = 0 };
}

abbrev reader : Ccreader ℕ
reader = record { packet = blank; timeout = 30000; flags = 0; head = [] }

-- A client that counts the packets.
abbrev counting : Ccreader ℕ → ℕ → Sent ℕ
counting rdr k = record { res = 1; packet = rdr.packet; state = k + 1 }

-- The button of preset 2 is pressed, and a part of the next event.
abbrev pressed : Buffer
pressed = record { mem = 0 ∷ 0 ∷ 0 ∷ 0 ∷ 1 ∷ 0 ∷ 1 ∷ 7 ∷ 0 ∷ []; pin = 9; pout = 0 }

-- It is released.
abbrev release : List ℕ
release = 0 ∷ 0 ∷ 0 ∷ 0 ∷ 0 ∷ 0 ∷ 1 ∷ 7 ∷ []

pressed-IsValid : IsValid pressed
pressed-IsValid = record { ordered = omega arith; inside = omega arith }

joystick_do_read_total_example :
    (r' : Events ℕ) × (s' : ℕ) × (do_read counting reader pressed 0 ≡ done (r', s'))
    × IsValid r'.rxbuf
    × (available r'.rxbuf < jevent_octets)
    × (get_preset_mode r'.reader.packet ≡ 0)
joystick_do_read_total_example = joystick_do_read_total counting reader pressed 0 pressed-IsValid

release_stores_example :
    (r' : Events ℕ) × (s' : ℕ) × (do_read counting reader pressed 0 ≡ done (r', s'))
    × ((decode_event r'.reader release).0 ≡ true)
    × (get_preset_mode (decode_event r'.reader release).1.packet ≡ cc_preset_store)
    × ((decode_event r'.reader release).1.packet.preset ≡ pos 2)
release_stores_example =
    release_stores counting reader pressed 0 pressed-IsValid release 1 refl refl (omega arith)
      (unfold decode_pressed in refl)

-- A tilt up at the greatest value, and one beyond.
abbrev extreme : List ℕ
extreme = 0 ∷ 0 ∷ 0 ∷ 0 ∷ 0 ∷ 128 ∷ 2 ∷ 1 ∷ []

remap_speed_lem_example :
    (remap_speed (decode_speed extreme) ≤ speed_max)
    × (remap_speed (negsuc 99) ≤ remap_speed (decode_speed extreme))
    × (remap_speed (pos jspeed_max) ≡ speed_max)
    × ((remap_speed (negsuc 99) ≡ 0) ↔ (abs (negsuc 99) ≤ 16))
remap_speed_lem_example =
    remap_speed_lem extreme (negsuc 99) (omega arith) (omega arith)
      (unfold decode_speed in omega arith)
