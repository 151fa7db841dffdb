-- ===== src/Vicon/Tests.antt =====
-- The theorems on src/vicon.c at concrete packets and bytes.
use mn_protozoa.Base.{ℕ, ◌+◌, ◌++◌, ◌<◌, ◌≡◌, ◌⊎◌, true, refl, [], ◌∷◌, arith}
use mn_protozoa.Base.Int.{pos}
use mn_protozoa.Base.Run.{done}
use mn_protozoa.Buffer.Defs.{Buffer, available}
use mn_protozoa.Buffer.Inv.{IsValid}
use mn_protozoa.Ccpacket.Flags.{cc_pan_right, cc_tilt_up, cc_iris_auto, cc_focus_auto, cc_zoom_in}
use mn_protozoa.Ccpacket.Modes
use mn_protozoa.Ccpacket.Packet.{
  Ccpacket, get_pan_mode, get_tilt_mode, get_iris, get_focus, get_zoom, get_wiper, get_lens,
  get_ack, get_menu, get_preset_mode,
}
use mn_protozoa.Ccpacket.Queries.{has_pan, has_tilt}
use mn_protozoa.Ccreader.Reading.{Reading, output}
use mn_protozoa.Buffer.Queue.{contents}
use mn_protozoa.Vicon.Bits.{size_status}
use mn_protozoa.Vicon.Decode.{do_read, is_extended_command, extended_packet}
use mn_protozoa.Vicon.Encode.{do_write, is_extended_preset, is_extended_speed}
use mn_protozoa.Vicon.Message.{speed_bytes}
use mn_protozoa.Vicon.Received.{written_received}
use mn_protozoa.Vicon.Roundtrip.{speed_message_roundtrip}
use mn_protozoa.Vicon.Stream.{message_size, vicon_do_read_total}

abbrev blank : Ccpacket
blank = record {
  receiver = pos 0;
  flags = 0;
  pan = pos 0;
  tilt = pos 0;
  preset = pos 0;
  expire = record { tv_sec = 0; tv_usec = 0 };
}

abbrev moving : Ccpacket
moving = record {
  receiver = pos 37;
  flags = cc_pan_right + (cc_tilt_up + (cc_iris_auto + (cc_focus_auto + cc_zoom_in)));
  pan = pos 1500;
  tilt = pos 77;
  preset = pos 0;
  expire = record { tv_sec = 0; tv_usec = 0 };
}

abbrev decoded : Ccpacket
decoded = extended_packet blank (speed_bytes moving)

-- A status request behind a byte of garbage, and the beginning of a command.
abbrev noisy : Buffer
noisy = record { mem = 7 ∷ 128 ∷ 1 ∷ 129 ∷ 17 ∷ 0 ∷ []; pin = 6; pout = 0 }

-- A client that counts the packets.
abbrev counting : ℕ → Ccpacket → ℕ × Ccpacket
counting k p = (k + 1, p)

abbrev reading : Reading ℕ
reading = record { behind = 0; packet = blank; rxbuf = noisy }

vicon_do_read_total_example :
    (r' : Reading ℕ) × (do_read counting reading ≡ done r')
    × IsValid r'.rxbuf
    × ((available r'.rxbuf < size_status) ⊎ (available r'.rxbuf < message_size (output r'.rxbuf)))
vicon_do_read_total_example =
    vicon_do_read_total counting reading (record { ordered = omega arith; inside = omega arith })

speed_message_roundtrip_example :
    (is_extended_command (speed_bytes moving) ≡ true)
    × (decoded.receiver ≡ pos 37)
    × (decoded.pan ≡ pos 1500)
    × (decoded.tilt ≡ pos 77)
    × (get_pan_mode decoded ≡ cc_pan_right)
    × (get_tilt_mode decoded ≡ cc_tilt_up)
    × (get_iris decoded ≡ cc_iris_auto)
    × (get_focus decoded ≡ 0)
    × (get_zoom decoded ≡ cc_zoom_in)
    × (get_wiper decoded ≡ 0)
    × (get_lens decoded ≡ 0)
    × (get_ack decoded ≡ 0)
unfolding get_pan_mode get_tilt_mode get_iris get_focus get_zoom get_wiper get_lens get_ack has_pan
    has_tilt Modes.pan Modes.tilt Modes.iris Modes.focus Modes.zoom Modes.wiper Modes.lens Modes.ack
speed_message_roundtrip_example =
    speed_message_roundtrip moving blank refl 1500 77 refl (omega arith) refl (omega arith) 37 refl
      (omega arith)

-- A transmit buffer that holds two bytes and has space for twelve more.
abbrev sending : Buffer
sending = record {
  mem = 1 ∷ 2 ∷ 0 ∷ 0 ∷ 0 ∷ 0 ∷ 0 ∷ 0 ∷ 0 ∷ 0 ∷ 0 ∷ 0 ∷ 0 ∷ 0 ∷ [];
  pin = 2;
  pout = 0;
}

abbrev just_received : Buffer
just_received = record { mem = speed_bytes moving; pin = 10; pout = 0 }

abbrev emptied : Buffer
emptied = record { mem = speed_bytes moving; pin = 0; pout = 0 }

written_received_example :
    (contents (do_write sending moving).txbuf ≡ contents sending ++ speed_bytes moving)
    × (do_read counting (record { behind = 0; packet = blank; rxbuf = just_received })
        ≡ done (record { behind = 1; packet = decoded; rxbuf = emptied }))
unfolding get_menu Modes.menu is_extended_preset get_preset_mode Modes.preset is_extended_speed
    has_pan Modes.pan
written_received_example =
    written_received sending moving 36 refl (omega arith) refl refl refl counting 0 blank
      (record { ordered = omega arith; inside = omega arith }) (omega arith)
