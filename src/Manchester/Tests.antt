-- ===== src/Manchester/Tests.antt =====
-- The theorems on src/manchester.c at concrete packets and bytes.
use mn_protozoa.Base.{
  ℕ, ◌+◌, ◌≤◌, ◌<◌, ◌≡◌, ◌++◌, List, length, bit_and, inl, refl, [], ◌∷◌, arith, bit_or, replicate,
}
use mn_protozoa.Base.Int.{pos}
use mn_protozoa.Base.Run.{done}
use mn_protozoa.Buffer.Defs.{Buffer, available}
use mn_protozoa.Bitarray.{byte_at}
use mn_protozoa.Buffer.Queue.{contents}
use mn_protozoa.Buffer.Inv.{IsValid}
use mn_protozoa.Ccpacket.Flags.{
  cc_pan_right, cc_tilt_down, cc_iris_open, cc_focus_near, cc_zoom_in, cc_camera_on,
  cc_preset_recall,
}
use mn_protozoa.Ccpacket.Modes
use mn_protozoa.Ccpacket.Packet.{Ccpacket, get_preset_mode, set_preset}
use mn_protozoa.Ccreader.Reading.{Reading}
use mn_protozoa.Manchester.Codes.{size_msg, flag}
use mn_protozoa.Manchester.Decode.{do_read, speed_at, decode_receiver, decode_packet}
use mn_protozoa.Manchester.Encode.{encode_speed, encode_preset}
use mn_protozoa.Manchester.Sending.{preset, encoder-Sent}
use mn_protozoa.Manchester.Speed.{encode_speed_least}
use mn_protozoa.Manchester.Stream.{manchester_do_read_total}

abbrev blank : Ccpacket
blank = record {
  receiver = pos 0;
  flags = 0;
  pan = pos 0;
  tilt = pos 0;
  preset = pos 0;
  expire = record { tv_sec = 0; tv_usec = 0 };
}

-- Right at full speed and down at speed 500, with some lens functions, for receiver 700.
abbrev moving : Ccpacket
moving = record {
  receiver = pos 700;
  flags = bit_or cc_pan_right (
      bit_or cc_tilt_down (
        bit_or cc_iris_open
          (bit_or cc_focus_near (bit_or cc_zoom_in (bit_or cc_camera_on cc_preset_recall)))));
  pan = pos 2000;
  tilt = pos 500;
  preset = pos 8;
  expire = record { tv_sec = 0; tv_usec = 0 };
}

-- A transmit buffer of eight bytes.
abbrev tx : Buffer
tx = record { mem = replicate 8 0; pin = 2; pout = 1 }

-- A byte that begins no message, and two messages for receiver 1.
abbrev noisy : Buffer
noisy = record { mem = 7 ∷ 128 ∷ 2 ∷ 2 ∷ 128 ∷ 18 ∷ 2 ∷ []; pin = 7; pout = 0 }

-- A client that counts the packets.
abbrev counting : ℕ → Ccpacket → ℕ × Ccpacket
counting k p = (k + 1, p)

abbrev reading : Reading ℕ
reading = record { behind = 0; packet = blank; rxbuf = noisy }

encoder-Sent_example :
    (mess : List ℕ) × (contents (encode_preset tx moving) ≡ contents tx ++ mess)
    × (length mess ≡ size_msg)
    × (bit_and (byte_at mess 0) flag ≡ 128)
    × (decode_receiver mess ≡ 700)
    × (decode_packet blank mess ≡ set_preset blank (get_preset_mode moving) (pos 8))
encoder-Sent_example =
    encoder-Sent tx moving blank 699 (record { ordered = omega arith; inside = omega arith })
      (omega arith) refl (omega arith) preset
      (8, refl, omega arith, omega arith, inl (unfold get_preset_mode Modes.preset in refl))

encode_speed_least_example :
    (encode_speed (pos 300) ≤ 7)
    × (300 ≤ speed_at (encode_speed (pos 300)))
    × ((s : ℕ) → s < encode_speed (pos 300) → speed_at s < 300)
encode_speed_least_example = encode_speed_least 300 (omega arith)

manchester_do_read_total_example :
    (r' : Reading ℕ) × (do_read counting reading ≡ done r')
    × IsValid r'.rxbuf
    × (available r'.rxbuf < size_msg)
manchester_do_read_total_example =
    manchester_do_read_total counting reading
      (record { ordered = omega arith; inside = omega arith })
