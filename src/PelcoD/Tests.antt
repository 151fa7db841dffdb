-- ===== src/PelcoD/Tests.antt =====
-- The theorems on src/pelco_d.c at concrete packets and bytes.
use mn_protozoa.Base.{ℕ, ◌+◌, ◌<◌, ◌≡◌, refl, true, false, set, List, [], ◌∷◌, arith, bit_or}
use mn_protozoa.Base.Int.{pos, ◌≤ℤ◌}
use mn_protozoa.Bitarray.{byte_at}
use mn_protozoa.Base.Run.{done}
use mn_protozoa.Buffer.Defs.{Buffer, available}
use mn_protozoa.Buffer.Inv.{IsValid}
use mn_protozoa.Ccpacket.Flags.{
  cc_pan_right, cc_tilt_up, cc_iris_open, cc_focus_near, cc_zoom_in, cc_camera_on, cc_preset_recall,
  cc_wiper_on,
}
use mn_protozoa.Ccpacket.Group.{Group, get_mode}
use mn_protozoa.Ccpacket.Modes
use mn_protozoa.Ccpacket.Packet.{
  Ccpacket, get_pan_mode, get_tilt_mode, get_iris, get_focus, get_zoom, get_camera, set_receiver,
  set_wiper, get_preset_mode, get_wiper,
}
use mn_protozoa.Ccpacket.Queries.{has_pan}
use mn_protozoa.Ccreader.Reading.{Reading}
use mn_protozoa.PelcoD.Bits.{message_size}
use mn_protozoa.PelcoD.Decode.{
  decode_command, decode_speed, extended_packet, checksum_is_valid, do_read,
}
use mn_protozoa.PelcoD.Encode.{encode_speed, encode_pan_speed, encode_checksum}
use mn_protozoa.PelcoD.Extended.{preset_bytes, wiper_bytes, preset_roundtrip, wiper_roundtrip}
use mn_protozoa.PelcoD.Detection.{checksum_filled}
use mn_protozoa.PelcoD.Message.{command_bytes}
use mn_protozoa.PelcoD.Roundtrip.{command_roundtrip}
use mn_protozoa.PelcoD.Speed.{speed_error, encode-decode_speed}
use mn_protozoa.PelcoD.Stream.{pelco_d_do_read_total}
use mn_protozoa.Timeval.{Timeval}

abbrev start : Timeval
start = record { tv_sec = 0; tv_usec = 0 }

abbrev blank : Ccpacket
blank = record {
  receiver = pos 0;
  flags = 0;
  pan = pos 0;
  tilt = pos 0;
  preset = pos 0;
  expire = start;
}

-- Right at speed 1000 and up at speed 500, with some lens functions, for receiver 5.
abbrev moving : Ccpacket
moving = record {
  receiver = pos 5;
  flags = bit_or cc_pan_right (
      bit_or cc_tilt_up
        (bit_or cc_iris_open (bit_or cc_focus_near (bit_or cc_zoom_in cc_camera_on))));
  pan = pos 1000;
  tilt = pos 500;
  preset = pos 0;
  expire = start;
}

abbrev recalling : Ccpacket
recalling = record blank { receiver = pos 5; flags = cc_preset_recall; preset = pos 12 }

abbrev wiping : Ccpacket
wiping = record blank { receiver = pos 5; flags = cc_wiper_on }

-- A stop for receiver 1 behind a byte of garbage.
abbrev noisy : Buffer
noisy = record { mem = 7 ∷ 255 ∷ 1 ∷ 0 ∷ 0 ∷ 0 ∷ 0 ∷ 1 ∷ []; pin = 8; pout = 0 }

-- A client that counts the packets.
abbrev counting : ℕ → Ccpacket → ℕ × Ccpacket
counting k p = (k + 1, p)

abbrev reading : Reading ℕ
reading = record { behind = 0; packet = blank; rxbuf = noisy }

abbrev decoded : Ccpacket
decoded = decode_command blank (command_bytes moving)

command_roundtrip_example :
    (decoded.receiver ≡ pos 5)
    × (get_pan_mode decoded ≡ cc_pan_right)
    × (decoded.pan ≡ pos 992)
    × (get_tilt_mode decoded ≡ cc_tilt_up)
    × (decoded.tilt ≡ pos 512)
    × (get_iris decoded ≡ cc_iris_open)
    × (get_focus decoded ≡ cc_focus_near)
    × (get_zoom decoded ≡ cc_zoom_in)
    × (get_camera decoded ≡ cc_camera_on)
unfolding get_pan_mode get_tilt_mode get_iris get_focus get_zoom get_camera Modes.pan Modes.tilt
    Modes.iris Modes.focus Modes.zoom Modes.camera has_pan decode_speed encode_speed
    encode_pan_speed
command_roundtrip_example = command_roundtrip moving blank refl 5 refl (omega arith)

preset_roundtrip_example :
    let r = extended_packet moving (preset_bytes recalling) in
    (r.receiver ≡ pos 5)
    × (get_preset_mode r ≡ get_preset_mode recalling)
    × (r.preset ≡ pos 12)
    × ((g : Group) → get_mode g r ≡ get_mode g moving)
preset_roundtrip_example =
    preset_roundtrip recalling moving 5 12 refl (omega arith) refl (omega arith)
      (unfold get_preset_mode Modes.preset in (λ e. omega (arith, e)))
      (unfold get_preset_mode Modes.preset in refl)

wiper_roundtrip_example :
    extended_packet moving (wiper_bytes wiping)
    ≡ set_wiper (set_receiver moving (pos 5)) (get_wiper wiping)
wiper_roundtrip_example =
    wiper_roundtrip wiping moving 5 refl (omega arith)
      (unfold get_wiper Modes.wiper in (λ e. omega (arith, e)))

-- A pan to the right, with the checksum filled in, and with another pan speed.
abbrev filled : List ℕ
filled = encode_checksum (255 ∷ 1 ∷ 0 ∷ 2 ∷ 32 ∷ 0 ∷ 0 ∷ [])

checksum_filled_example :
    (byte_at filled 6 ≡ 35)
    × (checksum_is_valid filled ≡ true)
    × (checksum_is_valid (set filled 4 33) ≡ false)
checksum_filled_example =
    checksum_filled (255 ∷ 1 ∷ 0 ∷ 2 ∷ 32 ∷ 0 ∷ 0 ∷ []) 4 33 refl (omega arith) (omega arith)
      (unfold encode_checksum in omega arith) (omega arith)
      (unfold encode_checksum in λ e. omega (arith, e))

speed_error_example :
    (pos 992 ≤ℤ pos 1023) × (pos 1000 ≤ℤ pos 1015) × (pos 992 ≤ℤ pos 1031) × (pos 1000 ≤ℤ pos 1023)
unfolding decode_speed encode_pan_speed encode_speed
speed_error_example = speed_error 1000 (omega arith)

encode-decode_speed_example :
    (encode_pan_speed (decode_speed 64) ≡ pos 64) × (encode_speed (decode_speed 64) ≡ pos 63)
encode-decode_speed_example = encode-decode_speed 64

pelco_d_do_read_total_example :
    (r' : Reading ℕ) × (do_read counting reading ≡ done r')
    × IsValid r'.rxbuf
    × (available r'.rxbuf < message_size)
pelco_d_do_read_total_example =
    pelco_d_do_read_total counting reading (record { ordered = omega arith; inside = omega arith })
