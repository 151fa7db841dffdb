-- ===== src/PelcoP/Tests.antt =====
-- The theorems on src/pelco_p.c at concrete bytes.
use mn_protozoa.Base.{ℕ, ◌+◌, ◌<◌, ◌≡◌, refl, true, [], ◌∷◌, arith, bit_or}
use mn_protozoa.Base.Int.{pos, ◌≤ℤ◌}
use mn_protozoa.Base.Run.{done}
use mn_protozoa.Buffer.Defs.{Buffer, available}
use mn_protozoa.Buffer.Inv.{IsValid}
use mn_protozoa.Ccpacket.Flags.{
  speed_max, cc_pan_right, cc_tilt_up, cc_iris_open, cc_focus_near, cc_zoom_in, cc_camera_on,
}
use mn_protozoa.Ccpacket.Modes
use mn_protozoa.Ccpacket.Queries.{has_pan}
use mn_protozoa.Ccpacket.Packet.{
  Ccpacket, get_pan_mode, get_tilt_mode, get_iris, get_focus, get_zoom, get_camera,
}
use mn_protozoa.Ccreader.Reading.{Reading}
use mn_protozoa.PelcoP.Bits.{size_msg, pt_deadzone}
use mn_protozoa.PelcoP.Decode.{decode_speed, decode_command, checksum_is_valid, do_read}
use mn_protozoa.PelcoP.Encode.{encode_speed, encode_pan_speed}
use mn_protozoa.PelcoP.Message.{command_bytes}
use mn_protozoa.PelcoP.Roundtrip.{command_carried}
use mn_protozoa.PelcoP.Speed.{deadzone_scale}
use mn_protozoa.PelcoP.Stream.{pelco_p_do_read_total}

abbrev blank : Ccpacket
blank = record {
  receiver = pos 0;
  flags = 0;
  pan = pos 0;
  tilt = pos 0;
  preset = pos 0;
  expire = record { tv_sec = 0; tv_usec = 0 };
}

-- A stop for receiver 1 behind a byte of garbage.
abbrev noisy : Buffer
noisy = record { mem = 7 ∷ 160 ∷ 1 ∷ 0 ∷ 0 ∷ 0 ∷ 0 ∷ 175 ∷ 14 ∷ []; pin = 9; pout = 0 }

-- A client that counts the packets.
abbrev counting : ℕ → Ccpacket → ℕ × Ccpacket
counting k p = (k + 1, p)

abbrev reading : Reading ℕ
reading = record { behind = 0; packet = blank; rxbuf = noisy }

pelco_p_do_read_total_example :
    (r' : Reading ℕ) × (do_read counting pt_deadzone reading ≡ done r')
    × IsValid r'.rxbuf
    × (available r'.rxbuf < size_msg)
pelco_p_do_read_total_example =
    pelco_p_do_read_total counting pt_deadzone reading
      (record { ordered = omega arith; inside = omega arith })

deadzone_scale_example :
    (decode_speed 3 pt_deadzone ≡ pos 0)
    × (decode_speed 64 pt_deadzone ≡ pos speed_max)
    × (decode_speed 7 pt_deadzone ≤ℤ decode_speed 32 pt_deadzone)
    × (decode_speed 32 pt_deadzone ≤ℤ pos speed_max)
deadzone_scale_example = deadzone_scale 3 7 32 (omega arith) (omega arith)

-- Right at speed 1000 and up at speed 500, with some lens functions, for receiver 5.
abbrev moving : Ccpacket
moving = record blank {
  receiver = pos 5;
  flags = bit_or cc_pan_right (
      bit_or cc_tilt_up
        (bit_or cc_iris_open (bit_or cc_focus_near (bit_or cc_zoom_in cc_camera_on))));
  pan = pos 1000;
  tilt = pos 500;
}

abbrev decoded : Ccpacket
decoded = decode_command 0 blank (command_bytes moving)

command_carried_example :
    (checksum_is_valid (command_bytes moving) ≡ true)
    × (decoded.receiver ≡ pos 5)
    × (get_pan_mode decoded ≡ cc_pan_right)
    × (decoded.pan ≡ pos 992)
    × (get_tilt_mode decoded ≡ cc_tilt_up)
    × (decoded.tilt ≡ pos 512)
    × (get_iris decoded ≡ cc_iris_open)
    × (get_focus decoded ≡ cc_focus_near)
    × (get_zoom decoded ≡ cc_zoom_in)
    × (get_camera decoded ≡ cc_camera_on)
unfolding get_pan_mode get_tilt_mode get_iris get_focus get_zoom get_camera Modes.pan Modes.tilt
    Modes.iris Modes.focus Modes.zoom Modes.camera has_pan decode_speed encode_speed
    encode_pan_speed
command_carried_example = command_carried moving blank refl 0 5 refl (omega arith)
