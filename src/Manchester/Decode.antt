-- ===== src/Manchester/Decode.antt =====
-- The decoders of src/manchester.c. A message is the pointer that `buffer_output` gave: the bytes
-- from there on.
use mn_protozoa.Base.{
  ℕ, ◌+◌, ◌*◌, ◌/◌, ◌^◌, Bool, List, ◌==◌, get_or, bit_and, bit_or, nonzero, if◌then◌else◌,
}
use mn_protozoa.Base.Int.{pos, ◌-ℤ◌, nonzero_ℤ}
use mn_protozoa.Base.Run.{Run, done, ◌>>=◌}
use mn_protozoa.Bitarray.{byte_at}
use mn_protozoa.Buffer.Defs.{is_empty, consume}
use mn_protozoa.Ccpacket.Flags.{
  cc_pan_left, cc_pan_right, cc_tilt_up, cc_tilt_down, cc_iris_open, cc_iris_close, cc_focus_near,
  cc_focus_far, cc_zoom_in, cc_zoom_out, cc_camera_on, cc_camera_off, cc_preset_recall,
  cc_preset_store, cc_wiper_on, speed_max,
}
use mn_protozoa.Ccpacket.Packet.{
  Ccpacket, set_receiver, set_pan, set_tilt, set_iris, set_focus, set_zoom, set_camera, set_preset,
  set_wiper,
}
use mn_protozoa.Ccreader.Reading.{Decode, more, Reading, output, while_available}
use mn_protozoa.Manchester.Codes.{
  flag, pt_command, size_msg, speeds, tilt_down, tilt_up, pan_left, pan_right, ex_lens, ex_aux,
  ex_recall, ex_store, xl_tilt_down, xl_iris_open, xl_focus_far, xl_zoom_in, xl_iris_close,
  xl_focus_near, xl_zoom_out, xl_pan_left, ex_aux_full_up, ex_aux_full_right, ex_aux_1, ex_aux_4,
  ex_aux_6,
}

unfoldable pub is_pan_tilt_command : List ℕ → Bool
is_pan_tilt_command mess = nonzero (bit_and (byte_at mess 2) pt_command)

unfoldable pub decode_receiver : List ℕ → ℕ
decode_receiver mess =
    1
    + bit_or
        (bit_or (bit_and (byte_at mess 0) 0x0f * 2 ^ 6) (bit_and (byte_at mess 1) 0x01 * 2 ^ 5))
        (bit_and (byte_at mess 2 / 2 ^ 2) 0x1f)

unfoldable pub decode_command : List ℕ → ℕ
decode_command mess = bit_and (byte_at mess 1 / 2 ^ 4) 0x03

unfoldable pub pt_extra : List ℕ → ℕ
pt_extra mess = bit_and (byte_at mess 1 / 2 ^ 1) 0x07

-- The entry of the table of speeds.
abbrev pub speed_at : ℕ → ℕ
speed_at s = get_or speeds s 0

unfoldable pub decode_speed : List ℕ → ℕ
decode_speed mess = speed_at (pt_extra mess)

unfoldable pub decode_pan_tilt : Ccpacket → ℕ → ℕ → Ccpacket
decode_pan_tilt p cmnd speed =
    if cmnd == pan_left
    then set_pan p cc_pan_left (pos speed)
    else if cmnd == pan_right
    then set_pan p cc_pan_right (pos speed)
    else if cmnd == tilt_down
    then set_tilt p cc_tilt_down (pos speed)
    else if cmnd == tilt_up
    then set_tilt p cc_tilt_up (pos speed)
    else p

unfoldable pub decode_lens : Ccpacket → ℕ → Ccpacket
decode_lens p extra =
    if extra == xl_zoom_in
    then set_zoom p cc_zoom_in
    else if extra == xl_zoom_out
    then set_zoom p cc_zoom_out
    else if extra == xl_focus_far
    then set_focus p cc_focus_far
    else if extra == xl_focus_near
    then set_focus p cc_focus_near
    else if extra == xl_iris_open
    then set_iris p cc_iris_open
    else if extra == xl_iris_close
    then set_iris p cc_iris_close
    else if extra == xl_tilt_down
    then set_tilt p cc_tilt_down (pos speed_max)
    else if extra == xl_pan_left
    then set_pan p cc_pan_left (pos speed_max)
    else p

unfoldable pub decode_aux : Ccpacket → ℕ → Ccpacket
decode_aux p extra =
    if extra == ex_aux_full_up
    then set_tilt p cc_tilt_up (pos speed_max)
    else if extra == ex_aux_full_right
    then set_pan p cc_pan_right (pos speed_max)
    else if extra == ex_aux_1
    then set_camera p cc_camera_off
    else if extra == ex_aux_4
    then set_camera p cc_camera_on
    else if extra == ex_aux_6
    then set_wiper p cc_wiper_on
    else p

unfoldable pub decode_recall : Ccpacket → ℕ → Ccpacket
decode_recall p extra = set_preset p cc_preset_recall (pos (extra + 1))

unfoldable pub decode_extended : Ccpacket → ℕ → ℕ → Ccpacket
decode_extended p cmnd extra =
    if cmnd == ex_lens
    then decode_lens p extra
    else if cmnd == ex_aux
    then decode_aux p extra
    else if cmnd == ex_recall
    then decode_recall p extra
    else if cmnd == ex_store
    then set_preset p cc_preset_store (pos (extra + 1))
    else p

unfoldable pub decode_packet : Ccpacket → List ℕ → Ccpacket
decode_packet p mess =
    let cmnd = decode_command mess in
    if is_pan_tilt_command mess
    then decode_pan_tilt p cmnd (decode_speed mess)
    else decode_extended p cmnd (pt_extra mess)

-- `ccreader_process_packet` takes what stands behind the reader and the packet, and gives both back.
module _ {S : Type 0} (process_packet : S → Ccpacket → S × Ccpacket) where
  unfoldable pub process : Reading S → Reading S
  process r = let (s, p) = process_packet r.behind r.packet in record r { behind = s; packet = p }

  -- `ccpacket_get_receiver(rdr->packet) != receiver`
  abbrev pub other_receiver : Ccpacket → ℕ → Bool
  other_receiver p receiver = nonzero_ℤ (p.receiver -ℤ pos receiver)

  -- `manchester_decode_packet`
  unfoldable pub decode_into : Reading S → List ℕ → Reading S
  unfolding process
  decode_into r mess =
      let receiver = decode_receiver mess in
      let r' = if other_receiver r.packet receiver then process r else r in
      record r' { packet = decode_packet (set_receiver r'.packet (pos receiver)) mess }

  -- `manchester_read_message`, without its log.
  unfoldable pub read_message : Reading S → Run (Decode × Reading S)
  unfolding decode_into
  read_message r =
      let mess = output r.rxbuf in
      let unexpected = do b ← consume r.rxbuf 1; done (more, record r { rxbuf = b })
      in let r' = decode_into r mess in
        let accepted = do b ← consume r'.rxbuf size_msg; done (more, record r' { rxbuf = b })
        in if bit_and (byte_at mess 0) flag == 0 then unexpected else accepted

  -- `manchester_do_read`. A partial message in the buffer holds the packet back.
  unfoldable pub do_read : Reading S → Run (Reading S)
  do_read r = do
    r' ← while_available size_msg read_message r
    done (if is_empty r'.rxbuf then process r' else r')
