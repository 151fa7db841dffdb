-- ===== src/Vicon/Decode.antt =====
-- The decoders of src/vicon.c. A message is the pointer that `buffer_output` gave: the bytes from
-- there on.
use mn_protozoa.Base.{ℕ, ◌*◌, ◌^◌, Bool, ◌&&◌, List, ◌==◌, bit_and, bit_or, ltb, if◌then◌else◌}
use mn_protozoa.Base.Int.{pos}
use mn_protozoa.Base.Run.{Run, done, ◌>>=◌}
use mn_protozoa.Bitarray.{byte_at, bit_is_set}
use mn_protozoa.Buffer.Defs.{available, consume}
use mn_protozoa.Ccpacket.Flags.{
  cc_pan_left, cc_pan_right, cc_pan_auto, cc_tilt_up, cc_tilt_down, cc_iris_open, cc_iris_close,
  cc_iris_auto, cc_focus_near, cc_focus_far, cc_zoom_in, cc_zoom_out, cc_preset_recall,
  cc_preset_store, cc_wiper_on, cc_ack_alarm, cc_lens_speed, speed_max,
}
use mn_protozoa.Ccpacket.Packet.{
  Ccpacket, set_receiver, set_pan, set_tilt, set_iris, set_focus, set_zoom, set_ack, set_lens,
  set_preset, set_wiper, set_pan_speed, set_tilt_speed,
}
use mn_protozoa.Ccreader.Reading.{Decode, more, finished, Reading, output, while_available}
use mn_protozoa.Vicon.Bits.{
  flag, size_status, size_command, size_extended, bit_command, bit_ack_alarm, bit_extended,
  bit_auto_iris, bit_auto_pan, bit_tilt_down, bit_tilt_up, bit_pan_right, bit_pan_left,
  bit_lens_speed, bit_iris_close, bit_iris_open, bit_focus_near, bit_focus_far, bit_zoom_in,
  bit_zoom_out, bit_aux_6, bit_recall, bit_store, bit_ex_store, bit_ex_status, bit_ex_request,
}

unfoldable pub decode_receiver : Ccpacket → List ℕ → Ccpacket
decode_receiver p mess =
    set_receiver p
      (pos (bit_or (bit_and (byte_at mess 0) 0x0f * 2 ^ 4) (bit_and (byte_at mess 1) 0x0f)))

unfoldable pub is_command : List ℕ → Bool
is_command mess = bit_is_set mess bit_command

unfoldable pub is_extended_command : List ℕ → Bool
is_extended_command mess = bit_is_set mess bit_command && bit_is_set mess bit_extended

unfoldable pub decode_pan : Ccpacket → List ℕ → Ccpacket
decode_pan p mess =
    if bit_is_set mess bit_pan_right
    then set_pan p cc_pan_right (pos speed_max)
    else if bit_is_set mess bit_pan_left
    then set_pan p cc_pan_left (pos speed_max)
    else set_pan p cc_pan_left (pos 0)

unfoldable pub decode_tilt : Ccpacket → List ℕ → Ccpacket
decode_tilt p mess =
    if bit_is_set mess bit_tilt_up
    then set_tilt p cc_tilt_up (pos speed_max)
    else if bit_is_set mess bit_tilt_down
    then set_tilt p cc_tilt_down (pos speed_max)
    else set_tilt p cc_tilt_down (pos 0)

-- The three parts of `decode_lens`.
unfoldable pub decode_iris : Ccpacket → List ℕ → Ccpacket
decode_iris p mess =
    if bit_is_set mess bit_iris_open
    then set_iris p cc_iris_open
    else if bit_is_set mess bit_iris_close
    then set_iris p cc_iris_close
    else p

unfoldable pub decode_focus : Ccpacket → List ℕ → Ccpacket
decode_focus p mess =
    if bit_is_set mess bit_focus_near
    then set_focus p cc_focus_near
    else if bit_is_set mess bit_focus_far
    then set_focus p cc_focus_far
    else p

unfoldable pub decode_zoom : Ccpacket → List ℕ → Ccpacket
decode_zoom p mess =
    if bit_is_set mess bit_zoom_in
    then set_zoom p cc_zoom_in
    else if bit_is_set mess bit_zoom_out
    then set_zoom p cc_zoom_out
    else p

unfoldable pub decode_lens : Ccpacket → List ℕ → Ccpacket
decode_lens p mess = decode_zoom (decode_focus (decode_iris p mess) mess) mess

unfoldable pub decode_toggles : Ccpacket → List ℕ → Ccpacket
decode_toggles p mess =
    let acked = if bit_is_set mess bit_ack_alarm then set_ack p cc_ack_alarm else p in
    let irised = if bit_is_set mess bit_auto_iris then set_iris acked cc_iris_auto else acked in
    let panned =
      if bit_is_set mess bit_auto_pan then set_pan irised cc_pan_auto (pos 0) else irised in
    if bit_is_set mess bit_lens_speed then set_lens panned cc_lens_speed else panned

unfoldable pub decode_aux : Ccpacket → List ℕ → Ccpacket
decode_aux p mess = if bit_is_set mess bit_aux_6 then set_wiper p cc_wiper_on else p

unfoldable pub decode_preset : Ccpacket → List ℕ → Ccpacket
decode_preset p mess =
    let p_num = pos (bit_and (byte_at mess 5) 0x0f) in
    if bit_is_set mess bit_recall
    then set_preset p cc_preset_recall p_num
    else if bit_is_set mess bit_store
    then set_preset p cc_preset_store p_num
    else p

unfoldable pub decode_ex_speed : Ccpacket → List ℕ → Ccpacket
decode_ex_speed p mess =
    let pan = bit_or (bit_and (byte_at mess 6) 0x0f * 2 ^ 7) (bit_and (byte_at mess 7) 0x7f) in
    let tilt = bit_or (bit_and (byte_at mess 8) 0x0f * 2 ^ 7) (bit_and (byte_at mess 9) 0x7f) in
    set_tilt_speed (set_pan_speed p (pos pan)) (pos tilt)

-- `decode_ex_status` ignores the message.
unfoldable pub decode_ex_status : Ccpacket → List ℕ → Ccpacket
decode_ex_status p mess = p

unfoldable pub decode_ex_preset : Ccpacket → List ℕ → Ccpacket
decode_ex_preset p mess =
    let p_num = pos (bit_and (byte_at mess 7) 0x7f) in
    let pan = bit_and (byte_at mess 8) 0x7f in
    let tilt = bit_and (byte_at mess 9) 0x7f in
    let mode = if bit_is_set mess bit_ex_store then cc_preset_store else cc_preset_recall in
    set_tilt_speed (set_pan_speed (set_preset p mode p_num) (pos pan)) (pos tilt)

-- The parts that the command and the extended message share, from `decode_receiver` to
-- `decode_preset`.
unfoldable pub decode_parts : Ccpacket → List ℕ → Ccpacket
decode_parts p mess =
    let moved = decode_tilt (decode_pan (decode_receiver p mess) mess) mess in
    decode_preset (decode_aux (decode_toggles (decode_lens moved mess) mess) mess) mess

-- The packet that `vicon_decode_extended` hands over.
unfoldable pub extended_packet : Ccpacket → List ℕ → Ccpacket
extended_packet p mess =
    let q = decode_parts p mess in
    if bit_is_set mess bit_ex_request
    then if bit_is_set mess bit_ex_status then decode_ex_status q mess else decode_ex_preset q mess
    else decode_ex_speed q mess

-- `ccreader_process_packet` takes what stands behind the reader and the packet, and gives both back.
module _ {S : Type 0} (process_packet : S → Ccpacket → S × Ccpacket) where
  unfoldable pub process : Reading S → Decode × Reading S
  process r =
      let (s, p) = process_packet r.behind r.packet in (more, record r { behind = s; packet = p })

  -- A message of `size` bytes: if they have come, the packet is decoded, the message consumed and
  -- the packet processed.
  unfoldable pub decode_sized :
      (size : ℕ) → (Ccpacket → Ccpacket) → Reading S → Run (Decode × Reading S)
  unfolding process
  decode_sized size decode r =
      let whole = do
        b ← consume r.rxbuf size
        done (process (record r { packet = decode r.packet; rxbuf = b }))
      in if ltb (available r.rxbuf) size then done (finished, r) else whole

  -- `vicon_decode_extended` and `vicon_decode_command`
  unfoldable pub decode_extended : List ℕ → Reading S → Run (Decode × Reading S)
  unfolding decode_sized
  decode_extended mess r = decode_sized size_extended (λ p. extended_packet p mess) r

  unfoldable pub decode_command : List ℕ → Reading S → Run (Decode × Reading S)
  unfolding decode_sized
  decode_command mess r = decode_sized size_command (λ p. decode_parts p mess) r

  -- `buffer_consume`, and more to decode.
  unfoldable pub skip : ℕ → Reading S → Run (Decode × Reading S)
  skip n r = do b ← consume r.rxbuf n; done (more, record r { rxbuf = b })

  -- `vicon_decode_status`
  unfoldable pub decode_status : Reading S → Run (Decode × Reading S)
  unfolding skip
  decode_status r =
      let skipped = skip size_status r in
      if ltb (available r.rxbuf) size_status then done (finished, r) else skipped

  -- `vicon_decode_message`, without its log.
  unfoldable pub decode_message : Reading S → Run (Decode × Reading S)
  decode_message r =
      let mess = output r.rxbuf in
      if bit_and (byte_at mess 0) flag == 0
      then skip 1 r
      else if is_extended_command mess
      then decode_extended mess r
      else if is_command mess
      then decode_command mess r
      else decode_status r

  -- `vicon_do_read`
  unfoldable pub do_read : Reading S → Run (Reading S)
  do_read = while_available size_status decode_message
