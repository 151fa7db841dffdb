-- ===== src/PelcoD/Decode.antt =====
-- The decoders of src/pelco_d.c. A message is the pointer that `buffer_output` gave: the bytes
-- from there on.
use mn_protozoa.Base.{
  ℕ, zero, suc, ◌+◌, ◌-◌, ◌*◌, ◌/◌, ◌^◌, Bool, not, List, ◌==◌, bit_and, ltb, if◌then◌else◌,
}
use mn_protozoa.Base.Int.{ℤ, pos}
use mn_protozoa.Base.Run.{Run, done, ◌>>=◌}
use mn_protozoa.Bitarray.{byte_at, bit_is_set}
use mn_protozoa.Buffer.Defs.{available, consume}
use mn_protozoa.Ccpacket.Flags.{
  cc_pan_left, cc_pan_right, cc_pan_auto, cc_pan_manual, cc_tilt_up, cc_tilt_down, cc_iris_open,
  cc_iris_close, cc_focus_near, cc_focus_far, cc_zoom_in, cc_zoom_out, cc_camera_on, cc_camera_off,
  cc_preset_recall, cc_preset_store, cc_preset_clear, cc_wiper_on, cc_wiper_off, speed_max,
}
use mn_protozoa.Ccpacket.Packet.{
  Ccpacket, set_receiver, set_pan, set_tilt, set_iris, set_focus, set_zoom, set_camera, set_preset,
  set_wiper,
}
use mn_protozoa.Ccreader.Reading.{Decode, more, Reading, output, while_available}
use mn_protozoa.PelcoD.Bits.{
  flag, message_size, bit_focus_near, bit_iris_open, bit_iris_close, bit_camera_on_off,
  bit_auto_pan, bit_sense, bit_extended, bit_pan_right, bit_pan_left, bit_tilt_up, bit_tilt_down,
  bit_zoom_in, bit_zoom_out, bit_focus_far, ex_store, ex_clear, ex_recall, ex_aux_set, ex_aux_clear,
  ex_aux_wiper,
}
use mn_protozoa.PelcoD.Checksum.{calculate_checksum}

unfoldable pub decode_receiver : Ccpacket → List ℕ → Ccpacket
decode_receiver p mess = set_receiver p (pos (byte_at mess 1))

unfoldable pub decode_speed : ℕ → ℤ
decode_speed val =
    let speed = val * 2 ^ 5 in if ltb speed_max speed then pos speed_max else pos speed

unfoldable pub decode_pan : Ccpacket → List ℕ → Ccpacket
decode_pan p mess =
    let pan = decode_speed (byte_at mess 4) in
    if bit_is_set mess bit_pan_right
    then set_pan p cc_pan_right pan
    else if bit_is_set mess bit_pan_left
    then set_pan p cc_pan_left pan
    else set_pan p cc_pan_left (pos 0)

unfoldable pub decode_tilt : Ccpacket → List ℕ → Ccpacket
decode_tilt p mess =
    let tilt = decode_speed (byte_at mess 5) in
    if bit_is_set mess bit_tilt_up
    then set_tilt p cc_tilt_up tilt
    else if bit_is_set mess bit_tilt_down
    then set_tilt p cc_tilt_down tilt
    else set_tilt p cc_tilt_down (pos 0)

-- The three parts of `decode_lens`.
unfoldable pub decode_iris : Ccpacket → List ℕ → Ccpacket
decode_iris p mess =
    if bit_is_set mess bit_iris_open
    then set_iris p cc_iris_open
    else if bit_is_set mess bit_iris_close
    then set_iris p cc_iris_close
    else p

unfoldable pub decode_focus : Ccpacket → List ℕ → Ccpacket
decode_focus p mess =
    if bit_is_set mess bit_focus_near
    then set_focus p cc_focus_near
    else if bit_is_set mess bit_focus_far
    then set_focus p cc_focus_far
    else p

unfoldable pub decode_zoom : Ccpacket → List ℕ → Ccpacket
decode_zoom p mess =
    if bit_is_set mess bit_zoom_in
    then set_zoom p cc_zoom_in
    else if bit_is_set mess bit_zoom_out
    then set_zoom p cc_zoom_out
    else p

unfoldable pub decode_lens : Ccpacket → List ℕ → Ccpacket
decode_lens p mess = decode_zoom (decode_focus (decode_iris p mess) mess) mess

unfoldable pub decode_sense : Ccpacket → List ℕ → Ccpacket
decode_sense p mess =
    if bit_is_set mess bit_sense
    then (let q = if bit_is_set mess bit_camera_on_off then set_camera p cc_camera_on else p in
        if bit_is_set mess bit_auto_pan then set_pan q cc_pan_auto (pos 0) else q)
    else (let q = if bit_is_set mess bit_camera_on_off then set_camera p cc_camera_off else p in
        if bit_is_set mess bit_auto_pan then set_pan q cc_pan_manual (pos 0) else q)

-- The packet that `pelco_decode_command` hands over.
unfoldable pub decode_command : Ccpacket → List ℕ → Ccpacket
decode_command p mess =
    decode_sense (decode_lens (decode_tilt (decode_pan (decode_receiver p mess) mess) mess) mess)
      mess

unfoldable pub decode_aux_set : Ccpacket → ℕ → Ccpacket
decode_aux_set p p0 = if p0 == ex_aux_wiper then set_wiper p cc_wiper_on else p

unfoldable pub decode_aux_clear : Ccpacket → ℕ → Ccpacket
decode_aux_clear p p0 = if p0 == ex_aux_wiper then set_wiper p cc_wiper_off else p

-- `decode_extended`; its last parameter is not used.
unfoldable pub decode_extended : Ccpacket → ℕ → ℕ → Ccpacket
decode_extended p ex p0 =
    if ex == ex_store
    then set_preset p cc_preset_store (pos p0)
    else if ex == ex_recall
    then set_preset p cc_preset_recall (pos p0)
    else if ex == ex_clear
    then set_preset p cc_preset_clear (pos p0)
    else if ex == ex_aux_set
    then decode_aux_set p p0
    else if ex == ex_aux_clear
    then decode_aux_clear p p0
    else p

-- The packet that `pelco_decode_extended` hands over.
unfoldable pub extended_packet : Ccpacket → List ℕ → Ccpacket
extended_packet p mess =
    decode_extended (decode_receiver p mess) (bit_and (byte_at mess 3 / 2 ^ 1) 0x1f)
      (byte_at mess 5)

unfoldable pub checksum_is_valid : List ℕ → Bool
checksum_is_valid mess = calculate_checksum mess == byte_at mess 6

-- The loop of `pelco_discard_garbage`: bytes from `n_bytes` on, of those available, up to the next
-- one that may begin a message.
unfoldable pub scan : (left : ℕ) → (n_bytes : ℕ) → List ℕ → ℕ
scan zero n_bytes mess = n_bytes
scan (suc left) n_bytes mess =
    let rest = scan left (n_bytes + 1) mess in
    if byte_at mess n_bytes == flag then n_bytes else rest

-- `ccreader_process_packet` takes what stands behind the reader and the packet, and gives both back.
module _ {S : Type 0} (process_packet : S → Ccpacket → S × Ccpacket) where
  -- The packet decoded, then processed.
  unfoldable pub process : (Ccpacket → Ccpacket) → Reading S → Decode × Reading S
  process decode r =
      let (s, p) = process_packet r.behind (decode r.packet) in
      (more, record r { behind = s; packet = p })

  -- `pelco_discard_garbage`, without its log.
  unfoldable pub discard_garbage : Reading S → Run (Decode × Reading S)
  unfolding scan
  discard_garbage r = do
    b ← consume r.rxbuf (scan (available r.rxbuf - 1) 1 (output r.rxbuf))
    done (more, record r { rxbuf = b })

  -- `pelco_decode_message`
  unfoldable pub decode_message : Reading S → Run (Decode × Reading S)
  unfolding process discard_garbage
  decode_message r =
      let mess = output r.rxbuf in
      let accepted = do
        b ← consume r.rxbuf message_size
        let r' = record r { rxbuf = b }
        done (
            if bit_is_set mess bit_extended
            then process (λ p. extended_packet p mess) r'
            else process (λ p. decode_command p mess) r')
      in if not (byte_at mess 0 == flag)
        then discard_garbage r
        else if not (checksum_is_valid mess)
        then discard_garbage r
        else accepted

  -- `pelco_d_do_read`
  unfoldable pub do_read : Reading S → Run (Reading S)
  do_read = while_available message_size decode_message
