-- ===== src/Manchester/Encode.antt =====
-- The encoders of src/manchester.c. A message of `ccwriter_append` is filled in place; the function
-- that fills it has the suffix `_message`.
use mn_protozoa.Base.{
  ℕ, zero, suc, ◌+◌, ◌-◌, ◌*◌, ◌%◌, ◌^◌, ◌||◌, List, ◌==◌, set, get_or, bit_or, ltb, if◌then◌else◌,
}
use mn_protozoa.Base.Int.{ℤ, pos, ◌-ℤ◌, shr, mask_ℤ, ltb_ℤ, leb_ℤ, nonzero_ℤ}
use mn_protozoa.Bitarray.{byte_at}
use mn_protozoa.Buffer.Defs.{Buffer}
use mn_protozoa.Ccpacket.Flags.{
  cc_pan_left, cc_pan_right, cc_tilt_up, cc_tilt_down, cc_iris_open, cc_iris_close, cc_focus_near,
  cc_focus_far, cc_zoom_in, cc_zoom_out, cc_camera_on, cc_camera_off, cc_preset_recall,
  cc_preset_store, cc_wiper_on,
}
use mn_protozoa.Ccpacket.Packet.{
  Ccpacket, get_pan_mode, get_tilt_mode, get_iris, get_focus, get_zoom, get_camera, get_preset_mode,
  get_wiper,
}
use mn_protozoa.Ccpacket.Queries.{has_pan}
use mn_protozoa.Ccwriter.Append.{message}
use mn_protozoa.Ccwriter.Written.{Written}
use mn_protozoa.Manchester.Codes.{
  flag, pt_command, size_msg, speed_full, max_address, speeds, tilt_down, tilt_up, pan_left,
  pan_right, ex_lens, ex_aux, ex_recall, ex_store, xl_tilt_down, xl_iris_open, xl_focus_far,
  xl_zoom_in, xl_iris_close, xl_focus_near, xl_zoom_out, xl_pan_left, ex_aux_full_up,
  ex_aux_full_right, ex_aux_1, ex_aux_4, ex_aux_6,
}

unfoldable pub encode_receiver : List ℕ → Ccpacket → List ℕ
encode_receiver mess p =
    let rdr = p.receiver -ℤ pos 1 in
    let mess' = set mess 0 (bit_or flag (mask_ℤ (shr rdr 6) 0x0f)) in
    set (set mess' 1 (mask_ℤ (shr rdr 5) 0x01)) 2 (mask_ℤ rdr 0x1f * 2 ^ 2)

-- `mess[i] |= bits`, which keeps the low eight bits.
unfoldable pub or_byte : List ℕ → ℕ → ℕ → List ℕ
or_byte mess i bits = set mess i (bit_or (byte_at mess i) bits % 2 ^ 8)

unfoldable pub pan_tilt_message : Ccpacket → ℕ → ℕ → List ℕ → List ℕ
unfolding encode_receiver or_byte
pan_tilt_message p cmnd speed mess =
    or_byte (or_byte (encode_receiver mess p) 1 (bit_or (cmnd * 2 ^ 4) (speed * 2 ^ 1))) 2
      pt_command

unfoldable pub encode_pan_tilt_command : Buffer → Ccpacket → ℕ → ℕ → Buffer
encode_pan_tilt_command tx p cmnd speed = message tx size_msg (pan_tilt_message p cmnd speed)

-- The message of `encode_lens_function`, `encode_aux_function`, `encode_recall_function` and
-- `encode_store_function`, which differ in the code of the function alone.
unfoldable pub extended_message : Ccpacket → (code : ℕ) → (extra : ℕ) → List ℕ → List ℕ
unfolding encode_receiver or_byte
extended_message p code extra mess =
    or_byte (encode_receiver mess p) 1 (bit_or (extra * 2 ^ 1) (code * 2 ^ 4))

unfoldable pub encode_lens_function : Buffer → Ccpacket → ℕ → Buffer
encode_lens_function tx p func = message tx size_msg (extended_message p ex_lens func)

unfoldable pub encode_aux_function : Buffer → Ccpacket → ℕ → Buffer
encode_aux_function tx p aux = message tx size_msg (extended_message p ex_aux aux)

-- The loop of `manchester_encode_speed`, with the rounds left.
unfoldable pub encode_speed_from : ℕ → ℕ → ℤ → ℕ
encode_speed_from zero s speed = speed_full
encode_speed_from (suc left) s speed =
    let rest = encode_speed_from left (s + 1) speed in
    if leb_ℤ speed (pos (get_or speeds s 0)) then s else rest

-- `manchester_encode_speed`
unfoldable pub encode_speed : ℤ → ℕ
unfolding encode_speed_from
encode_speed speed = encode_speed_from speed_full 0 speed

unfoldable pub encode_pan : Buffer → Ccpacket → Buffer
encode_pan tx p =
    let pm = get_pan_mode p in
    let speed = encode_speed p.pan in
    if pm == cc_pan_left
    then if speed == speed_full
      then encode_lens_function tx p xl_pan_left
      else encode_pan_tilt_command tx p pan_left speed
    else if pm == cc_pan_right
    then if speed == speed_full
      then encode_aux_function tx p ex_aux_full_right
      else encode_pan_tilt_command tx p pan_right speed
    else tx

unfoldable pub encode_tilt : Buffer → Ccpacket → Buffer
encode_tilt tx p =
    let tm = get_tilt_mode p in
    let speed = encode_speed p.tilt in
    if tm == cc_tilt_down
    then if speed == speed_full
      then encode_lens_function tx p xl_tilt_down
      else encode_pan_tilt_command tx p tilt_down speed
    else if tm == cc_tilt_up
    then if speed == speed_full
      then encode_aux_function tx p ex_aux_full_up
      else encode_pan_tilt_command tx p tilt_up speed
    else tx

unfoldable pub encode_zoom : Buffer → Ccpacket → Buffer
encode_zoom tx p =
    if get_zoom p == cc_zoom_out
    then encode_lens_function tx p xl_zoom_out
    else if get_zoom p == cc_zoom_in
    then encode_lens_function tx p xl_zoom_in
    else tx

unfoldable pub encode_focus : Buffer → Ccpacket → Buffer
encode_focus tx p =
    if get_focus p == cc_focus_near
    then encode_lens_function tx p xl_focus_near
    else if get_focus p == cc_focus_far
    then encode_lens_function tx p xl_focus_far
    else tx

unfoldable pub encode_iris : Buffer → Ccpacket → Buffer
encode_iris tx p =
    if get_iris p == cc_iris_close
    then encode_lens_function tx p xl_iris_close
    else if get_iris p == cc_iris_open
    then encode_lens_function tx p xl_iris_open
    else tx

unfoldable pub encode_aux : Buffer → Ccpacket → Buffer
encode_aux tx p =
    if get_camera p == cc_camera_off
    then encode_aux_function tx p ex_aux_1
    else if get_camera p == cc_camera_on
    then encode_aux_function tx p ex_aux_4
    else if get_wiper p == cc_wiper_on
    then encode_aux_function tx p ex_aux_6
    else tx

unfoldable pub encode_recall_function : Buffer → Ccpacket → ℕ → Buffer
encode_recall_function tx p preset = message tx size_msg (extended_message p ex_recall preset)

unfoldable pub encode_store_function : Buffer → Ccpacket → ℕ → Buffer
encode_store_function tx p preset = message tx size_msg (extended_message p ex_store preset)

-- `encode_preset`. A number that is not positive fails the first test.
unfoldable pub encode_preset_number : Buffer → Ccpacket → ℤ → Buffer
encode_preset_number tx p (pos preset) =
    if ltb preset 1 || ltb 8 preset
    then tx
    else if get_preset_mode p == cc_preset_recall
    then encode_recall_function tx p (preset - 1)
    else if get_preset_mode p == cc_preset_store
    then encode_store_function tx p (preset - 1)
    else tx
encode_preset_number tx p _ = tx

unfoldable pub encode_preset : Buffer → Ccpacket → Buffer
unfolding encode_preset_number
encode_preset tx p = encode_preset_number tx p p.preset

-- `manchester_do_write`
unfoldable pub do_write : Buffer → Ccpacket → Written
do_write tx p =
    if ltb_ℤ p.receiver (pos 1) || ltb_ℤ (pos max_address) p.receiver
    then record { count = 0; txbuf = tx; packet = p }
    else let panned = if has_pan p then encode_pan tx p else tx in
      let tilted = if nonzero_ℤ p.tilt then encode_tilt panned p else panned in
      let zoomed = encode_zoom tilted p in
      let aux = encode_aux (encode_iris (encode_focus zoomed p) p) p in
      record { count = 1; txbuf = encode_preset aux p; packet = p }
