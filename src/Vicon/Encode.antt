-- ===== src/Vicon/Encode.antt =====
-- The encoders of src/vicon.c. An encoder of a part takes the message to the message.
use mn_protozoa.Base.{
  ℕ, ◌/◌, ◌^◌, Bool, false, ◌||◌, List, ◌==◌, set, bit_and, bit_or, nonzero, if◌then◌else◌,
}
use mn_protozoa.Base.Int.{ℤ, pos, shr, mask_ℤ, ltb_ℤ, nonzero_ℤ}
use mn_protozoa.Bitarray.{byte_at, bit_set}
use mn_protozoa.Buffer.Defs.{Buffer}
use mn_protozoa.Ccpacket.Flags.{
  cc_pan_left, cc_pan_right, cc_pan_auto, cc_tilt_up, cc_tilt_down, cc_iris_open, cc_iris_close,
  cc_iris_auto, cc_focus_near, cc_focus_far, cc_zoom_in, cc_zoom_out, cc_preset_recall,
  cc_preset_store, cc_wiper_on, cc_ack_alarm, cc_lens_speed, cc_menu_open, cc_menu_enter,
  cc_menu_cancel,
}
use mn_protozoa.Ccpacket.Packet.{
  Ccpacket, get_pan_mode, get_tilt_mode, get_iris, get_focus, get_zoom, get_ack, get_lens,
  get_preset_mode, get_wiper, get_menu, set_preset, set_iris, set_pan,
}
use mn_protozoa.Ccpacket.Queries.{has_pan, has_tilt}
use mn_protozoa.Ccwriter.Append.{message}
use mn_protozoa.Ccwriter.Written.{Written}
use mn_protozoa.Vicon.Bits.{
  flag, size_command, size_extended, max_address, preset_menu_open, bit_command, bit_ack_alarm,
  bit_extended, bit_auto_iris, bit_auto_pan, bit_tilt_down, bit_tilt_up, bit_pan_right,
  bit_pan_left, bit_lens_speed, bit_iris_close, bit_iris_open, bit_focus_near, bit_focus_far,
  bit_zoom_in, bit_zoom_out, bit_aux_6, bit_recall, bit_store, bit_ex_store, bit_ex_request,
}

unfoldable pub encode_receiver : List ℕ → Ccpacket → List ℕ
encode_receiver mess p =
    set (set mess 0 (bit_or flag (mask_ℤ (shr p.receiver 4) 0x0f))) 1 (mask_ℤ p.receiver 0x0f)

-- The two halves of `encode_pan_tilt`.
unfoldable pub encode_pan : List ℕ → Ccpacket → List ℕ
encode_pan mess p =
    if has_pan p
    then if get_pan_mode p == cc_pan_left
      then bit_set mess bit_pan_left
      else if get_pan_mode p == cc_pan_right
      then bit_set mess bit_pan_right
      else mess
    else mess

unfoldable pub encode_tilt : List ℕ → Ccpacket → List ℕ
encode_tilt mess p =
    if has_tilt p
    then if get_tilt_mode p == cc_tilt_up
      then bit_set mess bit_tilt_up
      else if get_tilt_mode p == cc_tilt_down
      then bit_set mess bit_tilt_down
      else mess
    else mess

unfoldable pub encode_pan_tilt : List ℕ → Ccpacket → List ℕ
encode_pan_tilt mess p = encode_tilt (encode_pan mess p) p

-- The three parts of `encode_lens`.
unfoldable pub encode_iris : List ℕ → Ccpacket → List ℕ
encode_iris mess p =
    if get_iris p == cc_iris_open
    then bit_set mess bit_iris_open
    else if get_iris p == cc_iris_close
    then bit_set mess bit_iris_close
    else mess

unfoldable pub encode_focus : List ℕ → Ccpacket → List ℕ
encode_focus mess p =
    if get_focus p == cc_focus_near
    then bit_set mess bit_focus_near
    else if get_focus p == cc_focus_far
    then bit_set mess bit_focus_far
    else mess

unfoldable pub encode_zoom : List ℕ → Ccpacket → List ℕ
encode_zoom mess p =
    if get_zoom p == cc_zoom_in
    then bit_set mess bit_zoom_in
    else if get_zoom p == cc_zoom_out
    then bit_set mess bit_zoom_out
    else mess

unfoldable pub encode_lens : List ℕ → Ccpacket → List ℕ
encode_lens mess p = encode_zoom (encode_focus (encode_iris mess p) p) p

unfoldable pub encode_toggles : List ℕ → Ccpacket → List ℕ
encode_toggles mess p =
    let acked = if get_ack p == cc_ack_alarm then bit_set mess bit_ack_alarm else mess in
    let irised = if get_iris p == cc_iris_auto then bit_set acked bit_auto_iris else acked in
    let panned = if get_pan_mode p == cc_pan_auto then bit_set irised bit_auto_pan else irised in
    if get_lens p == cc_lens_speed then bit_set panned bit_lens_speed else panned

unfoldable pub encode_aux : List ℕ → Ccpacket → List ℕ
encode_aux mess p = if get_wiper p == cc_wiper_on then bit_set mess bit_aux_6 else mess

-- `mess[i] |= value & mask`
abbrev pub or_masked : List ℕ → ℕ → ℤ → ℕ → List ℕ
or_masked mess i value mask = set mess i (bit_or (byte_at mess i) (mask_ℤ value mask))

unfoldable pub encode_preset : List ℕ → Ccpacket → List ℕ
encode_preset mess p =
    let pm = get_preset_mode p in
    let coded =
      if pm == cc_preset_recall
      then bit_set mess bit_recall
      else if pm == cc_preset_store
      then bit_set mess bit_store
      else mess in
    or_masked coded 5 p.preset 0x0f

-- The parts that the command and the extended speed message share.
unfoldable pub encode_parts : List ℕ → Ccpacket → List ℕ
encode_parts mess p =
    encode_preset (encode_aux (encode_toggles (encode_lens (encode_pan_tilt mess p) p) p) p) p

-- The message of `encode_command`, made from zeros.
unfoldable pub command_message : Ccpacket → List ℕ → List ℕ
unfolding encode_parts
command_message p mess = encode_parts (bit_set (encode_receiver mess p) bit_command) p

unfoldable pub encode_command : Buffer → Ccpacket → Buffer
unfolding command_message
encode_command tx p = message tx size_command (command_message p)

-- `vicon_encode_speed`
unfoldable pub encode_speed : ℤ → ℕ
encode_speed speed = mask_ℤ speed 0x7ff

unfoldable pub encode_speeds : List ℕ → Ccpacket → List ℕ
unfolding encode_speed
encode_speeds mess p =
    let pan = encode_speed p.pan in
    let tilt = encode_speed p.tilt in
    let mess' = set (set mess 6 (bit_and (pan / 2 ^ 7) 0x0f)) 7 (bit_and pan 0x7f) in
    set (set mess' 8 (bit_and (tilt / 2 ^ 7) 0x0f)) 9 (bit_and tilt 0x7f)

-- The message of `encode_extended_speed`.
unfoldable pub speed_message : Ccpacket → List ℕ → List ℕ
unfolding encode_parts
speed_message p mess =
    let extended = bit_set (bit_set (encode_receiver mess p) bit_command) bit_extended in
    encode_speeds (encode_parts extended p) p

unfoldable pub encode_extended_speed : Buffer → Ccpacket → Buffer
unfolding speed_message
encode_extended_speed tx p = message tx size_extended (speed_message p)

-- The message of `encode_extended_preset`.
unfoldable pub preset_message : Ccpacket → List ℕ → List ℕ
preset_message p mess =
    let extended = bit_set (bit_set (encode_receiver mess p) bit_command) bit_extended in
    let request = bit_set extended bit_ex_request in
    let coded =
      if get_preset_mode p == cc_preset_store then bit_set request bit_ex_store else request in
    let parts = encode_aux (encode_toggles (encode_lens coded p) p) p in
    or_masked (or_masked (or_masked parts 7 p.preset 0x7f) 8 p.pan 0x7f) 9 p.tilt 0x7f

unfoldable pub encode_extended_preset : Buffer → Ccpacket → Buffer
unfolding preset_message
encode_extended_preset tx p = message tx size_extended (preset_message p)

unfoldable pub is_extended_preset : Ccpacket → Bool
is_extended_preset p =
    let pm = get_preset_mode p in
    if pm == cc_preset_recall || pm == cc_preset_store
    then ltb_ℤ (pos 15) p.preset || (nonzero_ℤ p.pan || nonzero_ℤ p.tilt)
    else false

unfoldable pub is_extended_speed : Ccpacket → Bool
is_extended_speed p = has_pan p || (has_tilt p || nonzero (get_wiper p))

unfoldable pub adjust_menu_commands : Ccpacket → Ccpacket
adjust_menu_commands p =
    let mc = get_menu p in
    if mc == cc_menu_open
    then set_preset p cc_preset_store (pos preset_menu_open)
    else if mc == cc_menu_enter
    then set_pan p cc_pan_auto (pos 0)
    else if mc == cc_menu_cancel
    then set_iris p cc_iris_auto
    else p

-- `vicon_do_write`
unfoldable pub do_write : Buffer → Ccpacket → Written
do_write tx p =
    if ltb_ℤ p.receiver (pos 1) || ltb_ℤ (pos max_address) p.receiver
    then record { count = 0; txbuf = tx; packet = p }
    else let q = adjust_menu_commands p in
      let sent =
        if is_extended_preset q
        then encode_extended_preset tx q
        else if is_extended_speed q
        then encode_extended_speed tx q
        else encode_command tx q in
      record { count = 1; txbuf = sent; packet = q }
