-- ===== src/PelcoD/Encode.antt =====
-- The encoders of src/pelco_d.c. An encoder of a part takes the message to the message.
use mn_protozoa.Base.{
  ℕ, ◌*◌, ◌-◌, ◌^◌, Bool, true, false, ◌||◌, List, ◌==◌, set, bit_or, nonzero, if◌then◌else◌,
}
use mn_protozoa.Base.Int.{ℤ, pos, ◌+ℤ◌, shr, rem, u8, ltb_ℤ, nonzero_ℤ}
use mn_protozoa.Bitarray.{byte_at, bit_set}
use mn_protozoa.Buffer.Defs.{Buffer}
use mn_protozoa.Ccpacket.Flags.{
  cc_pan_left, cc_pan_right, cc_pan_auto, cc_pan_manual, cc_tilt_up, cc_tilt_down, cc_iris_open,
  cc_iris_close, cc_focus_near, cc_focus_far, cc_zoom_in, cc_zoom_out, cc_camera_on, cc_camera_off,
  cc_preset_recall, cc_preset_store, cc_preset_clear, cc_wiper_on, cc_menu_open, cc_menu_enter,
  cc_menu_cancel, speed_max,
}
use mn_protozoa.Ccpacket.Packet.{
  Ccpacket, get_pan_mode, get_tilt_mode, get_iris, get_focus, get_zoom, get_camera, get_preset_mode,
  get_wiper, get_menu, set_preset, set_iris,
}
use mn_protozoa.Ccpacket.Queries.{has_pan, has_command, has_autopan, has_power}
use mn_protozoa.Ccwriter.Append.{message}
use mn_protozoa.Ccwriter.Written.{Written}
use mn_protozoa.PelcoD.Bits.{
  flag, turbo_speed, message_size, max_address, preset_menu_open, bit_focus_near, bit_iris_open,
  bit_iris_close, bit_camera_on_off, bit_auto_pan, bit_sense, bit_extended, bit_pan_right,
  bit_pan_left, bit_tilt_up, bit_tilt_down, bit_zoom_in, bit_zoom_out, bit_focus_far, ex_store,
  ex_clear, ex_recall, ex_aux_set, ex_aux_clear, ex_aux_wiper,
}
use mn_protozoa.PelcoD.Checksum.{calculate_checksum}

unfoldable pub encode_receiver : List ℕ → Ccpacket → List ℕ
encode_receiver mess p = set (set mess 0 flag) 1 (u8 p.receiver)

-- `pelco_d_encode_speed`
unfoldable pub encode_speed : ℤ → ℤ
encode_speed speed =
    let s = shr speed 5 +ℤ shr (rem speed 32) 4 in
    if ltb_ℤ s (pos turbo_speed) then s else pos (turbo_speed - 1)

-- `pelco_d_encode_pan_speed`
unfoldable pub encode_pan_speed : ℤ → ℤ
unfolding encode_speed
encode_pan_speed speed =
    if ltb_ℤ (pos (speed_max - 8)) speed then pos turbo_speed else encode_speed speed

unfoldable pub encode_pan : List ℕ → Ccpacket → List ℕ
encode_pan mess p =
    let mess' = set mess 4 (u8 (encode_pan_speed p.pan)) in
    if has_pan p
    then if get_pan_mode p == cc_pan_left
      then bit_set mess' bit_pan_left
      else if get_pan_mode p == cc_pan_right
      then bit_set mess' bit_pan_right
      else set mess' 4 0
    else mess'

unfoldable pub encode_tilt : List ℕ → Ccpacket → List ℕ
encode_tilt mess p =
    let tilt = encode_speed p.tilt in
    let mess' = set mess 5 (u8 tilt) in
    if nonzero_ℤ tilt
    then if get_tilt_mode p == cc_tilt_up
      then bit_set mess' bit_tilt_up
      else if get_tilt_mode p == cc_tilt_down
      then bit_set mess' bit_tilt_down
      else set mess' 5 0
    else mess'

-- The three parts of `encode_lens`.
unfoldable pub encode_iris : List ℕ → Ccpacket → List ℕ
encode_iris mess p =
    if get_iris p == cc_iris_open
    then bit_set mess bit_iris_open
    else if get_iris p == cc_iris_close
    then bit_set mess bit_iris_close
    else mess

unfoldable pub encode_focus : List ℕ → Ccpacket → List ℕ
encode_focus mess p =
    if get_focus p == cc_focus_near
    then bit_set mess bit_focus_near
    else if get_focus p == cc_focus_far
    then bit_set mess bit_focus_far
    else mess

unfoldable pub encode_zoom : List ℕ → Ccpacket → List ℕ
encode_zoom mess p =
    if get_zoom p == cc_zoom_in
    then bit_set mess bit_zoom_in
    else if get_zoom p == cc_zoom_out
    then bit_set mess bit_zoom_out
    else mess

unfoldable pub encode_lens : List ℕ → Ccpacket → List ℕ
encode_lens mess p = encode_zoom (encode_focus (encode_iris mess p) p) p

unfoldable pub encode_sense : List ℕ → Ccpacket → List ℕ
encode_sense mess p =
    let cc = get_camera p in
    let pm = get_pan_mode p in
    if cc == cc_camera_on || pm == cc_pan_auto
    then (let mess' = bit_set mess bit_sense in
        let mess'' = if cc == cc_camera_on then bit_set mess' bit_camera_on_off else mess' in
        if pm == cc_pan_auto then bit_set mess'' bit_auto_pan else mess'')
    else if cc == cc_camera_off || pm == cc_pan_manual
    then (let mess' = if cc == cc_camera_off then bit_set mess bit_camera_on_off else mess in
        if pm == cc_pan_manual then bit_set mess' bit_auto_pan else mess')
    else mess

unfoldable pub encode_checksum : List ℕ → List ℕ
encode_checksum mess = set mess 6 (calculate_checksum mess)

-- The message of `encode_command`, made from zeros.
unfoldable pub command_message : Ccpacket → List ℕ → List ℕ
command_message p mess =
    encode_checksum
      (encode_sense (encode_lens (encode_tilt (encode_pan (encode_receiver mess p) p) p) p) p)

unfoldable pub encode_command : Buffer → Ccpacket → Buffer
unfolding command_message
encode_command tx p = message tx message_size (command_message p)

-- The code of the preset command, shifted.
unfoldable pub preset_code : Ccpacket → ℕ
preset_code p =
    let pm = get_preset_mode p in
    if pm == cc_preset_recall
    then ex_recall * 2 ^ 1
    else if pm == cc_preset_store
    then ex_store * 2 ^ 1
    else if pm == cc_preset_clear
    then ex_clear * 2 ^ 1
    else 0

-- The message of `encode_preset`. Where no branch applies `mess[3]` is left, which `| 0` does too.
unfoldable pub preset_message : Ccpacket → List ℕ → List ℕ
unfolding preset_code
preset_message p mess =
    let extended = bit_set (encode_receiver mess p) bit_extended in
    let coded = set extended 3 (bit_or (byte_at extended 3) (preset_code p)) in
    encode_checksum (set coded 5 (u8 p.preset))

unfoldable pub encode_preset : Buffer → Ccpacket → Buffer
unfolding preset_message
encode_preset tx p = message tx message_size (preset_message p)

-- The message of `encode_wiper`.
unfoldable pub wiper_message : Ccpacket → List ℕ → List ℕ
wiper_message p mess =
    let ex = if get_wiper p == cc_wiper_on then ex_aux_set else ex_aux_clear in
    let extended = bit_set (encode_receiver mess p) bit_extended in
    let coded = set extended 3 (bit_or (byte_at extended 3) (ex * 2 ^ 1)) in
    encode_checksum (set coded 5 ex_aux_wiper)

unfoldable pub encode_wiper : Buffer → Ccpacket → Buffer
unfolding wiper_message
encode_wiper tx p = message tx message_size (wiper_message p)

unfoldable pub adjust_menu_commands : Ccpacket → Ccpacket
adjust_menu_commands p =
    let mc = get_menu p in
    if mc == cc_menu_open
    then set_preset p cc_preset_store (pos preset_menu_open)
    else if mc == cc_menu_enter
    then set_iris p cc_iris_open
    else if mc == cc_menu_cancel
    then set_iris p cc_iris_close
    else p

-- A message of `pelco_d_do_write_cb`: sent only if the writer could be prepared.
abbrev pub prepared : (Buffer → Buffer × Bool) → Bool → (Buffer → Buffer) → Buffer → Buffer
prepared prepare_writer false encode tx = tx
prepared prepare_writer true encode tx =
    let (tx', ready) = prepare_writer tx in if ready then encode tx' else tx'

-- `pelco_d_do_write_cb`
unfoldable pub do_write_cb : (prepare_writer : Buffer → Buffer × Bool) → Buffer → Ccpacket → Written
do_write_cb prepare_writer tx p =
    if ltb_ℤ p.receiver (pos 1) || ltb_ℤ (pos max_address) p.receiver
    then record { count = 0; txbuf = tx; packet = p }
    else let q = adjust_menu_commands p in
      let commanded =
        prepared prepare_writer (has_command q || (has_autopan q || has_power q))
          (λ t. encode_command t q) tx in
      let recalled =
        prepared prepare_writer (nonzero (get_preset_mode q)) (λ t. encode_preset t q) commanded in
      let wiped =
        prepared prepare_writer (nonzero (get_wiper q)) (λ t. encode_wiper t q) recalled in
      record { count = 1; txbuf = wiped; packet = q }

-- `pelco_d_do_write`, with `pelco_d_prepare_true`.
unfoldable pub do_write : Buffer → Ccpacket → Written
unfolding do_write_cb
do_write tx p = do_write_cb (λ t. (t, true)) tx p
