-- ===== src/Joystick/Events.antt =====
-- The decoding of an event by src/joystick.c. A message is the pointer that `buffer_output` gave:
-- the bytes from there on. A `short` is read from two bytes, the lower one first.
use mn_protozoa.Base.{
  ℕ, ◌+◌, ◌*◌, ◌/◌, ◌-◌, Bool, true, false, not, ◌&&◌, List, ◌==◌, bit_and, nonzero, ltb,
  if◌then◌else◌,
}
use mn_protozoa.Base.Int.{ℤ, pos, negsuc, abs, ltb_ℤ, leb_ℤ, nonzero_ℤ}
use mn_protozoa.Bitarray.{byte_at}
use mn_protozoa.Ccpacket.Flags.{
  cc_pan_left, cc_pan_right, cc_tilt_up, cc_tilt_down, cc_iris_open, cc_iris_close, cc_focus_near,
  cc_focus_far, cc_zoom_in, cc_zoom_out, cc_preset_recall, cc_preset_store, cc_wiper_on,
  cc_camera_on, speed_max,
}
use mn_protozoa.Ccpacket.Packet.{
  Ccpacket, set_pan, set_tilt, set_zoom, set_focus, set_iris, set_wiper, set_camera, set_preset,
  get_preset_mode,
}
use mn_protozoa.Ccreader.Nodes.{Ccreader, previous_camera, next_camera}

abbrev pub jevent_octets : ℕ
jevent_octets = 8

abbrev pub jevent_button : ℕ
jevent_button = 0x01

abbrev pub jevent_axis : ℕ
jevent_axis = 0x02

abbrev pub jevent_initial : ℕ
jevent_initial = 0x80

abbrev pub jaxis_pan : ℕ
jaxis_pan = 0

abbrev pub jaxis_tilt : ℕ
jaxis_tilt = 1

abbrev pub jaxis_zoom : ℕ
jaxis_zoom = 2

abbrev pub jspeed_max : ℕ
jspeed_max = 32767

abbrev pub jbutton_focus_near : ℕ
jbutton_focus_near = 0

abbrev pub jbutton_focus_far : ℕ
jbutton_focus_far = 1

abbrev pub jbutton_iris_close : ℕ
jbutton_iris_close = 2

abbrev pub jbutton_iris_open : ℕ
jbutton_iris_open = 3

abbrev pub jbutton_wiper : ℕ
jbutton_wiper = 4

abbrev pub jbutton_camera : ℕ
jbutton_camera = 5

-- JBUTTON_PRESET_1, which the other three follow.
abbrev pub jbutton_preset_1 : ℕ
jbutton_preset_1 = 6

abbrev pub jbutton_previous : ℕ
jbutton_previous = 10

abbrev pub jbutton_next : ℕ
jbutton_next = 11

-- `decode_speed`
unfoldable pub decode_speed : List ℕ → ℤ
decode_speed mess =
    let v = byte_at mess 4 + byte_at mess 5 * 256 in
    if ltb v 32768 then pos v else negsuc (65535 - v)

-- `decode_pressed`
unfoldable pub decode_pressed : List ℕ → Bool
unfolding decode_speed
decode_pressed mess = nonzero_ℤ (decode_speed mess)

-- `remap_int` and `remap_speed`
unfoldable pub remap_int : ℤ → ℕ → ℕ → ℕ
remap_int value irange orange = let v = abs value * orange in v / irange

unfoldable pub remap_speed : ℤ → ℕ
unfolding remap_int
remap_speed value = remap_int value jspeed_max speed_max

unfoldable pub decode_pan_mode : ℤ → ℕ
decode_pan_mode speed = if leb_ℤ speed (pos 0) then cc_pan_left else cc_pan_right

unfoldable pub decode_tilt_mode : ℤ → ℕ
decode_tilt_mode speed = if ltb_ℤ speed (pos 0) then cc_tilt_up else cc_tilt_down

-- The switch of `decode_pan_tilt_zoom`, and the function, less its result, which is true.
unfoldable pub decode_axis : Ccpacket → ℕ → ℤ → Ccpacket
unfolding decode_pan_mode decode_tilt_mode remap_speed
decode_axis p number speed =
    if number == jaxis_pan
    then set_pan p (decode_pan_mode speed) (pos (remap_speed speed))
    else if number == jaxis_tilt
    then set_tilt p (decode_tilt_mode speed) (pos (remap_speed speed))
    else if number == jaxis_zoom
    then if ltb_ℤ speed (pos 0)
      then set_zoom p cc_zoom_out
      else if ltb_ℤ (pos 0) speed
      then set_zoom p cc_zoom_in
      else set_zoom p 0
    else p

unfoldable pub decode_pan_tilt_zoom : Ccpacket → List ℕ → Ccpacket
unfolding decode_axis
decode_pan_tilt_zoom p mess =
    set_preset (decode_axis p (byte_at mess 7) (decode_speed mess)) 0 (pos 0)

unfoldable pub moved_since_pressed : Ccpacket → Bool
moved_since_pressed p = not (get_preset_mode p == cc_preset_recall)

-- The buttons that hold a command of the packet while they are pressed.
unfoldable pub decode_held : Ccpacket → ℕ → Bool → Ccpacket
decode_held p number pressed =
    if number == jbutton_focus_near
    then set_focus p (if pressed then cc_focus_near else 0)
    else if number == jbutton_focus_far
    then set_focus p (if pressed then cc_focus_far else 0)
    else if number == jbutton_iris_close
    then set_iris p (if pressed then cc_iris_close else 0)
    else if number == jbutton_iris_open
    then set_iris p (if pressed then cc_iris_open else 0)
    else if number == jbutton_wiper
    then set_wiper p (if pressed then cc_wiper_on else 0)
    else set_camera p (if pressed then cc_camera_on else 0)

module _ {W : Type 0} where
  abbrev pub with_packet : Ccreader W → Ccpacket → Ccreader W
  with_packet rdr p = record rdr { packet = p }

  -- The end of `decode_button`, after a `break`.
  abbrev pub no_command : Ccreader W → Bool × Ccreader W
  no_command rdr = (false, with_packet rdr (set_preset rdr.packet 0 (pos 0)))

  -- The button of preset `n`.
  unfoldable pub decode_preset_button : Ccreader W → ℕ → (pressed : Bool) → Bool × Ccreader W
  unfolding moved_since_pressed
  decode_preset_button rdr n pressed =
      if pressed
      then (true, with_packet rdr (set_preset rdr.packet cc_preset_recall (pos n)))
      else if moved_since_pressed rdr.packet
      then (true, with_packet rdr (set_preset rdr.packet cc_preset_store (pos n)))
      else no_command rdr

  -- `decode_button`
  unfoldable pub decode_button : Ccreader W → List ℕ → Bool × Ccreader W
  unfolding decode_preset_button decode_held
  decode_button rdr mess =
      let number = byte_at mess 7 in
      let pressed = decode_pressed mess in
      if ltb number jbutton_preset_1
      then (true, with_packet rdr (decode_held rdr.packet number pressed))
      else if ltb number jbutton_previous
      then decode_preset_button rdr (number - jbutton_preset_1 + 1) pressed
      else if number == jbutton_previous
      then no_command (if pressed then previous_camera rdr else rdr)
      else if number == jbutton_next
      then no_command (if pressed then next_camera rdr else rdr)
      else no_command rdr

  -- `joystick_decode_event`
  unfoldable pub decode_event : Ccreader W → List ℕ → Bool × Ccreader W
  unfolding decode_pan_tilt_zoom decode_button
  decode_event rdr mess =
      let ev_type = byte_at mess 6 in
      if nonzero (bit_and ev_type jevent_axis)
      then (true, with_packet rdr (decode_pan_tilt_zoom rdr.packet mess))
      else if nonzero (bit_and ev_type jevent_button)
          && not (nonzero (bit_and ev_type jevent_initial))
      then decode_button rdr mess
      else (false, rdr)
