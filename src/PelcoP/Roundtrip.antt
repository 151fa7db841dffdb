-- ===== src/PelcoP/Roundtrip.antt =====
-- Command messages of src/pelco_p.c, sent and received.
use mn_protozoa.Base.{ℕ, ◌≤◌, ◌≡◌, ◌∙◌, refl, ap, true, ◌&&◌, ◌||◌, ◌==◌, arith, if◌then◌else◌}
use mn_protozoa.Base.Int.{pos, u8}
use mn_protozoa.Ccpacket.Flags.{
  cc_pan_left, cc_pan_right, cc_pan_auto, cc_tilt_up, cc_tilt_down, cc_iris_auto, cc_focus_auto,
}
use mn_protozoa.Ccpacket.Modes
use mn_protozoa.Ccpacket.Packet.{
  Ccpacket, set_receiver, clamp_speed, get_pan_mode, get_tilt_mode, get_iris, get_focus, get_zoom,
  get_camera,
}
use mn_protozoa.Ccpacket.Group.{Group, camera, pan, tilt, zoom, focus, iris, get_mode}
use mn_protozoa.Ccpacket.Queries.{has_pan}
use mn_protozoa.Ccpacket.Updates.{mode_after, get_mode-blank}
use mn_protozoa.Ccpacket.Values.{
  iris_values, focus_values, zoom_values, camera_values, pan_values, tilt_values,
}
use mn_protozoa.PelcoP.Bits.{max_address}
use mn_protozoa.PelcoP.Decode.{decode_receiver, decode_speed, decode_command, checksum_is_valid}
use mn_protozoa.PelcoP.Decoded
use mn_protozoa.PelcoP.Decoded.{command_updates}
use mn_protozoa.PelcoP.Encode.{encode_speed, encode_pan_speed}
use mn_protozoa.PelcoP.Message.{command_bytes, tilts, pan_code, bytes_lem, checksum_lem}
use mn_protozoa.PelcoP.Wire

clamp-decode_speed : (v flags : ℕ) → clamp_speed (decode_speed v flags) ≡ decode_speed v flags
unfolding clamp_speed decode_speed
clamp-decode_speed v flags = ground arith

clamp_zero : clamp_speed (pos 0) ≡ pos 0
unfolding clamp_speed
clamp_zero = refl

-- A packet `p`, sent as a command message and decoded into a packet `q` without flags, by a reader
-- with some flags.
module _ (p q : Ccpacket) (blank : q.flags ≡ 0) (flags : ℕ) where
  abbrev decoded : Ccpacket
  decoded = decode_command flags q (command_bytes p)

  mode : (g : Group) → get_mode g decoded ≡ mode_after g (command_updates flags (command_bytes p)) 0
  unfolding decode_receiver set_receiver
  mode g =
      Decoded.modes_lem flags (command_bytes p) q g
      ∙ ap (mode_after g (command_updates flags (command_bytes p))) (get_mode-blank g _ blank)

  decoded_iris : get_iris decoded ≡ (if get_iris p == cc_iris_auto then 0 else get_iris p)
  unfolding get_iris Modes.iris
  decoded_iris =
      mode iris
      ∙ rw (Wire.iris_open_lem p, Wire.iris_close_lem p) (ground (arith, iris_values p.flags))

  decoded_focus : get_focus decoded ≡ (if get_focus p == cc_focus_auto then 0 else get_focus p)
  unfolding get_focus Modes.focus
  decoded_focus =
      mode focus
      ∙ rw (Wire.focus_near_lem p, Wire.focus_far_lem p) (ground (arith, focus_values p.flags))

  decoded_zoom : get_zoom decoded ≡ get_zoom p
  unfolding get_zoom Modes.zoom
  decoded_zoom =
      mode zoom ∙ rw (Wire.zoom_in_lem p, Wire.zoom_out_lem p) (ground (arith, zoom_values p.flags))

  decoded_camera : get_camera decoded ≡ get_camera p
  unfolding get_camera Modes.camera
  decoded_camera =
      mode camera
      ∙ rw (Wire.camera_on_off_lem p, Wire.camera_on_lem p) (ground (arith, camera_values p.flags))

  decoded_pan : get_pan_mode decoded ≡ (
      if get_pan_mode p == cc_pan_auto
      then cc_pan_auto
      else if has_pan p && get_pan_mode p == cc_pan_right
      then cc_pan_right
      else cc_pan_left)
  unfolding get_pan_mode Modes.pan
  decoded_pan =
      mode pan
      ∙ rw (Wire.pan_left_lem p, Wire.pan_right_lem p, Wire.auto_pan_lem p)
          (ground (arith, pan_values p.flags))

  decoded_tilt :
      get_tilt_mode decoded
      ≡ (if tilts p && get_tilt_mode p == cc_tilt_up then cc_tilt_up else cc_tilt_down)
  unfolding get_tilt_mode Modes.tilt
  decoded_tilt =
      mode tilt
      ∙ rw (Wire.tilt_up_lem p, Wire.tilt_down_lem p) (ground (arith, tilt_values p.flags))

  decoded_pan_speed : decoded.pan ≡ (
      if has_pan p && (get_pan_mode p == cc_pan_left || get_pan_mode p == cc_pan_right)
      then decode_speed (u8 (encode_pan_speed p.pan)) flags
      else pos 0)
  unfolding get_pan_mode
  decoded_pan_speed =
      let (_, e, _) = Decoded.values_lem flags (command_bytes p) q in
      let (_, four, _) = bytes_lem p in
      e
      ∙ rw (Wire.pan_left_lem p, Wire.pan_right_lem p, Wire.auto_pan_lem p, four)
          (ground (arith, pan_values p.flags, clamp-decode_speed (pan_code p) flags, clamp_zero))

  decoded_tilt_speed : decoded.tilt ≡ (
      if tilts p && (get_tilt_mode p == cc_tilt_up || get_tilt_mode p == cc_tilt_down)
      then decode_speed (u8 (encode_speed p.tilt)) flags
      else pos 0)
  unfolding get_tilt_mode
  decoded_tilt_speed =
      let (_, _, e) = Decoded.values_lem flags (command_bytes p) q in
      let (_, _, five) = bytes_lem p in
      e ∙ rw (Wire.tilt_up_lem p, Wire.tilt_down_lem p, five) (ground (arith, tilt_values p.flags))

  decoded_receiver : (n : ℕ) → p.receiver ≡ pos n → n ≤ max_address → decoded.receiver ≡ p.receiver
  unfolding decode_receiver set_receiver
  decoded_receiver n e h =
      let (kept, _, _) = Decoded.values_lem flags (command_bytes p) q in
      let (one, _, _) = bytes_lem p in kept ∙ rw (one, e) (ap pos (omega (arith, h)))

  -- A packet encoded as a command message passes the checksum test, and is decoded by a reader with
  -- any flags into a packet without flags. A receiver from 0 to 254 comes through. An automatic pan
  -- comes through; a pan to either side with a speed that is not 0 comes through with its direction
  -- and the decoded code of its speed; anything else becomes a pan to the left, with speed 0. A tilt
  -- whose speed is not encoded as 0 comes through in the same way, and anything else becomes a tilt
  -- down. Iris and focus come through but for their automatic modes, which become no command; zoom
  -- and camera commands come through.
  pub command_carried :
      (n : ℕ)
      → p.receiver ≡ pos n
      → n ≤ max_address
      → (checksum_is_valid (command_bytes p) ≡ true)
        × (decoded.receiver ≡ p.receiver)
        × (get_pan_mode decoded ≡ (
            if get_pan_mode p == cc_pan_auto
            then cc_pan_auto
            else if has_pan p && get_pan_mode p == cc_pan_right
            then cc_pan_right
            else cc_pan_left))
        × (decoded.pan ≡ (
            if has_pan p && (get_pan_mode p == cc_pan_left || get_pan_mode p == cc_pan_right)
            then decode_speed (u8 (encode_pan_speed p.pan)) flags
            else pos 0))
        × (get_tilt_mode decoded
            ≡ (if tilts p && get_tilt_mode p == cc_tilt_up then cc_tilt_up else cc_tilt_down))
        × (decoded.tilt ≡ (
            if tilts p && (get_tilt_mode p == cc_tilt_up || get_tilt_mode p == cc_tilt_down)
            then decode_speed (u8 (encode_speed p.tilt)) flags
            else pos 0))
        × (get_iris decoded ≡ (if get_iris p == cc_iris_auto then 0 else get_iris p))
        × (get_focus decoded ≡ (if get_focus p == cc_focus_auto then 0 else get_focus p))
        × (get_zoom decoded ≡ get_zoom p)
        × (get_camera decoded ≡ get_camera p)
  command_carried n e h = (
    checksum_lem p,
    decoded_receiver n e h,
    decoded_pan,
    decoded_pan_speed,
    decoded_tilt,
    decoded_tilt_speed,
    decoded_iris,
    decoded_focus,
    decoded_zoom,
    decoded_camera,
  )
