-- ===== src/PelcoD/Roundtrip.antt =====
-- Encoding and then decoding a command message of src/pelco_d.c.
use mn_protozoa.Base.{ℕ, ◌≤◌, ◌≡◌, ap, ◌∙◌, ◌&&◌, ◌||◌, ◌==◌, arith, if◌then◌else◌}
use mn_protozoa.Base.Int.{pos, u8, nonzero_ℤ}
use mn_protozoa.Ccpacket.Flags.{
  cc_pan_left, cc_pan_right, cc_pan_auto, cc_tilt_up, cc_tilt_down, cc_iris_auto, cc_focus_auto,
  cc_camera_off,
}
use mn_protozoa.Ccpacket.Packet.{
  Ccpacket, get_pan_mode, get_tilt_mode, get_iris, get_focus, get_zoom, get_camera,
}
use mn_protozoa.Ccpacket.Queries.{has_pan}
use mn_protozoa.Ccpacket.Values.{
  iris_values, focus_values, zoom_values, camera_values, pan_values, tilt_values,
}
use mn_protozoa.PelcoD.Decode.{decode_speed, decode_command}
use mn_protozoa.PelcoD.Decoded.{
  decoded_iris, decoded_focus, decoded_zoom, decoded_camera, decoded_pan, decoded_tilt,
  decoded_values,
}
use mn_protozoa.PelcoD.Encode.{encode_speed, encode_pan_speed}
use mn_protozoa.PelcoD.Message
use mn_protozoa.PelcoD.Message.{command_bytes}
use mn_protozoa.PelcoD.Modes.{Values}
use mn_protozoa.PelcoD.Bits.{max_address}

-- A packet `p`, sent as a command message and decoded into a packet `q` without flags.
module _ (p q : Ccpacket) (blank : q.flags ≡ 0) where
  abbrev decoded : Ccpacket
  decoded = decode_command q (command_bytes p)

  -- A packet encoded as a command message, and decoded into a packet without flags: iris and focus
  -- come through but for their automatic modes, which the protocol does not have and which become
  -- no command; zoom comes through always.
  lens_roundtrip :
      (get_iris decoded ≡ (if get_iris p == cc_iris_auto then 0 else get_iris p))
      × (get_focus decoded ≡ (if get_focus p == cc_focus_auto then 0 else get_focus p))
      × (get_zoom decoded ≡ get_zoom p)
  unfolding get_iris get_focus get_zoom
  lens_roundtrip = (
    decoded_iris q (command_bytes p) blank
        ∙ rw (Message.iris_open_lem p, Message.iris_close_lem p)
            (ground (arith, iris_values p.flags)),
    decoded_focus q (command_bytes p) blank
        ∙ rw (Message.focus_near_lem p, Message.focus_far_lem p)
            (ground (arith, focus_values p.flags)),
    decoded_zoom q (command_bytes p) blank
        ∙ rw (Message.zoom_in_lem p, Message.zoom_out_lem p) (ground (arith, zoom_values p.flags)),
  )

  -- A packet encoded as a command message, and decoded into a packet without flags: a camera
  -- command comes through, but for a camera turned off together with an automatic pan. The two need
  -- the sense bit at different values, and the camera command is lost.
  camera_roundtrip :
      get_camera decoded
      ≡ (if get_camera p == cc_camera_off && get_pan_mode p == cc_pan_auto then 0 else get_camera p)
  unfolding get_camera
  camera_roundtrip =
      decoded_camera q (command_bytes p) blank
      ∙ rw (Message.camera_on_off_lem p, Message.sense_lem p)
          (ground (arith, camera_values p.flags))

  -- A packet encoded as a command message, and decoded into a packet without flags: an automatic
  -- pan comes through; a pan to either side with a speed that is not 0 comes through with its
  -- direction and the decoded code of its speed; anything else becomes a pan to the left, and the
  -- speed is 0, which is how the protocol stops.
  pan_roundtrip :
      (get_pan_mode decoded ≡ (
        if get_pan_mode p == cc_pan_auto
        then cc_pan_auto
        else if has_pan p && get_pan_mode p == cc_pan_right
        then cc_pan_right
        else cc_pan_left))
      × (decoded.pan ≡ (
          if has_pan p && (get_pan_mode p == cc_pan_left || get_pan_mode p == cc_pan_right)
          then decode_speed (u8 (encode_pan_speed p.pan))
          else pos 0))
  unfolding get_pan_mode
  pan_roundtrip = (
    decoded_pan q (command_bytes p) blank
        ∙ rw (Message.auto_pan_lem p, Message.sense_lem p, Message.pan_right_lem p)
            (ground (arith, pan_values p.flags)),
    ap (λ (v : Values). v.pan) (decoded_values q (command_bytes p))
        ∙ rw
            (
              Message.auto_pan_lem p,
              Message.pan_right_lem p,
              Message.pan_left_lem p,
              Message.pan_speed_byte p,
            )
            (ground (arith, pan_values p.flags)),
  )

  -- A packet encoded as a command message, and decoded into a packet without flags: a tilt up or
  -- down whose speed is not encoded as 0 comes through with its direction and the decoded code of
  -- its speed; anything else becomes a tilt down, and without a direction or a code the speed is 0.
  tilt_roundtrip :
      let moves = nonzero_ℤ (encode_speed p.tilt) in
      (get_tilt_mode decoded
        ≡ (if moves && get_tilt_mode p == cc_tilt_up then cc_tilt_up else cc_tilt_down))
      × (decoded.tilt ≡ (
          if moves && (get_tilt_mode p == cc_tilt_up || get_tilt_mode p == cc_tilt_down)
          then decode_speed (u8 (encode_speed p.tilt))
          else pos 0))
  unfolding get_tilt_mode
  tilt_roundtrip = (
    decoded_tilt q (command_bytes p) blank ∙ rw (Message.tilt_up_lem p),
    ap (λ (v : Values). v.tilt) (decoded_values q (command_bytes p))
        ∙ rw (Message.tilt_up_lem p, Message.tilt_down_lem p, Message.tilt_speed_byte p)
            (ground (arith, tilt_values p.flags)),
  )

  -- A packet encoded as a command message, and decoded into a packet without flags, keeps its
  -- receiver where that is 0 to 254.
  receiver_roundtrip :
      (n : ℕ) → p.receiver ≡ pos n → n ≤ max_address → decoded.receiver ≡ p.receiver
  receiver_roundtrip n e h =
      ap (λ (v : Values). v.receiver) (decoded_values q (command_bytes p))
      ∙ rw (Message.receiver_byte p, e) (ap pos (omega arith))

  -- A packet encoded as a command message, and decoded into a packet without flags. A receiver from
  -- 0 to 254 comes through. An automatic pan comes through; a pan to either side with a speed that
  -- is not 0 comes through with its direction and the decoded code of its speed; anything else
  -- becomes a pan to the left, with speed 0. A tilt whose speed is not encoded as 0 comes through in
  -- the same way, and anything else becomes a tilt down. Iris and focus come through but for their
  -- automatic modes, which become no command; zoom comes through; a camera command comes through,
  -- but for a camera turned off together with an automatic pan, which is lost.
  pub command_roundtrip :
      (n : ℕ)
      → p.receiver ≡ pos n
      → n ≤ max_address
      → (decoded.receiver ≡ p.receiver)
        × (get_pan_mode decoded ≡ (
            if get_pan_mode p == cc_pan_auto
            then cc_pan_auto
            else if has_pan p && get_pan_mode p == cc_pan_right
            then cc_pan_right
            else cc_pan_left))
        × (decoded.pan ≡ (
            if has_pan p && (get_pan_mode p == cc_pan_left || get_pan_mode p == cc_pan_right)
            then decode_speed (u8 (encode_pan_speed p.pan))
            else pos 0))
        × (get_tilt_mode decoded ≡ (
            if nonzero_ℤ (encode_speed p.tilt) && get_tilt_mode p == cc_tilt_up
            then cc_tilt_up
            else cc_tilt_down))
        × (decoded.tilt ≡ (
            if nonzero_ℤ (encode_speed p.tilt)
              && (get_tilt_mode p == cc_tilt_up || get_tilt_mode p == cc_tilt_down)
            then decode_speed (u8 (encode_speed p.tilt))
            else pos 0))
        × (get_iris decoded ≡ (if get_iris p == cc_iris_auto then 0 else get_iris p))
        × (get_focus decoded ≡ (if get_focus p == cc_focus_auto then 0 else get_focus p))
        × (get_zoom decoded ≡ get_zoom p)
        × (get_camera decoded ≡ (
            if get_camera p == cc_camera_off && get_pan_mode p == cc_pan_auto
            then 0
            else get_camera p))
  command_roundtrip n e h = (
    receiver_roundtrip n e h,
    pan_roundtrip.0,
    pan_roundtrip.1,
    tilt_roundtrip.0,
    tilt_roundtrip.1,
    lens_roundtrip.0,
    lens_roundtrip.1,
    lens_roundtrip.2,
    camera_roundtrip,
  )
