-- ===== src/PelcoD/Decoded.antt =====
-- What `pelco_decode_command` of src/pelco_d.c makes of a message, group by group.
use mn_protozoa.Base.{ℕ, ◌≡◌, refl, ap, ◌∙◌, false, ◌||◌, List, arith, if◌then◌else◌}
use mn_protozoa.Base.Int.{pos}
use mn_protozoa.Bitarray.{byte_at, bit_is_set}
use mn_protozoa.Ccpacket.Flags.{
  cc_pan_left, cc_pan_right, cc_pan_auto, cc_tilt_up, cc_tilt_down, cc_iris_open, cc_iris_close,
  cc_focus_near, cc_focus_far, cc_zoom_in, cc_zoom_out, cc_camera_on, cc_camera_off,
}
use mn_protozoa.Ccpacket.Modes
use mn_protozoa.Ccpacket.Packet.{
  Ccpacket, set_receiver, get_pan_mode, get_tilt_mode, get_iris, get_focus, get_zoom, get_camera,
}
use mn_protozoa.Ccpacket.Group.{Group, camera, pan, tilt, zoom, focus, iris, valid, get_mode, same}
use mn_protozoa.Ccpacket.Frames.{get_mode-eq-valid}
use mn_protozoa.PelcoD.Decode.{
  decode_receiver, decode_speed, decode_pan, decode_tilt, decode_lens, decode_iris, decode_focus,
  decode_zoom, decode_sense, decode_command,
}
use mn_protozoa.PelcoD.Bits.{
  bit_focus_near, bit_iris_open, bit_iris_close, bit_camera_on_off, bit_auto_pan, bit_sense,
  bit_pan_right, bit_pan_left, bit_tilt_up, bit_tilt_down, bit_zoom_in, bit_zoom_out, bit_focus_far,
}
use mn_protozoa.PelcoD.Modes as Stage
use mn_protozoa.PelcoD.Modes.{values}

-- The stages of `pelco_decode_command`.
module _ (q : Ccpacket) (m : List ℕ) where
  abbrev received : Ccpacket
  received = decode_receiver q m

  abbrev panned : Ccpacket
  panned = decode_pan received m

  abbrev tilted : Ccpacket
  tilted = decode_tilt panned m

  abbrev focused : Ccpacket
  focused = decode_focus (decode_iris tilted m) m

  abbrev zoomed : Ccpacket
  zoomed = decode_zoom focused m

  stages_lem : decode_command q m ≡ decode_sense zoomed m
  unfolding decode_command decode_lens
  stages_lem = refl

  module _ (blank : q.flags ≡ 0) where
    received_mode : (g : Group) → get_mode g received ≡ valid g 0
    unfolding decode_receiver set_receiver
    received_mode g = get_mode-eq-valid g received ∙ ap (valid g) blank

    -- The mode of each group after decoding a message into a packet without flags.
    pub decoded_iris : get_iris (decode_command q m) ≡ (
        if bit_is_set m bit_iris_open
        then cc_iris_open
        else if bit_is_set m bit_iris_close
        then cc_iris_close
        else 0)
    unfolding Modes.iris
    decoded_iris =
        ap get_iris stages_lem
        ∙ Stage.decode_sense_modes iris zoomed m
        ∙ Stage.decode_zoom_modes iris focused m
        ∙ Stage.decode_focus_modes iris (decode_iris tilted m) m
        ∙ Stage.decode_iris_modes iris tilted m
        ∙ rw (
          Stage.decode_tilt_modes iris panned m,
          Stage.decode_pan_modes iris received m,
          received_mode iris,
        )

    pub decoded_focus : get_focus (decode_command q m) ≡ (
        if bit_is_set m bit_focus_near
        then cc_focus_near
        else if bit_is_set m bit_focus_far
        then cc_focus_far
        else 0)
    unfolding Modes.focus
    decoded_focus =
        ap get_focus stages_lem
        ∙ Stage.decode_sense_modes focus zoomed m
        ∙ Stage.decode_zoom_modes focus focused m
        ∙ Stage.decode_focus_modes focus (decode_iris tilted m) m
        ∙ rw (
          Stage.decode_iris_modes focus tilted m,
          Stage.decode_tilt_modes focus panned m,
          Stage.decode_pan_modes focus received m,
          received_mode focus,
        )

    pub decoded_zoom : get_zoom (decode_command q m) ≡ (
        if bit_is_set m bit_zoom_in
        then cc_zoom_in
        else if bit_is_set m bit_zoom_out
        then cc_zoom_out
        else 0)
    unfolding Modes.zoom
    decoded_zoom =
        ap get_zoom stages_lem
        ∙ Stage.decode_sense_modes zoom zoomed m
        ∙ Stage.decode_zoom_modes zoom focused m
        ∙ rw (
          Stage.decode_focus_modes zoom (decode_iris tilted m) m,
          Stage.decode_iris_modes zoom tilted m,
          Stage.decode_tilt_modes zoom panned m,
          Stage.decode_pan_modes zoom received m,
          received_mode zoom,
        )

    untouched :
        (g : Group)
        → same g zoom ≡ false
        → same g focus ≡ false
        → same g iris ≡ false
        → get_mode g zoomed ≡ get_mode g tilted
    untouched g z f i =
        Stage.decode_zoom_modes g focused m
        ∙ rw z (
            Stage.decode_focus_modes g (decode_iris tilted m) m
            ∙ rw f (Stage.decode_iris_modes g tilted m ∙ rw i))

    pub decoded_camera : get_camera (decode_command q m) ≡ (
        if bit_is_set m bit_camera_on_off
        then if bit_is_set m bit_sense then cc_camera_on else cc_camera_off
        else 0)
    unfolding Modes.camera
    decoded_camera =
        ap get_camera stages_lem
        ∙ Stage.decode_sense_modes camera zoomed m
        ∙ rw (
          untouched camera refl refl refl,
          Stage.decode_tilt_modes camera panned m,
          Stage.decode_pan_modes camera received m,
          received_mode camera,
        )

    pub decoded_pan : get_pan_mode (decode_command q m) ≡ (
        if bit_is_set m bit_auto_pan
        then if bit_is_set m bit_sense then cc_pan_auto else 0
        else if bit_is_set m bit_pan_right
        then cc_pan_right
        else cc_pan_left)
    decoded_pan =
        ap get_pan_mode stages_lem
        ∙ Stage.decode_sense_modes pan zoomed m
        ∙ rw (
          untouched pan refl refl refl,
          Stage.decode_tilt_modes pan panned m,
          Stage.decode_pan_modes pan received m,
        )

    pub decoded_tilt :
        get_tilt_mode (decode_command q m)
        ≡ (if bit_is_set m bit_tilt_up then cc_tilt_up else cc_tilt_down)
    decoded_tilt =
        ap get_tilt_mode stages_lem
        ∙ Stage.decode_sense_modes tilt zoomed m
        ∙ untouched tilt refl refl refl
        ∙ Stage.decode_tilt_modes tilt panned m

  pub decoded_values : values (decode_command q m) ≡ record {
    receiver = pos (byte_at m 1);
    pan =
        if bit_is_set m bit_auto_pan
        then pos 0
        else if bit_is_set m bit_pan_right || bit_is_set m bit_pan_left
        then decode_speed (byte_at m 4)
        else pos 0;
    tilt =
        if bit_is_set m bit_tilt_up || bit_is_set m bit_tilt_down
        then decode_speed (byte_at m 5)
        else pos 0;
    preset = q.preset;
  }
  unfolding decode_command decode_receiver set_receiver
  decoded_values = ground (
    arith,
    Stage.values-decode_sense (decode_lens tilted m) m,
    Stage.values-decode_lens tilted m,
    Stage.values-decode_tilt panned m,
    Stage.values-decode_pan received m,
  )
