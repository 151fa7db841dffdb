-- ===== src/PelcoD/Modes.antt =====
-- What the decoders of src/pelco_d.c do to each group of a packet.
use mn_protozoa.Base.{ℕ, ◌≡◌, ◌||◌, List, arith, if◌then◌else◌}
use mn_protozoa.Base.Int.{ℤ, pos}
use mn_protozoa.Bitarray.{byte_at, bit_is_set}
use mn_protozoa.Ccpacket.Flags.{
  cc_pan_left, cc_pan_right, cc_pan_auto, cc_pan_manual, cc_tilt_up, cc_tilt_down, cc_iris_open,
  cc_iris_close, cc_focus_near, cc_focus_far, cc_zoom_in, cc_zoom_out, cc_camera_on, cc_camera_off,
}
use mn_protozoa.Ccpacket.Modes
use mn_protozoa.Ccpacket.Packet
use mn_protozoa.Ccpacket.Packet.{Ccpacket}
use mn_protozoa.Ccpacket.Group.{Group, camera, pan, tilt, zoom, focus, iris, get_mode, same}
use mn_protozoa.Ccpacket.Frames.{get_mode-set_mode}
use mn_protozoa.PelcoD.Bits.{
  bit_focus_near, bit_iris_open, bit_iris_close, bit_camera_on_off, bit_auto_pan, bit_sense,
  bit_pan_right, bit_pan_left, bit_tilt_up, bit_tilt_down, bit_zoom_in, bit_zoom_out, bit_focus_far,
}
use mn_protozoa.PelcoD.Decode.{
  decode_speed, decode_pan, decode_tilt, decode_iris, decode_focus, decode_zoom, decode_lens,
  decode_sense,
}

module _ (g : Group) (p : Ccpacket) (m : List ℕ) where
  pub decode_iris_modes : get_mode g (decode_iris p m) ≡ (
      if same g iris
      then if bit_is_set m bit_iris_open
        then cc_iris_open
        else if bit_is_set m bit_iris_close
        then cc_iris_close
        else get_mode g p
      else get_mode g p)
  unfolding decode_iris Modes.iris
  decode_iris_modes = ground (
    arith,
    get_mode-set_mode g iris p cc_iris_open (pos 0),
    get_mode-set_mode g iris p cc_iris_close (pos 0),
  )

  pub decode_focus_modes : get_mode g (decode_focus p m) ≡ (
      if same g focus
      then if bit_is_set m bit_focus_near
        then cc_focus_near
        else if bit_is_set m bit_focus_far
        then cc_focus_far
        else get_mode g p
      else get_mode g p)
  unfolding decode_focus Modes.focus
  decode_focus_modes = ground (
    arith,
    get_mode-set_mode g focus p cc_focus_near (pos 0),
    get_mode-set_mode g focus p cc_focus_far (pos 0),
  )

  pub decode_zoom_modes : get_mode g (decode_zoom p m) ≡ (
      if same g zoom
      then if bit_is_set m bit_zoom_in
        then cc_zoom_in
        else if bit_is_set m bit_zoom_out
        then cc_zoom_out
        else get_mode g p
      else get_mode g p)
  unfolding decode_zoom Modes.zoom
  decode_zoom_modes = ground (
    arith,
    get_mode-set_mode g zoom p cc_zoom_in (pos 0),
    get_mode-set_mode g zoom p cc_zoom_out (pos 0),
  )

  pub decode_pan_modes : get_mode g (decode_pan p m) ≡ (
      if same g pan
      then if bit_is_set m bit_pan_right then cc_pan_right else cc_pan_left
      else get_mode g p)
  unfolding decode_pan Modes.pan
  decode_pan_modes = ground (
    arith,
    get_mode-set_mode g pan p cc_pan_right (decode_speed (byte_at m 4)),
    get_mode-set_mode g pan p cc_pan_left (decode_speed (byte_at m 4)),
    get_mode-set_mode g pan p cc_pan_left (pos 0),
  )

  pub decode_tilt_modes : get_mode g (decode_tilt p m) ≡ (
      if same g tilt
      then if bit_is_set m bit_tilt_up then cc_tilt_up else cc_tilt_down
      else get_mode g p)
  unfolding decode_tilt Modes.tilt
  decode_tilt_modes = ground (
    arith,
    get_mode-set_mode g tilt p cc_tilt_up (decode_speed (byte_at m 5)),
    get_mode-set_mode g tilt p cc_tilt_down (decode_speed (byte_at m 5)),
    get_mode-set_mode g tilt p cc_tilt_down (pos 0),
  )

  -- An automatic pan without the sense bit is a manual pan, which leaves no pan mode at all.
  pub decode_sense_modes : get_mode g (decode_sense p m) ≡ (
      if same g camera
      then if bit_is_set m bit_camera_on_off
        then if bit_is_set m bit_sense then cc_camera_on else cc_camera_off
        else get_mode g p
      else if same g pan
      then if bit_is_set m bit_auto_pan
        then if bit_is_set m bit_sense then cc_pan_auto else 0
        else get_mode g p
      else get_mode g p)
  unfolding decode_sense Modes.pan Modes.camera
  decode_sense_modes = ground (
    arith,
    get_mode-set_mode g camera p cc_camera_on (pos 0),
    get_mode-set_mode g camera p cc_camera_off (pos 0),
    get_mode-set_mode g pan p cc_pan_auto (pos 0),
    get_mode-set_mode g pan p cc_pan_manual (pos 0),
    get_mode-set_mode g pan (Packet.set_camera p cc_camera_on) cc_pan_auto (pos 0),
    get_mode-set_mode g pan (Packet.set_camera p cc_camera_off) cc_pan_manual (pos 0),
  )

-- The values of a packet beside its flags.
pub record Values : Type 0 where
  pub receiver : ℤ
  pub pan : ℤ
  pub tilt : ℤ
  pub preset : ℤ

abbrev pub values : Ccpacket → Values
values p = record { receiver = p.receiver; pan = p.pan; tilt = p.tilt; preset = p.preset }

module _ (p : Ccpacket) (m : List ℕ) where
  pub values-decode_lens : values (decode_lens p m) ≡ values p
  unfolding decode_lens
  values-decode_lens =
      ground
        (arith, of_iris p, of_focus (decode_iris p m), of_zoom (decode_focus (decode_iris p m) m))
    where
      of_iris : (q : Ccpacket) → values (decode_iris q m) ≡ values q
      of_iris q = unfold decode_iris Packet.set_iris in ground arith

      of_focus : (q : Ccpacket) → values (decode_focus q m) ≡ values q
      of_focus q = unfold decode_focus Packet.set_focus in ground arith

      of_zoom : (q : Ccpacket) → values (decode_zoom q m) ≡ values q
      of_zoom q = unfold decode_zoom Packet.set_zoom in ground arith

  -- An automatic pan has speed 0.
  pub values-decode_sense : values (decode_sense p m) ≡ (
      if bit_is_set m bit_auto_pan
      then record { receiver = p.receiver; pan = pos 0; tilt = p.tilt; preset = p.preset }
      else values p)
  unfolding decode_sense Packet.set_camera Packet.set_pan
  values-decode_sense = ground arith

  pub values-decode_pan : values (decode_pan p m) ≡ record {
    receiver = p.receiver;
    pan =
        if bit_is_set m bit_pan_right || bit_is_set m bit_pan_left
        then decode_speed (byte_at m 4)
        else pos 0;
    tilt = p.tilt;
    preset = p.preset;
  }
  unfolding decode_pan Packet.set_pan decode_speed
  values-decode_pan = ground arith

  pub values-decode_tilt : values (decode_tilt p m) ≡ record {
    receiver = p.receiver;
    pan = p.pan;
    tilt =
        if bit_is_set m bit_tilt_up || bit_is_set m bit_tilt_down
        then decode_speed (byte_at m 5)
        else pos 0;
    preset = p.preset;
  }
  unfolding decode_tilt Packet.set_tilt
  values-decode_tilt = ground arith
