-- ===== src/PelcoP/Decoded.antt =====
-- What the decoder of src/pelco_p.c makes of a command message, group by group.
use mn_protozoa.Base.{ℕ, ◌≡◌, ap, ◌∙◌, not, ◌&&◌, List, [], ◌∷◌, ◌++◌, arith}
use mn_protozoa.Base.Int.{pos}
use mn_protozoa.Bitarray.{byte_at, bit_is_set}
use mn_protozoa.Ccpacket.Flags.{
  cc_pan_left, cc_pan_right, cc_pan_auto, cc_tilt_up, cc_tilt_down, cc_iris_open, cc_iris_close,
  cc_focus_near, cc_focus_far, cc_zoom_in, cc_zoom_out, cc_camera_on, cc_camera_off,
}
use mn_protozoa.Ccpacket.Packet.{Ccpacket}
use mn_protozoa.Ccpacket.Group.{Group, camera, pan, tilt, zoom, focus, iris, get_mode}
use mn_protozoa.Ccpacket.Updates.{
  Update, on, either, either-eq, one_of, one_of-eq, updated, updated_then, mode_after, pan_after,
  tilt_after, get_mode-updated, values-updated,
}
use mn_protozoa.PelcoP.Bits.{
  bit_focus_near, bit_iris_open, bit_iris_close, bit_camera_on_off, bit_auto_pan, bit_camera_on,
  bit_pan_right, bit_pan_left, bit_tilt_up, bit_tilt_down, bit_zoom_in, bit_zoom_out, bit_focus_far,
}
use mn_protozoa.PelcoP.Decode.{
  decode_receiver, decode_speed, decode_pan, decode_tilt, decode_iris, decode_focus, decode_zoom,
  decode_lens, decode_sense, decode_command,
}

module _ (flags : ℕ) (m : List ℕ) where
  abbrev pub pan_updates : List Update
  pan_updates =
      one_of pan (bit_is_set m bit_pan_right) cc_pan_right (decode_speed (byte_at m 4) flags)
        (bit_is_set m bit_pan_left) cc_pan_left (decode_speed (byte_at m 4) flags) cc_pan_left
        (pos 0)

  abbrev pub tilt_updates : List Update
  tilt_updates =
      one_of tilt (bit_is_set m bit_tilt_up) cc_tilt_up (decode_speed (byte_at m 5) flags)
        (bit_is_set m bit_tilt_down) cc_tilt_down (decode_speed (byte_at m 5) flags) cc_tilt_down
        (pos 0)

  abbrev pub iris_updates : List Update
  iris_updates =
      either iris (bit_is_set m bit_iris_open) cc_iris_open (bit_is_set m bit_iris_close)
        cc_iris_close

  abbrev pub focus_updates : List Update
  focus_updates =
      either focus (bit_is_set m bit_focus_near) cc_focus_near (bit_is_set m bit_focus_far)
        cc_focus_far

  abbrev pub zoom_updates : List Update
  zoom_updates =
      either zoom (bit_is_set m bit_zoom_in) cc_zoom_in (bit_is_set m bit_zoom_out) cc_zoom_out

  abbrev pub sense_updates : List Update
  sense_updates =
      on (bit_is_set m bit_camera_on_off && bit_is_set m bit_camera_on) camera cc_camera_on
      ∷ on (bit_is_set m bit_camera_on_off && not (bit_is_set m bit_camera_on)) camera cc_camera_off
      ∷ on (bit_is_set m bit_auto_pan) pan cc_pan_auto
      ∷ []

  abbrev pub command_updates : List Update
  command_updates =
      pan_updates
      ++ (tilt_updates ++ (iris_updates ++ (focus_updates ++ (zoom_updates ++ sense_updates))))

  pan_eq : (p : Ccpacket) → decode_pan p m flags ≡ updated pan_updates p
  unfolding decode_pan
  pan_eq p = one_of-eq pan _ _ _ _ _ _ _ _ p

  tilt_eq : (p : Ccpacket) → decode_tilt p m flags ≡ updated tilt_updates p
  unfolding decode_tilt
  tilt_eq p = one_of-eq tilt _ _ _ _ _ _ _ _ p

  iris_eq : (p : Ccpacket) → decode_iris p m ≡ updated iris_updates p
  unfolding decode_iris
  iris_eq p = either-eq iris _ _ _ _ p

  focus_eq : (p : Ccpacket) → decode_focus p m ≡ updated focus_updates p
  unfolding decode_focus
  focus_eq p = either-eq focus _ _ _ _ p

  zoom_eq : (p : Ccpacket) → decode_zoom p m ≡ updated zoom_updates p
  unfolding decode_zoom
  zoom_eq p = either-eq zoom _ _ _ _ p

  sense_eq : (p : Ccpacket) → decode_sense p m ≡ updated sense_updates p
  unfolding decode_sense updated
  sense_eq p = ground arith

  decode_command-eq :
      (p : Ccpacket) → decode_command flags p m ≡ updated command_updates (decode_receiver p m)
  unfolding decode_command decode_lens
  decode_command-eq p =
      let q = decode_receiver p m in
      let us1 = pan_updates ++ tilt_updates in
      let us2 = pan_updates ++ (tilt_updates ++ iris_updates) in
      let us3 = pan_updates ++ (tilt_updates ++ (iris_updates ++ focus_updates)) in
      let us4 =
        pan_updates ++ (tilt_updates ++ (iris_updates ++ (focus_updates ++ zoom_updates))) in
      let q1 = decode_tilt (decode_pan q m flags) m flags in
      let moved =
        updated_then pan_updates tilt_updates (λ x. decode_tilt x m flags) (decode_pan q m flags) q
          tilt_eq (pan_eq q) in
      let irised = updated_then us1 iris_updates (λ x. decode_iris x m) q1 q iris_eq moved in
      let focused =
        updated_then us2 focus_updates (λ x. decode_focus x m) (decode_iris q1 m) q focus_eq
          irised in
      let zoomed =
        updated_then us3 zoom_updates (λ x. decode_zoom x m) (decode_focus (decode_iris q1 m) m) q
          zoom_eq focused in
      updated_then us4 sense_updates (λ x. decode_sense x m)
        (decode_zoom (decode_focus (decode_iris q1 m) m) m) q sense_eq zoomed

  module _ (p : Ccpacket) where
    pub modes_lem :
        (g : Group)
        → get_mode g (decode_command flags p m)
          ≡ mode_after g command_updates (get_mode g (decode_receiver p m))
    modes_lem g =
        ap (get_mode g) (decode_command-eq p)
        ∙ get_mode-updated g command_updates (decode_receiver p m)

    pub values_lem :
        ((decode_command flags p m).receiver ≡ (decode_receiver p m).receiver)
        × ((decode_command flags p m).pan ≡ pan_after command_updates (decode_receiver p m).pan)
        × ((decode_command flags p m).tilt ≡ tilt_after command_updates (decode_receiver p m).tilt)
    values_lem =
        let (a, b, c, _) = values-updated command_updates (decode_receiver p m) in
        let e = decode_command-eq p in
        (ap (λ q. q.receiver) e ∙ c, ap (λ q. q.pan) e ∙ a, ap (λ q. q.tilt) e ∙ b)
