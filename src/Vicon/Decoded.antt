-- ===== src/Vicon/Decoded.antt =====
-- What the decoder of src/vicon.c makes of an extended message, group by group.
use mn_protozoa.Base.{
  ℕ, ◌*◌, ◌^◌, ◌≡◌, refl, ap, sym, ◌∙◌, false, List, [], ◌∷◌, ◌++◌, arith, bit_and, bit_or,
}
use mn_protozoa.Base.Int.{pos}
use mn_protozoa.Bitarray.{byte_at, bit_is_set}
use mn_protozoa.Ccpacket.Flags.{
  cc_pan_left, cc_pan_right, cc_pan_auto, cc_tilt_up, cc_tilt_down, cc_iris_open, cc_iris_close,
  cc_iris_auto, cc_focus_near, cc_focus_far, cc_zoom_in, cc_zoom_out, cc_preset_recall,
  cc_preset_store, cc_wiper_on, cc_ack_alarm, cc_lens_speed, speed_max,
}
use mn_protozoa.Ccpacket.Packet
use mn_protozoa.Ccpacket.Packet.{Ccpacket, set_preset, set_pan_speed, set_tilt_speed, clamp_speed}
use mn_protozoa.Ccpacket.Group.{Group, pan, tilt, zoom, focus, iris, lens, wiper, ack, get_mode}
use mn_protozoa.Ccpacket.Frames.{get_mode-eq-valid}
use mn_protozoa.Ccpacket.Preset.{get_mode-set_preset}
use mn_protozoa.Ccpacket.Updates.{
  Update, on, either, either-eq, one_of, one_of-eq, updated, mode_after, get_mode-updated,
  values-updated, updated_then,
}
use mn_protozoa.Vicon.Bits.{
  bit_ack_alarm, bit_auto_iris, bit_auto_pan, bit_tilt_down, bit_tilt_up, bit_pan_right,
  bit_pan_left, bit_lens_speed, bit_iris_close, bit_iris_open, bit_focus_near, bit_focus_far,
  bit_zoom_in, bit_zoom_out, bit_aux_6, bit_ex_request,
}
use mn_protozoa.Vicon.Decode.{
  decode_receiver, decode_pan, decode_tilt, decode_iris, decode_focus, decode_zoom, decode_lens,
  decode_toggles, decode_aux, decode_preset, decode_parts, decode_ex_speed, extended_packet,
}

module _ (m : List ℕ) where
  -- The updates of `decode_pan`, `decode_tilt`, `decode_lens`, `decode_toggles` and `decode_aux`.
  abbrev pub pan_updates : List Update
  pan_updates =
      one_of pan (bit_is_set m bit_pan_right) cc_pan_right (pos speed_max)
        (bit_is_set m bit_pan_left) cc_pan_left (pos speed_max) cc_pan_left (pos 0)

  abbrev pub tilt_updates : List Update
  tilt_updates =
      one_of tilt (bit_is_set m bit_tilt_up) cc_tilt_up (pos speed_max) (bit_is_set m bit_tilt_down)
        cc_tilt_down (pos speed_max) cc_tilt_down (pos 0)

  abbrev pub iris_updates : List Update
  iris_updates =
      either iris (bit_is_set m bit_iris_open) cc_iris_open (bit_is_set m bit_iris_close)
        cc_iris_close

  abbrev pub focus_updates : List Update
  focus_updates =
      either focus (bit_is_set m bit_focus_near) cc_focus_near (bit_is_set m bit_focus_far)
        cc_focus_far

  abbrev pub zoom_updates : List Update
  zoom_updates =
      either zoom (bit_is_set m bit_zoom_in) cc_zoom_in (bit_is_set m bit_zoom_out) cc_zoom_out

  abbrev pub toggle_updates : List Update
  toggle_updates =
      on (bit_is_set m bit_ack_alarm) ack cc_ack_alarm
      ∷ on (bit_is_set m bit_auto_iris) iris cc_iris_auto
      ∷ on (bit_is_set m bit_auto_pan) pan cc_pan_auto
      ∷ on (bit_is_set m bit_lens_speed) lens cc_lens_speed
      ∷ on (bit_is_set m bit_aux_6) wiper cc_wiper_on
      ∷ []

  abbrev pub parts_updates : List Update
  parts_updates =
      pan_updates
      ++ (tilt_updates ++ (iris_updates ++ (focus_updates ++ (zoom_updates ++ toggle_updates))))

  toggles_eq : (p : Ccpacket) → decode_aux (decode_toggles p m) m ≡ updated toggle_updates p
  unfolding decode_aux decode_toggles updated
  toggles_eq p = refl

  pan_eq : (p : Ccpacket) → decode_pan p m ≡ updated pan_updates p
  unfolding decode_pan
  pan_eq p = one_of-eq pan _ _ _ _ _ _ _ _ p

  tilt_eq : (p : Ccpacket) → decode_tilt p m ≡ updated tilt_updates p
  unfolding decode_tilt
  tilt_eq p = one_of-eq tilt _ _ _ _ _ _ _ _ p

  iris_eq : (p : Ccpacket) → decode_iris p m ≡ updated iris_updates p
  unfolding decode_iris
  iris_eq p = either-eq iris _ _ _ _ p

  focus_eq : (p : Ccpacket) → decode_focus p m ≡ updated focus_updates p
  unfolding decode_focus
  focus_eq p = either-eq focus _ _ _ _ p

  zoom_eq : (p : Ccpacket) → decode_zoom p m ≡ updated zoom_updates p
  unfolding decode_zoom
  zoom_eq p = either-eq zoom _ _ _ _ p

  decode_parts-eq :
      (p : Ccpacket)
      → decode_parts p m ≡ decode_preset (updated parts_updates (decode_receiver p m)) m
  unfolding decode_parts decode_lens
  decode_parts-eq p =
      let q = decode_receiver p m in
      let us1 = pan_updates ++ tilt_updates in
      let us2 = pan_updates ++ (tilt_updates ++ iris_updates) in
      let us3 = pan_updates ++ (tilt_updates ++ (iris_updates ++ focus_updates)) in
      let us4 =
        pan_updates ++ (tilt_updates ++ (iris_updates ++ (focus_updates ++ zoom_updates))) in
      let q1 = decode_tilt (decode_pan q m) m in
      let moved =
        updated_then pan_updates tilt_updates (λ x. decode_tilt x m) (decode_pan q m) q tilt_eq
          (pan_eq q) in
      let irised = updated_then us1 iris_updates (λ x. decode_iris x m) q1 q iris_eq moved in
      let focused =
        updated_then us2 focus_updates (λ x. decode_focus x m) (decode_iris q1 m) q focus_eq
          irised in
      let zoomed =
        updated_then us3 zoom_updates (λ x. decode_zoom x m) (decode_focus (decode_iris q1 m) m) q
          zoom_eq focused in
      ap (λ x. decode_preset x m)
        (updated_then us4 toggle_updates (λ x. decode_aux (decode_toggles x m) m)
          (decode_zoom (decode_focus (decode_iris q1 m) m) m) q toggles_eq zoomed)

  get_mode-decode_preset :
      (g : Group) (p : Ccpacket) → get_mode g (decode_preset p m) ≡ get_mode g p
  unfolding decode_preset
  get_mode-decode_preset g p =
      let n = pos (bit_and (byte_at m 5) 0x0f) in
      ground (
        arith,
        get_mode-set_preset g p cc_preset_recall n,
        get_mode-set_preset g p cc_preset_store n,
      )

  receiver-decode_preset : (p : Ccpacket) → (decode_preset p m).receiver ≡ p.receiver
  unfolding decode_preset set_preset Packet.menu_preset Packet.set_menu
  receiver-decode_preset p = ground arith

  get_mode-ex_speed : (g : Group) (p : Ccpacket) → get_mode g (decode_ex_speed p m) ≡ get_mode g p
  unfolding decode_ex_speed set_pan_speed set_tilt_speed
  get_mode-ex_speed g p = get_mode-eq-valid g _ ∙ sym (get_mode-eq-valid g p)

  -- A message without the request bit: the modes are those of the updates, and the speeds are those
  -- of the last four bytes.
  module _ (speed : bit_is_set m bit_ex_request ≡ false) (p : Ccpacket) where
    ex_speed : extended_packet p m ≡ decode_ex_speed (decode_parts p m) m
    unfolding extended_packet
    ex_speed = rw speed refl

    pub modes_lem :
        (g : Group)
        → get_mode g (extended_packet p m)
          ≡ mode_after g parts_updates (get_mode g (decode_receiver p m))
    modes_lem g =
        ap (get_mode g) ex_speed
        ∙ get_mode-ex_speed g (decode_parts p m)
        ∙ ap (get_mode g) (decode_parts-eq p)
        ∙ get_mode-decode_preset g (updated parts_updates (decode_receiver p m))
        ∙ get_mode-updated g parts_updates (decode_receiver p m)

    pub receiver_lem : (extended_packet p m).receiver ≡ (decode_receiver p m).receiver
    unfolding decode_ex_speed set_pan_speed set_tilt_speed
    receiver_lem =
        let (_, _, kept, _) = values-updated parts_updates (decode_receiver p m) in
        ap (λ q. q.receiver) ex_speed
        ∙ ap (λ q. q.receiver) (decode_parts-eq p)
        ∙ receiver-decode_preset (updated parts_updates (decode_receiver p m))
        ∙ kept

    pub speeds_lem :
        ((extended_packet p m).pan
          ≡ clamp_speed
              (pos (bit_or (bit_and (byte_at m 6) 0x0f * 2 ^ 7) (bit_and (byte_at m 7) 0x7f))))
        × ((extended_packet p m).tilt
            ≡ pos (bit_or (bit_and (byte_at m 8) 0x0f * 2 ^ 7) (bit_and (byte_at m 9) 0x7f)))
    unfolding decode_ex_speed set_pan_speed set_tilt_speed
    speeds_lem = (ap (λ q. q.pan) ex_speed, ap (λ q. q.tilt) ex_speed)
