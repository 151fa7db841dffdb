-- ===== src/Vicon/Roundtrip.antt =====
-- Extended messages of src/vicon.c, sent and received.
use mn_protozoa.Base.{
  ℕ, ◌*◌, ◌/◌, ◌%◌, ◌^◌, ◌<◌, ◌≡◌, ◌∙◌, refl, ap, true, false, ◌&&◌, ◌==◌, bit_and, bit_or, arith,
  if◌then◌else◌,
}
use mn_protozoa.Base.Int.{pos}
use mn_protozoa.Base.Bits.{bit_and_mask, bit_or_fields}
use mn_protozoa.Base.Table.{all_below, all_below_sound}
use mn_protozoa.Bitarray.{bit_is_set}
use mn_protozoa.Ccpacket.Flags.{
  cc_pan_left, cc_pan_right, cc_pan_auto, cc_tilt_up, cc_tilt_down, cc_focus_auto, cc_wiper_on,
}
use mn_protozoa.Ccpacket.Packet.{
  Ccpacket, set_receiver, clamp_speed, get_pan_mode, get_tilt_mode, get_iris, get_focus, get_zoom,
  get_ack, get_lens, get_wiper,
}
use mn_protozoa.Ccpacket.Group.{Group, pan, tilt, zoom, focus, iris, lens, wiper, ack, get_mode}
use mn_protozoa.Ccpacket.Modes
use mn_protozoa.Ccpacket.Queries.{has_pan, has_tilt}
use mn_protozoa.Ccpacket.Updates.{mode_after, get_mode-blank}
use mn_protozoa.Ccpacket.Values.{iris_values, focus_values, zoom_values, pan_values, tilt_values}
use mn_protozoa.Vicon.Bits.{bit_ex_request}
use mn_protozoa.Vicon.Decode.{decode_receiver, is_extended_command, extended_packet}
use mn_protozoa.Vicon.Decoded
use mn_protozoa.Vicon.Decoded.{parts_updates}
use mn_protozoa.Vicon.Fields.{speed_values, receiver_bytes}
use mn_protozoa.Vicon.Message.{speed_bytes}
use mn_protozoa.Vicon.Wire

-- A speed, put together from its two bytes.
assembled :
    (a : ℕ) → a < 2048 → bit_or (bit_and (a / 128) 0x0f * 2 ^ 7) (bit_and (a % 128) 0x7f) ≡ a
assembled a h = ground (
  arith,
  bit_and_mask 4 (a / 128) 0x0f refl,
  bit_and_mask 7 (a % 128) 0x7f refl,
  bit_or_fields 7 (a / 128) (a % 128),
)

-- A packet `p` that holds speeds as `vicon_encode_speed` expects them, sent as an extended speed
-- message and decoded into a packet `q` without flags.
module _ (p q : Ccpacket) (blank : q.flags ≡ 0) (a b : ℕ) (panning : p.pan ≡ pos a)
    (a_small : a < 2048) (tilting : p.tilt ≡ pos b) (b_small : b < 2048) where
  abbrev decoded : Ccpacket
  decoded = extended_packet q (speed_bytes p)

  no_request_table : all_below 16 (λ r. bit_and r 16 == 0) ≡ true
  unfolding all_below
  no_request_table = refl

  no_request : bit_is_set (speed_bytes p) bit_ex_request ≡ false
  unfolding bit_is_set
  no_request =
      let (six, _, _, _) = speed_values p a b panning a_small tilting b_small in
      rw six (ground (arith, all_below_sound 16 _ (a / 128) no_request_table))

  mode : (g : Group) → get_mode g decoded ≡ mode_after g (parts_updates (speed_bytes p)) 0
  unfolding decode_receiver set_receiver
  mode g =
      Decoded.modes_lem (speed_bytes p) no_request q g
      ∙ ap (mode_after g (parts_updates (speed_bytes p))) (get_mode-blank g _ blank)

  decoded_iris : get_iris decoded ≡ get_iris p
  unfolding get_iris Modes.iris
  decoded_iris =
      mode iris
      ∙ rw (Wire.iris_open_lem p, Wire.iris_close_lem p, Wire.auto_iris_lem p)
          (ground (arith, iris_values p.flags))

  decoded_focus : get_focus decoded ≡ (if get_focus p == cc_focus_auto then 0 else get_focus p)
  unfolding get_focus Modes.focus
  decoded_focus =
      mode focus
      ∙ rw (Wire.focus_near_lem p, Wire.focus_far_lem p) (ground (arith, focus_values p.flags))

  decoded_zoom : get_zoom decoded ≡ get_zoom p
  unfolding get_zoom Modes.zoom
  decoded_zoom =
      mode zoom ∙ rw (Wire.zoom_in_lem p, Wire.zoom_out_lem p) (ground (arith, zoom_values p.flags))

  decoded_pan : get_pan_mode decoded ≡ (
      if get_pan_mode p == cc_pan_auto
      then cc_pan_auto
      else if has_pan p && get_pan_mode p == cc_pan_right
      then cc_pan_right
      else cc_pan_left)
  unfolding get_pan_mode Modes.pan
  decoded_pan =
      mode pan
      ∙ rw (Wire.pan_left_lem p, Wire.pan_right_lem p, Wire.auto_pan_lem p)
          (ground (arith, pan_values p.flags))

  decoded_tilt :
      get_tilt_mode decoded
      ≡ (if has_tilt p && get_tilt_mode p == cc_tilt_up then cc_tilt_up else cc_tilt_down)
  unfolding get_tilt_mode Modes.tilt
  decoded_tilt =
      mode tilt
      ∙ rw (Wire.tilt_up_lem p, Wire.tilt_down_lem p) (ground (arith, tilt_values p.flags))

  decoded_others :
      (get_wiper decoded ≡ (if get_wiper p == cc_wiper_on then cc_wiper_on else 0))
      × (get_lens decoded ≡ get_lens p)
      × (get_ack decoded ≡ get_ack p)
  unfolding get_wiper get_lens get_ack Modes.wiper Modes.lens Modes.ack
  decoded_others = (
    mode wiper ∙ rw (Wire.aux_6_lem p) (ground arith),
    mode lens ∙ rw (Wire.lens_speed_lem p) (ground arith),
    mode ack ∙ rw (Wire.ack_alarm_lem p) (ground arith),
  )

  decoded_receiver : (n : ℕ) → p.receiver ≡ pos n → n < 256 → decoded.receiver ≡ pos n
  unfolding decode_receiver set_receiver
  decoded_receiver n e h =
      let (high, low, _) = receiver_bytes p n e h in
      Decoded.receiver_lem (speed_bytes p) no_request q
      ∙ rw (high, low) (ground (arith, bit_or_fields 4 (n / 16) (n % 16)))

  decoded_speeds : (decoded.pan ≡ pos a) × (decoded.tilt ≡ pos b)
  unfolding clamp_speed
  decoded_speeds =
      let (six, seven, eight, nine) = speed_values p a b panning a_small tilting b_small in
      let (pan_eq, tilt_eq) = Decoded.speeds_lem (speed_bytes p) no_request q in
      (
        pan_eq ∙ (rw (six, seven, assembled a a_small) (ground arith)),
        tilt_eq ∙ (rw (eight, nine, assembled b b_small) refl),
      )

  -- A packet with a receiver below 256 and speeds below 2048, encoded as an extended speed message
  -- and decoded into a packet without flags: the message is taken for an extended one; the
  -- receiver and both speeds come through exactly; an automatic pan comes through, and otherwise a
  -- pan or tilt with a speed keeps its direction, where a stop becomes a pan to the left and a tilt
  -- down; iris, zoom, lens and acknowledgement come through, an automatic focus and a wiper that is
  -- turned off become no command.
  pub speed_message_roundtrip :
      (n : ℕ)
      → p.receiver ≡ pos n
      → n < 256
      → (is_extended_command (speed_bytes p) ≡ true)
        × (decoded.receiver ≡ pos n)
        × (decoded.pan ≡ pos a)
        × (decoded.tilt ≡ pos b)
        × (get_pan_mode decoded ≡ (
            if get_pan_mode p == cc_pan_auto
            then cc_pan_auto
            else if has_pan p && get_pan_mode p == cc_pan_right
            then cc_pan_right
            else cc_pan_left))
        × (get_tilt_mode decoded
            ≡ (if has_tilt p && get_tilt_mode p == cc_tilt_up then cc_tilt_up else cc_tilt_down))
        × (get_iris decoded ≡ get_iris p)
        × (get_focus decoded ≡ (if get_focus p == cc_focus_auto then 0 else get_focus p))
        × (get_zoom decoded ≡ get_zoom p)
        × (get_wiper decoded ≡ (if get_wiper p == cc_wiper_on then cc_wiper_on else 0))
        × (get_lens decoded ≡ get_lens p)
        × (get_ack decoded ≡ get_ack p)
  unfolding is_extended_command
  speed_message_roundtrip n e h =
      let (pan_eq, tilt_eq) = decoded_speeds in
      let (wiper_eq, lens_eq, ack_eq) = decoded_others in
      (
        rw (Wire.command_lem p, Wire.extended_lem p) refl,
        decoded_receiver n e h,
        pan_eq,
        tilt_eq,
        decoded_pan,
        decoded_tilt,
        decoded_iris,
        decoded_focus,
        decoded_zoom,
        wiper_eq,
        lens_eq,
        ack_eq,
      )
