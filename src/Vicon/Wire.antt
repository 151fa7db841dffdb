-- ===== src/Vicon/Wire.antt =====
-- The bits of an extended speed message of src/vicon.c, one at a time.
use mn_protozoa.Base.{ℕ, ◌≤◌, ◌<◌, ◌≡◌, ◌∙◌, refl, true, ◌&&◌, ◌==◌, arith, bool_units}
use mn_protozoa.Bitarray.{bit_is_set}
use mn_protozoa.Bitarray.Sets.{sets}
use mn_protozoa.Ccpacket.Flags.{
  cc_pan_left, cc_pan_right, cc_pan_auto, cc_tilt_up, cc_tilt_down, cc_iris_open, cc_iris_close,
  cc_iris_auto, cc_focus_near, cc_focus_far, cc_zoom_in, cc_zoom_out, cc_wiper_on, cc_ack_alarm,
  cc_lens_speed,
}
use mn_protozoa.Ccpacket.Packet.{
  Ccpacket, get_pan_mode, get_tilt_mode, get_iris, get_focus, get_zoom, get_ack, get_lens,
  get_wiper,
}
use mn_protozoa.Ccpacket.Queries.{has_pan, has_tilt}
use mn_protozoa.Vicon.Bits.{
  bit_command, bit_ack_alarm, bit_extended, bit_auto_iris, bit_auto_pan, bit_tilt_down, bit_tilt_up,
  bit_pan_right, bit_pan_left, bit_lens_speed, bit_iris_close, bit_iris_open, bit_focus_near,
  bit_focus_far, bit_zoom_in, bit_zoom_out, bit_aux_6,
}
use mn_protozoa.Vicon.Message.{speed_bytes, speed_bits, speed_bit, address_bit, address_high}

module _ (p : Ccpacket) where
  bit_lem : (c : ℕ) → 16 ≤ c → c < 40 → bit_is_set (speed_bytes p) c ≡ sets (speed_bits p) c
  bit_lem c low high =
      speed_bit p c (omega (arith, low)) high ∙ simp (address_bit p c low, bool_units) refl

  pub pan_right_lem :
      bit_is_set (speed_bytes p) bit_pan_right ≡ (has_pan p && get_pan_mode p == cc_pan_right)
  pan_right_lem = bit_lem bit_pan_right (omega arith) (omega arith) ∙ simp bool_units refl

  pub pan_left_lem :
      bit_is_set (speed_bytes p) bit_pan_left ≡ (has_pan p && get_pan_mode p == cc_pan_left)
  pan_left_lem = bit_lem bit_pan_left (omega arith) (omega arith) ∙ simp bool_units refl

  pub tilt_up_lem :
      bit_is_set (speed_bytes p) bit_tilt_up ≡ (has_tilt p && get_tilt_mode p == cc_tilt_up)
  tilt_up_lem = bit_lem bit_tilt_up (omega arith) (omega arith) ∙ simp bool_units refl

  pub tilt_down_lem :
      bit_is_set (speed_bytes p) bit_tilt_down ≡ (has_tilt p && get_tilt_mode p == cc_tilt_down)
  tilt_down_lem = bit_lem bit_tilt_down (omega arith) (omega arith) ∙ simp bool_units refl

  pub iris_open_lem : bit_is_set (speed_bytes p) bit_iris_open ≡ (get_iris p == cc_iris_open)
  iris_open_lem = bit_lem bit_iris_open (omega arith) (omega arith) ∙ simp bool_units refl

  pub iris_close_lem : bit_is_set (speed_bytes p) bit_iris_close ≡ (get_iris p == cc_iris_close)
  iris_close_lem = bit_lem bit_iris_close (omega arith) (omega arith) ∙ simp bool_units refl

  pub focus_near_lem : bit_is_set (speed_bytes p) bit_focus_near ≡ (get_focus p == cc_focus_near)
  focus_near_lem = bit_lem bit_focus_near (omega arith) (omega arith) ∙ simp bool_units refl

  pub focus_far_lem : bit_is_set (speed_bytes p) bit_focus_far ≡ (get_focus p == cc_focus_far)
  focus_far_lem = bit_lem bit_focus_far (omega arith) (omega arith) ∙ simp bool_units refl

  pub zoom_in_lem : bit_is_set (speed_bytes p) bit_zoom_in ≡ (get_zoom p == cc_zoom_in)
  zoom_in_lem = bit_lem bit_zoom_in (omega arith) (omega arith) ∙ simp bool_units refl

  pub zoom_out_lem : bit_is_set (speed_bytes p) bit_zoom_out ≡ (get_zoom p == cc_zoom_out)
  zoom_out_lem = bit_lem bit_zoom_out (omega arith) (omega arith) ∙ simp bool_units refl

  pub auto_iris_lem : bit_is_set (speed_bytes p) bit_auto_iris ≡ (get_iris p == cc_iris_auto)
  auto_iris_lem = bit_lem bit_auto_iris (omega arith) (omega arith) ∙ simp bool_units refl

  pub auto_pan_lem : bit_is_set (speed_bytes p) bit_auto_pan ≡ (get_pan_mode p == cc_pan_auto)
  auto_pan_lem = bit_lem bit_auto_pan (omega arith) (omega arith) ∙ simp bool_units refl

  pub lens_speed_lem : bit_is_set (speed_bytes p) bit_lens_speed ≡ (get_lens p == cc_lens_speed)
  lens_speed_lem = bit_lem bit_lens_speed (omega arith) (omega arith) ∙ simp bool_units refl

  pub aux_6_lem : bit_is_set (speed_bytes p) bit_aux_6 ≡ (get_wiper p == cc_wiper_on)
  aux_6_lem = bit_lem bit_aux_6 (omega arith) (omega arith) ∙ simp bool_units refl

  pub ack_alarm_lem : bit_is_set (speed_bytes p) bit_ack_alarm ≡ (get_ack p == cc_ack_alarm)
  ack_alarm_lem =
      speed_bit p bit_ack_alarm (omega arith) (omega arith)
      ∙ (let (_, clear, _) = address_high p in simp (clear, bool_units) refl)

  -- The message has the bits of a command and of an extended one.
  pub command_lem : bit_is_set (speed_bytes p) bit_command ≡ true
  command_lem = speed_bit p bit_command (omega arith) (omega arith)

  pub extended_lem : bit_is_set (speed_bytes p) bit_extended ≡ true
  extended_lem = speed_bit p bit_extended (omega arith) (omega arith)
