-- ===== src/PelcoP/Wire.antt =====
-- The bits of the command message of src/pelco_p.c, one at a time.
use mn_protozoa.Base.{◌≡◌, ◌∙◌, refl, ◌&&◌, ◌||◌, ◌==◌, arith, bool_units}
use mn_protozoa.Bitarray.{bit_is_set}
use mn_protozoa.Ccpacket.Flags.{
  cc_pan_left, cc_pan_right, cc_pan_auto, cc_tilt_up, cc_tilt_down, cc_iris_open, cc_iris_close,
  cc_focus_near, cc_focus_far, cc_zoom_in, cc_zoom_out, cc_camera_on, cc_camera_off,
}
use mn_protozoa.Ccpacket.Packet.{
  Ccpacket, get_pan_mode, get_tilt_mode, get_iris, get_focus, get_zoom, get_camera,
}
use mn_protozoa.Ccpacket.Queries.{has_pan}
use mn_protozoa.PelcoP.Bits.{
  bit_focus_near, bit_iris_open, bit_iris_close, bit_camera_on_off, bit_auto_pan, bit_camera_on,
  bit_pan_right, bit_pan_left, bit_tilt_up, bit_tilt_down, bit_zoom_in, bit_zoom_out, bit_focus_far,
}
use mn_protozoa.PelcoP.Message.{command_bytes, tilts, bit_lem}

module _ (p : Ccpacket) where
  pub pan_right_lem :
      bit_is_set (command_bytes p) bit_pan_right ≡ (has_pan p && get_pan_mode p == cc_pan_right)
  pan_right_lem = bit_lem p bit_pan_right (omega arith) (omega arith) ∙ simp bool_units refl

  pub pan_left_lem :
      bit_is_set (command_bytes p) bit_pan_left ≡ (has_pan p && get_pan_mode p == cc_pan_left)
  pan_left_lem = bit_lem p bit_pan_left (omega arith) (omega arith) ∙ simp bool_units refl

  pub tilt_up_lem :
      bit_is_set (command_bytes p) bit_tilt_up ≡ (tilts p && get_tilt_mode p == cc_tilt_up)
  tilt_up_lem = bit_lem p bit_tilt_up (omega arith) (omega arith) ∙ simp bool_units refl

  pub tilt_down_lem :
      bit_is_set (command_bytes p) bit_tilt_down ≡ (tilts p && get_tilt_mode p == cc_tilt_down)
  tilt_down_lem = bit_lem p bit_tilt_down (omega arith) (omega arith) ∙ simp bool_units refl

  pub iris_open_lem : bit_is_set (command_bytes p) bit_iris_open ≡ (get_iris p == cc_iris_open)
  iris_open_lem = bit_lem p bit_iris_open (omega arith) (omega arith) ∙ simp bool_units refl

  pub iris_close_lem : bit_is_set (command_bytes p) bit_iris_close ≡ (get_iris p == cc_iris_close)
  iris_close_lem = bit_lem p bit_iris_close (omega arith) (omega arith) ∙ simp bool_units refl

  pub focus_near_lem : bit_is_set (command_bytes p) bit_focus_near ≡ (get_focus p == cc_focus_near)
  focus_near_lem = bit_lem p bit_focus_near (omega arith) (omega arith) ∙ simp bool_units refl

  pub focus_far_lem : bit_is_set (command_bytes p) bit_focus_far ≡ (get_focus p == cc_focus_far)
  focus_far_lem = bit_lem p bit_focus_far (omega arith) (omega arith) ∙ simp bool_units refl

  pub zoom_in_lem : bit_is_set (command_bytes p) bit_zoom_in ≡ (get_zoom p == cc_zoom_in)
  zoom_in_lem = bit_lem p bit_zoom_in (omega arith) (omega arith) ∙ simp bool_units refl

  pub zoom_out_lem : bit_is_set (command_bytes p) bit_zoom_out ≡ (get_zoom p == cc_zoom_out)
  zoom_out_lem = bit_lem p bit_zoom_out (omega arith) (omega arith) ∙ simp bool_units refl

  pub camera_on_off_lem :
      bit_is_set (command_bytes p) bit_camera_on_off
      ≡ (get_camera p == cc_camera_on || get_camera p == cc_camera_off)
  camera_on_off_lem = bit_lem p bit_camera_on_off (omega arith) (omega arith) ∙ simp bool_units refl

  pub camera_on_lem : bit_is_set (command_bytes p) bit_camera_on ≡ (get_camera p == cc_camera_on)
  camera_on_lem = bit_lem p bit_camera_on (omega arith) (omega arith) ∙ simp bool_units refl

  pub auto_pan_lem : bit_is_set (command_bytes p) bit_auto_pan ≡ (get_pan_mode p == cc_pan_auto)
  auto_pan_lem = bit_lem p bit_auto_pan (omega arith) (omega arith) ∙ simp bool_units refl
