-- ===== src/Ccpacket/Values.antt =====
-- The values that the checks of src/ccpacket.c let through.
use mn_protozoa.Base.{ℕ, ◌≡◌, true, ◌||◌, ◌==◌, arith}
use mn_protozoa.Ccpacket.Flags.{
  cc_pan_left, cc_pan_right, cc_pan_auto, cc_tilt_up, cc_tilt_down, cc_iris_open, cc_iris_close,
  cc_iris_auto, cc_focus_near, cc_focus_far, cc_focus_auto, cc_zoom_in, cc_zoom_out, cc_camera_on,
  cc_camera_off,
}
use mn_protozoa.Ccpacket.Modes

module _ (f : ℕ) where
  pub iris_values :
      (Modes.iris f == 0
        || (Modes.iris f == cc_iris_open
            || (Modes.iris f == cc_iris_close || Modes.iris f == cc_iris_auto)))
      ≡ true
  unfolding Modes.iris
  iris_values = ground arith

  pub focus_values :
      (Modes.focus f == 0
        || (Modes.focus f == cc_focus_near
            || (Modes.focus f == cc_focus_far || Modes.focus f == cc_focus_auto)))
      ≡ true
  unfolding Modes.focus
  focus_values = ground arith

  pub zoom_values :
      (Modes.zoom f == 0 || (Modes.zoom f == cc_zoom_in || Modes.zoom f == cc_zoom_out)) ≡ true
  unfolding Modes.zoom
  zoom_values = ground arith

  pub camera_values :
      (Modes.camera f == 0 || (Modes.camera f == cc_camera_on || Modes.camera f == cc_camera_off))
      ≡ true
  unfolding Modes.camera
  camera_values = ground arith

  pub pan_values :
      (Modes.pan f == 0
        || (Modes.pan f == cc_pan_left
            || (Modes.pan f == cc_pan_right || Modes.pan f == cc_pan_auto)))
      ≡ true
  unfolding Modes.pan
  pan_values = ground arith

  pub tilt_values :
      (Modes.tilt f == 0 || (Modes.tilt f == cc_tilt_up || Modes.tilt f == cc_tilt_down)) ≡ true
  unfolding Modes.tilt
  tilt_values = ground arith
