-- ===== src/Ccpacket/Modes.antt =====
-- The static checks of src/ccpacket.c: each keeps the bits of its group when they are one valid
-- mode, and gives 0 otherwise.
use mn_protozoa.Base.{ℕ, bit_and, Bool, ◌||◌, ◌==◌, if◌then◌else◌}
use mn_protozoa.Base.Int.{ℤ, pos, leb_ℤ}
use mn_protozoa.Ccpacket.Flags.{
  cc_ack_alarm, cc_camera, cc_camera_off, cc_camera_on, cc_focus, cc_focus_auto, cc_focus_far,
  cc_focus_near, cc_iris, cc_iris_auto, cc_iris_close, cc_iris_open, cc_lens, cc_lens_speed,
  cc_menu, cc_menu_cancel, cc_menu_enter, cc_menu_open, cc_pan, cc_pan_auto, cc_pan_left,
  cc_pan_right, cc_preset, cc_preset_clear, cc_preset_recall, cc_preset_store, cc_tilt,
  cc_tilt_down, cc_tilt_up, cc_wiper, cc_wiper_off, cc_wiper_on, cc_zoom, cc_zoom_in, cc_zoom_out,
}

-- The `switch` of each check: the value itself under a `case` label, 0 by default.
abbrev pub keep_if : Bool → ℕ → ℕ
keep_if t m = if t then m else 0

unfoldable pub menu : ℕ → ℕ
menu mc =
    let m = bit_and mc cc_menu in
    keep_if (m == cc_menu_open || m == cc_menu_enter || m == cc_menu_cancel) m

unfoldable pub camera : ℕ → ℕ
camera cc = let m = bit_and cc cc_camera in keep_if (m == cc_camera_on || m == cc_camera_off) m

unfoldable pub pan : ℕ → ℕ
pan pm =
    let m = bit_and pm cc_pan in
    keep_if (m == cc_pan_left || m == cc_pan_right || m == cc_pan_auto) m

unfoldable pub tilt : ℕ → ℕ
tilt tm = let m = bit_and tm cc_tilt in keep_if (m == cc_tilt_up || m == cc_tilt_down) m

unfoldable pub zoom : ℕ → ℕ
zoom zm = let m = bit_and zm cc_zoom in keep_if (m == cc_zoom_in || m == cc_zoom_out) m

unfoldable pub focus : ℕ → ℕ
focus fm =
    let m = bit_and fm cc_focus in
    keep_if (m == cc_focus_near || m == cc_focus_far || m == cc_focus_auto) m

unfoldable pub iris : ℕ → ℕ
iris im =
    let m = bit_and im cc_iris in
    keep_if (m == cc_iris_close || m == cc_iris_open || m == cc_iris_auto) m

unfoldable pub lens : ℕ → ℕ
lens lm = let m = bit_and lm cc_lens in keep_if (m == cc_lens_speed) m

unfoldable pub wiper : ℕ → ℕ
wiper wm = let m = bit_and wm cc_wiper in keep_if (m == cc_wiper_on || m == cc_wiper_off) m

unfoldable pub ack : ℕ → ℕ
ack am = let m = bit_and am cc_ack_alarm in keep_if (m == cc_ack_alarm) m

-- `ccpacket_preset`
unfoldable pub preset : ℕ → ℤ → ℕ
preset pm p_num =
    let p = bit_and pm cc_preset in
    if leb_ℤ p_num (pos 0)
    then 0
    else keep_if (p == cc_preset_recall || p == cc_preset_store || p == cc_preset_clear) p
