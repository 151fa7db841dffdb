-- ===== src/Ccpacket/Packet.antt =====
-- `struct ccpacket` of src/ccpacket.c with its setters and getters, in the order of the source.
use mn_protozoa.Base.{ℕ, bit_and, bit_or, Bool, true, false, ◌&&◌, ◌==◌, if◌then◌else◌}
use mn_protozoa.Base.Int.{ℤ, pos, ltb_ℤ}
use mn_protozoa.Timeval
use mn_protozoa.Timeval.{Timeval}
use mn_protozoa.Ccpacket.Flags.{
  cc_menu, cc_menu_open, cc_menu_enter, cc_menu_cancel, cc_camera, cc_pan, cc_tilt, cc_zoom,
  cc_focus, cc_iris, cc_lens, cc_wiper, cc_ack, cc_preset, cc_preset_store, speed_max, complement,
}
use mn_protozoa.Ccpacket.Modes

pub record Ccpacket : Type 0 where
  pub receiver : ℤ
  pub flags : ℕ
  pub pan : ℤ
  pub tilt : ℤ
  pub preset : ℤ
  pub expire : Timeval

unfoldable pub clear : Ccpacket → Ccpacket
clear p = record p { receiver = pos 0; flags = 0; pan = pos 0; tilt = pos 0; preset = pos 0 }

-- `ccpacket_create`, where the allocation succeeds: what `malloc` left in the other fields is
-- overwritten by `ccpacket_clear`.
unfoldable pub create : (now : Timeval) → Ccpacket
create now = record {
  receiver = pos 0;
  flags = 0;
  pan = pos 0;
  tilt = pos 0;
  preset = pos 0;
  expire = now;
}

unfoldable pub set_receiver : Ccpacket → ℤ → Ccpacket
set_receiver p receiver = record p { receiver = receiver }

unfoldable pub clamp_speed : ℤ → ℤ
clamp_speed speed =
    if ltb_ℤ speed (pos 0)
    then pos 0
    else if ltb_ℤ (pos speed_max) speed
    then pos speed_max
    else speed

unfoldable pub set_menu : Ccpacket → ℕ → Ccpacket
set_menu p mc = record p { flags = bit_or (Modes.menu mc) (bit_and p.flags (complement cc_menu)) }

unfoldable pub get_menu : Ccpacket → ℕ
get_menu p = Modes.menu p.flags

unfoldable pub set_camera : Ccpacket → ℕ → Ccpacket
set_camera p cc = record p {
  flags = bit_or (Modes.camera cc) (bit_and p.flags (complement cc_camera));
}

unfoldable pub get_camera : Ccpacket → ℕ
get_camera p = Modes.camera p.flags

unfoldable pub set_zoom : Ccpacket → ℕ → Ccpacket
set_zoom p zm = record p { flags = bit_or (Modes.zoom zm) (bit_and p.flags (complement cc_zoom)) }

unfoldable pub get_zoom : Ccpacket → ℕ
get_zoom p = Modes.zoom p.flags

unfoldable pub set_focus : Ccpacket → ℕ → Ccpacket
set_focus p fm = record p {
  flags = bit_or (Modes.focus fm) (bit_and p.flags (complement cc_focus));
}

unfoldable pub get_focus : Ccpacket → ℕ
get_focus p = Modes.focus p.flags

unfoldable pub set_iris : Ccpacket → ℕ → Ccpacket
set_iris p im = record p { flags = bit_or (Modes.iris im) (bit_and p.flags (complement cc_iris)) }

unfoldable pub get_iris : Ccpacket → ℕ
get_iris p = Modes.iris p.flags

unfoldable pub set_lens : Ccpacket → ℕ → Ccpacket
set_lens p lm = record p { flags = bit_or (Modes.lens lm) (bit_and p.flags (complement cc_lens)) }

unfoldable pub get_lens : Ccpacket → ℕ
get_lens p = Modes.lens p.flags

unfoldable pub set_wiper : Ccpacket → ℕ → Ccpacket
set_wiper p wm = record p {
  flags = bit_or (Modes.wiper wm) (bit_and p.flags (complement cc_wiper));
}

unfoldable pub get_wiper : Ccpacket → ℕ
get_wiper p = Modes.wiper p.flags

unfoldable pub set_ack : Ccpacket → ℕ → Ccpacket
set_ack p am = record p { flags = bit_or (Modes.ack am) (bit_and p.flags (complement cc_ack)) }

unfoldable pub get_ack : Ccpacket → ℕ
get_ack p = Modes.ack p.flags

unfoldable pub set_pan_speed : Ccpacket → ℤ → Ccpacket
unfolding clamp_speed
set_pan_speed p speed = record p { pan = clamp_speed speed }

unfoldable pub set_pan : Ccpacket → ℕ → ℤ → Ccpacket
unfolding set_pan_speed
set_pan p pm speed =
    let flags = bit_and p.flags (complement cc_pan) in
    set_pan_speed (record p { flags = bit_or flags (Modes.pan pm) }) speed

unfoldable pub get_pan_mode : Ccpacket → ℕ
get_pan_mode p = Modes.pan p.flags

unfoldable pub set_tilt_speed : Ccpacket → ℤ → Ccpacket
set_tilt_speed p speed = record p { tilt = speed }

unfoldable pub set_tilt : Ccpacket → ℕ → ℤ → Ccpacket
unfolding set_tilt_speed
set_tilt p tm speed =
    let flags = bit_and p.flags (complement cc_tilt) in
    set_tilt_speed (record p { flags = bit_or flags (Modes.tilt tm) }) speed

unfoldable pub get_tilt_mode : Ccpacket → ℕ
get_tilt_mode p = Modes.tilt p.flags

unfoldable pub set_timeout : (now : Timeval) → Ccpacket → ℕ → Ccpacket
set_timeout now p timeout = record p { expire = Timeval.adjust now timeout }

unfoldable pub is_expired : (now : Timeval) → Ccpacket → ℕ → Bool
is_expired now p timeout = ltb_ℤ (pos timeout) (Timeval.from_now now p.expire)

-- `ccpacket_menu_preset`: the packet, and whether the number stands for a menu command. The
-- special numbers are `enum special_presets`.
unfoldable pub menu_preset : Ccpacket → ℤ → Ccpacket × Bool
unfolding set_menu
menu_preset p (pos n) =
    if n == 77
    then (set_menu p cc_menu_open, true)
    else if n == 78
    then (set_menu p cc_menu_enter, true)
    else if n == 79
    then (set_menu p cc_menu_cancel, true)
    else (p, false)
menu_preset p _ = (p, false)

-- `ccpacket_set_preset`. The new flags are computed before `ccpacket_menu_preset` is called, and
-- written over what it set.
unfoldable pub set_preset : Ccpacket → ℕ → ℤ → Ccpacket
unfolding menu_preset
set_preset p pm p_num =
    let flags = bit_and p.flags (complement cc_preset) in
    let m = Modes.preset pm p_num in
    let (p', is_menu) = menu_preset p p_num in
    if (m == cc_preset_store) && is_menu
    then record p' { flags = flags; preset = pos 0 }
    else record p { flags = bit_or flags m; preset = p_num }

unfoldable pub get_preset_mode : Ccpacket → ℕ
get_preset_mode p = Modes.preset p.flags p.preset

-- `ccpacket_copy`
unfoldable pub copy : (dest src : Ccpacket) → Ccpacket
copy dest src = src
