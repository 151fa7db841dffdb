-- ===== src/Ccpacket/Queries.antt =====
-- The tests of src/ccpacket.c on a whole packet.
use mn_protozoa.Base.{Bool, not, ◌&&◌, ◌||◌, ◌==◌, nonzero}
use mn_protozoa.Base.Int.{nonzero_ℤ}
use mn_protozoa.Ccpacket.Flags.{cc_pan_auto, cc_pan_manual}
use mn_protozoa.Ccpacket.Packet.{
  Ccpacket, get_menu, get_camera, get_pan_mode, get_tilt_mode, get_preset_mode, get_zoom, get_focus,
  get_iris, get_wiper, get_ack,
}

unfoldable pub has_pan : Ccpacket → Bool
unfolding get_pan_mode
has_pan p = nonzero (get_pan_mode p) && nonzero_ℤ p.pan

unfoldable pub has_tilt : Ccpacket → Bool
unfolding get_tilt_mode
has_tilt p = nonzero (get_tilt_mode p) && nonzero_ℤ p.tilt

unfoldable pub is_stop : Ccpacket → Bool
is_stop p =
    let pm = get_pan_mode p in
    not (nonzero_ℤ p.pan)
    && (not (nonzero_ℤ p.tilt)
        && (not (pm == cc_pan_auto)
            && (not (pm == cc_pan_manual)
                && (get_preset_mode p == 0
                    && (get_menu p == 0
                        && (get_ack p == 0
                            && (get_camera p == 0
                                && (get_zoom p == 0
                                    && (get_focus p == 0
                                        && (get_iris p == 0 && (get_wiper p == 0)))))))))))

unfoldable pub has_command : Ccpacket → Bool
has_command p =
    nonzero (get_pan_mode p)
    || (nonzero (get_tilt_mode p)
        || (nonzero (get_zoom p) || (nonzero (get_focus p) || nonzero (get_iris p))))

unfoldable pub has_autopan : Ccpacket → Bool
has_autopan p = let pm = get_pan_mode p in (pm == cc_pan_auto) || (pm == cc_pan_manual)

unfoldable pub has_power : Ccpacket → Bool
has_power p = nonzero (get_camera p)
