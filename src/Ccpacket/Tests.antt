-- ===== src/Ccpacket/Tests.antt =====
-- The theorems on src/ccpacket.c at concrete packets.
use mn_protozoa.Base.{◌≡◌, ◌≢◌, refl, ◌==◌, arith, bit_or}
use mn_protozoa.Base.Int.{pos}
use mn_protozoa.Ccpacket.Flags.{
  cc_pan_left, cc_pan_auto, cc_pan_manual, cc_zoom_in, cc_preset_store, cc_preset_recall,
  cc_iris_open,
}
use mn_protozoa.Ccpacket.Group.{zoom, set_mode, get_mode}
use mn_protozoa.Ccpacket.Modes
use mn_protozoa.Ccpacket.Packet.{Ccpacket, set_preset, get_preset_mode, get_menu, get_pan_mode}
use mn_protozoa.Ccpacket.Queries.{has_autopan}
use mn_protozoa.Ccpacket.Frames.{get_mode-set_mode}
use mn_protozoa.Ccpacket.Preset.{get_preset_mode-set_preset, menu_store_lost}
use mn_protozoa.Ccpacket.Bounds.{pan_manual_unread}

abbrev panning : Ccpacket
panning = record {
  receiver = pos 3;
  flags = bit_or cc_pan_left cc_iris_open;
  pan = pos 100;
  tilt = pos 0;
  preset = pos 0;
  expire = record { tv_sec = 0; tv_usec = 0 };
}

get_mode-set_mode_example : get_mode zoom (set_mode zoom panning cc_zoom_in (pos 0)) ≡ cc_zoom_in
unfolding Modes.zoom
get_mode-set_mode_example = get_mode-set_mode zoom zoom panning cc_zoom_in (pos 0)

get_preset_mode-set_preset_example :
    get_preset_mode (set_preset panning cc_preset_recall (pos 77)) ≡ cc_preset_recall
unfolding Modes.preset
get_preset_mode-set_preset_example = get_preset_mode-set_preset panning cc_preset_recall (pos 77)

menu_store_lost_example :
    (get_menu (set_preset panning cc_preset_store (pos 78)) ≡ 0)
    × (get_preset_mode (set_preset panning cc_preset_store (pos 78)) ≡ 0)
    × ((set_preset panning cc_preset_store (pos 78)).preset ≡ pos 0)
menu_store_lost_example =
    menu_store_lost panning 78 (omega arith) (omega arith) (unfold get_menu Modes.menu in refl)

pan_manual_unread_example :
    (get_pan_mode panning ≢ cc_pan_manual)
    × (has_autopan panning ≡ (get_pan_mode panning == cc_pan_auto))
pan_manual_unread_example = pan_manual_unread panning
