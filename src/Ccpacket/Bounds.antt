-- ===== src/Ccpacket/Bounds.antt =====
-- The range of the values that a packet can hold, and what the checks can never give.
use mn_protozoa.Base.{ℕ, ◌≤◌, ◌==◌, ◌≡◌, ◌≢◌, arith}
use mn_protozoa.Base.Int.{ℤ, pos, negsuc, ◌≤ℤ◌}
use mn_protozoa.Ccpacket.Flags.{cc_pan_auto, cc_pan_manual, speed_max}
use mn_protozoa.Ccpacket.Modes
use mn_protozoa.Ccpacket.Packet.{Ccpacket, clamp_speed, get_pan_mode}
use mn_protozoa.Ccpacket.Queries.{has_autopan}

-- `clamp_speed` gives the nearest speed between 0 and SPEED_MAX.
pub clamp_speed_bounds : (s : ℤ) → (pos 0 ≤ℤ clamp_speed s) × (clamp_speed s ≤ℤ pos speed_max)
unfolding clamp_speed
clamp_speed_bounds (pos n) = ground arith
clamp_speed_bounds (negsuc n) = ground arith

pub clamp_speed_self : (n : ℕ) → n ≤ speed_max → clamp_speed (pos n) ≡ pos n
unfolding clamp_speed
clamp_speed_self n h = ground arith

-- The pan mode that is read from a packet is never CC_PAN_MANUAL, whatever the flags; so
-- `ccpacket_has_autopan` holds for CC_PAN_AUTO alone.
pub pan_manual_unread :
    (p : Ccpacket)
    → (get_pan_mode p ≢ cc_pan_manual) × (has_autopan p ≡ (get_pan_mode p == cc_pan_auto))
unfolding get_pan_mode has_autopan Modes.pan
pan_manual_unread p = (λ e. ground arith, ground arith)
