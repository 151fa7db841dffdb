-- ===== src/PelcoP/Speed.antt =====
-- The speeds of src/pelco_p.c, with and without the dead zone between 1 and 6.
use mn_protozoa.Base.{ℕ, ◌+◌, ◌-◌, ◌*◌, ◌/◌, ◌≤◌, ◌≡◌, arith, min}
use mn_protozoa.Base.Int.{pos, ◌≤ℤ◌}
use mn_protozoa.Ccpacket.Flags.{speed_max}
use mn_protozoa.PelcoP.Bits.{pt_deadzone}
use mn_protozoa.PelcoP.Encode.{encode_speed}
use mn_protozoa.PelcoP.Decode.{decode_speed}

pub encode_speed-pos : (n : ℕ) → encode_speed (pos n) ≡ pos (min ((n + 16) / 32) 63)
unfolding encode_speed
encode_speed-pos n = ground arith

-- At the flags of a reader without a dead zone, and of one with it.
pub decode_speed-plain : (v : ℕ) → decode_speed v 0 ≡ pos (min (v * 32) speed_max)
unfolding decode_speed
decode_speed-plain v = ground arith

pub decode_speed-deadzone :
    (v : ℕ) → decode_speed v pt_deadzone ≡ pos (min ((v - 6) * speed_max / 58) speed_max)
unfolding decode_speed
decode_speed-deadzone v = ground arith

-- With the dead zone, the codes 0 to 6 are speed 0, the code 64 is SPEED_MAX, every code is at most
-- that, and a greater code is never a lower speed.
pub deadzone_scale :
    (u v w : ℕ)
    → u ≤ 6
    → v ≤ w
    → (decode_speed u pt_deadzone ≡ pos 0)
      × (decode_speed 64 pt_deadzone ≡ pos speed_max)
      × (decode_speed v pt_deadzone ≤ℤ decode_speed w pt_deadzone)
      × (decode_speed w pt_deadzone ≤ℤ pos speed_max)
deadzone_scale u v w small h = (
  ground (arith, decode_speed-deadzone u, small),
  ground (arith, decode_speed-deadzone 64),
  rw (decode_speed-deadzone v, decode_speed-deadzone w) (omega (arith, h)),
  rw (decode_speed-deadzone w) (omega arith),
)
