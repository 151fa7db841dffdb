-- ===== src/PelcoD/Speed.antt =====
-- The speeds of src/pelco_d.c: from 0 .. SPEED_MAX to the codes 0 .. 64 and back.
use mn_protozoa.Base.{ℕ, ◌+◌, ◌*◌, ◌/◌, ◌≤◌, ◌<◌, ◌⊎◌, ◌≡◌, arith, min}
use mn_protozoa.Base.Int.{pos, u8, ◌≤ℤ◌, ◌+ℤ◌}
use mn_protozoa.Ccpacket.Flags.{speed_max}
use mn_protozoa.PelcoD.Encode.{encode_speed, encode_pan_speed}
use mn_protozoa.PelcoD.Decode.{decode_speed}

-- Rounding to the nearest code, with a half rounded up.
abbrev pub nearest : ℕ → ℕ
nearest n = (n + 16) / 32

pub encode_speed-pos : (n : ℕ) → encode_speed (pos n) ≡ pos (min (nearest n) 63)
unfolding encode_speed
encode_speed-pos n = ground arith

pub decode_speed-eq : (v : ℕ) → decode_speed v ≡ pos (min (v * 32) speed_max)
unfolding decode_speed
decode_speed-eq v = ground arith

-- A speed that was received is sent on with the same code: for pan up to the turbo code 64, and
-- for tilt up to 63.
pub encode-decode_speed :
    (v : ℕ)
    → (encode_pan_speed (decode_speed v) ≡ pos (min v 64))
      × (encode_speed (decode_speed v) ≡ pos (min v 63))
unfolding encode_pan_speed
encode-decode_speed v = (
  ground (arith, decode_speed-eq v, encode_speed-pos (min (v * 32) speed_max)),
  ground (arith, decode_speed-eq v, encode_speed-pos (min (v * 32) speed_max)),
)

pub encode_pan_speed-pos :
    (n : ℕ)
    → n ≤ speed_max
    → (encode_pan_speed (pos n) ≡ pos 64) × (speed_max < n + 8)
      ⊎ (encode_pan_speed (pos n) ≡ pos (min (nearest n) 63)) × (n + 8 ≤ speed_max)
unfolding encode_pan_speed
encode_pan_speed-pos n h = ground (arith, encode_speed-pos n)

-- A pan speed in range comes over the wire to within 23, and a tilt speed to within 31.
pub speed_error :
    (n : ℕ)
    → n ≤ speed_max
    → let pan = decode_speed (u8 (encode_pan_speed (pos n))) in
      let tilt = decode_speed (u8 (encode_speed (pos n))) in
      (pan ≤ℤ pos (n + 23))
      × (pos n ≤ℤ pan +ℤ pos 23)
      × (tilt ≤ℤ pos (n + 31))
      × (pos n ≤ℤ tilt +ℤ pos 31)
unfolding decode_speed
speed_error n h = ground (arith, encode_pan_speed-pos n h, encode_speed-pos n)
