-- ===== src/Manchester/Speed.antt =====
-- The speeds of src/manchester.c: a table of eight, rounded up.
use mn_protozoa.Base.{ℕ, ◌≤◌, ◌<◌, ◌≡◌, arith}
use mn_protozoa.Base.Int.{ℤ, pos, negsuc}
use mn_protozoa.Ccpacket.Flags.{speed_max}
use mn_protozoa.Manchester.Codes.{speed_full}
use mn_protozoa.Manchester.Encode.{encode_speed}
use mn_protozoa.Manchester.Decode.{speed_at}

-- A speed in range is encoded as the first entry of the table that reaches it: that entry is at
-- least the speed, and every entry before it is less.
pub encode_speed_least :
    (n : ℕ)
    → n ≤ speed_max
    → (encode_speed (pos n) ≤ speed_full)
      × (n ≤ speed_at (encode_speed (pos n)))
      × ((s : ℕ) → s < encode_speed (pos n) → speed_at s < n)
unfolding encode_speed
encode_speed_least n h = (ground arith, ground arith, λ s lt. ground arith)

-- A speed of the table is encoded as its own place in the table.
pub encode_speed-speed_at : (s : ℕ) → s ≤ speed_full → encode_speed (pos (speed_at s)) ≡ s
unfolding encode_speed
encode_speed-speed_at s h = ground arith

pub encode_speed-le : (x : ℤ) → encode_speed x ≤ speed_full
unfolding encode_speed
encode_speed-le (pos n) = ground arith
encode_speed-le (negsuc n) = ground arith
