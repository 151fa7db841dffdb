-- ===== src/Joystick/Speeds.antt =====
-- The speeds of src/joystick.c.
use mn_protozoa.Base.{ℕ, ◌≤◌, ◌<◌, ◌≡◌, ◌↔◌, refl, arith, List}
use mn_protozoa.Base.Int.{ℤ, pos, abs}
use mn_protozoa.Bitarray.{byte_at}
use mn_protozoa.Ccpacket.Flags.{speed_max}
use mn_protozoa.Joystick.Events.{jspeed_max, decode_speed, remap_speed}

-- What two bytes hold lies within a `short`.
abs-decode_speed :
    (mess : List ℕ) → byte_at mess 4 < 256 → byte_at mess 5 < 256 → abs (decode_speed mess) ≤ 32768
unfolding decode_speed
abs-decode_speed mess h4 h5 = ground (arith, h4, h5)

-- The speed of any event whose value has two bytes is remapped into 0 to SPEED_MAX, also for the
-- value -32768, which lies outside of the range that joysticks use. The remapping of 32767 is
-- SPEED_MAX, and it never decreases with the distance from the centre; it is 0 just up to a
-- distance of 16.
pub remap_speed_lem :
    (mess : List ℕ) (v : ℤ)
    → byte_at mess 4 < 256
    → byte_at mess 5 < 256
    → abs v ≤ abs (decode_speed mess)
    → (remap_speed (decode_speed mess) ≤ speed_max)
      × (remap_speed v ≤ remap_speed (decode_speed mess))
      × (remap_speed (pos jspeed_max) ≡ speed_max)
      × ((remap_speed v ≡ 0) ↔ (abs v ≤ 16))
unfolding remap_speed
remap_speed_lem mess v h4 h5 le =
    let small = abs-decode_speed mess h4 h5 in
    (
      omega (arith, small),
      omega (arith, le),
      refl,
      ((λ e. omega (arith, e)), (λ h. omega (arith, h))),
    )
