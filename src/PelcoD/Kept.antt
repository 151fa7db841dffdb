-- ===== src/PelcoD/Kept.antt =====
-- The bytes that the encoders of src/pelco_d.c leave alone, and those that hold the speeds.
use mn_protozoa.Base.{
  ℕ, ◌≤◌, ◌<◌, ◌≡◌, ◌≢◌, not, ◌&&◌, List, ◌==◌, arith, set, length, length-set, get_or-set_self,
  get_or-set_ne, if◌then◌else◌,
}
use mn_protozoa.Base.Int.{u8, nonzero_ℤ}
use mn_protozoa.Bitarray.{byte_at, bit_set, byte_at-bit_set}
use mn_protozoa.Ccpacket.Flags.{cc_pan_left, cc_pan_right, cc_tilt_up, cc_tilt_down}
use mn_protozoa.Ccpacket.Packet.{Ccpacket, get_pan_mode, get_tilt_mode}
use mn_protozoa.Ccpacket.Queries.{has_pan}
use mn_protozoa.PelcoD.Encode.{
  encode_speed, encode_pan_speed, encode_pan, encode_tilt, encode_iris, encode_focus, encode_zoom,
  encode_sense,
}
use mn_protozoa.PelcoD.Bits.{
  bit_focus_near, bit_iris_open, bit_iris_close, bit_camera_on_off, bit_auto_pan, bit_sense,
  bit_pan_right, bit_pan_left, bit_tilt_up, bit_tilt_down, bit_zoom_in, bit_zoom_out, bit_focus_far,
}

-- A byte that is not a command byte keeps its value in the encoders of the lens and sense bits.
module _ (m : List ℕ) (p : Ccpacket) (i : ℕ) (not_second : 2 ≢ i) (not_third : 3 ≢ i) where
  kept : (n : List ℕ) (b : ℕ) → 16 ≤ b → b < 32 → byte_at (bit_set n b) i ≡ byte_at n i
  kept n b lo hi = byte_at-bit_set n b i (λ e. ground arith)

  pub byte_at-encode_iris : byte_at (encode_iris m p) i ≡ byte_at m i
  unfolding encode_iris
  byte_at-encode_iris = ground (arith, kept m bit_iris_open, kept m bit_iris_close)

  pub byte_at-encode_focus : byte_at (encode_focus m p) i ≡ byte_at m i
  unfolding encode_focus
  byte_at-encode_focus = ground (arith, kept m bit_focus_near, kept m bit_focus_far)

  pub byte_at-encode_zoom : byte_at (encode_zoom m p) i ≡ byte_at m i
  unfolding encode_zoom
  byte_at-encode_zoom = ground (arith, kept m bit_zoom_in, kept m bit_zoom_out)

  pub byte_at-encode_sense : byte_at (encode_sense m p) i ≡ byte_at m i
  unfolding encode_sense
  byte_at-encode_sense = ground (
    arith,
    kept m bit_sense,
    kept m bit_camera_on_off,
    kept m bit_auto_pan,
    kept (bit_set m bit_sense) bit_camera_on_off,
    kept (bit_set m bit_sense) bit_auto_pan,
    kept (bit_set m bit_camera_on_off) bit_auto_pan,
    kept (bit_set (bit_set m bit_sense) bit_camera_on_off) bit_auto_pan,
  )

  -- So do the encoders of pan and tilt, but for byte 4 and byte 5.
  pub byte_at-encode_pan : 4 ≢ i → byte_at (encode_pan m p) i ≡ byte_at m i
  unfolding encode_pan
  byte_at-encode_pan ne =
      let m' = set m 4 (u8 (encode_pan_speed p.pan)) in
      ground (
        arith,
        get_or-set_ne m 4 i (u8 (encode_pan_speed p.pan)) 0 ne,
        get_or-set_ne m' 4 i 0 0 ne,
        kept m' bit_pan_left,
        kept m' bit_pan_right,
      )

  pub byte_at-encode_tilt : 5 ≢ i → byte_at (encode_tilt m p) i ≡ byte_at m i
  unfolding encode_tilt
  byte_at-encode_tilt ne =
      let m' = set m 5 (u8 (encode_speed p.tilt)) in
      ground (
        arith,
        get_or-set_ne m 5 i (u8 (encode_speed p.tilt)) 0 ne,
        get_or-set_ne m' 5 i 0 0 ne,
        kept m' bit_tilt_up,
        kept m' bit_tilt_down,
      )

-- The speed byte of each: the code of the speed, or 0 where it has a speed and no direction.
pub pan_byte :
    (m : List ℕ) (p : Ccpacket)
    → 5 ≤ length m
    → byte_at (encode_pan m p) 4 ≡ (
        if has_pan p
          && (not (get_pan_mode p == cc_pan_left) && not (get_pan_mode p == cc_pan_right))
        then 0
        else u8 (encode_pan_speed p.pan))
unfolding encode_pan
pan_byte m p long =
    let m' = set m 4 (u8 (encode_pan_speed p.pan)) in
    ground (
      arith,
      length-set m 4 (u8 (encode_pan_speed p.pan)),
      get_or-set_self m 4 (u8 (encode_pan_speed p.pan)) 0,
      get_or-set_self m' 4 0 0,
      byte_at-bit_set m' bit_pan_left 4,
      byte_at-bit_set m' bit_pan_right 4,
    )

pub tilt_byte :
    (m : List ℕ) (p : Ccpacket)
    → 6 ≤ length m
    → byte_at (encode_tilt m p) 5 ≡ (
        if nonzero_ℤ (encode_speed p.tilt)
          && (not (get_tilt_mode p == cc_tilt_up) && not (get_tilt_mode p == cc_tilt_down))
        then 0
        else u8 (encode_speed p.tilt))
unfolding encode_tilt
tilt_byte m p long =
    let m' = set m 5 (u8 (encode_speed p.tilt)) in
    ground (
      arith,
      length-set m 5 (u8 (encode_speed p.tilt)),
      get_or-set_self m 5 (u8 (encode_speed p.tilt)) 0,
      get_or-set_self m' 5 0 0,
      byte_at-bit_set m' bit_tilt_up 5,
      byte_at-bit_set m' bit_tilt_down 5,
    )
