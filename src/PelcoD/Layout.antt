-- ===== src/PelcoD/Layout.antt =====
-- The bits that the encoders of src/pelco_d.c set, and the length that they keep. `c` is the number
-- of a bit of the two command bytes, 2 and 3.
use mn_protozoa.Base.{
  ℕ, ◌/◌, ◌≤◌, ◌<◌, ◌≡◌, ◌≢◌, ap, ◌∙◌, not, ◌&&◌, ◌||◌, List, ◌==◌, arith, set, length, length-set,
}
use mn_protozoa.Base.Int.{u8, nonzero_ℤ}
use mn_protozoa.Bitarray.{bit_is_set, bit_set, length-bit_set, bit_is_set-set, bit_is_set-bit_set}
use mn_protozoa.Ccpacket.Flags.{
  cc_pan_left, cc_pan_right, cc_pan_auto, cc_pan_manual, cc_tilt_up, cc_tilt_down, cc_iris_open,
  cc_iris_close, cc_focus_near, cc_focus_far, cc_zoom_in, cc_zoom_out, cc_camera_on, cc_camera_off,
}
use mn_protozoa.Ccpacket.Packet.{
  Ccpacket, get_pan_mode, get_tilt_mode, get_iris, get_focus, get_zoom, get_camera,
}
use mn_protozoa.Ccpacket.Queries.{has_pan}
use mn_protozoa.PelcoD.Encode.{
  encode_speed, encode_pan_speed, encode_pan, encode_tilt, encode_iris, encode_focus, encode_zoom,
  encode_sense,
}
use mn_protozoa.PelcoD.Bits.{
  bit_focus_near, bit_iris_open, bit_iris_close, bit_camera_on_off, bit_auto_pan, bit_sense,
  bit_pan_right, bit_pan_left, bit_tilt_up, bit_tilt_down, bit_zoom_in, bit_zoom_out, bit_focus_far,
}

-- A message long enough for its command bytes, and the length kept.
module _ (m : List ℕ) (p : Ccpacket) where
  pub length-encode_iris : length (encode_iris m p) ≡ length m
  unfolding encode_iris
  length-encode_iris =
      ground (arith, length-bit_set m bit_iris_open, length-bit_set m bit_iris_close)

  pub length-encode_focus : length (encode_focus m p) ≡ length m
  unfolding encode_focus
  length-encode_focus =
      ground (arith, length-bit_set m bit_focus_near, length-bit_set m bit_focus_far)

  pub length-encode_zoom : length (encode_zoom m p) ≡ length m
  unfolding encode_zoom
  length-encode_zoom = ground (arith, length-bit_set m bit_zoom_in, length-bit_set m bit_zoom_out)

module _ (m : List ℕ) (p : Ccpacket) (c : ℕ) (long : 4 ≤ length m) where
  pub encode_iris_bits : bit_is_set (encode_iris m p) c ≡ (
      get_iris p == cc_iris_open && bit_iris_open == c
      || (get_iris p == cc_iris_close && bit_iris_close == c || bit_is_set m c))
  unfolding encode_iris
  encode_iris_bits =
      ground (arith, bit_is_set-bit_set m bit_iris_open c, bit_is_set-bit_set m bit_iris_close c)

  pub encode_focus_bits : bit_is_set (encode_focus m p) c ≡ (
      get_focus p == cc_focus_near && bit_focus_near == c
      || (get_focus p == cc_focus_far && bit_focus_far == c || bit_is_set m c))
  unfolding encode_focus
  encode_focus_bits =
      ground (arith, bit_is_set-bit_set m bit_focus_near c, bit_is_set-bit_set m bit_focus_far c)

  pub encode_zoom_bits : bit_is_set (encode_zoom m p) c ≡ (
      get_zoom p == cc_zoom_in && bit_zoom_in == c
      || (get_zoom p == cc_zoom_out && bit_zoom_out == c || bit_is_set m c))
  unfolding encode_zoom
  encode_zoom_bits =
      ground (arith, bit_is_set-bit_set m bit_zoom_in c, bit_is_set-bit_set m bit_zoom_out c)

  -- A stored byte before or after the command bytes, and then perhaps a bit of them.
  stored_bits :
      (i v b : ℕ)
      → i ≢ c / 8
      → b < 32
      → (bit_is_set (set m i v) c ≡ bit_is_set m c)
        × (bit_is_set (bit_set (set m i v) b) c ≡ (b == c || bit_is_set m c))
  stored_bits i v b h hb = (
    bit_is_set-set m i v c h,
    bit_is_set-bit_set (set m i v) b c (omega (arith, length-set m i v))
        ∙ ap (λ t. b == c || t) (bit_is_set-set m i v c h),
  )

  module _ (low : 16 ≤ c) (high : c < 32) where
    pub encode_pan_bits : bit_is_set (encode_pan m p) c ≡ (
        has_pan p && get_pan_mode p == cc_pan_left && bit_pan_left == c
        || (has_pan p && get_pan_mode p == cc_pan_right && bit_pan_right == c || bit_is_set m c))
    unfolding encode_pan
    encode_pan_bits = ground (
      arith,
      stored_bits 4 (u8 (encode_pan_speed p.pan)) bit_pan_left,
      stored_bits 4 (u8 (encode_pan_speed p.pan)) bit_pan_right,
      bit_is_set-set (set m 4 (u8 (encode_pan_speed p.pan))) 4 0 c,
    )

    pub encode_tilt_bits : bit_is_set (encode_tilt m p) c ≡ (
        nonzero_ℤ (encode_speed p.tilt) && get_tilt_mode p == cc_tilt_up && bit_tilt_up == c
        || (nonzero_ℤ (encode_speed p.tilt) && get_tilt_mode p == cc_tilt_down && bit_tilt_down == c
            || bit_is_set m c))
    unfolding encode_tilt
    encode_tilt_bits = ground (
      arith,
      stored_bits 5 (u8 (encode_speed p.tilt)) bit_tilt_up,
      stored_bits 5 (u8 (encode_speed p.tilt)) bit_tilt_down,
      bit_is_set-set (set m 5 (u8 (encode_speed p.tilt))) 5 0 c,
    )

  -- Which of the bits of `encode_sense` a camera and a pan mode call for.
  pub encode_sense_bits : bit_is_set (encode_sense m p) c ≡ (
      (get_camera p == cc_camera_on || get_pan_mode p == cc_pan_auto) && bit_sense == c
      || ((get_camera p == cc_camera_on
              || (not (get_pan_mode p == cc_pan_auto) && get_camera p == cc_camera_off))
            && bit_camera_on_off == c
          || ((get_pan_mode p == cc_pan_auto
                  || (not (get_camera p == cc_camera_on) && get_pan_mode p == cc_pan_manual))
                && bit_auto_pan == c
              || bit_is_set m c)))
  unfolding encode_sense
  encode_sense_bits = ground (
    arith,
    length-bit_set m bit_sense,
    length-bit_set m bit_camera_on_off,
    length-bit_set (bit_set m bit_sense) bit_camera_on_off,
    bit_is_set-bit_set m bit_sense c,
    bit_is_set-bit_set m bit_camera_on_off c,
    bit_is_set-bit_set m bit_auto_pan c,
    bit_is_set-bit_set (bit_set m bit_sense) bit_camera_on_off c,
    bit_is_set-bit_set (bit_set m bit_sense) bit_auto_pan c,
    bit_is_set-bit_set (bit_set m bit_camera_on_off) bit_auto_pan c,
    bit_is_set-bit_set (bit_set (bit_set m bit_sense) bit_camera_on_off) bit_auto_pan c,
  )

pub length-encode_pan : (m : List ℕ) (p : Ccpacket) → length (encode_pan m p) ≡ length m
unfolding encode_pan
length-encode_pan m p =
    let m' = set m 4 (u8 (encode_pan_speed p.pan)) in
    ground (
      arith,
      length-set m 4 (u8 (encode_pan_speed p.pan)),
      length-set m' 4 0,
      length-bit_set m' bit_pan_left,
      length-bit_set m' bit_pan_right,
    )

pub length-encode_tilt : (m : List ℕ) (p : Ccpacket) → length (encode_tilt m p) ≡ length m
unfolding encode_tilt
length-encode_tilt m p =
    let m' = set m 5 (u8 (encode_speed p.tilt)) in
    ground (
      arith,
      length-set m 5 (u8 (encode_speed p.tilt)),
      length-set m' 5 0,
      length-bit_set m' bit_tilt_up,
      length-bit_set m' bit_tilt_down,
    )

pub length-encode_sense : (m : List ℕ) (p : Ccpacket) → length (encode_sense m p) ≡ length m
unfolding encode_sense
length-encode_sense m p = ground (
  arith,
  length-bit_set m bit_sense,
  length-bit_set m bit_camera_on_off,
  length-bit_set m bit_auto_pan,
  length-bit_set (bit_set m bit_sense) bit_camera_on_off,
  length-bit_set (bit_set m bit_sense) bit_auto_pan,
  length-bit_set (bit_set m bit_camera_on_off) bit_auto_pan,
  length-bit_set (bit_set (bit_set m bit_sense) bit_camera_on_off) bit_auto_pan,
)
