-- ===== src/PelcoD/Message.antt =====
-- The whole message of `encode_command` in src/pelco_d.c, byte by byte and bit by bit.
use mn_protozoa.Base.{
  Bool, ℕ, ◌≤◌, ◌<◌, ◌≡◌, ◌≢◌, refl, ap, ◌∙◌, false, not, ◌&&◌, ◌||◌, List, ◌==◌, arith, set,
  length, length-set, get_or-set_ne, bool_units, if◌then◌else◌, replicate,
}
use mn_protozoa.Base.Int.{u8, nonzero_ℤ}
use mn_protozoa.Bitarray.{byte_at, bit_is_set, bit_is_set-set, bit_is_set-replicate}
use mn_protozoa.Ccpacket.Flags.{
  cc_pan_left, cc_pan_right, cc_pan_auto, cc_pan_manual, cc_tilt_up, cc_tilt_down, cc_iris_open,
  cc_iris_close, cc_focus_near, cc_focus_far, cc_zoom_in, cc_zoom_out, cc_camera_on, cc_camera_off,
}
use mn_protozoa.Ccpacket.Packet.{
  Ccpacket, get_pan_mode, get_tilt_mode, get_iris, get_focus, get_zoom, get_camera,
}
use mn_protozoa.Ccpacket.Queries.{has_pan}
use mn_protozoa.PelcoD.Checksum.{calculate_checksum}
use mn_protozoa.PelcoD.Encode.{
  encode_receiver, encode_speed, encode_pan_speed, encode_pan, encode_tilt, encode_iris,
  encode_focus, encode_zoom, encode_lens, encode_sense, encode_checksum, command_message,
}
use mn_protozoa.PelcoD.Bits.{
  flag, bit_focus_near, bit_iris_open, bit_iris_close, bit_camera_on_off, bit_auto_pan, bit_sense,
  bit_extended, bit_pan_right, bit_pan_left, bit_tilt_up, bit_tilt_down, bit_zoom_in, bit_zoom_out,
  bit_focus_far,
}
use mn_protozoa.PelcoD.Kept.{
  byte_at-encode_iris, byte_at-encode_focus, byte_at-encode_zoom, byte_at-encode_sense,
  byte_at-encode_pan, byte_at-encode_tilt, pan_byte, tilt_byte,
}
use mn_protozoa.PelcoD.Layout.{
  length-encode_iris, length-encode_focus, length-encode_zoom, length-encode_pan,
  length-encode_tilt, length-encode_sense, encode_iris_bits, encode_focus_bits, encode_zoom_bits,
  encode_pan_bits, encode_tilt_bits, encode_sense_bits,
}

-- The message that `encode_command` makes for a packet.
abbrev pub command_bytes : Ccpacket → List ℕ
command_bytes p = command_message p (replicate 7 0)

module _ (p : Ccpacket) where
  -- The stages of `encode_command`.
  abbrev m0 : List ℕ
  m0 = encode_receiver (replicate 7 0) p

  abbrev m1 : List ℕ
  m1 = encode_pan m0 p

  abbrev m2 : List ℕ
  m2 = encode_tilt m1 p

  abbrev m3 : List ℕ
  m3 = encode_iris m2 p

  abbrev m4 : List ℕ
  m4 = encode_focus m3 p

  abbrev m5 : List ℕ
  m5 = encode_zoom m4 p

  abbrev m6 : List ℕ
  m6 = encode_sense m5 p

  stages_lem : command_bytes p ≡ encode_checksum m6
  unfolding command_message encode_lens
  stages_lem = refl

  length-m0 : length m0 ≡ 7
  unfolding encode_receiver
  length-m0 = refl

  lengths :
      (length m1 ≡ 7)
      × (length m2 ≡ 7)
      × (length m3 ≡ 7)
      × (length m4 ≡ 7)
      × (length m5 ≡ 7)
      × (length m6 ≡ 7)
  lengths = omega (
    arith,
    length-m0,
    length-encode_pan m0 p,
    length-encode_tilt m1 p,
    length-encode_iris m2 p,
    length-encode_focus m3 p,
    length-encode_zoom m4 p,
    length-encode_sense m5 p,
  )

  pub length-command_bytes : length (command_bytes p) ≡ 7
  unfolding encode_checksum
  length-command_bytes = ap length stages_lem ∙ length-set m6 6 (calculate_checksum m6) ∙ lengths.5

  -- A bit of the command bytes: what each encoder adds.
  module _ (c : ℕ) (low : 16 ≤ c) (high : c < 32) where
    blank_bits : bit_is_set m0 c ≡ false
    unfolding encode_receiver
    blank_bits =
        bit_is_set-set (set (replicate 7 0) 0 flag) 1 (u8 p.receiver) c (omega arith)
        ∙ bit_is_set-set (replicate 7 0) 0 flag c (omega arith)
        ∙ bit_is_set-replicate 7 c

    checksum_bits : bit_is_set (command_bytes p) c ≡ bit_is_set m6 c
    unfolding encode_checksum
    checksum_bits =
        ap (λ m. bit_is_set m c) stages_lem
        ∙ bit_is_set-set m6 6 (calculate_checksum m6) c (omega arith)

    abbrev motion_bits : Bool
    motion_bits =
        nonzero_ℤ (encode_speed p.tilt) && get_tilt_mode p == cc_tilt_up && bit_tilt_up == c
        || (nonzero_ℤ (encode_speed p.tilt) && get_tilt_mode p == cc_tilt_down && bit_tilt_down == c
            || (has_pan p && get_pan_mode p == cc_pan_left && bit_pan_left == c
                || (has_pan p && get_pan_mode p == cc_pan_right && bit_pan_right == c || false)))

    motion_bit : bit_is_set m2 c ≡ motion_bits
    motion_bit = rw (
      encode_tilt_bits m1 p c (omega (arith, lengths)) low high,
      encode_pan_bits m0 p c (omega (arith, lengths, length-m0)) low high,
      blank_bits,
    )

    abbrev lens_bits : Bool
    lens_bits =
        get_zoom p == cc_zoom_in && bit_zoom_in == c
        || (get_zoom p == cc_zoom_out && bit_zoom_out == c
            || (get_focus p == cc_focus_near && bit_focus_near == c
                || (get_focus p == cc_focus_far && bit_focus_far == c
                    || (get_iris p == cc_iris_open && bit_iris_open == c
                        || (get_iris p == cc_iris_close && bit_iris_close == c || motion_bits)))))

    lens_bit : bit_is_set m5 c ≡ lens_bits
    lens_bit =
        rw
          (
            encode_zoom_bits m4 p c (omega (arith, lengths)),
            encode_focus_bits m3 p c (omega (arith, lengths)),
            encode_iris_bits m2 p c (omega (arith, lengths)),
            motion_bit,
          )
          refl

    -- All that the encoders contribute, to be evaluated at a given bit.
    pub command_bit : bit_is_set (command_bytes p) c ≡ (
        (get_camera p == cc_camera_on || get_pan_mode p == cc_pan_auto) && bit_sense == c
        || ((get_camera p == cc_camera_on
                || (not (get_pan_mode p == cc_pan_auto) && get_camera p == cc_camera_off))
              && bit_camera_on_off == c
            || ((get_pan_mode p == cc_pan_auto
                    || (not (get_camera p == cc_camera_on) && get_pan_mode p == cc_pan_manual))
                  && bit_auto_pan == c
                || lens_bits)))
    command_bit =
        checksum_bits ∙ encode_sense_bits m5 p c (omega (arith, lengths)) ∙ rw lens_bit refl

  -- Each bit on its own.

  pub focus_near_lem : bit_is_set (command_bytes p) bit_focus_near ≡ (get_focus p == cc_focus_near)
  focus_near_lem = simp (command_bit bit_focus_near (omega arith) (omega arith), bool_units)

  pub focus_far_lem : bit_is_set (command_bytes p) bit_focus_far ≡ (get_focus p == cc_focus_far)
  focus_far_lem = simp (command_bit bit_focus_far (omega arith) (omega arith), bool_units)

  pub iris_open_lem : bit_is_set (command_bytes p) bit_iris_open ≡ (get_iris p == cc_iris_open)
  iris_open_lem = simp (command_bit bit_iris_open (omega arith) (omega arith), bool_units)

  pub iris_close_lem : bit_is_set (command_bytes p) bit_iris_close ≡ (get_iris p == cc_iris_close)
  iris_close_lem = simp (command_bit bit_iris_close (omega arith) (omega arith), bool_units)

  pub zoom_in_lem : bit_is_set (command_bytes p) bit_zoom_in ≡ (get_zoom p == cc_zoom_in)
  zoom_in_lem = simp (command_bit bit_zoom_in (omega arith) (omega arith), bool_units)

  pub zoom_out_lem : bit_is_set (command_bytes p) bit_zoom_out ≡ (get_zoom p == cc_zoom_out)
  zoom_out_lem = simp (command_bit bit_zoom_out (omega arith) (omega arith), bool_units)

  pub pan_right_lem :
      bit_is_set (command_bytes p) bit_pan_right ≡ (has_pan p && get_pan_mode p == cc_pan_right)
  pan_right_lem = simp (command_bit bit_pan_right (omega arith) (omega arith), bool_units)

  pub pan_left_lem :
      bit_is_set (command_bytes p) bit_pan_left ≡ (has_pan p && get_pan_mode p == cc_pan_left)
  pan_left_lem = simp (command_bit bit_pan_left (omega arith) (omega arith), bool_units)

  pub tilt_up_lem :
      bit_is_set (command_bytes p) bit_tilt_up
      ≡ (nonzero_ℤ (encode_speed p.tilt) && get_tilt_mode p == cc_tilt_up)
  tilt_up_lem = simp (command_bit bit_tilt_up (omega arith) (omega arith), bool_units)

  pub tilt_down_lem :
      bit_is_set (command_bytes p) bit_tilt_down
      ≡ (nonzero_ℤ (encode_speed p.tilt) && get_tilt_mode p == cc_tilt_down)
  tilt_down_lem = simp (command_bit bit_tilt_down (omega arith) (omega arith), bool_units)

  pub sense_lem :
      bit_is_set (command_bytes p) bit_sense
      ≡ (get_camera p == cc_camera_on || get_pan_mode p == cc_pan_auto)
  sense_lem = simp (command_bit bit_sense (omega arith) (omega arith), bool_units)

  pub camera_on_off_lem : bit_is_set (command_bytes p) bit_camera_on_off ≡ (
      get_camera p == cc_camera_on
      || (not (get_pan_mode p == cc_pan_auto) && get_camera p == cc_camera_off))
  camera_on_off_lem = simp (command_bit bit_camera_on_off (omega arith) (omega arith), bool_units)

  pub auto_pan_lem : bit_is_set (command_bytes p) bit_auto_pan ≡ (
      get_pan_mode p == cc_pan_auto
      || (not (get_camera p == cc_camera_on) && get_pan_mode p == cc_pan_manual))
  auto_pan_lem = simp (command_bit bit_auto_pan (omega arith) (omega arith), bool_units)

  pub extended_lem : bit_is_set (command_bytes p) bit_extended ≡ (false)
  extended_lem = simp (command_bit bit_extended (omega arith) (omega arith), bool_units)

  kept_byte : (i : ℕ) → 2 ≢ i → 3 ≢ i → 6 ≢ i → byte_at (command_bytes p) i ≡ byte_at m2 i
  unfolding encode_checksum
  kept_byte i second third last =
      ap (λ m. byte_at m i) stages_lem
      ∙ get_or-set_ne m6 6 i (calculate_checksum m6) 0 last
      ∙ byte_at-encode_sense m5 p i second third
      ∙ byte_at-encode_zoom m4 p i second third
      ∙ byte_at-encode_focus m3 p i second third
      ∙ byte_at-encode_iris m2 p i second third

  pub flag_byte : byte_at (command_bytes p) 0 ≡ flag
  unfolding encode_receiver
  flag_byte =
      kept_byte 0 (omega arith) (omega arith) (omega arith)
      ∙ byte_at-encode_tilt m1 p 0 (omega arith) (omega arith) (omega arith)
      ∙ byte_at-encode_pan m0 p 0 (omega arith) (omega arith) (omega arith)

  pub receiver_byte : byte_at (command_bytes p) 1 ≡ u8 p.receiver
  unfolding encode_receiver
  receiver_byte =
      kept_byte 1 (omega arith) (omega arith) (omega arith)
      ∙ byte_at-encode_tilt m1 p 1 (omega arith) (omega arith) (omega arith)
      ∙ byte_at-encode_pan m0 p 1 (omega arith) (omega arith) (omega arith)

  pub pan_speed_byte : byte_at (command_bytes p) 4 ≡ (
      if has_pan p && (not (get_pan_mode p == cc_pan_left) && not (get_pan_mode p == cc_pan_right))
      then 0
      else u8 (encode_pan_speed p.pan))
  pan_speed_byte =
      kept_byte 4 (omega arith) (omega arith) (omega arith)
      ∙ byte_at-encode_tilt m1 p 4 (omega arith) (omega arith) (omega arith)
      ∙ pan_byte m0 p (omega (arith, length-m0))

  pub tilt_speed_byte : byte_at (command_bytes p) 5 ≡ (
      if nonzero_ℤ (encode_speed p.tilt)
        && (not (get_tilt_mode p == cc_tilt_up) && not (get_tilt_mode p == cc_tilt_down))
      then 0
      else u8 (encode_speed p.tilt))
  tilt_speed_byte =
      kept_byte 5 (omega arith) (omega arith) (omega arith)
      ∙ tilt_byte m1 p (omega (arith, lengths))
