-- ===== src/Vicon/Message.antt =====
-- The bits and bytes of the messages of src/vicon.c.
use mn_protozoa.Base.{
  ℕ, ◌≤◌, ◌<◌, ◌≡◌, refl, sym, ap, ◌∙◌, Bool, true, false, ◌&&◌, ◌||◌, List, [], ◌∷◌, ◌++◌, ◌==◌,
  arith, length, bit_and, if◌then◌else◌, replicate,
}
use mn_protozoa.Base.Bits.{bit_and-le}
use mn_protozoa.Base.Table.{all_below, all_below_sound}
use mn_protozoa.Base.Int.{mask_ℤ, u32}
use mn_protozoa.Bitarray.{bit_is_set, bit_set, bit_is_set-set, bit_is_set-replicate}
use mn_protozoa.Bitarray.Sets.{set_bits, sets, bit_is_set-set_bits, set_bits-append}
use mn_protozoa.Ccpacket.Flags.{
  cc_pan_left, cc_pan_right, cc_pan_auto, cc_tilt_up, cc_tilt_down, cc_iris_open, cc_iris_close,
  cc_iris_auto, cc_focus_near, cc_focus_far, cc_zoom_in, cc_zoom_out, cc_preset_recall,
  cc_preset_store, cc_wiper_on, cc_ack_alarm, cc_lens_speed,
}
use mn_protozoa.Ccpacket.Packet.{
  Ccpacket, get_pan_mode, get_tilt_mode, get_iris, get_focus, get_zoom, get_ack, get_lens,
  get_preset_mode, get_wiper,
}
use mn_protozoa.Ccpacket.Queries.{has_pan, has_tilt}
use mn_protozoa.Vicon.Encode.{
  encode_receiver, encode_pan, encode_tilt, encode_pan_tilt, encode_iris, encode_focus, encode_zoom,
  encode_lens, encode_toggles, encode_aux, encode_preset, encode_parts, or_masked, encode_speeds,
  speed_message,
}
use mn_protozoa.Vicon.Bits.{
  bit_command, bit_ack_alarm, bit_extended, bit_auto_iris, bit_auto_pan, bit_tilt_down, bit_tilt_up,
  bit_pan_right, bit_pan_left, bit_lens_speed, bit_iris_close, bit_iris_open, bit_focus_near,
  bit_focus_far, bit_zoom_in, bit_zoom_out, bit_aux_6, bit_recall, bit_store,
}

module _ (p : Ccpacket) where
  -- The bits that `encode_lens`, `encode_toggles` and `encode_aux` set, and those of the other
  -- parts.
  abbrev pub lens_bits : List (Bool × ℕ)
  lens_bits =
      (get_iris p == cc_iris_open, bit_iris_open)
      ∷ (get_iris p == cc_iris_close, bit_iris_close)
      ∷ (get_focus p == cc_focus_near, bit_focus_near)
      ∷ (get_focus p == cc_focus_far, bit_focus_far)
      ∷ (get_zoom p == cc_zoom_in, bit_zoom_in)
      ∷ (get_zoom p == cc_zoom_out, bit_zoom_out)
      ∷ (get_ack p == cc_ack_alarm, bit_ack_alarm)
      ∷ (get_iris p == cc_iris_auto, bit_auto_iris)
      ∷ (get_pan_mode p == cc_pan_auto, bit_auto_pan)
      ∷ (get_lens p == cc_lens_speed, bit_lens_speed)
      ∷ (get_wiper p == cc_wiper_on, bit_aux_6)
      ∷ []

  abbrev pub motion_bits : List (Bool × ℕ)
  motion_bits =
      (has_pan p && get_pan_mode p == cc_pan_left, bit_pan_left)
      ∷ (has_pan p && get_pan_mode p == cc_pan_right, bit_pan_right)
      ∷ (has_tilt p && get_tilt_mode p == cc_tilt_up, bit_tilt_up)
      ∷ (has_tilt p && get_tilt_mode p == cc_tilt_down, bit_tilt_down)
      ∷ []

  abbrev pub preset_bits : List (Bool × ℕ)
  preset_bits =
      (get_preset_mode p == cc_preset_recall, bit_recall)
      ∷ (get_preset_mode p == cc_preset_store, bit_store)
      ∷ []

  module _ (m : List ℕ) where
    encode_pan_tilt-eq : encode_pan_tilt m p ≡ set_bits motion_bits m
    unfolding encode_pan_tilt encode_pan encode_tilt set_bits
    encode_pan_tilt-eq = ground arith

    encode_lens-eq : encode_aux (encode_toggles (encode_lens m p) p) p ≡ set_bits lens_bits m
    unfolding encode_lens encode_iris encode_focus encode_zoom encode_toggles encode_aux set_bits
    encode_lens-eq = ground arith

    coded-eq :
        (if get_preset_mode p == cc_preset_recall
          then bit_set m bit_recall
          else if get_preset_mode p == cc_preset_store
          then bit_set m bit_store
          else m)
        ≡ set_bits preset_bits m
    unfolding set_bits
    coded-eq = ground arith

  encode_parts-eq :
      (m : List ℕ)
      → encode_parts m p
        ≡ or_masked (set_bits (motion_bits ++ (lens_bits ++ preset_bits)) m) 5 p.preset 0x0f
  unfolding encode_parts encode_preset
  encode_parts-eq m =
      ap (λ k. or_masked k 5 p.preset 0x0f)
        (coded-eq (encode_aux (encode_toggles (encode_lens (encode_pan_tilt m p) p) p) p)
          ∙ ap (λ k. set_bits preset_bits (encode_aux (encode_toggles (encode_lens k p) p) p))
              (encode_pan_tilt-eq m)
          ∙ ap (set_bits preset_bits) (encode_lens-eq (set_bits motion_bits m))
          ∙ sym (set_bits-append lens_bits preset_bits (set_bits motion_bits m))
          ∙ sym (set_bits-append motion_bits (lens_bits ++ preset_bits) m))

  -- The message of `encode_extended_speed`: the bits that it sets, over the two bytes of the
  -- receiver, then the number of the preset and the speeds.
  abbrev pub speed_bytes : List ℕ
  speed_bytes = speed_message p (replicate 10 0)

  abbrev pub speed_bits : List (Bool × ℕ)
  speed_bits =
      (true, bit_command) ∷ (true, bit_extended) ∷ (motion_bits ++ (lens_bits ++ preset_bits))

  abbrev pub addressed : List ℕ
  addressed = encode_receiver (replicate 10 0) p

  abbrev pub flagged : List ℕ
  flagged = set_bits speed_bits addressed

  pub speed_bytes-eq : speed_bytes ≡ encode_speeds (or_masked flagged 5 p.preset 0x0f) p
  unfolding speed_message set_bits
  speed_bytes-eq =
      ap (λ k. encode_speeds k p)
        (encode_parts-eq (bit_set (bit_set addressed bit_command) bit_extended))

  pub length-addressed : length addressed ≡ 10
  unfolding encode_receiver
  length-addressed = refl

  -- A bit of the second to the fifth byte.
  module _ (c : ℕ) (low : 8 ≤ c) (high : c < 40) where
    pub speed_bit : bit_is_set speed_bytes c ≡ (sets speed_bits c || bit_is_set addressed c)
    unfolding encode_speeds
    speed_bit =
        ap (λ m. bit_is_set m c) speed_bytes-eq
        ∙ bit_is_set-set _ 9 _ c (omega arith)
        ∙ bit_is_set-set _ 8 _ c (omega arith)
        ∙ bit_is_set-set _ 7 _ c (omega arith)
        ∙ bit_is_set-set _ 6 _ c (omega arith)
        ∙ bit_is_set-set flagged 5 _ c (omega arith)
        ∙ bit_is_set-set_bits speed_bits addressed c (rw length-addressed refl)

  -- The two bytes of the receiver set no other bits.
  pub address_bit : (c : ℕ) → 16 ≤ c → bit_is_set addressed c ≡ false
  unfolding encode_receiver
  address_bit c h =
      bit_is_set-set _ 1 _ c (omega arith)
      ∙ bit_is_set-set _ 0 _ c (omega arith)
      ∙ bit_is_set-replicate 10 c

  nibble_bits :
      all_below 16 (λ r. bit_and r 16 == 0 && (bit_and r 32 == 0 && bit_and r 64 == 0)) ≡ true
  unfolding all_below
  nibble_bits = refl

  pub address_high :
      (bit_is_set addressed bit_command ≡ false)
      × (bit_is_set addressed bit_ack_alarm ≡ false)
      × (bit_is_set addressed bit_extended ≡ false)
  unfolding encode_receiver bit_is_set
  address_high =
      let r = mask_ℤ p.receiver 15 in
      let small : r ≤ 15 = bit_and-le (u32 p.receiver) 15 in
      let all : (bit_and r 16 == 0 && (bit_and r 32 == 0 && bit_and r 64 == 0)) ≡ true =
        all_below_sound 16 _ r nibble_bits (omega (arith, small)) in
      (ground (arith, all), ground (arith, all), ground (arith, all))
