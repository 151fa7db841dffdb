-- ===== src/PelcoP/Message.antt =====
-- The bits and bytes of the command message of src/pelco_p.c.
use mn_protozoa.Base.{
  ℕ, zero, suc, ◌≤◌, ◌<◌, ◌≡◌, ◌≢◌, refl, ap, ◌∙◌, Bool, true, false, not, ◌&&◌, ◌||◌, List, [],
  ◌∷◌, ◌==◌, arith, set, length, length-set, get_or-set_self, get_or-set_ne, if◌then◌else◌,
  replicate,
}
use mn_protozoa.Base.Int.{u8, nonzero_ℤ}
use mn_protozoa.Bitarray.{byte_at, bit_is_set, bit_is_set-set, bit_is_set-replicate}
use mn_protozoa.Bitarray.Sets.{
  set_bits, sets, none_in, length-set_bits, bit_is_set-set_bits, byte_at-set_bits,
}
use mn_protozoa.Ccpacket.Flags.{
  cc_pan_left, cc_pan_right, cc_pan_auto, cc_tilt_up, cc_tilt_down, cc_iris_open, cc_iris_close,
  cc_focus_near, cc_focus_far, cc_zoom_in, cc_zoom_out, cc_camera_on, cc_camera_off,
}
use mn_protozoa.Ccpacket.Packet.{
  Ccpacket, get_pan_mode, get_tilt_mode, get_iris, get_focus, get_zoom, get_camera,
}
use mn_protozoa.Ccpacket.Queries.{has_pan}
use mn_protozoa.PelcoP.Bits.{
  bit_focus_near, bit_iris_open, bit_iris_close, bit_camera_on_off, bit_auto_pan, bit_camera_on,
  bit_pan_right, bit_pan_left, bit_tilt_up, bit_tilt_down, bit_zoom_in, bit_zoom_out, bit_focus_far,
}
use mn_protozoa.PelcoP.Decode.{checksum_is_valid}
use mn_protozoa.PelcoP.Encode.{
  encode_receiver, encode_speed, encode_pan_speed, encode_pan, encode_tilt, encode_iris,
  encode_focus, encode_zoom, encode_lens, encode_sense, encode_checksum, command_message,
}
use mn_protozoa.PelcoP.Extended.{xor_checksum_filled}

set-set : (m : List ℕ) (i x y : ℕ) → set (set m i x) i y ≡ set m i y
set-set [] i x y = refl
set-set (k ∷ m) zero x y = refl
set-set (k ∷ m) (suc i) x y = ap (λ l. k ∷ l) (set-set m i x y)

module _ (p : Ccpacket) where
  -- What `encode_pan` writes: the code of the speed, and a bit.
  abbrev pub pan_bits : List (Bool × ℕ)
  pan_bits =
      (has_pan p && get_pan_mode p == cc_pan_left, bit_pan_left)
      ∷ (has_pan p && get_pan_mode p == cc_pan_right, bit_pan_right)
      ∷ []

  abbrev pub pan_code : ℕ
  pan_code =
      if has_pan p && (not (get_pan_mode p == cc_pan_left) && not (get_pan_mode p == cc_pan_right))
      then 0
      else u8 (encode_pan_speed p.pan)

  encode_pan-eq : (m : List ℕ) → encode_pan m p ≡ set_bits pan_bits (set m 4 pan_code)
  unfolding encode_pan set_bits
  encode_pan-eq m = ground (arith, set-set m 4 (u8 (encode_pan_speed p.pan)) 0)

  -- What `encode_tilt` writes.
  abbrev pub tilts : Bool
  tilts = nonzero_ℤ (encode_speed p.tilt)

  abbrev pub tilt_bits : List (Bool × ℕ)
  tilt_bits =
      (tilts && get_tilt_mode p == cc_tilt_up, bit_tilt_up)
      ∷ (tilts && get_tilt_mode p == cc_tilt_down, bit_tilt_down)
      ∷ []

  abbrev pub tilt_code : ℕ
  tilt_code =
      if tilts && (not (get_tilt_mode p == cc_tilt_up) && not (get_tilt_mode p == cc_tilt_down))
      then 0
      else u8 (encode_speed p.tilt)

  encode_tilt-eq : (m : List ℕ) → encode_tilt m p ≡ set_bits tilt_bits (set m 5 tilt_code)
  unfolding encode_tilt set_bits
  encode_tilt-eq m = ground (arith, set-set m 5 (u8 (encode_speed p.tilt)) 0)

  -- The bits of `encode_lens` and `encode_sense`.
  abbrev pub lens_bits : List (Bool × ℕ)
  lens_bits =
      (get_iris p == cc_iris_open, bit_iris_open)
      ∷ (get_iris p == cc_iris_close, bit_iris_close)
      ∷ (get_focus p == cc_focus_near, bit_focus_near)
      ∷ (get_focus p == cc_focus_far, bit_focus_far)
      ∷ (get_zoom p == cc_zoom_in, bit_zoom_in)
      ∷ (get_zoom p == cc_zoom_out, bit_zoom_out)
      ∷ (get_camera p == cc_camera_on || get_camera p == cc_camera_off, bit_camera_on_off)
      ∷ (get_camera p == cc_camera_on, bit_camera_on)
      ∷ (get_pan_mode p == cc_pan_auto, bit_auto_pan)
      ∷ []

  encode_lens-eq : (m : List ℕ) → encode_sense (encode_lens m p) p ≡ set_bits lens_bits m
  unfolding encode_lens encode_iris encode_focus encode_zoom encode_sense set_bits
  encode_lens-eq m = ground arith

  -- The message, layer by layer.
  abbrev addressed : List ℕ
  addressed = encode_receiver (replicate 8 0) p

  abbrev panned : List ℕ
  panned = set_bits pan_bits (set addressed 4 pan_code)

  abbrev tilted : List ℕ
  tilted = set_bits tilt_bits (set panned 5 tilt_code)

  abbrev pub command_bytes : List ℕ
  command_bytes = command_message p (replicate 8 0)

  command_bytes-eq : command_bytes ≡ encode_checksum (set_bits lens_bits tilted)
  unfolding command_message
  command_bytes-eq = ap encode_checksum (
      ap (λ k. encode_sense (encode_lens (encode_tilt k p) p) p) (encode_pan-eq addressed)
      ∙ ap (λ k. encode_sense (encode_lens k p) p) (encode_tilt-eq panned)
      ∙ encode_lens-eq tilted)

  length-addressed : length addressed ≡ 8
  unfolding encode_receiver
  length-addressed = refl

  length-panned : length panned ≡ 8
  length-panned =
      length-set_bits pan_bits (set addressed 4 pan_code)
      ∙ length-set addressed 4 pan_code
      ∙ length-addressed

  length-tilted : length tilted ≡ 8
  length-tilted =
      length-set_bits tilt_bits (set panned 5 tilt_code)
      ∙ length-set panned 5 tilt_code
      ∙ length-panned

  pub checksum_lem : checksum_is_valid command_bytes ≡ true
  checksum_lem =
      ap checksum_is_valid command_bytes-eq
      ∙ xor_checksum_filled (set_bits lens_bits tilted)
          (length-set_bits lens_bits tilted ∙ length-tilted)

  address_bit : (c : ℕ) → 16 ≤ c → c < 32 → bit_is_set addressed c ≡ false
  unfolding encode_receiver
  address_bit c low high =
      bit_is_set-set _ 6 _ c (omega (arith, low, high))
      ∙ bit_is_set-set _ 1 _ c (omega (arith, low, high))
      ∙ bit_is_set-set _ 0 _ c (omega (arith, low, high))
      ∙ bit_is_set-replicate 8 c

  -- A bit of the third or fourth byte.
  pub bit_lem :
      (c : ℕ)
      → 16 ≤ c
      → c < 32
      → bit_is_set command_bytes c
        ≡ (sets lens_bits c || (sets tilt_bits c || (sets pan_bits c || false)))
  unfolding encode_checksum encode_receiver
  bit_lem c low high =
      ap (λ m. bit_is_set m c) command_bytes-eq
      ∙ bit_is_set-set (set_bits lens_bits tilted) 7 _ c (omega (arith, low, high))
      ∙ bit_is_set-set_bits lens_bits tilted c (rw length-tilted refl)
      ∙ ap (λ b. sets lens_bits c || b)
          (bit_is_set-set_bits tilt_bits (set panned 5 tilt_code) c
              (rw (length-set panned 5 tilt_code, length-panned) refl)
            ∙ ap (λ b. sets tilt_bits c || b)
                (bit_is_set-set panned 5 tilt_code c (omega (arith, low, high))
                  ∙ bit_is_set-set_bits pan_bits (set addressed 4 pan_code) c refl
                  ∙ ap (λ b. sets pan_bits c || b)
                      (bit_is_set-set addressed 4 pan_code c (omega (arith, low, high))
                        ∙ address_bit c low high)))

  -- A byte that the last layers leave alone.
  layers :
      (i : ℕ)
      → 7 ≢ i
      → none_in lens_bits i ≡ true
      → none_in tilt_bits i ≡ true
      → byte_at command_bytes i ≡ byte_at (set panned 5 tilt_code) i
  unfolding encode_checksum
  layers i ne h k =
      ap (λ m. byte_at m i) command_bytes-eq
      ∙ get_or-set_ne (set_bits lens_bits tilted) 7 i _ 0 ne
      ∙ byte_at-set_bits lens_bits tilted i h
      ∙ byte_at-set_bits tilt_bits (set panned 5 tilt_code) i k

  -- The bytes of the receiver and of the speeds.
  pub bytes_lem :
      (byte_at command_bytes 1 ≡ u8 p.receiver)
      × (byte_at command_bytes 4 ≡ pan_code)
      × (byte_at command_bytes 5 ≡ tilt_code)
  unfolding encode_checksum encode_receiver
  bytes_lem = (
    layers 1 (omega arith) refl refl
        ∙ get_or-set_ne panned 5 1 tilt_code 0 (omega arith)
        ∙ byte_at-set_bits pan_bits (set addressed 4 pan_code) 1 refl
        ∙ get_or-set_ne addressed 4 1 pan_code 0 (omega arith),
    layers 4 (omega arith) refl refl
        ∙ get_or-set_ne panned 5 4 tilt_code 0 (omega arith)
        ∙ byte_at-set_bits pan_bits (set addressed 4 pan_code) 4 refl
        ∙ get_or-set_self addressed 4 pan_code 0 (rw length-addressed (omega arith)),
    layers 5 (omega arith) refl refl
        ∙ get_or-set_self panned 5 tilt_code 0 (rw length-panned (omega arith)),
  )
