-- ===== src/Vicon/Fields.antt =====
-- The bytes that a message of src/vicon.c gives to the receiver and the speeds.
use mn_protozoa.Base.{
  ℕ, ◌+◌, ◌/◌, ◌%◌, ◌^◌, ◌<◌, ◌≡◌, refl, ap, ◌∙◌, true, List, ◌==◌, arith, set, length, length-set,
  get_or-set_self, get_or-set_ne, bit_and, bit_or,
}
use mn_protozoa.Base.Bits.{bit_and_mask, bit_or_fields}
use mn_protozoa.Base.Table.{all_below, all_below_sound}
use mn_protozoa.Base.Int.{pos}
use mn_protozoa.Bitarray.{byte_at}
use mn_protozoa.Bitarray.Sets.{length-set_bits, none_under, masked-set_bits}
use mn_protozoa.Ccpacket.Packet.{Ccpacket}
use mn_protozoa.Vicon.Encode.{encode_receiver, or_masked, encode_speed, encode_speeds}
use mn_protozoa.Vicon.Bits.{flag}
use mn_protozoa.Vicon.Message.{
  speed_bytes, speed_bits, addressed, flagged, speed_bytes-eq, length-addressed,
}

module _ (p : Ccpacket) where
  flag_bit : all_below 16 (λ r. bit_and (bit_or flag r) flag == flag) ≡ true
  unfolding all_below
  flag_bit = refl

  -- The first bytes are those with the bits set.
  front : (i : ℕ) → i < 5 → byte_at (speed_bytes p) i ≡ byte_at (flagged p) i
  unfolding encode_speeds
  front i h =
      ap (λ m. byte_at m i) (speed_bytes-eq p)
      ∙ get_or-set_ne _ 9 i _ 0 (omega (arith, h))
      ∙ get_or-set_ne _ 8 i _ 0 (omega (arith, h))
      ∙ get_or-set_ne _ 7 i _ 0 (omega (arith, h))
      ∙ get_or-set_ne _ 6 i _ 0 (omega (arith, h))
      ∙ get_or-set_ne (flagged p) 5 i _ 0 (omega (arith, h))

  front_masked :
      (i mask : ℕ)
      → i < 5
      → none_under (speed_bits p) i mask ≡ true
      → bit_and (byte_at (speed_bytes p) i) mask ≡ bit_and (byte_at (addressed p) i) mask
  front_masked i mask h k =
      ap (λ b. bit_and b mask) (front i h)
      ∙ masked-set_bits (speed_bits p) (addressed p) i mask (rw (length-addressed p) refl) k

  -- The low halves of the first two bytes hold the receiver, and the first byte the flag.
  pub receiver_bytes :
      (n : ℕ)
      → p.receiver ≡ pos n
      → n < 256
      → (bit_and (byte_at (speed_bytes p) 0) 0x0f ≡ n / 16)
        × (bit_and (byte_at (speed_bytes p) 1) 0x0f ≡ n % 16)
        × (bit_and (byte_at (speed_bytes p) 0) flag ≡ flag)
  unfolding encode_receiver
  receiver_bytes n e h = (
    front_masked 0 0x0f (omega arith) refl
        ∙ (rw e (
            ground (
              arith,
              bit_and_mask 4 (n / 16 % 2 ^ 32) 15 refl,
              bit_or_fields 7 1 (n / 16),
              bit_and_mask 4 (128 + n / 16) 15 refl,
            ))),
    front_masked 1 0x0f (omega arith) refl
        ∙ (rw e
            (ground (arith, bit_and_mask 4 (n % 2 ^ 32) 15 refl, bit_and_mask 4 (n % 16) 15 refl))),
    front_masked 0 flag (omega arith) refl
        ∙ (rw e (
            ground (
              arith,
              bit_and_mask 4 (n / 16 % 2 ^ 32) 15 refl,
              flag_bit,
              all_below_sound 16 _ (n / 16) flag_bit,
            ))),
  )

  tail_bytes :
      (m : List ℕ)
      → length m ≡ 10
      → (byte_at (encode_speeds m p) 6 ≡ bit_and (encode_speed p.pan / 2 ^ 7) 0x0f)
        × (byte_at (encode_speeds m p) 7 ≡ bit_and (encode_speed p.pan) 0x7f)
        × (byte_at (encode_speeds m p) 8 ≡ bit_and (encode_speed p.tilt / 2 ^ 7) 0x0f)
        × (byte_at (encode_speeds m p) 9 ≡ bit_and (encode_speed p.tilt) 0x7f)
  unfolding encode_speeds
  tail_bytes m h = (
    get_or-set_ne m8 9 6 _ 0 (omega arith)
        ∙ get_or-set_ne m7 8 6 _ 0 (omega arith)
        ∙ get_or-set_ne m6 7 6 _ 0 (omega arith)
        ∙ get_or-set_self m 6 _ 0 (omega (arith, h)),
    get_or-set_ne m8 9 7 _ 0 (omega arith)
        ∙ get_or-set_ne m7 8 7 _ 0 (omega arith)
        ∙ get_or-set_self m6 7 _ 0 (omega (arith, h, lengths)),
    get_or-set_ne m8 9 8 _ 0 (omega arith) ∙ get_or-set_self m7 8 _ 0 (omega (arith, h, lengths)),
    get_or-set_self m8 9 _ 0 (omega (arith, h, lengths)),
  )
    where
      m6 : List ℕ
      m6 = set m 6 (bit_and (encode_speed p.pan / 2 ^ 7) 0x0f)

      m7 : List ℕ
      m7 = set m6 7 (bit_and (encode_speed p.pan) 0x7f)

      m8 : List ℕ
      m8 = set m7 8 (bit_and (encode_speed p.tilt / 2 ^ 7) 0x0f)

      lengths : (length m6 ≡ length m) × (length m7 ≡ length m) × (length m8 ≡ length m)
      lengths = omega (
        arith,
        length-set m 6 (bit_and (encode_speed p.pan / 2 ^ 7) 0x0f),
        length-set m6 7 (bit_and (encode_speed p.pan) 0x7f),
        length-set m7 8 (bit_and (encode_speed p.tilt / 2 ^ 7) 0x0f),
      )

  long : length (or_masked (flagged p) 5 p.preset 0x0f) ≡ 10
  long =
      length-set (flagged p) 5 _ ∙ length-set_bits (speed_bits p) (addressed p) ∙ length-addressed p

  high : (a : ℕ) → a < 2048 → bit_and (encode_speed (pos a) / 2 ^ 7) 0x0f ≡ a / 128
  unfolding encode_speed
  high a h =
      ground (arith, bit_and_mask 11 (a % 2 ^ 32) 0x7ff refl, bit_and_mask 4 (a / 128) 0x0f refl)

  low : (a : ℕ) → a < 2048 → bit_and (encode_speed (pos a)) 0x7f ≡ a % 128
  unfolding encode_speed
  low a h = ground (arith, bit_and_mask 11 (a % 2 ^ 32) 0x7ff refl, bit_and_mask 7 a 0x7f refl)

  -- The speeds stand in the last four bytes.
  pub speed_values :
      (a b : ℕ)
      → p.pan ≡ pos a
      → a < 2048
      → p.tilt ≡ pos b
      → b < 2048
      → (byte_at (speed_bytes p) 6 ≡ a / 128)
        × (byte_at (speed_bytes p) 7 ≡ a % 128)
        × (byte_at (speed_bytes p) 8 ≡ b / 128)
        × (byte_at (speed_bytes p) 9 ≡ b % 128)
  speed_values a b ea ha eb hb =
      let (six, seven, eight, nine) = tail_bytes (or_masked (flagged p) 5 p.preset 0x0f) long in
      (
        ap (λ m. byte_at m 6) (speed_bytes-eq p) ∙ six ∙ (rw ea (high a ha)),
        ap (λ m. byte_at m 7) (speed_bytes-eq p) ∙ seven ∙ (rw ea (low a ha)),
        ap (λ m. byte_at m 8) (speed_bytes-eq p) ∙ eight ∙ (rw eb (high b hb)),
        ap (λ m. byte_at m 9) (speed_bytes-eq p) ∙ nine ∙ (rw eb (low b hb)),
      )

  pub length-speed_bytes : length (speed_bytes p) ≡ 10
  unfolding encode_speeds
  length-speed_bytes =
      ap length (speed_bytes-eq p)
      ∙ length-set _ 9 _
      ∙ length-set _ 8 _
      ∙ length-set _ 7 _
      ∙ length-set _ 6 _
      ∙ long
