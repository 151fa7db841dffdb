-- ===== src/Manchester/Fields.antt =====
-- The fields of a message of src/manchester.c: its three bytes as numbers, and what the decoder
-- reads from them.
use mn_protozoa.Base.{
  ℕ, suc, ◌+◌, ◌*◌, ◌/◌, ◌%◌, ◌^◌, ◌<◌, ◌≡◌, refl, Bool, true, false, List, ◌==◌, arith, bit_and,
  replicate,
}
use mn_protozoa.Base.Bits.{bit_and_mask, bit_or_fields, bit_or_comm}
use mn_protozoa.Base.Table.{all_below, all_below_sound}
use mn_protozoa.Base.Int.{pos, ◌-ℤ◌}
use mn_protozoa.Bitarray.{byte_at}
use mn_protozoa.Ccpacket.Packet.{Ccpacket}
use mn_protozoa.Manchester.Codes.{flag, pt_command}
use mn_protozoa.Manchester.Encode.{encode_receiver, or_byte, pan_tilt_message, extended_message}
use mn_protozoa.Manchester.Decode.{is_pan_tilt_command, decode_receiver, decode_command, pt_extra}

command_bit : all_below 128 (λ b. bit_and b pt_command == b / 2 % 2 * 2) ≡ true
unfolding all_below
command_bit = refl

flag_bit : all_below 16 (λ r. bit_and (128 + r) flag == 128) ≡ true
unfolding all_below
flag_bit = refl

-- The fields in a message with these bytes, for a receiver `suc n`.
fields :
    (m : List ℕ) (n c x t : ℕ)
    → n < 1024
    → c < 4
    → x < 8
    → t < 2
    → byte_at m 0 ≡ 128 + n / 64
    → byte_at m 1 ≡ c * 16 + x * 2 + n / 32 % 2
    → byte_at m 2 ≡ n % 32 * 4 + t * 2
    → (decode_receiver m ≡ suc n)
      × (decode_command m ≡ c)
      × (pt_extra m ≡ x)
      × (is_pan_tilt_command m ≡ (t == 1))
      × (bit_and (byte_at m 0) flag ≡ 128)
unfolding decode_receiver decode_command pt_extra is_pan_tilt_command
fields m n c x t hn hc hx ht e0 e1 e2 = (
  ground (
    arith,
    e0,
    e1,
    e2,
    bit_and_mask 4 (128 + n / 64) 15 refl,
    bit_and_mask 1 (c * 16 + x * 2 + n / 32 % 2) 1 refl,
    bit_and_mask 5 ((n % 32 * 4 + t * 2) / 4) 31 refl,
    bit_or_fields 6 (n / 64) (n / 32 % 2 * 32),
    bit_or_fields 5 (n / 32) (n % 32),
  ),
  ground (arith, e1, bit_and_mask 2 ((c * 16 + x * 2 + n / 32 % 2) / 16) 3 refl),
  ground (arith, e1, bit_and_mask 3 ((c * 16 + x * 2 + n / 32 % 2) / 2) 7 refl),
  ground (arith, e2, command_bit, all_below_sound 128 _ (n % 32 * 4 + t * 2) command_bit),
  ground (arith, e0, all_below_sound 16 _ (n / 64) flag_bit),
)

-- `receiver - 1`
pred : (n : ℕ) → pos (suc n) -ℤ pos 1 ≡ pos n
pred n = ground arith

-- The bytes of a message with these fields.
module _ (p : Ccpacket) (n c x : ℕ) (er : p.receiver ≡ pos (suc n)) (hn : n < 1024) (hc : c < 4)
    (hx : x < 8) where
  receiver_bytes :
      let m = encode_receiver (replicate 3 0) p in
      (byte_at m 0 ≡ 128 + n / 64) × (byte_at m 1 ≡ n / 32 % 2) × (byte_at m 2 ≡ n % 32 * 4)
  unfolding encode_receiver
  receiver_bytes =
      rw (er, pred n)
        (
          ground (arith, bit_and_mask 4 (n / 64 % 2 ^ 32) 15 refl, bit_or_fields 7 1 (n / 64)),
          ground (arith, bit_and_mask 1 (n / 32 % 2 ^ 32) 1 refl),
          ground (arith, bit_and_mask 5 (n % 2 ^ 32) 31 refl),
        )

  pan_tilt_bytes :
      let m = pan_tilt_message p c x (replicate 3 0) in
      (byte_at m 0 ≡ 128 + n / 64)
      × (byte_at m 1 ≡ c * 16 + x * 2 + n / 32 % 2)
      × (byte_at m 2 ≡ n % 32 * 4 + 2)
  unfolding pan_tilt_message encode_receiver or_byte
  pan_tilt_bytes = (
    receiver_bytes.0,
    ground (
      arith,
      receiver_bytes,
      bit_or_comm (n / 32 % 2) (c * 16 + x * 2),
      bit_or_fields 4 c (x * 2),
      bit_or_fields 1 (c * 8 + x) (n / 32 % 2),
    ),
    ground (arith, receiver_bytes, bit_or_fields 2 (n % 32) 2),
  )

  extended_bytes :
      let m = extended_message p c x (replicate 3 0) in
      (byte_at m 0 ≡ 128 + n / 64)
      × (byte_at m 1 ≡ c * 16 + x * 2 + n / 32 % 2)
      × (byte_at m 2 ≡ n % 32 * 4)
  unfolding extended_message encode_receiver or_byte
  extended_bytes = (
    receiver_bytes.0,
    ground (
      arith,
      receiver_bytes,
      bit_or_comm (n / 32 % 2) (c * 16 + x * 2),
      bit_or_comm (c * 16) (x * 2),
      bit_or_fields 4 c (x * 2),
      bit_or_fields 1 (c * 8 + x) (n / 32 % 2),
    ),
    receiver_bytes.2,
  )

  -- What the decoder reads from a message.
  abbrev pub Fields : List ℕ → Bool → Type 0
  Fields m moves =
      (decode_receiver m ≡ suc n)
      × (decode_command m ≡ c)
      × (pt_extra m ≡ x)
      × (is_pan_tilt_command m ≡ moves)
      × (bit_and (byte_at m 0) flag ≡ 128)

  pub pan_tilt_message-Fields : Fields (pan_tilt_message p c x (replicate 3 0)) true
  pan_tilt_message-Fields =
      fields (pan_tilt_message p c x (replicate 3 0)) n c x 1 hn hc hx (omega arith)
        pan_tilt_bytes.0 pan_tilt_bytes.1 pan_tilt_bytes.2

  pub extended_message-Fields : Fields (extended_message p c x (replicate 3 0)) false
  extended_message-Fields =
      fields (extended_message p c x (replicate 3 0)) n c x 0 hn hc hx (omega arith)
        extended_bytes.0 extended_bytes.1 (omega (arith, extended_bytes.2))
