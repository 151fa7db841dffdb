-- ===== src/PelcoP/Extended.antt =====
-- The extended messages of src/pelco_p.c, for presets and the wiper, encoded and decoded; and the
-- checksum that the encoder fills in.
use mn_protozoa.Base.{
  ℕ, zero, suc, ◌+◌, ◌≤◌, ◌≡◌, refl, true, List, arith, set, length, get_or-set_self, get_or-set_ne,
  bit_xor,
}
use mn_protozoa.Bitarray.{byte_at}
use mn_protozoa.PelcoP.Checksum.{xor_loop, calculate_checksum}
use mn_protozoa.PelcoP.Decode.{checksum_is_valid}
use mn_protozoa.PelcoP.Encode.{encode_checksum}
use mn_protozoa.Base.{◌==◌, ◌||◌, bit_or, replicate, if◌then◌else◌, ◌≢◌, ◌<◌}
use mn_protozoa.Base.Int.{ℤ, pos, u8}
use mn_protozoa.Bitarray.{bit_set}
use mn_protozoa.Ccpacket.Flags.{
  cc_preset_recall, cc_preset_store, cc_preset_clear, cc_wiper_on, cc_wiper_off,
}
use mn_protozoa.Ccpacket.Modes
use mn_protozoa.Ccpacket.Packet.{
  Ccpacket, get_preset_mode, get_wiper, set_receiver, set_preset, set_wiper,
}
use mn_protozoa.PelcoP.Bits.{max_address, ex_aux_wiper}
use mn_protozoa.PelcoP.Decode.{
  decode_receiver, decode_extended, decode_aux_set, decode_aux_clear, extended_packet,
}
use mn_protozoa.PelcoP.Encode.{encode_receiver, preset_code, preset_message, wiper_message}

-- The loop does not read the byte of the checksum.
xor_loop-set :
    (left i c v : ℕ) (m : List ℕ)
    → i + left ≤ 7
    → xor_loop left i c (set m 7 v) ≡ xor_loop left i c m
unfolding xor_loop
xor_loop-set zero i c v m h = refl
xor_loop-set (suc left) i c v m h =
    rw (get_or-set_ne m 7 i v 0 (omega (arith, h)))
      (xor_loop-set left (i + 1) (bit_xor c (byte_at m i)) v m (omega (arith, h)))

-- A message of eight bytes passes the checksum test once its checksum is filled in.
pub xor_checksum_filled : (m : List ℕ) → length m ≡ 8 → checksum_is_valid (encode_checksum m) ≡ true
unfolding checksum_is_valid encode_checksum calculate_checksum
xor_checksum_filled m e =
    let v = calculate_checksum m in
    rw (xor_loop-set 7 0 0 v m (omega arith), get_or-set_self m 7 v 0 (omega (arith, e)))
      (ground arith)

abbrev pub preset_bytes : Ccpacket → List ℕ
preset_bytes p = preset_message p (replicate 8 0)

abbrev pub wiper_bytes : Ccpacket → List ℕ
wiper_bytes p = wiper_message p (replicate 8 0)

preset_values :
    (f : ℕ) (n : ℤ)
    → (Modes.preset f n == 0
        || (Modes.preset f n == cc_preset_recall
            || (Modes.preset f n == cc_preset_store || Modes.preset f n == cc_preset_clear)))
      ≡ true
unfolding Modes.preset
preset_values f n = ground arith

-- The bytes of a preset message that its decoder reads.
preset_layout :
    (p : Ccpacket)
    → (byte_at (preset_bytes p) 1 ≡ u8 p.receiver)
      × (byte_at (preset_bytes p) 3 ≡ bit_or 1 (preset_code p))
      × (byte_at (preset_bytes p) 5 ≡ u8 p.preset)
unfolding preset_message encode_receiver encode_checksum bit_set
preset_layout p = (refl, refl, refl)

-- A preset message, for a receiver from 0 to 254, a preset number from 0 to 255 and a packet with
-- a preset mode, is decoded to the same preset mode and number at the same receiver, whatever
-- packet the reader held.
pub preset_carried :
    (p q : Ccpacket) (a n : ℕ)
    → p.receiver ≡ pos a
    → a ≤ max_address
    → p.preset ≡ pos n
    → n < 256
    → get_preset_mode p ≢ 0
    → extended_packet q (preset_bytes p)
      ≡ set_preset (set_receiver q p.receiver) (get_preset_mode p) p.preset
unfolding extended_packet decode_extended decode_receiver preset_code get_preset_mode
preset_carried p q a n ea ha en hn some_mode =
    ground (arith, preset_layout p, preset_values p.flags p.preset)

wiper_layout :
    (p : Ccpacket)
    → (byte_at (wiper_bytes p) 1 ≡ u8 p.receiver)
      × (byte_at (wiper_bytes p) 3 ≡ (if get_wiper p == cc_wiper_on then 9 else 11))
      × (byte_at (wiper_bytes p) 5 ≡ ex_aux_wiper)
unfolding wiper_message encode_receiver encode_checksum bit_set
wiper_layout p = (refl, ground arith, refl)

wiper_values :
    (f : ℕ)
    → (Modes.wiper f == 0 || (Modes.wiper f == cc_wiper_on || Modes.wiper f == cc_wiper_off)) ≡ true
unfolding Modes.wiper
wiper_values f = ground arith

-- A wiper message, for a receiver from 0 to 254 and a packet with a wiper command, is decoded to
-- the same wiper command at the same receiver, whatever packet the reader held.
pub wiper_carried :
    (p q : Ccpacket) (a : ℕ)
    → p.receiver ≡ pos a
    → a ≤ max_address
    → get_wiper p ≢ 0
    → extended_packet q (wiper_bytes p) ≡ set_wiper (set_receiver q p.receiver) (get_wiper p)
unfolding extended_packet decode_extended decode_aux_set decode_aux_clear decode_receiver get_wiper
wiper_carried p q a ea ha some_mode = ground (arith, wiper_layout p, wiper_values p.flags)
