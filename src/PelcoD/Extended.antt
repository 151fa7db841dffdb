-- ===== src/PelcoD/Extended.antt =====
-- The extended messages of src/pelco_d.c, for presets and the wiper, encoded and decoded; and the
-- tests that a received message has to pass.
use mn_protozoa.Base.{
  ℕ, ◌≤◌, ◌<◌, ◌≡◌, ◌≢◌, refl, sym, ap, ◌∙◌, true, false, ◌||◌, List, ◌==◌, arith, bit_or,
  replicate, if◌then◌else◌,
}
use mn_protozoa.Base.Int.{ℤ, pos, u8}
use mn_protozoa.Bitarray.{byte_at, bit_set}
use mn_protozoa.Ccpacket.Flags.{
  cc_preset_recall, cc_preset_store, cc_preset_clear, cc_wiper_on, cc_wiper_off,
}
use mn_protozoa.Ccpacket.Modes
use mn_protozoa.Ccpacket.Packet.{
  Ccpacket, get_preset_mode, get_wiper, set_receiver, set_preset, set_wiper,
}
use mn_protozoa.Ccpacket.Frames.{get_mode-eq-valid}
use mn_protozoa.Ccpacket.Group.{Group, get_mode}
use mn_protozoa.Ccpacket.Preset.{
  is_menu_store, preset_idem, set_preset_split, get_preset_mode-set_preset, get_mode-set_preset,
}
use mn_protozoa.PelcoD.Bits.{max_address, ex_aux_wiper}
use mn_protozoa.PelcoD.Decode.{
  decode_receiver, decode_extended, decode_aux_set, decode_aux_clear, extended_packet,
}
use mn_protozoa.PelcoD.Encode.{
  encode_receiver, encode_checksum, preset_code, preset_message, wiper_message,
}

abbrev pub preset_bytes : Ccpacket → List ℕ
preset_bytes p = preset_message p (replicate 7 0)

abbrev pub wiper_bytes : Ccpacket → List ℕ
wiper_bytes p = wiper_message p (replicate 7 0)

preset_values :
    (f : ℕ) (n : ℤ)
    → (Modes.preset f n == 0
        || (Modes.preset f n == cc_preset_recall
            || (Modes.preset f n == cc_preset_store || Modes.preset f n == cc_preset_clear)))
      ≡ true
unfolding Modes.preset
preset_values f n = ground arith

-- The bytes of a preset message that its decoder reads.
preset_layout :
    (p : Ccpacket)
    → (byte_at (preset_bytes p) 1 ≡ u8 p.receiver)
      × (byte_at (preset_bytes p) 3 ≡ bit_or 1 (preset_code p))
      × (byte_at (preset_bytes p) 5 ≡ u8 p.preset)
unfolding preset_message encode_receiver encode_checksum bit_set
preset_layout p = (refl, refl, refl)

-- What a preset message is decoded to, the numbers that stand for menu commands included.
preset_decoded :
    (p q : Ccpacket) (a n : ℕ)
    → p.receiver ≡ pos a
    → a ≤ max_address
    → p.preset ≡ pos n
    → n < 256
    → get_preset_mode p ≢ 0
    → extended_packet q (preset_bytes p)
      ≡ set_preset (set_receiver q p.receiver) (get_preset_mode p) p.preset
unfolding extended_packet decode_extended decode_receiver preset_code get_preset_mode
preset_decoded p q a n ea ha en hn some_mode =
    ground (arith, preset_layout p, preset_values p.flags p.preset)

-- A preset message, for a receiver from 0 to 254, a preset number from 0 to 255 and a packet with
-- a preset mode that is not the store of a number from 77 to 79, is decoded to the same receiver,
-- preset mode and preset number, whatever packet the reader held; the modes of the other groups
-- stay as they were there.
pub preset_roundtrip :
    (p q : Ccpacket) (a n : ℕ)
    → p.receiver ≡ pos a
    → a ≤ max_address
    → p.preset ≡ pos n
    → n < 256
    → get_preset_mode p ≢ 0
    → is_menu_store (get_preset_mode p) p.preset ≡ false
    → let r = extended_packet q (preset_bytes p) in
      (r.receiver ≡ pos a)
      × (get_preset_mode r ≡ get_preset_mode p)
      × (r.preset ≡ pos n)
      × ((g : Group) → get_mode g r ≡ get_mode g q)
unfolding get_preset_mode set_receiver
preset_roundtrip p q a n ea ha en hn some_mode plain =
    let e = preset_decoded p q a n ea ha en hn some_mode in
    let q' = set_receiver q p.receiver in
    let stored = set_preset q' (get_preset_mode p) p.preset in
    let split = set_preset_split q' (get_preset_mode p) p.preset in
    let receiver : stored.receiver ≡ p.receiver = rw (split, plain) refl in
    let number : stored.preset ≡ p.preset = rw (split, plain) refl in
    (
      ap (λ r. r.receiver) e ∙ receiver ∙ ea,
      ap get_preset_mode e
          ∙ get_preset_mode-set_preset q' (get_preset_mode p) p.preset
          ∙ (rw plain (preset_idem p.flags p.preset)),
      ap (λ r. r.preset) e ∙ number ∙ en,
      λ g.
          ap (get_mode g) e
          ∙ get_mode-set_preset g q' (get_preset_mode p) p.preset
          ∙ get_mode-eq-valid g q'
          ∙ sym (get_mode-eq-valid g q),
    )

wiper_layout :
    (p : Ccpacket)
    → (byte_at (wiper_bytes p) 1 ≡ u8 p.receiver)
      × (byte_at (wiper_bytes p) 3 ≡ (if get_wiper p == cc_wiper_on then 9 else 11))
      × (byte_at (wiper_bytes p) 5 ≡ ex_aux_wiper)
unfolding wiper_message encode_receiver encode_checksum bit_set
wiper_layout p = (refl, ground arith, refl)

wiper_values :
    (f : ℕ)
    → (Modes.wiper f == 0 || (Modes.wiper f == cc_wiper_on || Modes.wiper f == cc_wiper_off)) ≡ true
unfolding Modes.wiper
wiper_values f = ground arith

-- A wiper message, for a receiver from 0 to 254 and a packet with a wiper command, is decoded to
-- the same wiper command at the same receiver, whatever packet the reader held.
pub wiper_roundtrip :
    (p q : Ccpacket) (a : ℕ)
    → p.receiver ≡ pos a
    → a ≤ max_address
    → get_wiper p ≢ 0
    → extended_packet q (wiper_bytes p) ≡ set_wiper (set_receiver q p.receiver) (get_wiper p)
unfolding extended_packet decode_extended decode_aux_set decode_aux_clear decode_receiver get_wiper
wiper_roundtrip p q a ea ha some_mode = ground (arith, wiper_layout p, wiper_values p.flags)
