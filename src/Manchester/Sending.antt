-- ===== src/Manchester/Sending.antt =====
-- The encoders of src/manchester.c, one for each part of a packet, and what their messages decode to.
use mn_protozoa.Base.{
  ℕ, suc, ◌≤◌, ◌<◌, ◌≡◌, ◌≢◌, ◌⊎◌, ◌∙◌, ◌++◌, refl, ap, false, List, length, replicate, bit_and,
  ltb, arith,
}
use mn_protozoa.Bitarray.{byte_at}
use mn_protozoa.Buffer.Defs.{space}
use mn_protozoa.Buffer.Inv.{IsValid}
use mn_protozoa.Buffer.Queue.{contents, pushed, contents-pushed}
use mn_protozoa.Ccwriter.Append.{message-eq-pushed}
use mn_protozoa.Manchester.Codes.{flag, size_msg}
use mn_protozoa.Base.Int.{pos}
use mn_protozoa.Buffer.Defs.{Buffer}
use mn_protozoa.Ccpacket.Flags.{
  cc_pan_left, cc_pan_right, cc_tilt_down, cc_tilt_up, cc_focus_near, cc_focus_far, cc_iris_close,
  cc_iris_open, cc_preset_recall, cc_preset_store,
}
use mn_protozoa.Ccpacket.Packet.{
  Ccpacket, get_pan_mode, get_tilt_mode, get_zoom, get_focus, get_iris, get_camera, get_preset_mode,
  set_pan, set_tilt, set_zoom, set_focus, set_iris, set_camera, set_preset,
}
use mn_protozoa.Manchester.Encode.{
  encode_speed, encode_pan, encode_tilt, encode_zoom, encode_focus, encode_iris, encode_aux,
  encode_preset,
}
use mn_protozoa.Manchester.Decode.{speed_at, decode_receiver, decode_packet}
use mn_protozoa.Manchester.Roundtrip.{
  Sent, encode_pan-Sent, encode_tilt-Sent, encode_zoom-Sent, encode_focus-Sent, encode_iris-Sent,
  encode_aux-Sent, encode_preset-Sent,
}

pub data Part : Type 0 where
  pan tilt zoom focus iris camera preset : Part

abbrev pub encoder : Part → Buffer → Ccpacket → Buffer
encoder pan = encode_pan
encoder tilt = encode_tilt
encoder zoom = encode_zoom
encoder focus = encode_focus
encoder iris = encode_iris
encoder camera = encode_aux
encoder preset = encode_preset

-- The packet has a command of the part that the protocol can carry.
abbrev pub Carried : Part → Ccpacket → Type 0
Carried pan p = (get_pan_mode p ≡ cc_pan_left) ⊎ (get_pan_mode p ≡ cc_pan_right)
Carried tilt p = (get_tilt_mode p ≡ cc_tilt_down) ⊎ (get_tilt_mode p ≡ cc_tilt_up)
Carried zoom p = get_zoom p ≢ 0
Carried focus p = (get_focus p ≡ cc_focus_near) ⊎ (get_focus p ≡ cc_focus_far)
Carried iris p = (get_iris p ≡ cc_iris_close) ⊎ (get_iris p ≡ cc_iris_open)
Carried camera p = get_camera p ≢ 0
Carried preset p =
    (k : ℕ) × (p.preset ≡ pos k)
    × (1 ≤ k)
    × (k ≤ 8)
    × ((get_preset_mode p ≡ cc_preset_recall) ⊎ (get_preset_mode p ≡ cc_preset_store))

-- What the command of `p` does to the packet `q` of the receiving side.
abbrev pub carried : Part → Ccpacket → Ccpacket → Ccpacket
carried pan p q = set_pan q (get_pan_mode p) (pos (speed_at (encode_speed p.pan)))
carried tilt p q = set_tilt q (get_tilt_mode p) (pos (speed_at (encode_speed p.tilt)))
carried zoom p q = set_zoom q (get_zoom p)
carried focus p q = set_focus q (get_focus p)
carried iris p q = set_iris q (get_iris p)
carried camera p q = set_camera q (get_camera p)
carried preset p q = set_preset q (get_preset_mode p) p.preset

encoded :
    (tx : Buffer) (p q : Ccpacket) (n : ℕ)
    → p.receiver ≡ pos (suc n)
    → n < 1024
    → (part : Part) → Carried part p
    → Sent tx (encoder part tx p) (suc n) q (carried part p q)
encoded tx p q n er hn pan h = encode_pan-Sent tx p q n er hn h
encoded tx p q n er hn tilt h = encode_tilt-Sent tx p q n er hn h
encoded tx p q n er hn zoom h = encode_zoom-Sent tx p q n er hn h
encoded tx p q n er hn focus h = encode_focus-Sent tx p q n er hn h
encoded tx p q n er hn iris h = encode_iris-Sent tx p q n er hn h
encoded tx p q n er hn camera h = encode_aux-Sent tx p q n er hn h
encoded tx p q n er hn preset (k, e, lo, hi, h) = encode_preset-Sent tx p q n er hn k e lo hi h

-- For a receiver from 1 to 1024, a valid transmit buffer with space for three bytes, and each part of
-- a packet: a command that the protocol can carry is appended to what the buffer held as one message
-- of three bytes, which begins with the flag and is decoded to the same receiver and command. Such
-- are a pan or tilt in a direction, a zoom, a focus near or far, an iris opened or closed, a camera
-- turned on or off, and a recall or store of the presets 1 to 8; the speed of a pan or tilt becomes
-- that of the table which it was rounded to.
pub encoder-Sent :
    (tx : Buffer) (p q : Ccpacket) (n : ℕ)
    → IsValid tx
    → size_msg ≤ space tx
    → p.receiver ≡ pos (suc n)
    → n < 1024
    → (part : Part) → Carried part p
    → (mess : List ℕ) × (contents (encoder part tx p) ≡ contents tx ++ mess)
      × (length mess ≡ size_msg)
      × (bit_and (byte_at mess 0) flag ≡ 128)
      × (decode_receiver mess ≡ suc n)
      × (decode_packet q mess ≡ carried part p q)
encoder-Sent tx p q n v fits er hn part h =
    let (m, sent, three, flagged, receiver, packet) = encoded tx p q n er hn part h in
    let bytes = m (replicate 3 0) in
    let enough : ltb (space tx) size_msg ≡ false = ground (arith, fits) in
    (
      bytes,
      ap contents {y = pushed tx bytes}
            (sent ∙ message-eq-pushed tx size_msg m v three ∙ rw enough refl)
          ∙ contents-pushed tx bytes v (omega (arith, three, fits)),
      three,
      flagged,
      receiver,
      packet,
    )
