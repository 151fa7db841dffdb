-- ===== src/Manchester/Roundtrip.antt =====
-- Encoding and then decoding each of the commands of src/manchester.c.
use mn_protozoa.Base.{
  ℕ, suc, ◌+◌, ◌-◌, ◌≤◌, ◌<◌, ◌≡◌, ◌≢◌, ◌⊎◌, inl, inr, refl, sym, false, ◌||◌, ltb, List, ◌==◌,
  arith, bit_and, length, replicate, Bool-cases,
}
use mathlib.Core.Path.{subst}
use mn_protozoa.Base.Int.{ℤ, pos}
use mn_protozoa.Bitarray.{byte_at}
use mn_protozoa.Buffer.Defs.{Buffer}
use mn_protozoa.Ccpacket.Flags.{
  cc_pan_left, cc_pan_right, cc_tilt_up, cc_tilt_down, cc_iris_open, cc_iris_close, cc_focus_near,
  cc_focus_far, cc_zoom_in, cc_zoom_out, cc_preset_recall, cc_preset_store, cc_camera_on,
  cc_camera_off,
}
use mn_protozoa.Ccpacket.Packet.{
  Ccpacket, get_pan_mode, get_tilt_mode, get_iris, get_focus, get_zoom, get_camera, get_preset_mode,
  set_pan, set_tilt, set_iris, set_focus, set_zoom, set_camera, set_preset,
}
use mn_protozoa.Ccpacket.Values.{zoom_values, camera_values}
use mn_protozoa.Ccwriter.Append.{message}
use mn_protozoa.Manchester.Codes.{
  flag, size_msg, speed_full, tilt_down, tilt_up, pan_left, pan_right, ex_lens, ex_aux, ex_recall,
  ex_store, xl_tilt_down, xl_iris_open, xl_focus_far, xl_zoom_in, xl_iris_close, xl_focus_near,
  xl_zoom_out, xl_pan_left, ex_aux_full_up, ex_aux_full_right, ex_aux_1, ex_aux_4,
}
use mn_protozoa.Manchester.Encode.{
  pan_tilt_message, extended_message, encode_speed, encode_pan, encode_tilt, encode_zoom,
  encode_focus, encode_iris, encode_aux, encode_preset, encode_preset_number,
  encode_pan_tilt_command, encode_lens_function, encode_aux_function, encode_recall_function,
  encode_store_function,
}
use mn_protozoa.Manchester.Decode.{
  decode_receiver, decode_packet, decode_pan_tilt, decode_extended, decode_lens, decode_aux,
  decode_recall, decode_speed, speed_at,
}
use mn_protozoa.Manchester.Fields.{pan_tilt_message-Fields, extended_message-Fields}
use mn_protozoa.Manchester.Speed.{encode_speed-le}

-- What an encoder did to the transmit buffer `tx`: it appended one message of three bytes, or
-- dropped it where there is no space. The message begins with the flag, is for the receiver `a`, and
-- is decoded from the packet `q` to `q'`.
abbrev pub Sent : Buffer → Buffer → (a : ℕ) → (q q' : Ccpacket) → Type 0
Sent tx tx' a q q' =
    (m : List ℕ → List ℕ) × (tx' ≡ message tx size_msg m)
    × (length (m (replicate 3 0)) ≡ size_msg)
    × (bit_and (byte_at (m (replicate 3 0)) 0) flag ≡ 128)
    × (decode_receiver (m (replicate 3 0)) ≡ a)
    × (decode_packet q (m (replicate 3 0)) ≡ q')

module _ (tx : Buffer) (p q : Ccpacket) (n : ℕ) (er : p.receiver ≡ pos (suc n))
    (hn : n < 1024) where
  encode_pan_tilt_command-Sent :
      (c x : ℕ)
      → c < 4
      → x < 8
      → Sent tx (encode_pan_tilt_command tx p c x) (suc n) q (decode_pan_tilt q c (speed_at x))
  unfolding encode_pan_tilt_command decode_packet decode_speed pan_tilt_message
  encode_pan_tilt_command-Sent c x hc hx =
      let (receiver, code, extra, moves, flagged) = pan_tilt_message-Fields p n c x er hn hc hx in
      (pan_tilt_message p c x, refl, refl, flagged, receiver, rw (moves, code, extra) refl)

  extended_message-Sent :
      (c x : ℕ)
      → c < 4
      → x < 8
      → Sent tx (message tx size_msg (extended_message p c x)) (suc n) q (decode_extended q c x)
  unfolding decode_packet extended_message
  extended_message-Sent c x hc hx =
      let (receiver, code, extra, moves, flagged) = extended_message-Fields p n c x er hn hc hx in
      (extended_message p c x, refl, refl, flagged, receiver, rw (moves, code, extra) refl)

  partly : {c : ℕ} → c < speed_full → (c == speed_full) ≡ false
  partly h = ground arith

  full_or_less : (x : ℤ) → (encode_speed x ≡ speed_full) ⊎ (encode_speed x < speed_full)
  full_or_less x = elim (Bool-cases (encode_speed x == speed_full)) [
    | inl e ↦ inl (ground arith)
    | inr e ↦ inr (ground (arith, encode_speed-le x))
  ]

  -- For a receiver from 1 to 1024: a pan to either side, at any speed, is sent as one message,
  -- which begins with the flag and is decoded to the same receiver and side, with the speed of the
  -- table that its own was rounded to.
  pub encode_pan-Sent :
      (get_pan_mode p ≡ cc_pan_left) ⊎ (get_pan_mode p ≡ cc_pan_right)
      → Sent tx
          (encode_pan tx p)
          (suc n)
          q
          (set_pan q (get_pan_mode p) (pos (speed_at (encode_speed p.pan))))
  unfolding encode_pan encode_lens_function encode_aux_function decode_pan_tilt decode_extended
      decode_lens decode_aux
  encode_pan-Sent (inl e) = elim (full_or_less p.pan) [
    | inl full ↦
        rw (e, full) (extended_message-Sent ex_lens xl_pan_left (omega arith) (omega arith))
    | inr part ↦
        rw (e, partly part)
          (encode_pan_tilt_command-Sent pan_left (encode_speed p.pan) (omega arith) (omega arith))
  ]
  encode_pan-Sent (inr e) = elim (full_or_less p.pan) [
    | inl full ↦
        rw (e, full) (extended_message-Sent ex_aux ex_aux_full_right (omega arith) (omega arith))
    | inr part ↦
        rw (e, partly part)
          (encode_pan_tilt_command-Sent pan_right (encode_speed p.pan) (omega arith) (omega arith))
  ]

  -- For a receiver from 1 to 1024: a tilt up or down, at any speed, is sent as one message, which
  -- begins with the flag and is decoded to the same receiver and direction, with the speed of the
  -- table that its own was rounded to.
  pub encode_tilt-Sent :
      (get_tilt_mode p ≡ cc_tilt_down) ⊎ (get_tilt_mode p ≡ cc_tilt_up)
      → Sent tx
          (encode_tilt tx p)
          (suc n)
          q
          (set_tilt q (get_tilt_mode p) (pos (speed_at (encode_speed p.tilt))))
  unfolding encode_tilt encode_lens_function encode_aux_function decode_pan_tilt decode_extended
      decode_lens decode_aux
  encode_tilt-Sent (inl e) = elim (full_or_less p.tilt) [
    | inl full ↦
        rw (e, full) (extended_message-Sent ex_lens xl_tilt_down (omega arith) (omega arith))
    | inr part ↦
        rw (e, partly part)
          (encode_pan_tilt_command-Sent tilt_down (encode_speed p.tilt) (omega arith) (omega arith))
  ]
  encode_tilt-Sent (inr e) = elim (full_or_less p.tilt) [
    | inl full ↦
        rw (e, full) (extended_message-Sent ex_aux ex_aux_full_up (omega arith) (omega arith))
    | inr part ↦
        rw (e, partly part)
          (encode_pan_tilt_command-Sent tilt_up (encode_speed p.tilt) (omega arith) (omega arith))
  ]

  zoom_cases : get_zoom p ≢ 0 → (get_zoom p ≡ cc_zoom_out) ⊎ (get_zoom p ≡ cc_zoom_in)
  unfolding get_zoom
  zoom_cases h = ground (arith, zoom_values p.flags)

  camera_cases : get_camera p ≢ 0 → (get_camera p ≡ cc_camera_off) ⊎ (get_camera p ≡ cc_camera_on)
  unfolding get_camera
  camera_cases h = ground (arith, camera_values p.flags)

  -- For a receiver from 1 to 1024: a zoom in or out is sent as one message, which begins with the
  -- flag and is decoded to the same receiver and command.
  pub encode_zoom-Sent :
      get_zoom p ≢ 0 → Sent tx (encode_zoom tx p) (suc n) q (set_zoom q (get_zoom p))
  unfolding encode_zoom encode_lens_function decode_extended decode_lens
  encode_zoom-Sent h = elim (zoom_cases h) [
    | inl e ↦ rw e (extended_message-Sent ex_lens xl_zoom_out (omega arith) (omega arith))
    | inr e ↦ rw e (extended_message-Sent ex_lens xl_zoom_in (omega arith) (omega arith))
  ]

  -- For a receiver from 1 to 1024: a focus to near or far is sent as one message, which begins with
  -- the flag and is decoded to the same receiver and command.
  pub encode_focus-Sent :
      (get_focus p ≡ cc_focus_near) ⊎ (get_focus p ≡ cc_focus_far)
      → Sent tx (encode_focus tx p) (suc n) q (set_focus q (get_focus p))
  unfolding encode_focus encode_lens_function decode_extended decode_lens
  encode_focus-Sent (inl e) =
      rw e (extended_message-Sent ex_lens xl_focus_near (omega arith) (omega arith))
  encode_focus-Sent (inr e) =
      rw e (extended_message-Sent ex_lens xl_focus_far (omega arith) (omega arith))

  -- For a receiver from 1 to 1024: an opened or closed iris is sent as one message, which begins
  -- with the flag and is decoded to the same receiver and command.
  pub encode_iris-Sent :
      (get_iris p ≡ cc_iris_close) ⊎ (get_iris p ≡ cc_iris_open)
      → Sent tx (encode_iris tx p) (suc n) q (set_iris q (get_iris p))
  unfolding encode_iris encode_lens_function decode_extended decode_lens
  encode_iris-Sent (inl e) =
      rw e (extended_message-Sent ex_lens xl_iris_close (omega arith) (omega arith))
  encode_iris-Sent (inr e) =
      rw e (extended_message-Sent ex_lens xl_iris_open (omega arith) (omega arith))

  -- For a receiver from 1 to 1024: a camera turned on or off is sent as one message, which begins
  -- with the flag and is decoded to the same receiver and command.
  pub encode_aux-Sent :
      get_camera p ≢ 0 → Sent tx (encode_aux tx p) (suc n) q (set_camera q (get_camera p))
  unfolding encode_aux encode_aux_function decode_extended decode_aux
  encode_aux-Sent h = elim (camera_cases h) [
    | inl e ↦ rw e (extended_message-Sent ex_aux ex_aux_1 (omega arith) (omega arith))
    | inr e ↦ rw e (extended_message-Sent ex_aux ex_aux_4 (omega arith) (omega arith))
  ]

  within : {k : ℕ} → 1 ≤ k → k ≤ 8 → (ltb k 1 || ltb 8 k) ≡ false
  within lo hi = ground arith

  back : {k : ℕ} → 1 ≤ k → k - 1 + 1 ≡ k
  back lo = omega arith

  encode_preset_number-Sent :
      (k : ℕ)
      → 1 ≤ k
      → k ≤ 8
      → (get_preset_mode p ≡ cc_preset_recall) ⊎ (get_preset_mode p ≡ cc_preset_store)
      → Sent tx
          (encode_preset_number tx p (pos k))
          (suc n)
          q
          (set_preset q (get_preset_mode p) (pos (k - 1 + 1)))
  unfolding encode_preset_number encode_recall_function encode_store_function decode_extended
      decode_recall
  encode_preset_number-Sent k lo hi (inl e) =
      rw (e, within lo hi) (extended_message-Sent ex_recall (k - 1) (omega arith) (omega arith))
  encode_preset_number-Sent k lo hi (inr e) =
      rw (e, within lo hi) (extended_message-Sent ex_store (k - 1) (omega arith) (omega arith))

  -- For a receiver from 1 to 1024: a recall or a store of one of the presets 1 to 8 is sent as one
  -- message, which begins with the flag and is decoded to the same receiver and command and number.
  pub encode_preset-Sent :
      (k : ℕ)
      → p.preset ≡ pos k
      → 1 ≤ k
      → k ≤ 8
      → (get_preset_mode p ≡ cc_preset_recall) ⊎ (get_preset_mode p ≡ cc_preset_store)
      → Sent tx (encode_preset tx p) (suc n) q (set_preset q (get_preset_mode p) p.preset)
  unfolding encode_preset
  encode_preset-Sent k ep lo hi h =
      subst
        (λ x. Sent tx (encode_preset_number tx p x) (suc n) q (set_preset q (get_preset_mode p) x))
        (sym ep)
        (subst
          (λ y.
            Sent tx (encode_preset_number tx p (pos k)) (suc n) q
              (set_preset q (get_preset_mode p) (pos y)))
          (back lo) (encode_preset_number-Sent k lo hi h))
