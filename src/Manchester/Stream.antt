-- ===== src/Manchester/Stream.antt =====
-- The reader of src/manchester.c on a stream of bytes.
use mn_protozoa.Base.{
  ℕ, ◌≤◌, ◌<◌, ◌≡◌, inl, inr, refl, List, ◌==◌, arith, bit_and, Bool-cases, if◌then◌else◌,
}
use mn_protozoa.Base.Run.{done}
use mn_protozoa.Bitarray.{byte_at}
use mn_protozoa.Buffer.Defs.{available, is_empty}
use mn_protozoa.Buffer.Inv.{IsValid, consumed, consume-eq-done, consumed-IsValid}
use mn_protozoa.Ccpacket.Packet.{Ccpacket}
use mn_protozoa.Ccreader.Reading.{more, Reading, output}
use mn_protozoa.Ccreader.Loop.{Progress, while_available_total}
use mn_protozoa.Manchester.Codes.{flag, size_msg}
use mn_protozoa.Manchester.Decode.{
  decode_receiver, process, other_receiver, decode_into, read_message, do_read,
}

module _ {S : Type 0} (process_packet : S → Ccpacket → S × Ccpacket) where
  rxbuf-decode_into :
      (r : Reading S) (mess : List ℕ) → (decode_into process_packet r mess).rxbuf ≡ r.rxbuf
  unfolding decode_into
  rxbuf-decode_into r mess =
      elim (Bool-cases (other_receiver process_packet r.packet (decode_receiver mess))) [
        | inl e ↦ rw e refl
        | inr e ↦ rw e refl
      ]

  -- The reading that one round leaves.
  abbrev round : Reading S → Reading S
  round r =
      if bit_and (byte_at (output r.rxbuf) 0) flag == 0
      then record r { rxbuf = consumed r.rxbuf 1 }
      else let r' = decode_into process_packet r (output r.rxbuf) in
        record r' { rxbuf = consumed r.rxbuf size_msg }

  read_message-eq :
      (r : Reading S)
      → IsValid r.rxbuf
      → size_msg ≤ available r.rxbuf
      → read_message process_packet r ≡ done (more, round r)
  unfolding read_message
  read_message-eq r v h = elim (Bool-cases (bit_and (byte_at (output r.rxbuf) 0) flag == 0)) [
    | inl e ↦ rw (e, consume-eq-done r.rxbuf 1 v (omega (arith, h))) refl
    | inr e ↦
        rw (e, rxbuf-decode_into r (output r.rxbuf), consume-eq-done r.rxbuf size_msg v h) refl
  ]

  read_message-Progress :
      (r : Reading S)
      → IsValid r.rxbuf
      → size_msg ≤ available r.rxbuf
      → Progress size_msg (read_message process_packet) (λ _. ⊥) r
  read_message-Progress r v h =
      let (v1, less1, _) = consumed-IsValid r.rxbuf 1 v (omega (arith, h)) in
      let (v3, less3, _) = consumed-IsValid r.rxbuf size_msg v h in
      (
        round r,
        inl (elim (Bool-cases (bit_and (byte_at (output r.rxbuf) 0) flag == 0)) [
          | inl e ↦ (read_message-eq r v h, rw e v1, rw e (omega (arith, less1, h)))
          | inr e ↦ (read_message-eq r v h, rw e v3, rw e (omega (arith, less3, h)))
        ]),
      )

  -- `manchester_do_read` returns on every valid buffer: no assert of the buffer fails, the fuel is
  -- enough, and it leaves a valid buffer with less than a message in it.
  pub manchester_do_read_total :
      (r : Reading S)
      → IsValid r.rxbuf
      → (r' : Reading S) × (do_read process_packet r ≡ done r')
        × IsValid r'.rxbuf
        × (available r'.rxbuf < size_msg)
  unfolding do_read process
  manchester_do_read_total r v =
      let (r', e, v', why) =
        while_available_total size_msg (read_message process_packet) (λ _. ⊥) read_message-Progress
          r v in
      elim (Bool-cases (is_empty r'.rxbuf)) [
        | inl empty ↦ (process process_packet r', rw (e, empty) refl, v', ground (arith, why))
        | inr some_left ↦ (r', rw (e, some_left) refl, v', ground (arith, why))
      ]
