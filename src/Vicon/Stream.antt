-- ===== src/Vicon/Stream.antt =====
-- The reader of src/vicon.c on a stream of bytes.
use mn_protozoa.Base.{
  ℕ, ◌≤◌, ◌<◌, ◌≡◌, ◌⊎◌, inl, inr, refl, false, List, ◌==◌, arith, bit_and, ltb, Bool-cases,
  if◌then◌else◌,
}
use mn_protozoa.Base.Run.{Run, done}
use mn_protozoa.Bitarray.{byte_at}
use mn_protozoa.Buffer.Defs.{available}
use mn_protozoa.Buffer.Inv.{IsValid, consumed, consume-eq-done, consumed-IsValid}
use mn_protozoa.Ccpacket.Packet.{Ccpacket}
use mn_protozoa.Ccreader.Reading.{Decode, more, finished, Reading, output}
use mn_protozoa.Ccreader.Loop.{Progress, while_available_total}
use mn_protozoa.Vicon.Bits.{flag, size_status, size_command, size_extended}
use mn_protozoa.Vicon.Decode.{
  process, decode_sized, decode_extended, decode_command, skip, decode_status, decode_message,
  do_read, is_command, is_extended_command, extended_packet, decode_parts,
}

-- How many bytes the message at the front of a buffer has.
abbrev pub message_size : List ℕ → ℕ
message_size mess =
    if bit_and (byte_at mess 0) flag == 0
    then 1
    else if is_extended_command mess
    then size_extended
    else if is_command mess
    then size_command
    else size_status

module _ {S : Type 0} (process_packet : S → Ccpacket → S × Ccpacket) where
  -- The reader waits for the rest of a message.
  abbrev pub Waits : Reading S → Type 0
  Waits r = available r.rxbuf < message_size (output r.rxbuf)

  -- What a step of the loop makes of a message of `n` bytes.
  abbrev Steps : (n : ℕ) → Reading S → Run (Decode × Reading S) → Type 0
  Steps n r out =
      (r' : Reading S) × ((out ≡ done (more, r'))
          × IsValid r'.rxbuf
          × (available r'.rxbuf < available r.rxbuf)
        ⊎ (out ≡ done (finished, r')) × IsValid r'.rxbuf × (r' ≡ r) × (available r.rxbuf < n))

  decode_sized-Steps :
      (n : ℕ) (decode : Ccpacket → Ccpacket) (r : Reading S)
      → IsValid r.rxbuf
      → 0 < n
      → Steps n r (decode_sized process_packet n decode r)
  unfolding decode_sized process
  decode_sized-Steps n decode r v pos_n = elim (Bool-cases (ltb (available r.rxbuf) n)) [
    | inl e ↦ (r, inr (rw e refl, v, refl, ground (arith, e)))
    | inr e ↦
        let fits : n ≤ available r.rxbuf = ground (arith, e) in
        let (v', less, _) = consumed-IsValid r.rxbuf n v fits in
        let out = process_packet r.behind (decode r.packet) in
        (
          record { behind = out.0; packet = out.1; rxbuf = consumed r.rxbuf n },
          inl (rw (e, consume-eq-done r.rxbuf n v fits) refl, v', omega (arith, less, pos_n, fits)),
        )
  ]

  skip-Steps :
      (n : ℕ) (r : Reading S)
      → IsValid r.rxbuf
      → 0 < n
      → n ≤ available r.rxbuf
      → Steps n r (skip process_packet n r)
  unfolding skip
  skip-Steps n r v pos_n fits =
      let (v', less, _) = consumed-IsValid r.rxbuf n v fits in
      (
        record r { rxbuf = consumed r.rxbuf n },
        inl (rw (consume-eq-done r.rxbuf n v fits) refl, v', omega (arith, less, pos_n, fits)),
      )

  decode_message-Steps :
      (r : Reading S)
      → IsValid r.rxbuf
      → size_status ≤ available r.rxbuf
      → Steps (message_size (output r.rxbuf)) r (decode_message process_packet r)
  unfolding decode_message decode_extended decode_command decode_status
  decode_message-Steps r v h =
      let mess = output r.rxbuf in
      elim (Bool-cases (bit_and (byte_at mess 0) flag == 0)) [
        | inl e ↦ rw e (skip-Steps 1 r v (omega arith) (omega (arith, h)))
        | inr e ↦ elim (Bool-cases (is_extended_command mess)) [
          | inl x ↦
              rw (e, x)
                (decode_sized-Steps size_extended (λ p. extended_packet p mess) r v (omega arith))
          | inr x ↦ elim (Bool-cases (is_command mess)) [
            | inl c ↦
                rw (e, x, c)
                  (decode_sized-Steps size_command (λ p. decode_parts p mess) r v (omega arith))
            | inr c ↦
                let enough : ltb (available r.rxbuf) size_status ≡ false = ground (arith, h) in
                rw (e, x, c, enough) (skip-Steps size_status r v (omega arith) h)
          ]
        ]
      ]

  decode_message-Progress :
      (r : Reading S)
      → IsValid r.rxbuf
      → size_status ≤ available r.rxbuf
      → Progress size_status (decode_message process_packet) Waits r
  decode_message-Progress r v h = stops (decode_message-Steps r v h)
    where
      stops :
          Steps (message_size (output r.rxbuf)) r (decode_message process_packet r)
          → Progress size_status (decode_message process_packet) Waits r
      stops (r', inl step) = (r', inl step)
      stops (r', inr (e, v', same, short)) = (r', inr (e, v', rw same short))

  -- `vicon_do_read` returns on every valid buffer: no assert of the buffer fails, the fuel is
  -- enough, and it leaves a valid buffer, which has fewer than two bytes or the beginning of one
  -- message, whose end has not come.
  pub vicon_do_read_total :
      (r : Reading S)
      → IsValid r.rxbuf
      → (r' : Reading S) × (do_read process_packet r ≡ done r')
        × IsValid r'.rxbuf
        × ((available r'.rxbuf < size_status)
            ⊎ (available r'.rxbuf < message_size (output r'.rxbuf)))
  unfolding do_read
  vicon_do_read_total r v =
      while_available_total size_status (decode_message process_packet) Waits
        decode_message-Progress r v
