-- ===== src/PelcoD/Stream.antt =====
-- The reader of src/pelco_d.c on a stream of bytes.
use mn_protozoa.Base.{
  ℕ, zero, suc, ◌+◌, ◌-◌, ◌≤◌, ◌<◌, ◌≡◌, ◌∙◌, inl, inr, refl, ap, true, false, ◌&&◌, List, ◌==◌,
  arith, Bool-cases, if◌then◌else◌,
}
use mn_protozoa.Base.Run.{done}
use mn_protozoa.Bitarray.{byte_at, bit_is_set}
use mn_protozoa.Buffer.Defs.{available}
use mn_protozoa.Buffer.Inv.{IsValid, consumed, consume-eq-done, consumed-IsValid}
use mn_protozoa.Ccpacket.Packet.{Ccpacket}
use mn_protozoa.Ccreader.Reading.{Decode, more, Reading, output}
use mn_protozoa.Ccreader.Loop.{Progress, while_available_total}
use mn_protozoa.PelcoD.Bits.{flag, message_size, bit_extended}
use mn_protozoa.PelcoD.Decode.{
  scan, process, discard_garbage, decode_message, do_read, extended_packet, decode_command,
  checksum_is_valid,
}

-- The scan for the next flag skips at least what it starts with, and at most what it may look at.
pub scan_bounds :
    (left n : ℕ) (mess : List ℕ) → (n ≤ scan left n mess) × (scan left n mess ≤ n + left)
unfolding scan
scan_bounds zero n mess = omega arith
scan_bounds (suc left) n mess = ground (arith, scan_bounds left (n + 1) mess)

-- A buffer with the first `n` bytes consumed.
abbrev after : {S : Type 0} → Reading S → ℕ → Reading S
after r n = record r { rxbuf = consumed r.rxbuf n }

module _ {S : Type 0} (process_packet : S → Ccpacket → S × Ccpacket) where
  discard_progress :
      (r : Reading S)
      → IsValid r.rxbuf
      → message_size ≤ available r.rxbuf
      → let n = scan (available r.rxbuf - 1) 1 (output r.rxbuf) in
        (discard_garbage process_packet r ≡ done (more, after r n))
        × IsValid (after r n).rxbuf
        × (available (after r n).rxbuf < available r.rxbuf)
  unfolding discard_garbage
  discard_progress r v h =
      let n = scan (available r.rxbuf - 1) 1 (output r.rxbuf) in
      let few : n ≤ available r.rxbuf =
        omega (arith, scan_bounds (available r.rxbuf - 1) 1 (output r.rxbuf)) in
      (
        rw (consume-eq-done r.rxbuf n v few) refl,
        (consumed-IsValid r.rxbuf n v few).0,
        omega (
          arith,
          consumed-IsValid r.rxbuf n v few,
          scan_bounds (available r.rxbuf - 1) 1 (output r.rxbuf),
        ),
      )

  -- A message that passes the tests: the packet is decoded and processed.
  abbrev handled : List ℕ → Reading S → Decode × Reading S
  handled mess r =
      if bit_is_set mess bit_extended
      then process process_packet (λ p. extended_packet p mess) r
      else process process_packet (λ p. decode_command p mess) r

  handled_more :
      (mess : List ℕ) (r : Reading S)
      → (handled mess r ≡ (more, (handled mess r).1)) × ((handled mess r).1.rxbuf ≡ r.rxbuf)
  unfolding process
  handled_more mess r = elim (Bool-cases (bit_is_set mess bit_extended)) [
    | inl e ↦ rw e (refl, refl)
    | inr e ↦ rw e (refl, refl)
  ]

  accept_message :
      (r : Reading S)
      → IsValid r.rxbuf
      → message_size ≤ available r.rxbuf
      → byte_at (output r.rxbuf) 0 ≡ flag
      → checksum_is_valid (output r.rxbuf) ≡ true
      → decode_message process_packet r ≡ done (handled (output r.rxbuf) (after r message_size))
  unfolding decode_message
  accept_message r v h flagged summed =
      rw (flagged, summed, consume-eq-done r.rxbuf message_size v h) refl

  reject_message :
      (r : Reading S)
      → (byte_at (output r.rxbuf) 0 == flag && checksum_is_valid (output r.rxbuf)) ≡ false
      → decode_message process_packet r ≡ discard_garbage process_packet r
  unfolding decode_message
  reject_message r e = elim (Bool-cases (byte_at (output r.rxbuf) 0 == flag)) [
    | inl f ↦ elim (Bool-cases (checksum_is_valid (output r.rxbuf))) [
      | inl c ↦ absurd (ground (arith, f, c))
      | inr c ↦ rw (f, c) refl
    ]
    | inr f ↦ rw f refl
  ]

  -- One round of the loop consumes a message or some garbage.
  decode_message-Progress :
      (r : Reading S)
      → IsValid r.rxbuf
      → message_size ≤ available r.rxbuf
      → Progress message_size (decode_message process_packet) (λ _. ⊥) r
  decode_message-Progress r v h =
      elim (Bool-cases (byte_at (output r.rxbuf) 0 == flag && checksum_is_valid (output r.rxbuf))) [
        | inl e ↦
            let mess = output r.rxbuf in
            let (again, same) = handled_more mess (after r message_size) in
            let (v', less, _) = consumed-IsValid r.rxbuf message_size v h in
            (
              (handled mess (after r message_size)).1,
              inl (
                accept_message r v h (ground (arith, e)) (ground (arith, e)) ∙ ap done again,
                rw same v',
                rw same (omega (arith, less, h)),
              ),
            )
        | inr e ↦
            let (d, v', less) = discard_progress r v h in
            (
              after r (scan (available r.rxbuf - 1) 1 (output r.rxbuf)),
              inl (reject_message r e ∙ d, v', less),
            )
      ]

  -- `pelco_d_do_read` returns on every valid buffer: no assert of the buffer fails, the fuel is
  -- enough, and it leaves a valid buffer with less than a message in it.
  pub pelco_d_do_read_total :
      (r : Reading S)
      → IsValid r.rxbuf
      → (r' : Reading S) × (do_read process_packet r ≡ done r')
        × IsValid r'.rxbuf
        × (available r'.rxbuf < message_size)
  unfolding do_read
  pelco_d_do_read_total r v =
      let (r', e, v', why) =
        while_available_total message_size (decode_message process_packet) (λ _. ⊥)
          decode_message-Progress r v in
      (r', e, v', ground (arith, why))
