-- ===== src/Vicon/Received.antt =====
-- An extended message of src/vicon.c, received.
use mn_protozoa.Base.{
  ℕ, suc, ◌++◌, ◌+◌, ◌≤◌, ◌<◌, ◌≡◌, ◌∙◌, refl, ap, true, false, ◌==◌, arith, ◌||◌, bit_and, ltb,
}
use mn_protozoa.Base.Int.{pos, ltb_ℤ}
use mn_protozoa.Base.Run.{done}
use mn_protozoa.Bitarray.{byte_at}
use mn_protozoa.Buffer.Defs.{Buffer, space}
use mn_protozoa.Buffer.Queue.{contents, pushed, contents-pushed}
use mn_protozoa.Ccwriter.Append.{message, message-eq-pushed}
use mn_protozoa.Buffer.Inv.{IsValid, consumed, consume-eq-done}
use mn_protozoa.Ccpacket.Packet.{Ccpacket, get_menu}
use mn_protozoa.Ccreader.Loop.{loop_more, loop_short}
use mn_protozoa.Ccreader.Reading.{more, Reading, output, while_available}
use mn_protozoa.Vicon.Encode.{
  speed_message, encode_extended_speed, is_extended_preset, is_extended_speed, adjust_menu_commands,
  do_write,
}
use mn_protozoa.Vicon.Bits.{flag, max_address, size_extended, size_status}
use mn_protozoa.Vicon.Decode.{
  process, decode_sized, decode_extended, decode_message, do_read, is_extended_command,
  extended_packet,
}
use mn_protozoa.Vicon.Fields.{receiver_bytes, length-speed_bytes}
use mn_protozoa.Vicon.Message.{speed_bytes}
use mn_protozoa.Vicon.Wire

module _ {S : Type 0} (process_packet : S → Ccpacket → S × Ccpacket) (p : Ccpacket) (n : ℕ)
    (er : p.receiver ≡ pos n) (hn : n < 256) (s : S) (q : Ccpacket) where
  -- A receive buffer that holds just the message, and what is left of it.
  abbrev pub received : Buffer
  received = record { mem = speed_bytes p; pin = 10; pout = 0 }

  abbrev before : Reading S
  before = record { behind = s; packet = q; rxbuf = received }

  abbrev processed : S × Ccpacket
  processed = process_packet s (extended_packet q (speed_bytes p))

  abbrev after : Reading S
  after = record {
    behind = processed.0;
    packet = processed.1;
    rxbuf = consumed received size_extended;
  }

  received-IsValid : IsValid received
  received-IsValid = record { ordered = omega arith; inside = omega (arith, length-speed_bytes p) }

  begins : (bit_and (byte_at (speed_bytes p) 0) flag == 0) ≡ false
  begins = let (_, _, e) = receiver_bytes p n er hn in rw e refl

  decode_lem : decode_message process_packet before ≡ done (more, after)
  unfolding decode_message decode_extended decode_sized process output is_extended_command
  decode_lem =
      rw
        (
          begins,
          Wire.command_lem p,
          Wire.extended_lem p,
          consume-eq-done received size_extended received-IsValid (omega arith),
        )
        refl

  do_read_lem : do_read process_packet before ≡ done after
  unfolding do_read while_available
  do_read_lem =
      loop_more size_status (decode_message process_packet) 10 before after (omega arith) decode_lem
      ∙ loop_short size_status (decode_message process_packet) 9 after (omega arith)

-- The writer of the message.
module _ (tx : Buffer) (p : Ccpacket) (n : ℕ) (er : p.receiver ≡ pos (suc n)) (hn : suc n < 256)
    (no_menu : get_menu p ≡ 0) (no_preset : is_extended_preset p ≡ false)
    (speed : is_extended_speed p ≡ true) where
  addressed : (ltb_ℤ p.receiver (pos 1) || ltb_ℤ (pos max_address) p.receiver) ≡ false
  addressed =
      let small : ltb (max_address + 0) (suc n + 0) ≡ false = ground (arith, hn) in
      let positive : ltb (suc n + 0) 1 ≡ false = ground arith in rw (er, small, positive) refl

  do_write_lem : (do_write tx p).txbuf ≡ message tx size_extended (speed_message p)
  unfolding do_write adjust_menu_commands encode_extended_speed
  do_write_lem = rw (addressed, no_menu, no_preset, speed) refl

  -- A packet that moves, with a receiver from 1 to 255 and neither a menu nor an extended preset
  -- command, is written as one extended message, appended to what the transmit buffer held, if that
  -- is a valid buffer and has space for the ten bytes of the message. A reader
  -- whose buffer holds just this message decodes it once, hands the packet over once and leaves an
  -- empty buffer, whatever packet it held and whatever stands behind it.
  pub written_received :
      {S : Type 0} (process_packet : S → Ccpacket → S × Ccpacket) (s : S) (q : Ccpacket)
      → IsValid tx
      → size_extended ≤ space tx
      → let rxbuf : Buffer = record { mem = speed_bytes p; pin = 10; pout = 0 } in
        let out = process_packet s (extended_packet q (speed_bytes p)) in
        (contents (do_write tx p).txbuf ≡ contents tx ++ speed_bytes p)
        × (do_read process_packet (record { behind = s; packet = q; rxbuf = rxbuf })
            ≡ done (record { behind = out.0; packet = out.1; rxbuf = record rxbuf { pin = 0 } }))
  written_received process_packet s q v fits =
      let enough : ltb (space tx) size_extended ≡ false = ground (arith, fits) in
      (
        ap contents {y = pushed tx (speed_bytes p)} (
              do_write_lem
              ∙ message-eq-pushed tx size_extended (speed_message p) v (length-speed_bytes p)
              ∙ rw enough refl)
            ∙ contents-pushed tx (speed_bytes p) v (omega (arith, length-speed_bytes p, fits)),
        do_read_lem process_packet p (suc n) er hn s q,
      )
