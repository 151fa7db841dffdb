-- ===== src/Joystick/Read.antt =====
-- The reader of src/joystick.c: all events that have come are decoded, and then the packet is
-- processed once. `process` is `ccreader_process_packet_no_clear`; `int` counts do not wrap here.
use mn_protozoa.Base.{
  ℕ, zero, suc, ◌+◌, ◌<◌, ◌≤◌, ◌≡◌, ◌∙◌, refl, true, false, inl, inr, leb, nonzero, arith,
  Bool-cases, if◌then◌else◌,
}
use mn_protozoa.Base.Int.{pos}
use mn_protozoa.Base.Run.{Run, done, out_of_fuel, ◌>>=◌}
use mn_protozoa.Buffer.Defs.{Buffer, available, consume}
use mn_protozoa.Buffer.Inv.{IsValid, consumed, consume-eq-done, consumed-IsValid}
use mn_protozoa.Ccpacket.Modes
use mn_protozoa.Ccpacket.Preset.{get_preset_mode-set_preset}
use mn_protozoa.Ccpacket.Packet.{Ccpacket, set_preset, get_preset_mode}
use mn_protozoa.Ccreader.Nodes.{Ccreader}
use mn_protozoa.Ccreader.Reading.{output}
use mn_protozoa.Ccreader.Writers.{Sent}
use mn_protozoa.Joystick.Events.{jevent_octets, decode_event, with_packet}

no_preset : (p : Ccpacket) → get_preset_mode (set_preset p 0 (pos 0)) ≡ 0
unfolding Modes.preset
no_preset p = get_preset_mode-set_preset p 0 (pos 0)

-- The reader, its receive buffer and the count `c` of events that changed the packet.
pub record Events (W : Type 0) : Type 0 where
  pub reader : Ccreader W
  pub rxbuf : Buffer
  pub c : ℕ

module _ {W : Type 0} where
  -- `joystick_read_message`
  unfoldable pub read_message : Events W → Run (Events W)
  read_message r =
      let out = decode_event r.reader (output r.rxbuf) in
      do
        b ← consume r.rxbuf jevent_octets
        done (record { reader = out.1; rxbuf = b; c = r.c + (if out.0 then 1 else 0) })

  -- The loop of `joystick_do_read`, on fuel.
  unfoldable pub read_loop : ℕ → Events W → Run (Events W)
  unfolding read_message
  read_loop zero r = out_of_fuel
  read_loop (suc fuel) r = elim (leb jevent_octets (available r.rxbuf)) [
    | false ↦ done r
    | true ↦ do r' ← read_message r; read_loop fuel r'
  ]

  -- What `joystick_do_read` does after the loop.
  unfoldable pub finish : {S : Type 0} → (Ccreader W → S → Sent S) → S → Events W → Events W × S
  finish process s r =
      if nonzero r.c
      then (let sent = process r.reader s in
          (
            record r { reader = with_packet r.reader (set_preset sent.packet 0 (pos 0)) },
            sent.state,
          ))
      else (record r { reader = with_packet r.reader (set_preset r.reader.packet 0 (pos 0)) }, s)

  -- `joystick_do_read`
  unfoldable pub do_read :
      {S : Type 0} → (Ccreader W → S → Sent S) → Ccreader W → Buffer → S → Run (Events W × S)
  unfolding read_loop finish
  do_read process rdr rxbuf s = do
    r ← read_loop (available rxbuf + 1) (record { reader = rdr; rxbuf = rxbuf; c = 0 })
    done (finish process s r)

  loop_stop :
      (fuel : ℕ) (r : Events W)
      → available r.rxbuf < jevent_octets
      → read_loop (suc fuel) r ≡ done r
  unfolding read_loop
  loop_stop fuel r h = ground arith

  loop_more :
      (fuel : ℕ) (r r' : Events W)
      → jevent_octets ≤ available r.rxbuf
      → read_message r ≡ done r'
      → read_loop (suc fuel) r ≡ read_loop fuel r'
  unfolding read_loop
  loop_more fuel r r' h e = ground arith

  -- A round that has an event consumes it.
  read_message_lem :
      (r : Events W)
      → IsValid r.rxbuf
      → jevent_octets ≤ available r.rxbuf
      → (r' : Events W) × (read_message r ≡ done r')
        × IsValid r'.rxbuf
        × (available r'.rxbuf < available r.rxbuf)
  unfolding read_message
  read_message_lem r v fits =
      let (v', less, _) = consumed-IsValid r.rxbuf jevent_octets v fits in
      let out = decode_event r.reader (output r.rxbuf) in
      (
        record {
          reader = out.1;
          rxbuf = consumed r.rxbuf jevent_octets;
          c = r.c + (if out.0 then 1 else 0);
        },
        rw (consume-eq-done r.rxbuf jevent_octets v fits) refl,
        v',
        omega (arith, less, fits),
      )

  read_loop_total :
      (fuel : ℕ) (r : Events W)
      → IsValid r.rxbuf
      → available r.rxbuf < fuel
      → (r' : Events W) × (read_loop fuel r ≡ done r')
        × IsValid r'.rxbuf
        × (available r'.rxbuf < jevent_octets)
  read_loop_total zero r v h = absurd (omega (arith, h))
  read_loop_total (suc fuel) r v h = elim (Bool-cases (leb jevent_octets (available r.rxbuf))) [
    | inl e ↦
        let fits : jevent_octets ≤ available r.rxbuf = ground (arith, e) in
        let (next, step, v', less) = read_message_lem r v fits in
        let (r', ends, v'', short) = read_loop_total fuel next v' (omega (arith, less, h)) in
        (r', loop_more fuel r next fits step ∙ ends, v'', short)
    | inr e ↦
        let short : available r.rxbuf < jevent_octets = ground (arith, e) in
        (r, loop_stop fuel r short, v, short)
  ]

  finish_lem :
      {S : Type 0} (process : Ccreader W → S → Sent S) (s : S) (r : Events W)
      → ((finish process s r).0.rxbuf ≡ r.rxbuf)
        × (get_preset_mode (finish process s r).0.reader.packet ≡ 0)
  unfolding finish
  finish_lem process s r = elim (Bool-cases (nonzero r.c)) [
    | inl e ↦ rw e (refl, no_preset (process r.reader s).packet)
    | inr e ↦ rw e (refl, no_preset r.reader.packet)
  ]

  -- On every valid buffer `joystick_do_read` returns: no assert of the buffer fails and the fuel is
  -- enough. It leaves a valid buffer with less than an event, and whatever the events were and
  -- whatever the writers did to the packet, the packet has no preset command.
  pub joystick_do_read_total :
      {S : Type 0} (process : Ccreader W → S → Sent S) (rdr : Ccreader W) (rxbuf : Buffer) (s : S)
      → IsValid rxbuf
      → (r' : Events W) × (s' : S) × (do_read process rdr rxbuf s ≡ done (r', s'))
        × IsValid r'.rxbuf
        × (available r'.rxbuf < jevent_octets)
        × (get_preset_mode r'.reader.packet ≡ 0)
  unfolding do_read
  joystick_do_read_total process rdr rxbuf s v =
      let (r', ends, v', short) =
        read_loop_total (available rxbuf + 1) (record { reader = rdr; rxbuf = rxbuf; c = 0 }) v
          (omega arith) in
      let (same, cleared) = finish_lem process s r' in
      (
        (finish process s r').0,
        (finish process s r').1,
        rw ends refl,
        rw same v',
        rw same short,
        cleared,
      )
