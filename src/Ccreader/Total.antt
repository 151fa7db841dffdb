-- ===== src/Ccreader/Total.antt =====
-- The reader of src/ccreader.c with any of its protocols and its writers.
use mn_protozoa.Base.{◌≡◌, refl}
use mn_protozoa.Base.Run.{Run, done}
use mn_protozoa.Buffer.Defs.{Buffer}
use mn_protozoa.Buffer.Inv.{IsValid}
use mn_protozoa.Timeval.{Timeval}
use mn_protozoa.Ccpacket.Packet.{Ccpacket}
use mn_protozoa.Ccreader.Nodes.{Ccreader}
use mn_protozoa.Ccreader.Reading.{Reading}
use mn_protozoa.Ccreader.Writers.{Sent, process_packet_no_clear}
use mn_protozoa.Ccreader.Protocols.{
  ReadProtocol, joystick, manchester, pelco_d, pelco_p, pelco_p7, vicon, processing, run, do_read,
}
use mn_protozoa.Manchester.Decode as Manchester
use mn_protozoa.PelcoD.Decode as PelcoD
use mn_protozoa.PelcoP.Decode as PelcoP
use mn_protozoa.Vicon.Decode as Vicon
use mn_protozoa.Joystick.Read.{joystick_do_read_total}
use mn_protozoa.Manchester.Stream.{manchester_do_read_total}
use mn_protozoa.PelcoD.Stream.{pelco_d_do_read_total}
use mn_protozoa.PelcoP.Stream.{pelco_p_do_read_total}
use mn_protozoa.Vicon.Stream.{vicon_do_read_total}

module _ {W S : Type 0} (write : W → Ccpacket → S → Sent S) (count : Ccpacket → S → S)
    (clock : S → Timeval × S) where
  -- What a reader leaves: it returns, with a valid buffer.
  abbrev Total : Run (Ccreader W × Buffer × S) → Type 0
  Total out = (rdr' : Ccreader W) × (b : Buffer) × (s' : S) × (out ≡ done (rdr', b, s')) × IsValid b

  run-Total :
      (read : Reading (Ccreader W × S) → Run (Reading (Ccreader W × S))) (rdr : Ccreader W)
      (rxbuf : Buffer) (s : S) (r' : Reading (Ccreader W × S))
      → read (record { behind = (rdr, s); packet = rdr.packet; rxbuf = rxbuf }) ≡ done r'
      → IsValid r'.rxbuf
      → Total (run write count clock read rdr rxbuf s)
  run-Total read rdr rxbuf s r' e v =
      (record r'.behind.0 { packet = r'.packet }, r'.rxbuf, r'.behind.1, rw e refl, v)

  -- Whatever its protocol, its writers and the statistics do, a reader returns on every valid receive
  -- buffer: no assert of the buffer fails and no loop runs out of fuel; and it leaves a valid
  -- buffer.
  pub do_read_total :
      (protocol : ReadProtocol) (rdr : Ccreader W) (rxbuf : Buffer) (s : S)
      → IsValid rxbuf
      → (rdr' : Ccreader W) × (b : Buffer) × (s' : S) × (do_read write count clock protocol rdr
            rxbuf s
          ≡ done (rdr', b, s'))
        × IsValid b
  unfolding do_read
  do_read_total joystick rdr rxbuf s v =
      let (r', s', e, v', _, _) =
        joystick_do_read_total (process_packet_no_clear write count clock) rdr rxbuf s v in
      (r'.reader, r'.rxbuf, s', rw e refl, v')
  do_read_total manchester rdr rxbuf s v =
      let (r', e, v', _) =
        manchester_do_read_total (processing write count clock)
          (record { behind = (rdr, s); packet = rdr.packet; rxbuf = rxbuf }) v in
      run-Total (Manchester.do_read (processing write count clock)) rdr rxbuf s r' e v'
  do_read_total pelco_d rdr rxbuf s v =
      let (r', e, v', _) =
        pelco_d_do_read_total (processing write count clock)
          (record { behind = (rdr, s); packet = rdr.packet; rxbuf = rxbuf }) v in
      run-Total (PelcoD.do_read (processing write count clock)) rdr rxbuf s r' e v'
  do_read_total pelco_p rdr rxbuf s v =
      let (r', e, v', _) =
        pelco_p_do_read_total (processing write count clock) rdr.flags
          (record { behind = (rdr, s); packet = rdr.packet; rxbuf = rxbuf }) v in
      run-Total (PelcoP.do_read (processing write count clock) rdr.flags) rdr rxbuf s r' e v'
  do_read_total pelco_p7 rdr rxbuf s v =
      let (r', e, v', _) =
        pelco_p_do_read_total (processing write count clock) rdr.flags
          (record { behind = (rdr, s); packet = rdr.packet; rxbuf = rxbuf }) v in
      run-Total (PelcoP.do_read (processing write count clock) rdr.flags) rdr rxbuf s r' e v'
  do_read_total vicon rdr rxbuf s v =
      let (r', e, v', _) =
        vicon_do_read_total (processing write count clock)
          (record { behind = (rdr, s); packet = rdr.packet; rxbuf = rxbuf }) v in
      run-Total (Vicon.do_read (processing write count clock)) rdr rxbuf s r' e v'
