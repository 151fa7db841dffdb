-- ===== src/Ccreader/Protocols.antt =====
-- The protocols of a reader: `ccreader_set_protocol`, `ccreader_init` and the `do_read` callbacks of
-- src/ccreader.c. The name of a protocol is what `strcasecmp` finds of it: `is c` is whether the name
-- equals that of `c`.
use mn_protozoa.Base.{ℕ, Bool, Option, none, some, [], if◌then◌else◌}
use mn_protozoa.Base.Run.{Run, done, ◌>>=◌}
use mn_protozoa.Buffer.Defs.{Buffer}
use mn_protozoa.Timeval.{Timeval}
use mn_protozoa.Ccpacket.Packet
use mn_protozoa.Ccpacket.Packet.{Ccpacket}
use mn_protozoa.Ccreader.Nodes.{Ccreader}
use mn_protozoa.Ccreader.Reading.{Reading}
use mn_protozoa.Ccreader.Writers.{Sent, process_packet, process_packet_no_clear}
use mn_protozoa.Joystick.Read as Joystick
use mn_protozoa.Manchester.Decode as Manchester
use mn_protozoa.PelcoD.Decode as PelcoD
use mn_protozoa.PelcoP.Bits.{pt_deadzone}
use mn_protozoa.PelcoP.Decode as PelcoP
use mn_protozoa.Vicon.Decode as Vicon

pub data ReadProtocol : Type 0 where
  joystick manchester pelco_d pelco_p pelco_p7 vicon : ReadProtocol

abbrev default_timeout : ℕ
default_timeout = 1000

module _ {W : Type 0} where
  -- The reader of a protocol: its callback, its timeout and its flags.
  abbrev set_reader : Ccreader W → ReadProtocol → ℕ → Option (ReadProtocol × Ccreader W)
  set_reader rdr c timeout = some (c, record rdr { timeout = timeout })

  -- `ccreader_set_protocol`
  unfoldable pub set_protocol :
      (is : ReadProtocol → Bool) → Ccreader W → Option (ReadProtocol × Ccreader W)
  set_protocol is rdr =
      if is joystick
      then set_reader rdr joystick 30000
      else if is manchester
      then set_reader rdr manchester 80
      else if is pelco_d
      then set_reader rdr pelco_d 15000
      else if is pelco_p
      then set_reader rdr pelco_p 15000
      else if is pelco_p7
      then set_reader (record rdr { flags = pt_deadzone }) pelco_p7 15000
      else if is vicon
      then set_reader rdr vicon 15000
      else none

  -- `ccreader_init`
  unfoldable pub init :
      (now : Timeval) → (is : ReadProtocol → Bool) → Option (ReadProtocol × Ccreader W)
  unfolding set_protocol
  init now is =
      set_protocol is
        (record { packet = Packet.create now; timeout = default_timeout; flags = 0; head = [] })

  module _ {S : Type 0} (write : W → Ccpacket → S → Sent S) (count : Ccpacket → S → S)
      (clock : S → Timeval × S) where
    -- `ccreader_process_packet`, as the decoders call it: the reader and the state stand behind it.
    abbrev pub processing : Ccreader W × S → Ccpacket → (Ccreader W × S) × Ccpacket
    processing (rdr, s) p =
        let sent = process_packet write count clock (record rdr { packet = p }) s in
        ((rdr, sent.state), sent.packet)

    -- The callback of a byte protocol, applied to the reader and its receive buffer.
    abbrev pub run :
        (Reading (Ccreader W × S) → Run (Reading (Ccreader W × S)))
        → Ccreader W
        → Buffer
        → S
        → Run (Ccreader W × Buffer × S)
    run do_read rdr rxbuf s = do
      r ← do_read (record { behind = (rdr, s); packet = rdr.packet; rxbuf = rxbuf })
      done (record r.behind.0 { packet = r.packet }, r.rxbuf, r.behind.1)

    -- `rdr->do_read(rdr, rxbuf)`
    unfoldable pub do_read : ReadProtocol → Ccreader W → Buffer → S → Run (Ccreader W × Buffer × S)
    do_read joystick rdr rxbuf s = do
      (r, s') ← Joystick.do_read (process_packet_no_clear write count clock) rdr rxbuf s
      done (r.reader, r.rxbuf, s')
    do_read manchester rdr rxbuf s = run (Manchester.do_read processing) rdr rxbuf s
    do_read pelco_d rdr rxbuf s = run (PelcoD.do_read processing) rdr rxbuf s
    do_read pelco_p rdr rxbuf s = run (PelcoP.do_read processing rdr.flags) rdr rxbuf s
    do_read pelco_p7 rdr rxbuf s = run (PelcoP.do_read processing rdr.flags) rdr rxbuf s
    do_read vicon rdr rxbuf s = run (Vicon.do_read processing) rdr rxbuf s
