-- ===== src/Ccwriter/Written.antt =====
-- The result of a `do_write` callback of `struct ccwriter`, src/ccwriter.h.
use mn_protozoa.Base.{ℕ}
use mn_protozoa.Buffer.Defs.{Buffer}
use mn_protozoa.Ccpacket.Packet.{Ccpacket}

-- What a protocol's `do_write` leaves: its count, the transmit buffer, and the packet, which it
-- may have adjusted.
pub record Written : Type 0 where
  pub count : ℕ
  pub txbuf : Buffer
  pub packet : Ccpacket
