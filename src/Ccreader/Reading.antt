-- ===== src/Ccreader/Reading.antt =====
-- What a protocol reader works on: the packet of its `struct ccreader`, the receive buffer, and
-- whatever stands behind the reader (writers, statistics, log, clock), which it reaches only
-- through `ccreader_process_packet`.
use mn_protozoa.Base.{ℕ, zero, suc, ◌+◌, true, false, List, drop, leb}
use mn_protozoa.Base.Run.{Run, done, aborted, out_of_fuel}
use mn_protozoa.Ccpacket.Packet.{Ccpacket}
use mn_protozoa.Buffer.Defs.{Buffer, available}

-- `enum decode_t` of src/ccreader.h
pub data Decode : Type 0 where
  more finished : Decode

pub record Reading (S : Type 0) : Type 0 where
  pub behind : S
  pub packet : Ccpacket
  pub rxbuf : Buffer

-- `buffer_output`: the bytes from `pout` to the end of the block.
unfoldable pub output : Buffer → List ℕ
output b = drop b.pout b.mem

-- `while(buffer_available(rxbuf) >= size) { if(decode(…) == DECODE_DONE) break; }`, the loop of
-- every reader, on fuel.
unfoldable pub read_loop :
    {S : Type 0}
    → (size : ℕ) (decode : Reading S → Run (Decode × Reading S)) → ℕ
    → Reading S
    → Run (Reading S)
read_loop size decode zero r = out_of_fuel
read_loop size decode (suc fuel) r = elim (leb size (available r.rxbuf)) [
  | false ↦ done r
  | true ↦ elim (decode r) [
    | done (finished, r') ↦ done r'
    | done (more, r') ↦ read_loop size decode fuel r'
    | aborted ↦ aborted
    | out_of_fuel ↦ out_of_fuel
  ]
]

-- Each round consumes at least a byte, so the bytes available are rounds enough.
unfoldable pub while_available :
    {S : Type 0}
    → (size : ℕ) (decode : Reading S → Run (Decode × Reading S)) → Reading S
    → Run (Reading S)
while_available size decode r = read_loop size decode (available r.rxbuf + 1) r
