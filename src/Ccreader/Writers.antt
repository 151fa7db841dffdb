-- ===== src/Ccreader/Writers.antt =====
-- The processing of a packet by src/ccreader.c. `S` is the state of the writers and the statistics;
-- `write` is `ccwriter_do_write`, `count` is `ptz_stats_count`, and `clock` is `gettimeofday`, which is
-- asked for each packet. A writer gets the reader's own
-- packet, and may change it.
use mn_protozoa.Base.{ℕ, ◌+◌, ◌%◌, ◌^◌, true, false, List, [], ◌∷◌}
use mn_protozoa.Base.Int.{ℤ, nonzero_ℤ}
use mn_protozoa.Timeval.{Timeval}
use mn_protozoa.Ccpacket.Packet.{Ccpacket, set_receiver, set_timeout, clear}
use mn_protozoa.Ccreader.Nodes.{Ccnode, Ccreader, get_receiver}

-- What the processing of a packet leaves: the number of writers that wrote it, the packet, and the
-- state.
pub record Sent (S : Type 0) : Type 0 where
  pub res : ℕ
  pub packet : Ccpacket
  pub state : S

module _ {W S : Type 0} (write : W → Ccpacket → S → Sent S) where
  -- The loop of `ccreader_do_writers`.
  unfoldable pub write_nodes : List (Ccnode W) → (receiver : ℤ) → Sent S → Sent S
  write_nodes [] receiver sent = sent
  write_nodes (node ∷ next) receiver sent =
      let r = get_receiver node receiver in
      elim (nonzero_ℤ r) [
        | true ↦
            let out = write node.writer (set_receiver sent.packet r) sent.state in
            write_nodes next receiver (record out { res = (sent.res + out.res) % 2 ^ 32 })
        | false ↦ write_nodes next receiver sent
      ]

  -- `ccreader_do_writers`
  unfoldable pub do_writers : Ccreader W → S → Sent S
  do_writers rdr s =
      let receiver = rdr.packet.receiver in
      let sent =
        write_nodes rdr.head receiver (record { res = 0; packet = rdr.packet; state = s }) in
      record sent { packet = set_receiver sent.packet receiver }

  module _ (count : Ccpacket → S → S) (clock : S → Timeval × S) where
    -- `ccreader_process_packet_no_clear`, without its log.
    unfoldable pub process_packet_no_clear : Ccreader W → S → Sent S
    process_packet_no_clear rdr s =
        let (now, s') = clock (count rdr.packet s) in
        do_writers (record rdr { packet = set_timeout now rdr.packet rdr.timeout }) s'

    -- `ccreader_process_packet`
    unfoldable pub process_packet : Ccreader W → S → Sent S
    process_packet rdr s =
        let sent = process_packet_no_clear rdr s in record sent { packet = clear sent.packet }
