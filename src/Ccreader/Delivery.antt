-- ===== src/Ccreader/Delivery.antt =====
-- What the processing of a packet by src/ccreader.c does with writers that leave the packet alone: each
-- node in whose range the packet lies gets the packet, and nothing else is changed.
use mn_protozoa.Base.{
  ℕ, ◌+◌, ◌%◌, ◌^◌, ◌≡◌, refl, ap, ◌∙◌, true, false, List, [], ◌∷◌, Bool-cases, inl, inr,
  if◌then◌else◌,
}
use mn_protozoa.Base.Int.{ℤ, pos, nonzero_ℤ}
use mn_protozoa.Timeval
use mn_protozoa.Timeval.{Timeval}
use mn_protozoa.Ccpacket.Packet.{Ccpacket, set_receiver, set_timeout, clear}
use mn_protozoa.Ccreader.Nodes.{Ccnode, Ccreader, get_receiver}
use mn_protozoa.Ccreader.Writers.{
  Sent, write_nodes, do_writers, process_packet_no_clear, process_packet,
}

-- The writers that get a packet for a receiver, each with the receiver that its node gives.
abbrev pub targets : {W : Type 0} → List (Ccnode W) → ℤ → List (W × ℤ)
targets [] receiver = []
targets (node ∷ next) receiver =
    let rest = targets next receiver in
    if nonzero_ℤ (get_receiver node receiver)
    then (node.writer, get_receiver node receiver) ∷ rest
    else rest

module _ {W S : Type 0} (write : W → Ccpacket → S → Sent S) where
  -- The same packet to each of them.
  abbrev pub deliver : List (W × ℤ) → Ccpacket → ℕ → S → ℕ × S
  deliver [] p res s = (res, s)
  deliver ((w, r) ∷ rest) p res s =
      let out = write w (set_receiver p r) s in deliver rest p ((res + out.res) % 2 ^ 32) out.state

  -- One node of the loop.
  write_nodes_hit :
      (node : Ccnode W) (next : List (Ccnode W)) (receiver : ℤ) (sent : Sent S)
      → nonzero_ℤ (get_receiver node receiver) ≡ true
      → let out =
          write node.writer (set_receiver sent.packet (get_receiver node receiver)) sent.state in
        write_nodes write (node ∷ next) receiver sent
        ≡ write_nodes write next receiver (record out { res = (sent.res + out.res) % 2 ^ 32 })
  unfolding write_nodes
  write_nodes_hit node next receiver sent e = rw (write_nodes, e) refl

  write_nodes_skip :
      (node : Ccnode W) (next : List (Ccnode W)) (receiver : ℤ) (sent : Sent S)
      → nonzero_ℤ (get_receiver node receiver) ≡ false
      → write_nodes write (node ∷ next) receiver sent ≡ write_nodes write next receiver sent
  unfolding write_nodes
  write_nodes_skip node next receiver sent e = rw (write_nodes, e) refl

  module _ (keeps : (w : W) (p : Ccpacket) (s : S) → (write w p s).packet ≡ p) where
    write_nodes-deliver :
        (nodes : List (Ccnode W)) (receiver x : ℤ) (p : Ccpacket) (res : ℕ) (s : S)
        → let out = deliver (targets nodes receiver) p res s in
          (y : ℤ) × (write_nodes write nodes receiver
              (record { res = res; packet = set_receiver p x; state = s })
            ≡ record { res = out.0; packet = set_receiver p y; state = out.1 })
    unfolding write_nodes set_receiver
    write_nodes-deliver [] receiver x p res s = (x, refl)
    write_nodes-deliver (node ∷ next) receiver x p res s =
        elim (Bool-cases (nonzero_ℤ (get_receiver node receiver))) [
          | inl e ↦
              let r = get_receiver node receiver in
              let out = write node.writer (set_receiver p r) s in
              let (y, ih) =
                write_nodes-deliver next receiver r p ((res + out.res) % 2 ^ 32) out.state in
              (
                y,
                write_nodes_hit node next receiver
                      (record { res = res; packet = set_receiver p x; state = s }) e
                    ∙ ap
                        (λ q. write_nodes write next receiver (record {
                          res = (res + out.res) % 2 ^ 32;
                          packet = q;
                          state = out.state;
                        }))
                        (keeps node.writer (set_receiver p r) s)
                    ∙ (rw e ih),
              )
          | inr e ↦
              let (y, ih) = write_nodes-deliver next receiver x p res s in
              (
                y,
                write_nodes_skip node next receiver
                      (record { res = res; packet = set_receiver p x; state = s }) e
                    ∙ (rw e ih),
              )
        ]

    -- With writers that leave their packet alone, `ccreader_do_writers` hands the reader's packet,
    -- under the receiver that the node gives, to each node in whose range its receiver lies, in
    -- the order of the list; it adds up their counts, and the packet is then as it was.
    pub do_writers-deliver :
        (rdr : Ccreader W) (s : S)
        → let out = deliver (targets rdr.head rdr.packet.receiver) rdr.packet 0 s in
          do_writers write rdr s ≡ record { res = out.0; packet = rdr.packet; state = out.1 }
    unfolding do_writers set_receiver
    do_writers-deliver rdr s =
        let (y, e) =
          write_nodes-deliver rdr.head rdr.packet.receiver rdr.packet.receiver rdr.packet 0 s in
        ap (λ (t : Sent S). record t { packet = set_receiver t.packet rdr.packet.receiver }) e

    -- With writers that leave their packet alone, `ccreader_process_packet` counts the packet as it
    -- was read, then reads the clock once and hands the packet, which expires the reader's timeout
    -- from there, to each node in whose range its receiver lies; it gives how many packets they
    -- wrote, modulo 2 ^ 32, and leaves a packet without a receiver and without any command.
    pub process_packet-deliver :
        (count : Ccpacket → S → S) (clock : S → Timeval × S) (rdr : Ccreader W) (s : S)
        → let (now, s') = clock (count rdr.packet s) in
          let expire = Timeval.adjust now rdr.timeout in
          let out =
            deliver
              (targets rdr.head rdr.packet.receiver)
              (record (rdr.packet) { expire = expire })
              0
              s' in
          process_packet write count clock rdr s ≡ record {
            res = out.0;
            packet = record {
              receiver = pos 0;
              flags = 0;
              pan = pos 0;
              tilt = pos 0;
              preset = pos 0;
              expire = expire;
            };
            state = out.1;
          }
    unfolding process_packet process_packet_no_clear set_timeout clear
    process_packet-deliver count clock rdr s =
        let (now, s') = clock (count rdr.packet s) in
        let p = set_timeout now rdr.packet rdr.timeout in
        ap (λ (t : Sent S). record t { packet = clear t.packet })
          (do_writers-deliver (record rdr { packet = p }) s')
