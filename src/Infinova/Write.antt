-- ===== src/Infinova/Write.antt =====
-- The writer of src/infinova.c. Whether the channel is open is an argument: `channel_is_open` of
-- src/channel.c.
use mn_protozoa.Base.{
  ℕ, ◌+◌, ◌%◌, ◌^◌, Bool, true, false, none, some, List, ◌==◌, set, if◌then◌else◌,
}
use mn_protozoa.Buffer.Defs.{Buffer}
use mn_protozoa.Ccpacket.Packet.{Ccpacket}
use mn_protozoa.Ccwriter.Append.{append, fill}
use mn_protozoa.Ccwriter.Written.{Written}
use mn_protozoa.PelcoD.Bits.{message_size}
use mn_protozoa.PelcoD.Encode.{do_write_cb}

abbrev pub header_sz : ℕ
header_sz = 12

abbrev pub auth_sz : ℕ
auth_sz = 64

abbrev pub msg_id_auth : ℕ
msg_id_auth = 0x01

abbrev pub msg_id_ptz : ℕ
msg_id_ptz = 0x13

-- The bytes that `infinova_header` writes: the letters INF, and the rest.
abbrev pub header_bytes : (msg_id n_bytes : ℕ) → List ℕ → List ℕ
header_bytes msg_id n_bytes mess =
    let named = set (set (set (set mess 0 73) 1 78) 2 70) 3 msg_id in
    let marked = if msg_id == msg_id_auth then set (set named 5 1) 7 1 else named in
    set marked 11 (n_bytes % 2 ^ 8)

-- The bytes that `infinova_d_header` writes into the second header.
abbrev pub d_header_bytes : List ℕ → List ℕ
d_header_bytes mess = set (set mess 0 1) 7 message_size

-- `mess = ccwriter_append(wtr, n); if(mess) { … return 1; } else return 0;`
abbrev pub try_message : Buffer → ℕ → (List ℕ → List ℕ) → Buffer × Bool
try_message tx n encode = elim (append tx n) [
  | none ↦ (tx, false)
  | some (i, tx') ↦ (fill tx' i n encode, true)
]

-- `infinova_header`
unfoldable pub header : Buffer → (msg_id n_bytes : ℕ) → Buffer × Bool
header tx msg_id n_bytes = try_message tx header_sz (header_bytes msg_id n_bytes)

-- `infinova_authenticate`
unfoldable pub authenticate : Buffer → Buffer
unfolding header
authenticate tx =
    let (tx', ok) = header tx msg_id_auth auth_sz in
    if ok then (try_message tx' (auth_sz + 2) (λ mess. mess)).0 else tx'

-- `infinova_d_header`
unfoldable pub d_header : Buffer → Buffer × Bool
unfolding header
d_header tx =
    let (tx', ok) = header tx msg_id_ptz (header_sz + message_size) in
    if ok then try_message tx' header_sz d_header_bytes else (tx', false)

-- `infinova_d_do_write`
unfoldable pub do_write : (is_open : Bool) → Buffer → Ccpacket → Written
unfolding authenticate d_header
do_write is_open tx p = do_write_cb d_header (if is_open then tx else authenticate tx) p
