-- ===== src/PelcoP/Checksum.antt =====
-- The checksum of src/pelco_p.c, which the encoder and the decoder share.
use mn_protozoa.Base.{ℕ, zero, suc, ◌+◌, ◌%◌, ◌^◌, List, bit_xor}
use mn_protozoa.Bitarray.{byte_at}

-- The loop: `left` more bytes from `i` on.
unfoldable pub xor_loop : (left : ℕ) → (i : ℕ) → (checksum : ℕ) → List ℕ → ℕ
xor_loop zero i checksum mess = checksum
xor_loop (suc left) i checksum mess = xor_loop left (i + 1) (bit_xor checksum (byte_at mess i)) mess

-- The checksum is an `int` and is returned as `uint8_t`.
unfoldable pub calculate_checksum : List ℕ → ℕ
unfolding xor_loop
calculate_checksum mess = xor_loop 7 0 0 mess % 2 ^ 8
