-- ===== src/PelcoD/Checksum.antt =====
-- `calculate_checksum` of src/pelco_d.c.
use mn_protozoa.Base.{ℕ, zero, suc, ◌+◌, ◌%◌, ◌^◌, List}
use mn_protozoa.Bitarray.{byte_at}

-- The loop `for(i = 1; i < 6; i++)`, with its rounds left.
unfoldable pub sum_loop : ℕ → ℕ → List ℕ → ℕ → ℕ
sum_loop zero i mess checksum = checksum
sum_loop (suc left) i mess checksum = sum_loop left (i + 1) mess (checksum + byte_at mess i)

-- The sum is an `int` and is returned as `uint8_t`.
unfoldable pub calculate_checksum : List ℕ → ℕ
unfolding sum_loop
calculate_checksum mess = sum_loop 5 1 mess 0 % 2 ^ 8
