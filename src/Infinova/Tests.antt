-- ===== src/Infinova/Tests.antt =====
-- The theorem on src/infinova.c at a concrete buffer.
use mn_protozoa.Base.{◌≡◌, false, [], ◌∷◌, ◌++◌, arith, replicate}
use mn_protozoa.Buffer.Defs.{Buffer}
use mn_protozoa.Buffer.Queue.{contents}
use mn_protozoa.Infinova.Frames.{auth_header, ptz_header, headers_lem}
use mn_protozoa.Infinova.Write.{authenticate, d_header}

-- A transmit buffer with space for 18 bytes.
abbrev tx : Buffer
tx = record { mem = 5 ∷ 6 ∷ replicate 18 0; pin = 2; pout = 1 }

headers_lem_example :
    ((d_header tx).1 ≡ false)
    × (contents (d_header tx).0 ≡ (6 ∷ []) ++ ptz_header)
    × (contents (authenticate tx) ≡ (6 ∷ []) ++ auth_header)
headers_lem_example = headers_lem tx (record { ordered = omega arith; inside = omega arith })
