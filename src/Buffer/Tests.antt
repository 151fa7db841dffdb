-- ===== src/Buffer/Tests.antt =====
-- The theorems on src/buffer.c at concrete buffers.
use mn_protozoa.Base.{◌≡◌, refl, [], ◌∷◌, arith}
use mn_protozoa.Base.Run.{done}
use mn_protozoa.Buffer.Defs.{
  Buffer, Status, make_room, retry_read, retry_write, compact, read, write, interrupted, bytes,
  wrote,
}
use mn_protozoa.Buffer.Inv.{IsValid}
use mn_protozoa.Buffer.Queue.{contents, read_pushes, read_full, write_pops}

-- The block is filled up to its end, but not from its start.
abbrev late : Buffer
late = record { mem = 1 ∷ 2 ∷ 3 ∷ 4 ∷ []; pin = 4; pout = 2 }

late-IsValid : IsValid late
late-IsValid = record { ordered = omega arith; inside = omega arith }

abbrev full : Buffer
full = record { mem = 1 ∷ 2 ∷ 3 ∷ 4 ∷ []; pin = 4; pout = 0 }

read_pushes_example :
    (b' : Buffer) × (read late (interrupted ∷ bytes (9 ∷ 8 ∷ []) ∷ []) ≡ done (Status.count 2, b'))
    × IsValid b'
    × (contents b' ≡ 3 ∷ 4 ∷ 9 ∷ 8 ∷ [])
unfolding retry_read compact
read_pushes_example =
    read_pushes late (interrupted ∷ bytes (9 ∷ 8 ∷ []) ∷ []) (9 ∷ 8 ∷ []) late-IsValid (omega arith)
      refl (unfold make_room in omega arith)

read_full_example :
    (read full (bytes (9 ∷ []) ∷ []) ≡ done (Status.no_buffers, make_room full))
    × (contents (make_room full) ≡ 1 ∷ 2 ∷ 3 ∷ 4 ∷ [])
read_full_example =
    read_full full (bytes (9 ∷ []) ∷ []) (record { ordered = omega arith; inside = omega arith })
      refl

write_pops_example :
    (b' : Buffer) × (write late (wrote 1 ∷ []) ≡ done (Status.count 1, b'))
    × IsValid b'
    × (contents b' ≡ 4 ∷ [])
unfolding retry_write
write_pops_example = write_pops late (wrote 1 ∷ []) 1 late-IsValid (omega arith) refl (omega arith)
