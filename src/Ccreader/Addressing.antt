-- ===== src/Ccreader/Addressing.antt =====
-- Which receiver a node of src/ccreader.c gives to its writer, and which the reader may hold.
use mn_protozoa.Base.{◌<◌, true, Bool-cases, inl, inr, if◌then◌else◌, ℕ, suc, ◌≡◌, ◌↔◌, ap, arith}
use mn_protozoa.Base.Int.{ℤ, pos, negsuc, ◌+ℤ◌, ◌-ℤ◌, ◌≤ℤ◌, ltb_ℤ}
use mn_protozoa.Ccpacket.Packet.{set_receiver}
use mn_protozoa.Ccreader.Nodes.{Ccnode, Ccreader, get_receiver, previous_camera, next_camera}

-- The last test of `ccnode_get_receiver`.
not_negative :
    (x : ℤ)
    → (pos 0 ≤ℤ (if ltb_ℤ x (pos 0) then pos 0 else x))
      × ((n : ℕ) → ((if ltb_ℤ x (pos 0) then pos 0 else x) ≡ pos (suc n)) ↔ (x ≡ pos (suc n)))
not_negative (pos k) = (ground arith, λ n. ground arith)
not_negative (negsuc k) = (ground arith, λ n. ground arith)

module _ {W : Type 0} where
  -- The receiver that a node gives is never negative, where 0 drops the packet; it is positive
  -- exactly where the receiver lies in the range of the node and the receiver moved by the shift is
  -- positive, and then it is the moved one.
  pub get_receiver_iff :
      (node : Ccnode W) (receiver : ℤ) (n : ℕ)
      → (pos 0 ≤ℤ get_receiver node receiver)
        × ((get_receiver node receiver ≡ pos (suc n))
            ↔ (node.range_first ≤ℤ receiver)
              × (receiver ≤ℤ node.range_last)
              × (receiver +ℤ node.shift ≡ pos (suc n)))
  unfolding get_receiver
  get_receiver_iff node receiver n =
      let (zero_le, same) = not_negative (receiver +ℤ node.shift) in
      elim (Bool-cases (ltb_ℤ receiver node.range_first)) [
        | inl low ↦ rw low (
          omega arith,
          ((λ e. absurd (ground (arith, e))), λ h. absurd (ground (arith, low, h.0))),
        )
        | inr a ↦ elim (Bool-cases (ltb_ℤ node.range_last receiver)) [
          | inl high ↦
              rw (a, high)
                (
                  omega arith,
                  ((λ e. absurd (ground (arith, e))), λ h. absurd (ground (arith, high, h.1))),
                )
          | inr b ↦
              rw (a, b)
                (
                  zero_le,
                  (
                    (λ e. (ground (arith, a), ground (arith, b), (same n).0 e)),
                    λ h. (same n).1 h.2,
                  ),
                )
        ]
      ]

  -- For a receiver from 0 to 1023, the key for the next camera moves it on by one, and the key for
  -- the previous camera then gives the reader as it was.
  pub camera_keys :
      (rdr : Ccreader W) (n : ℕ)
      → rdr.packet.receiver ≡ pos n
      → n < 1024
      → ((next_camera rdr).packet.receiver ≡ pos (suc n))
        × (previous_camera (next_camera rdr) ≡ rdr)
  unfolding next_camera previous_camera set_receiver
  camera_keys rdr n e h = rw below (
    ground (arith, e),
    rw above (ap (λ x. record rdr { packet = set_receiver rdr.packet x }) back),
  )
    where
      below : ltb_ℤ rdr.packet.receiver (pos 1024) ≡ true
      below = rw e (ground arith)

      above : ltb_ℤ (pos 0) (rdr.packet.receiver +ℤ pos 1) ≡ true
      above = rw e (ground arith)

      back : rdr.packet.receiver +ℤ pos 1 -ℤ pos 1 ≡ rdr.packet.receiver
      back = rw e (ground arith)
