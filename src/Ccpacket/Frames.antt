-- ===== src/Ccpacket/Frames.antt =====
-- The setters against the getters of a packet: what was set is read back, and nothing else changes.
use mn_protozoa.Base.{
  ℕ, bit_and, bit_or, false, ◌≡◌, refl, sym, ◌∙◌, arith, if◌then◌else◌, Bool-cases, inl, inr,
}
use mn_protozoa.Base.Bits.{
  bit_and_assoc, bit_and-bit_or, bit_and-zero, bit_or-zero, zero-bit_or, zero-bit_and,
}
use mn_protozoa.Base.Int.{ℤ}
use mn_protozoa.Ccpacket.Modes
use mn_protozoa.Ccpacket.Packet
use mn_protozoa.Ccpacket.Packet.{Ccpacket}
use mn_protozoa.Ccpacket.Group.{
  Group, menu, pan, tilt, mask, valid, set_mode, get_mode, same, same-eq, masks_apart,
  complement_keeps, complement_clears,
}
use mn_protozoa.Ccpacket.Flags.{complement}

-- A checked mode lies within the mask of its group.
pub valid-within : (g : Group) (m : ℕ) → bit_and (valid g m) (mask g) ≡ valid g m
unfolding Modes.menu Modes.camera Modes.pan Modes.tilt Modes.zoom Modes.focus Modes.iris Modes.lens
    Modes.wiper Modes.ack
valid-within menu m =
    ground (arith, bit_and_assoc m (mask menu) (mask menu), zero-bit_and (mask menu))
valid-within g m = ground (arith, bit_and_assoc m (mask g) (mask g), zero-bit_and (mask g))

-- The check reads only the bits of the group.
pub valid_of_masked :
    (g : Group) (x y : ℕ) → bit_and x (mask g) ≡ bit_and y (mask g) → valid g x ≡ valid g y
unfolding Modes.menu Modes.camera Modes.pan Modes.tilt Modes.zoom Modes.focus Modes.iris Modes.lens
    Modes.wiper Modes.ack
valid_of_masked menu x y e = ground arith
valid_of_masked _ x y e = ground arith

pub valid_idem : (g : Group) (m : ℕ) → valid g (valid g m) ≡ valid g m
unfolding Modes.menu Modes.camera Modes.pan Modes.tilt Modes.zoom Modes.focus Modes.iris Modes.lens
    Modes.wiper Modes.ack
valid_idem menu m = ground (arith, valid-within menu m)
valid_idem g m = ground (arith, valid-within g m)

-- What is left of a word `f` and a new part `v` of the group `h`, under a mask `k`.
module _ (v f n k : ℕ) where
  merge_left : bit_and v k ≡ 0 → bit_and n k ≡ k → bit_and (bit_or v (bit_and f n)) k ≡ bit_and f k
  merge_left p q = bit_and-bit_or v (bit_and f n) k ∙ (rw (p, zero-bit_or, bit_and_assoc f n k, q))

  merge_right : bit_and v k ≡ 0 → bit_and n k ≡ k → bit_and (bit_or (bit_and f n) v) k ≡ bit_and f k
  merge_right p q = bit_and-bit_or (bit_and f n) v k ∙ (rw (p, bit_or-zero, bit_and_assoc f n k, q))

  write_left : bit_and v k ≡ v → bit_and n k ≡ 0 → bit_and (bit_or v (bit_and f n)) k ≡ v
  write_left p q =
      bit_and-bit_or v (bit_and f n) k ∙ (rw (p, bit_and_assoc f n k, q, bit_and-zero, bit_or-zero))

  write_right : bit_and v k ≡ v → bit_and n k ≡ 0 → bit_and (bit_or (bit_and f n) v) k ≡ v
  write_right p q =
      bit_and-bit_or (bit_and f n) v k ∙ (rw (p, bit_and_assoc f n k, q, bit_and-zero, zero-bit_or))

-- A checked mode of one group shows nothing under the mask of another.
valid_apart : (h : Group) (m k : ℕ) → bit_and (mask h) k ≡ 0 → bit_and (valid h m) k ≡ 0
valid_apart h m k e =
    rw (← valid-within h m, bit_and_assoc (valid h m) (mask h) k, e) (bit_and-zero (valid h m))

-- A setter leaves the bits under `k` alone, for a mask `k` apart from its group's.
pub flags-set_mode_other :
    (h : Group) (p : Ccpacket) (m : ℕ) (speed : ℤ) (k : ℕ)
    → bit_and (mask h) k ≡ 0
    → bit_and (complement (mask h)) k ≡ k
    → bit_and (set_mode h p m speed).flags k ≡ bit_and p.flags k
unfolding Packet.set_menu Packet.set_camera Packet.set_pan Packet.set_tilt Packet.set_zoom
    Packet.set_focus Packet.set_iris Packet.set_lens Packet.set_wiper Packet.set_ack
flags-set_mode_other pan p m speed k a c =
    merge_right (valid pan m) p.flags (complement (mask pan)) k (valid_apart pan m k a) c
flags-set_mode_other tilt p m speed k a c =
    merge_right (valid tilt m) p.flags (complement (mask tilt)) k (valid_apart tilt m k a) c
flags-set_mode_other h p m speed k a c =
    merge_left (valid h m) p.flags (complement (mask h)) k (valid_apart h m k a) c

flags-set_mode_self :
    (h : Group) (p : Ccpacket) (m : ℕ) (speed : ℤ)
    → bit_and (set_mode h p m speed).flags (mask h) ≡ valid h m
unfolding Packet.set_menu Packet.set_camera Packet.set_pan Packet.set_tilt Packet.set_zoom
    Packet.set_focus Packet.set_iris Packet.set_lens Packet.set_wiper Packet.set_ack
flags-set_mode_self pan p m speed =
    write_right (valid pan m) p.flags (complement (mask pan)) (mask pan) (valid-within pan m)
      (complement_clears pan)
flags-set_mode_self tilt p m speed =
    write_right (valid tilt m) p.flags (complement (mask tilt)) (mask tilt) (valid-within tilt m)
      (complement_clears tilt)
flags-set_mode_self h p m speed =
    write_left (valid h m) p.flags (complement (mask h)) (mask h) (valid-within h m)
      (complement_clears h)

-- Each getter is the check of its group on the flags.
pub get_mode-eq-valid : (g : Group) (p : Ccpacket) → get_mode g p ≡ valid g p.flags
unfolding Packet.get_menu Packet.get_camera Packet.get_pan_mode Packet.get_tilt_mode Packet.get_zoom
    Packet.get_focus Packet.get_iris Packet.get_lens Packet.get_wiper Packet.get_ack
get_mode-eq-valid menu p = refl
get_mode-eq-valid _ p = refl

get_mode-set_mode_self :
    (g : Group) (p : Ccpacket) (m : ℕ) (speed : ℤ) → get_mode g (set_mode g p m speed) ≡ valid g m
get_mode-set_mode_self g p m speed =
    get_mode-eq-valid g (set_mode g p m speed)
    ∙ valid_of_masked g _ (valid g m) (flags-set_mode_self g p m speed ∙ sym (valid-within g m))
    ∙ valid_idem g m

get_mode-set_mode_other :
    (g h : Group) (p : Ccpacket) (m : ℕ) (speed : ℤ)
    → same g h ≡ false
    → get_mode g (set_mode h p m speed) ≡ get_mode g p
get_mode-set_mode_other g h p m speed e =
    get_mode-eq-valid g (set_mode h p m speed)
    ∙ valid_of_masked g _ p.flags
        (flags-set_mode_other h p m speed (mask g) (masks_apart g h e) (complement_keeps g h e))
    ∙ sym (get_mode-eq-valid g p)

-- For any two of the ten groups, in any packet and at any argument: the getter of a group reads
-- the checked mode that its own setter wrote, and what it read before any other group's setter.
pub get_mode-set_mode :
    (g h : Group) (p : Ccpacket) (m : ℕ) (speed : ℤ)
    → get_mode g (set_mode h p m speed) ≡ (if same g h then valid g m else get_mode g p)
get_mode-set_mode g h p m speed = elim (Bool-cases (same g h)) [
  | inl e ↦ rw (e, ← same-eq g h e) (get_mode-set_mode_self g p m speed)
  | inr e ↦ rw e (get_mode-set_mode_other g h p m speed e)
]
