-- ===== src/Ccpacket/Preset.antt =====
-- `ccpacket_set_preset` and `ccpacket_get_preset_mode`: the preset group, whose mode goes with a
-- number, and the numbers that stand for menu commands.
use mn_protozoa.Base.{
  ℕ, ◌≤◌, bit_and, bit_or, Bool, true, false, ◌&&◌, ◌==◌, leb, ◌≡◌, refl, sym, ◌∙◌, arith,
  if◌then◌else◌, Bool-cases, inl, inr,
}
use mn_protozoa.Base.Bits.{
  bit_and_assoc, bit_and-bit_or, bit_and-zero, bit_or-zero, zero-bit_or, zero-bit_and,
}
use mn_protozoa.Base.Int.{ℤ, pos, negsuc}
use mn_protozoa.Ccpacket.Flags.{cc_preset, cc_preset_store, complement}
use mn_protozoa.Ccpacket.Modes
use mn_protozoa.Ccpacket.Packet
use mn_protozoa.Ccpacket.Packet.{
  Ccpacket, set_preset, get_preset_mode, menu_preset, set_menu, get_menu,
}
use mn_protozoa.Ccpacket.Group.{Group, menu, mask, get_mode, set_mode}
use mn_protozoa.Ccpacket.Frames.{valid_of_masked, get_mode-eq-valid, flags-set_mode_other}

-- `enum special_presets`
abbrev pub is_special : ℤ → Bool
is_special (pos n) = leb 77 n && leb n 79
is_special (negsuc n) = false

-- A store of a special number.
abbrev pub is_menu_store : ℕ → ℤ → Bool
is_menu_store pm n = (Modes.preset pm n == cc_preset_store) && is_special n

pub preset-within : (pm : ℕ) (n : ℤ) → bit_and (Modes.preset pm n) cc_preset ≡ Modes.preset pm n
unfolding Modes.preset
preset-within pm n = ground (arith, bit_and_assoc pm cc_preset cc_preset, zero-bit_and cc_preset)

pub preset_of_masked :
    (x y : ℕ) (n : ℤ)
    → bit_and x cc_preset ≡ bit_and y cc_preset
    → Modes.preset x n ≡ Modes.preset y n
unfolding Modes.preset
preset_of_masked x y n e = ground arith

pub preset_idem : (pm : ℕ) (n : ℤ) → Modes.preset (Modes.preset pm n) n ≡ Modes.preset pm n
unfolding Modes.preset
preset_idem pm n = ground (arith, preset-within pm n)

-- The bits of the preset group after a write of the checked mode.
preset_written :
    (f pm : ℕ) (n : ℤ)
    → bit_and (bit_or (bit_and f (complement cc_preset)) (Modes.preset pm n)) cc_preset
      ≡ Modes.preset pm n
preset_written f pm n =
    bit_and-bit_or (bit_and f (complement cc_preset)) (Modes.preset pm n) cc_preset
    ∙ rw (preset-within pm n, bit_and_assoc f (complement cc_preset) cc_preset, bit_and-zero f)
        (zero-bit_or (Modes.preset pm n))

pub set_preset_split :
    (p : Ccpacket) (pm : ℕ) (n : ℤ)
    → set_preset p pm n ≡ (
        if is_menu_store pm n
        then record p { flags = bit_and p.flags (complement cc_preset); preset = pos 0 }
        else record p {
          flags = bit_or (bit_and p.flags (complement cc_preset)) (Modes.preset pm n);
          preset = n;
        })
unfolding set_preset
set_preset_split p pm (pos n) = ground arith
set_preset_split p pm (negsuc n) = ground arith

-- The mode read back after `ccpacket_set_preset` is the checked mode, or none at all where the
-- call stores one of the special numbers 77, 78 and 79.
pub get_preset_mode-set_preset :
    (p : Ccpacket) (pm : ℕ) (n : ℤ)
    → get_preset_mode (set_preset p pm n) ≡ (if is_menu_store pm n then 0 else Modes.preset pm n)
unfolding get_preset_mode
get_preset_mode-set_preset p pm n = elim (Bool-cases (is_menu_store pm n)) [
  | inl e ↦ rw (set_preset_split p pm n, e) (unfold Modes.preset in refl)
  | inr e ↦
      rw (set_preset_split p pm n, e)
        (preset_of_masked (bit_or (bit_and p.flags (complement cc_preset)) (Modes.preset pm n))
            (Modes.preset pm n) n (preset_written p.flags pm n ∙ sym (preset-within pm n))
          ∙ preset_idem pm n)
]

preset_mask_apart : (g : Group) → bit_and cc_preset (mask g) ≡ 0
preset_mask_apart menu = refl
preset_mask_apart _ = refl

preset_complement_keeps : (g : Group) → bit_and (complement cc_preset) (mask g) ≡ mask g
preset_complement_keeps menu = refl
preset_complement_keeps _ = refl

mask_preset_apart : (g : Group) → bit_and (mask g) cc_preset ≡ 0
mask_preset_apart menu = refl
mask_preset_apart _ = refl

complement_keeps_preset : (g : Group) → bit_and (complement (mask g)) cc_preset ≡ cc_preset
complement_keeps_preset menu = refl
complement_keeps_preset _ = refl

cleared_keeps :
    (g : Group) (f : ℕ) → bit_and (bit_and f (complement cc_preset)) (mask g) ≡ bit_and f (mask g)
cleared_keeps g f = rw (bit_and_assoc f (complement cc_preset) (mask g), preset_complement_keeps g)

preset_apart : (g : Group) (pm : ℕ) (n : ℤ) → bit_and (Modes.preset pm n) (mask g) ≡ 0
preset_apart g pm n =
    rw
      (
        ← preset-within pm n,
        bit_and_assoc (Modes.preset pm n) cc_preset (mask g),
        preset_mask_apart g,
      )
      (bit_and-zero (Modes.preset pm n))

flags-set_preset :
    (g : Group) (p : Ccpacket) (pm : ℕ) (n : ℤ)
    → bit_and (set_preset p pm n).flags (mask g) ≡ bit_and p.flags (mask g)
flags-set_preset g p pm n = elim (Bool-cases (is_menu_store pm n)) [
  | inl e ↦ rw (set_preset_split p pm n, e) (cleared_keeps g p.flags)
  | inr e ↦
      rw (set_preset_split p pm n, e)
        (bit_and-bit_or (bit_and p.flags (complement cc_preset)) (Modes.preset pm n) (mask g)
          ∙ rw (preset_apart g pm n, bit_or-zero) (cleared_keeps g p.flags))
]

-- `ccpacket_set_preset` changes the mode of no other group.
pub get_mode-set_preset :
    (g : Group) (p : Ccpacket) (pm : ℕ) (n : ℤ) → get_mode g (set_preset p pm n) ≡ get_mode g p
get_mode-set_preset g p pm n =
    get_mode-eq-valid g (set_preset p pm n)
    ∙ valid_of_masked g _ p.flags (flags-set_preset g p pm n)
    ∙ sym (get_mode-eq-valid g p)

preset-set_mode :
    (h : Group) (p : Ccpacket) (m : ℕ) (speed : ℤ) → (set_mode h p m speed).preset ≡ p.preset
unfolding Packet.set_menu Packet.set_camera Packet.set_pan Packet.set_tilt Packet.set_zoom
    Packet.set_focus Packet.set_iris Packet.set_lens Packet.set_wiper Packet.set_ack
preset-set_mode menu p m speed = refl
preset-set_mode _ p m speed = refl

-- No setter of the other groups changes the preset mode or the preset number.
pub get_preset_mode-set_mode :
    (h : Group) (p : Ccpacket) (m : ℕ) (speed : ℤ)
    → (get_preset_mode (set_mode h p m speed) ≡ get_preset_mode p)
      × ((set_mode h p m speed).preset ≡ p.preset)
unfolding get_preset_mode
get_preset_mode-set_mode h p m speed = (
  rw (preset-set_mode h p m speed) (
      preset_of_masked (set_mode h p m speed).flags p.flags p.preset (
        flags-set_mode_other h p m speed cc_preset (mask_preset_apart h)
          (complement_keeps_preset h))),
  preset-set_mode h p m speed,
)

-- Storing a preset with one of the numbers that stand for a menu command, in a packet with no
-- menu command, leaves the packet with neither: no menu command, no preset mode, number 0.
pub menu_store_lost :
    (p : Ccpacket) (n : ℕ)
    → 77 ≤ n
    → n ≤ 79
    → get_menu p ≡ 0
    → let q = set_preset p cc_preset_store (pos n) in
      (get_menu q ≡ 0) × (get_preset_mode q ≡ 0) × (q.preset ≡ pos 0)
menu_store_lost p n lo hi none =
    (get_mode-set_preset menu p cc_preset_store (pos n) ∙ none, mode, number)
  where
    special : is_menu_store cc_preset_store (pos n) ≡ true
    special = unfold Modes.preset in ground arith

    mode : get_preset_mode (set_preset p cc_preset_store (pos n)) ≡ 0
    mode = rw (get_preset_mode-set_preset p cc_preset_store (pos n)) (rw special)

    number : (set_preset p cc_preset_store (pos n)).preset ≡ pos 0
    number = rw (set_preset_split p cc_preset_store (pos n)) (rw special)
