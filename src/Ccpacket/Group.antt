-- ===== src/Ccpacket/Group.antt =====
-- The ten groups of commands that share the `flags` word of a packet and are set and read alike,
-- so that one law covers all setters against all getters.
use mn_protozoa.Base.{ℕ, bit_and, Bool, true, false, ◌&&◌, ◌==◌, ◌≡◌, refl, arith, if◌then◌else◌}
use mn_protozoa.Base.Int.{ℤ}
use mn_protozoa.Ccpacket.Flags.{
  cc_menu, cc_camera, cc_pan, cc_tilt, cc_zoom, cc_focus, cc_iris, cc_lens, cc_wiper, cc_ack,
  complement,
}
use mn_protozoa.Ccpacket.Modes
use mn_protozoa.Ccpacket.Packet
use mn_protozoa.Ccpacket.Packet.{Ccpacket}

pub data Group : Type 0 where
  menu camera pan tilt zoom focus iris lens wiper ack : Group

abbrev pub mask : Group → ℕ
mask menu = cc_menu
mask camera = cc_camera
mask pan = cc_pan
mask tilt = cc_tilt
mask zoom = cc_zoom
mask focus = cc_focus
mask iris = cc_iris
mask lens = cc_lens
mask wiper = cc_wiper
mask ack = cc_ack

-- The check of the group.
abbrev pub valid : Group → ℕ → ℕ
valid menu = Modes.menu
valid camera = Modes.camera
valid pan = Modes.pan
valid tilt = Modes.tilt
valid zoom = Modes.zoom
valid focus = Modes.focus
valid iris = Modes.iris
valid lens = Modes.lens
valid wiper = Modes.wiper
valid ack = Modes.ack

-- The setter of the group; the speed serves pan and tilt only.
abbrev pub set_mode : Group → Ccpacket → ℕ → ℤ → Ccpacket
set_mode menu p m speed = Packet.set_menu p m
set_mode camera p m speed = Packet.set_camera p m
set_mode pan p m speed = Packet.set_pan p m speed
set_mode tilt p m speed = Packet.set_tilt p m speed
set_mode zoom p m speed = Packet.set_zoom p m
set_mode focus p m speed = Packet.set_focus p m
set_mode iris p m speed = Packet.set_iris p m
set_mode lens p m speed = Packet.set_lens p m
set_mode wiper p m speed = Packet.set_wiper p m
set_mode ack p m speed = Packet.set_ack p m

-- The getter of the group.
abbrev pub get_mode : Group → Ccpacket → ℕ
get_mode menu = Packet.get_menu
get_mode camera = Packet.get_camera
get_mode pan = Packet.get_pan_mode
get_mode tilt = Packet.get_tilt_mode
get_mode zoom = Packet.get_zoom
get_mode focus = Packet.get_focus
get_mode iris = Packet.get_iris
get_mode lens = Packet.get_lens
get_mode wiper = Packet.get_wiper
get_mode ack = Packet.get_ack

abbrev pub index : Group → ℕ
index menu = 0
index camera = 1
index pan = 2
index tilt = 3
index zoom = 4
index focus = 5
index iris = 6
index lens = 7
index wiper = 8
index ack = 9

abbrev pub same : Group → Group → Bool
same g h = index g == index h

pub same-eq : (g h : Group) → same g h ≡ true → g ≡ h
same-eq g h e = ground arith

-- A test of all groups.
all_groups : (Group → Bool) → Bool
all_groups t =
    t menu
    && (t camera
        && (t pan
            && (t tilt && (t zoom && (t focus && (t iris && (t lens && (t wiper && t ack))))))))

all_groups_sound : (t : Group → Bool) (g : Group) → all_groups t ≡ true → t g ≡ true
unfolding all_groups
all_groups_sound t menu e = ground arith
all_groups_sound t _ e = ground arith

-- Whether two masks share no bit, the first is outside the complement of the second, and both
-- leave the preset bits alone.
apart : Group → Group → Bool
apart g h =
    if same g h
    then bit_and (complement (mask h)) (mask g) == 0
    else (bit_and (mask h) (mask g) == 0) && (bit_and (complement (mask h)) (mask g) == mask g)

apart_table : all_groups (λ g. all_groups (λ h. apart g h)) ≡ true
unfolding all_groups apart
apart_table = refl

apart_all : (g h : Group) → apart g h ≡ true
apart_all g h = all_groups_sound (λ h. apart g h) h (all_groups_sound _ g apart_table)

pub masks_apart : (g h : Group) → same g h ≡ false → bit_and (mask h) (mask g) ≡ 0
unfolding apart
masks_apart g h e = ground (arith, apart_all g h)

pub complement_keeps :
    (g h : Group) → same g h ≡ false → bit_and (complement (mask h)) (mask g) ≡ mask g
unfolding apart
complement_keeps g h e = ground (arith, apart_all g h)

pub complement_clears : (g : Group) → bit_and (complement (mask g)) (mask g) ≡ 0
unfolding apart
complement_clears g = ground (arith, apart_all g g)
