-- ===== src/Ccpacket/Updates.antt =====
-- A decoder as a list of conditional calls of the setters, so that what it makes of a packet is
-- read off the list.
use mn_protozoa.Base.{
  ℕ, ◌≡◌, refl, sym, ◌∙◌, ap, Bool, true, false, ◌&&◌, List, [], ◌∷◌, ◌++◌, not, Bool-cases, inl,
  inr, if◌then◌else◌,
}
use mn_protozoa.Base.Int.{ℤ, pos}
use mn_protozoa.Ccpacket.Modes
use mn_protozoa.Ccpacket.Packet
use mn_protozoa.Ccpacket.Packet.{Ccpacket, clamp_speed}
use mn_protozoa.Ccpacket.Group.{Group, menu, pan, tilt, valid, set_mode, get_mode, same}
use mn_protozoa.Ccpacket.Frames.{get_mode-eq-valid, get_mode-set_mode}

pub record Update : Type 0 where
  pub test : Bool
  pub group : Group
  pub mode : ℕ
  pub speed : ℤ

-- An update that needs no speed.
abbrev pub on : Bool → Group → ℕ → Update
on test group mode = record { test = test; group = group; mode = mode; speed = pos 0 }

abbrev pub moving : Bool → Group → ℕ → ℤ → Update
moving test group mode speed = record { test = test; group = group; mode = mode; speed = speed }

unfoldable pub updated : List Update → Ccpacket → Ccpacket
updated [] p = p
updated (u ∷ us) p = updated us (if u.test then set_mode u.group p u.mode u.speed else p)

-- The mode of a group and the speeds after the updates.
abbrev pub mode_after : Group → List Update → ℕ → ℕ
mode_after g [] m = m
mode_after g (u ∷ us) m =
    mode_after g us (if same g u.group then if u.test then valid g u.mode else m else m)

abbrev pub pan_after : List Update → ℤ → ℤ
pan_after [] s = s
pan_after (u ∷ us) s =
    pan_after us (if same pan u.group then if u.test then clamp_speed u.speed else s else s)

abbrev pub tilt_after : List Update → ℤ → ℤ
tilt_after [] s = s
tilt_after (u ∷ us) s =
    tilt_after us (if same tilt u.group then if u.test then u.speed else s else s)

-- One update.
abbrev step : Update → Ccpacket → Ccpacket
step u p = if u.test then set_mode u.group p u.mode u.speed else p

get_mode-step :
    (g : Group) (u : Update) (p : Ccpacket)
    → get_mode g (step u p)
      ≡ (if same g u.group then if u.test then valid g u.mode else get_mode g p else get_mode g p)
get_mode-step g u p = elim (Bool-cases u.test) [
  | inl e ↦ simp e (get_mode-set_mode g u.group p u.mode u.speed)
  | inr e ↦ simp e (same_both (same g u.group) (get_mode g p))
]
  where
    same_both : (t : Bool) (m : ℕ) → m ≡ (if t then m else m)
    same_both true m = refl
    same_both false m = refl

pub get_mode-updated :
    (g : Group) (us : List Update) (p : Ccpacket)
    → get_mode g (updated us p) ≡ mode_after g us (get_mode g p)
unfolding updated
get_mode-updated g [] p = refl
get_mode-updated g (u ∷ us) p =
    get_mode-updated g us (step u p) ∙ ap (mode_after g us) (get_mode-step g u p)

values-set_mode :
    (g : Group) (p : Ccpacket) (m : ℕ) (speed : ℤ)
    → ((set_mode g p m speed).pan ≡ (if same pan g then clamp_speed speed else p.pan))
      × ((set_mode g p m speed).tilt ≡ (if same tilt g then speed else p.tilt))
      × ((set_mode g p m speed).receiver ≡ p.receiver)
      × ((set_mode g p m speed).preset ≡ p.preset)
unfolding Packet.set_menu Packet.set_camera Packet.set_pan Packet.set_tilt Packet.set_zoom
    Packet.set_focus Packet.set_iris Packet.set_lens Packet.set_wiper Packet.set_ack
values-set_mode menu p m speed = (refl, refl, refl, refl)
values-set_mode pan p m speed = (refl, refl, refl, refl)
values-set_mode tilt p m speed = (refl, refl, refl, refl)
values-set_mode _ p m speed = (refl, refl, refl, refl)

values-step :
    (u : Update) (p : Ccpacket)
    → ((step u p).pan
        ≡ (if same pan u.group then if u.test then clamp_speed u.speed else p.pan else p.pan))
      × ((step u p).tilt
          ≡ (if same tilt u.group then if u.test then u.speed else p.tilt else p.tilt))
      × ((step u p).receiver ≡ p.receiver)
      × ((step u p).preset ≡ p.preset)
values-step u p = elim (Bool-cases u.test) [
  | inl e ↦ simp e (values-set_mode u.group p u.mode u.speed)
  | inr e ↦
      simp e (same_both (same pan u.group) p.pan, same_both (same tilt u.group) p.tilt, refl, refl)
]
  where
    same_both : (t : Bool) (m : ℤ) → m ≡ (if t then m else m)
    same_both true m = refl
    same_both false m = refl

-- The speeds, and what no update changes.
pub values-updated :
    (us : List Update) (p : Ccpacket)
    → ((updated us p).pan ≡ pan_after us p.pan)
      × ((updated us p).tilt ≡ tilt_after us p.tilt)
      × ((updated us p).receiver ≡ p.receiver)
      × ((updated us p).preset ≡ p.preset)
unfolding updated
values-updated [] p = (refl, refl, refl, refl)
values-updated (u ∷ us) p =
    let (a, b, c, d) = values-updated us (step u p) in
    let (a', b', c', d') = values-step u p in
    (a ∙ ap (pan_after us) a', b ∙ ap (tilt_after us) b', c ∙ c', d ∙ d')

pub updated-append :
    (us vs : List Update) (p : Ccpacket) → updated (us ++ vs) p ≡ updated vs (updated us p)
unfolding updated
updated-append [] vs p = refl
updated-append (u ∷ us) vs p = updated-append us vs (step u p)

-- An `if` with an `else if`, and one that ends in `else`, as updates.
abbrev pub either : Group → Bool → ℕ → Bool → ℕ → List Update
either g a x b y = on a g x ∷ on (not a && b) g y ∷ []

pub either-eq :
    (g : Group) (a : Bool) (x : ℕ) (b : Bool) (y : ℕ) (p : Ccpacket)
    → (if a then set_mode g p x (pos 0) else if b then set_mode g p y (pos 0) else p)
      ≡ updated (either g a x b y) p
unfolding updated
either-eq g true x b y p = refl
either-eq g false x true y p = refl
either-eq g false x false y p = refl

abbrev pub one_of : Group → Bool → ℕ → ℤ → Bool → ℕ → ℤ → ℕ → ℤ → List Update
one_of g a x s b y t z w =
    moving a g x s ∷ moving (not a && b) g y t ∷ moving (not a && not b) g z w ∷ []

pub one_of-eq :
    (g : Group) (a : Bool) (x : ℕ) (s : ℤ) (b : Bool) (y : ℕ) (t : ℤ) (z : ℕ) (w : ℤ) (p : Ccpacket)
    → (if a then set_mode g p x s else if b then set_mode g p y t else set_mode g p z w)
      ≡ updated (one_of g a x s b y t z w) p
unfolding updated
one_of-eq g true x s b y t z w p = refl
one_of-eq g false x s true y t z w p = refl
one_of-eq g false x s false y t z w p = refl

-- Updates after updates.
pub updated_then :
    (us vs : List Update) (f : Ccpacket → Ccpacket) (p q : Ccpacket)
    → ((x : Ccpacket) → f x ≡ updated vs x)
    → p ≡ updated us q
    → f p ≡ updated (us ++ vs) q
updated_then us vs f p q h e = ap f e ∙ h (updated us q) ∙ sym (updated-append us vs q)

-- A packet without flags has no mode.
valid_zero : (g : Group) → valid g 0 ≡ 0
unfolding Modes.menu Modes.camera Modes.pan Modes.tilt Modes.zoom Modes.focus Modes.iris Modes.lens
    Modes.wiper Modes.ack
valid_zero menu = refl
valid_zero _ = refl

pub get_mode-blank : (g : Group) (p : Ccpacket) → p.flags ≡ 0 → get_mode g p ≡ 0
get_mode-blank g p h = get_mode-eq-valid g p ∙ ap (valid g) h ∙ valid_zero g
