-- ===== src/Stats/Totals.antt =====
-- The counters of src/stats.c after any number of packets.
use mn_protozoa.Base.{
  ℕ, suc, ◌+◌, ◌%◌, ◌^◌, ◌<◌, ◌≡◌, ◌∙◌, refl, ap, Bool, true, false, ◌&&◌, List, [], ◌∷◌, nonzero,
  arith, if◌then◌else◌, bool_units,
}
use mn_protozoa.Ccpacket.Packet.{
  Ccpacket, get_zoom, get_focus, get_iris, get_wiper, get_preset_mode,
}
use mn_protozoa.Ccpacket.Queries.{has_pan, has_tilt}
use mn_protozoa.Stats.{
  Stats, PktClass, pan, tilt, zoom, focus, iris, wiper, preset, total, Domain, same_class,
  same_domain, init, bump, counted, count,
}

-- Whether a packet belongs to a class; all belong to the last one.
abbrev pub belongs : PktClass → Ccpacket → Bool
belongs pan p = has_pan p
belongs tilt p = has_tilt p
belongs zoom p = nonzero (get_zoom p)
belongs focus p = nonzero (get_focus p)
belongs iris p = nonzero (get_iris p)
belongs wiper p = nonzero (get_wiper p)
belongs preset p = nonzero (get_preset_mode p)
belongs total p = true

-- The packets that were counted, with their domains, and how many of them a counter is for.
unfoldable pub count_all : List (Ccpacket × Domain) → Stats → Stats
count_all [] s = s
count_all ((p, d) ∷ ps) s = count_all ps (count p d s)

unfoldable pub occurrences : PktClass → Domain → List (Ccpacket × Domain) → ℕ
occurrences c d [] = 0
occurrences c d ((p, d') ∷ ps) =
    let rest = occurrences c d ps in if belongs c p && same_domain d' d then suc rest else rest

n_pkts-bump :
    (test : Bool) (c c' : PktClass) (d d' : Domain) (s : Stats)
    → (bump test c d s).n_pkts c' d' ≡ (
        if test && (same_class c c' && same_domain d d')
        then (s.n_pkts c' d' + 1) % 2 ^ 64
        else s.n_pkts c' d')
unfolding bump
n_pkts-bump true c c' d d' s = refl
n_pkts-bump false c c' d d' s = refl

log-bump : (test : Bool) (c : PktClass) (d : Domain) (s : Stats) → (bump test c d s).log ≡ s.log
unfolding bump
log-bump true c d s = refl
log-bump false c d s = refl

n_pkts-counted :
    (p : Ccpacket) (c : PktClass) (d d' : Domain) (s : Stats)
    → (counted p d s).n_pkts c d'
      ≡ (if belongs c p && same_domain d d' then (s.n_pkts c d' + 1) % 2 ^ 64 else s.n_pkts c d')
unfolding counted
n_pkts-counted p pan d d' s = simp (n_pkts-bump, bool_units) refl
n_pkts-counted p tilt d d' s = simp (n_pkts-bump, bool_units) refl
n_pkts-counted p zoom d d' s = simp (n_pkts-bump, bool_units) refl
n_pkts-counted p focus d d' s = simp (n_pkts-bump, bool_units) refl
n_pkts-counted p iris d d' s = simp (n_pkts-bump, bool_units) refl
n_pkts-counted p wiper d d' s = simp (n_pkts-bump, bool_units) refl
n_pkts-counted p preset d d' s = simp (n_pkts-bump, bool_units) refl
n_pkts-counted p total d d' s = simp (n_pkts-bump, bool_units) refl

log-counted : (p : Ccpacket) (d : Domain) (s : Stats) → (counted p d s).log ≡ s.log
unfolding counted
log-counted p d s = simp log-bump refl

count-eq : (p : Ccpacket) (d : Domain) (s : Stats) → s.log ≡ true → count p d s ≡ counted p d s
unfolding count
count-eq p d s h = ap (λ b. if b then counted p d s else s) h

one_more :
    (t : Bool) (n k : ℕ)
    → ((if t then (n + 1) % 2 ^ 64 else n) + k) % 2 ^ 64 ≡ (n + (if t then suc k else k)) % 2 ^ 64
one_more true n k = omega arith
one_more false n k = refl

-- The counters, with some packets counted already.
counted_from :
    (ps : List (Ccpacket × Domain)) (c : PktClass) (d : Domain) (s : Stats)
    → s.log ≡ true
    → s.n_pkts c d < 2 ^ 64
    → (count_all ps s).n_pkts c d ≡ (s.n_pkts c d + occurrences c d ps) % 2 ^ 64
unfolding count_all occurrences
counted_from [] c d s h small = ground (arith, small)
counted_from ((p, d') ∷ ps) c d s h small =
    let s' = counted p d' s in
    let step = n_pkts-counted p c d' d s in
    let small' : s'.n_pkts c d < 2 ^ 64 = rw step (ground (arith, small)) in
    ap (λ x. (count_all ps x).n_pkts c d) (count-eq p d' s h)
    ∙ counted_from ps c d s' (log-counted p d' s ∙ h) small'
    ∙ ap (λ k. (k + occurrences c d ps) % 2 ^ 64) step
    ∙ one_more (belongs c p && same_domain d' d) (s.n_pkts c d) (occurrences c d ps)

-- From `ptz_stats_init` with a log, after any packets: the counter of each class and domain is how
-- many of the packets are of that domain and belong to the class, modulo 2 ^ 64.
pub counts_lem :
    (ps : List (Ccpacket × Domain)) (c : PktClass) (d : Domain)
    → (count_all ps (init true)).n_pkts c d ≡ occurrences c d ps % 2 ^ 64
counts_lem ps c d =
    counted_from ps c d (init true) refl (omega arith) ∙ ap (λ k. k % 2 ^ 64) (omega arith)
