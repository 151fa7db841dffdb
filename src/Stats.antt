-- ===== src/Stats.antt =====
-- src/stats.c: how many packets of each class came in and went out. What it prints is left out;
-- that it has a log to print to is a Boolean.
pub mod Totals
mod Tests
use mn_protozoa.Base.{ℕ, ◌+◌, ◌%◌, ◌^◌, Bool, true, false, ◌&&◌, ◌==◌, nonzero, if◌then◌else◌}
use mn_protozoa.Ccpacket.Packet.{
  Ccpacket, get_zoom, get_focus, get_iris, get_wiper, get_preset_mode,
}
use mn_protozoa.Ccpacket.Queries.{has_pan, has_tilt}

-- `enum pkt_class`
pub data PktClass : Type 0 where
  pan tilt zoom focus iris wiper preset total : PktClass

-- `enum domain` of src/ccpacket.h
pub data Domain : Type 0 where
  dom_in dom_out : Domain

-- `log`, whether it is there, and `n_pkts`.
pub record Stats : Type 0 where
  pub log : Bool
  pub n_pkts : PktClass → Domain → ℕ

abbrev class_index : PktClass → ℕ
class_index pan = 0
class_index tilt = 1
class_index zoom = 2
class_index focus = 3
class_index iris = 4
class_index wiper = 5
class_index preset = 6
class_index total = 7

abbrev pub same_class : PktClass → PktClass → Bool
same_class c c' = class_index c == class_index c'

abbrev pub same_domain : Domain → Domain → Bool
same_domain dom_in dom_in = true
same_domain dom_out dom_out = true
same_domain _ _ = false

-- `ptz_stats_init`
abbrev pub init : Bool → Stats
init log = record { log = log; n_pkts = λ c d. 0 }

-- `n_pkts[c][d]++` under a condition.
unfoldable pub bump : Bool → PktClass → Domain → Stats → Stats
bump test c d s =
    if test
    then record s {
      n_pkts = λ c' d'.
          if same_class c c' && same_domain d d'
          then (s.n_pkts c' d' + 1) % 2 ^ 64
          else s.n_pkts c' d';
    }
    else s

-- The counting of `ptz_stats_count`.
unfoldable pub counted : Ccpacket → Domain → Stats → Stats
counted p d s =
    let panned = bump (has_pan p) pan d s in
    let tilted = bump (has_tilt p) tilt d panned in
    let zoomed = bump (nonzero (get_zoom p)) zoom d tilted in
    let focused = bump (nonzero (get_focus p)) focus d zoomed in
    let irised = bump (nonzero (get_iris p)) iris d focused in
    let wiped = bump (nonzero (get_wiper p)) wiper d irised in
    let recalled = bump (nonzero (get_preset_mode p)) preset d wiped in bump true total d recalled

-- `ptz_stats_count`
unfoldable pub count : Ccpacket → Domain → Stats → Stats
unfolding counted
count p d s = if s.log then counted p d s else s
