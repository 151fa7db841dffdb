-- ===== src/Stats/Tests.antt =====
-- The theorem on src/stats.c at concrete packets.
use mn_protozoa.Base.{◌≡◌, [], ◌∷◌, true, bit_or}
use mn_protozoa.Base.Int.{pos}
use mn_protozoa.Ccpacket.Flags.{cc_pan_left, cc_zoom_in}
use mn_protozoa.Ccpacket.Modes
use mn_protozoa.Ccpacket.Packet.{Ccpacket, get_zoom}
use mn_protozoa.Stats.{zoom, dom_in, dom_out, init}
use mn_protozoa.Stats.Totals.{count_all, occurrences, counts_lem}

abbrev zooming : Ccpacket
zooming = record {
  receiver = pos 3;
  flags = bit_or cc_pan_left cc_zoom_in;
  pan = pos 100;
  tilt = pos 0;
  preset = pos 0;
  expire = record { tv_sec = 0; tv_usec = 0 };
}

abbrev still : Ccpacket
still = record zooming { flags = 0 }

counts_lem_example :
    (count_all ((zooming, dom_in) ∷ (zooming, dom_out) ∷ (still, dom_in) ∷ []) (init true)).n_pkts
      zoom dom_in
    ≡ 1
unfolding occurrences get_zoom Modes.zoom
counts_lem_example =
    counts_lem ((zooming, dom_in) ∷ (zooming, dom_out) ∷ (still, dom_in) ∷ []) zoom dom_in
