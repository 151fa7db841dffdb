-- ===== src/Ccwriter/Ready.antt =====
-- A writer as src/ccwriter.c makes it: its packets are ready, and its protocol serves the receivers
-- that it has packets for.
use mn_protozoa.Base.{
  ℕ, zero, suc, ◌+◌, ◌≤◌, ◌<◌, ◌≡◌, ◌≢◌, ◌⊎◌, ◌∙◌, inl, inr, refl, ap, Bool, arith, if◌then◌else◌,
}
use mn_protozoa.Base.Int.{pos, ltb_ℤ}
use mn_protozoa.Buffer.Defs.{Buffer}
use mn_protozoa.Timeval.{Timeval}
use mn_protozoa.Ccpacket.Packet.{Ccpacket}
use mn_protozoa.Ccwriter.Written.{Written}
use mn_protozoa.Ccwriter.Writer.{init_loop}
use mn_protozoa.Ccwriter.Protocols.{
  WriteProtocol, manchester, infinova_d, pelco_d, pelco_p, vicon, axis, settings,
}
use mn_protozoa.Defer.Engine.{DeferredPkt, deferred_pkt_init}
use mn_protozoa.Defer.Memory.{equal_or_not, update_self, update_other}
use mn_protozoa.Infinova.Write as Infinova
use mn_protozoa.Manchester.Encode as Manchester
use mn_protozoa.PelcoD.Encode as PelcoD
use mn_protozoa.PelcoP.Encode as PelcoP
use mn_protozoa.Vicon.Encode as Vicon

module _ (is_open : Bool) (axis_do_write : Buffer → Ccpacket → Written) where
  -- Each binary protocol sends to exactly the receivers that a writer has packets for: the count
  -- is 1 for a receiver from 1 to the greatest address of its settings, and 0 for any other.
  pub served_lem :
      (c : WriteProtocol)
      → c ≢ axis
      → (tx : Buffer) (p : Ccpacket)
      → let s = settings is_open axis_do_write c in
        (s.callback tx p).count ≡ (
          if ltb_ℤ p.receiver (pos 1)
          then 0
          else if ltb_ℤ (pos s.max_address) p.receiver
          then 0
          else 1)
  unfolding Manchester.do_write Infinova.do_write PelcoD.do_write_cb PelcoD.do_write PelcoP.do_write
      Vicon.do_write
  served_lem manchester h tx p = ground arith
  served_lem infinova_d h tx p = ground arith
  served_lem pelco_d h tx p = ground arith
  served_lem pelco_p h tx p = ground arith
  served_lem vicon h tx p = ground arith
  served_lem axis h tx p = absurd (h refl)

module _ (now : ℕ → Timeval) (number deferred : ℕ) (pkts : ℕ → DeferredPkt) where
  abbrev ready : ℕ → ℕ → DeferredPkt
  ready n = init_loop now number deferred n pkts

  init_loop_outside : (n i : ℕ) → (i < deferred) ⊎ (deferred + n ≤ i) → ready n i ≡ pkts i
  unfolding init_loop
  init_loop_outside zero i h = refl
  init_loop_outside (suc n) i h =
      update_other (ready n) (deferred + n)
        (deferred_pkt_init (now (n + n)) (now (n + n + 1)) number) i (ground (arith, h))
      ∙ init_loop_outside n i (ground (arith, h))

  init_loop_inside :
      (n j : ℕ)
      → j < n
      → ready n (deferred + j) ≡ deferred_pkt_init (now (j + j)) (now (j + j + 1)) number
  unfolding init_loop
  init_loop_inside zero j h = absurd (omega (arith, h))
  init_loop_inside (suc n) j h =
      let fresh = deferred_pkt_init (now (n + n)) (now (n + n + 1)) number in
      elim (equal_or_not j n) [
        | inl e ↦ rw e (update_self (ready n) (deferred + n) fresh)
        | inr ne ↦
            update_other (ready n) (deferred + n) fresh (deferred + j) (λ e. ne (omega (arith, e)))
            ∙ init_loop_inside n j (omega (arith, h, ne))
      ]

  -- A writer's packets are made ready one by one: each of the `n` packets from `deferred` on belongs
  -- to the writer, was deferred no time, was sent at the reading of the clock for it, and waits for
  -- no time; the memory before and behind them stays as it is.
  pub init_loop_lem :
      (n i j : ℕ)
      → (i < deferred) ⊎ (deferred + n ≤ i)
      → j < n
      → ((ready n (deferred + j)).writer ≡ number)
        × ((ready n (deferred + j)).n_cnt ≡ 0)
        × ((ready n (deferred + j)).sent ≡ now (j + j))
        × ((ready n (deferred + j)).tv ≡ record { tv_sec = 0; tv_usec = 0 })
        × (ready n i ≡ pkts i)
  unfolding deferred_pkt_init
  init_loop_lem n i j outside inside =
      let e = init_loop_inside n j inside in
      (
        ap (λ d. d.writer) e,
        ap (λ d. d.n_cnt) e,
        ap (λ d. d.sent) e,
        ap (λ d. d.tv) e,
        init_loop_outside n i outside,
      )
