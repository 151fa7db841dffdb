-- ===== src/Defer/Waiting.antt =====
-- Which packets wait in the tree of src/defer.c.
use mn_protozoa.Base.{
  ℕ, ◌+◌, ◌≤◌, ◌<◌, ◌≡◌, ◌≢◌, inl, inr, refl, ap, ap₂, ◌∙◌, Bool, true, false, ◌==◌, Option, none,
  some, List, ◌∷◌, arith, if◌then◌else◌,
}
use mn_protozoa.Base.Int.{negsuc}
use mn_protozoa.Timeval
use mn_protozoa.Timeval.{Timeval, Compare}
use mn_protozoa.Timer.{Timers}
use mn_protozoa.Ccpacket.Packet
use mn_protozoa.Ccpacket.Packet.{Ccpacket}
use mn_protozoa.Defer.Queue.{Tree, TreeLaws, Ordered, Removed}
use mn_protozoa.Defer.Engine.{
  DeferredPkt, Defer, update, compare_pkts, take_out, added, put_in, defer_rearm, defer_packet,
}
use mn_protozoa.Defer.Order.{same-defer_rearm}
use mn_protozoa.Defer.Lists.{times, times-append, Ordered-agree, compare_pkts-IsOrder}

-- A removal puts nothing in.
times-Removed :
    (c : ℕ → ℕ → Compare) (i : ℕ) (all left : List ℕ)
    → Removed c i all left
    → (j : ℕ) → times j left ≤ times j all
times-Removed c i all left (inl (same, absent)) j = rw same (omega arith)
times-Removed c i all left (inr (xs, ys, k, split, same_time, rest)) j =
    let was : times j all ≡ times j xs + ((if k == j then 1 else 0) + times j ys) =
      ap (times j) split ∙ times-append j xs (k ∷ ys) in
    let is : times j left ≡ times j xs + times j ys = ap (times j) rest ∙ times-append j xs ys in
    omega (arith, was, is)

-- A write to the packet at `i` keeps the order of a list without it.
pub reordered :
    (pkts pkts' : ℕ → DeferredPkt) (i : ℕ) (l : List ℕ)
    → ((j : ℕ) → j ≢ i → pkts' j ≡ pkts j)
    → times i l ≡ 0
    → Ordered (compare_pkts pkts) l
    → Ordered (compare_pkts pkts') l
reordered pkts pkts' i l same absent ordered =
    Ordered-agree (compare_pkts pkts) (compare_pkts pkts') i
      (λ j k nj nk. ap₂ (λ a b. Timeval.compare a.tv b.tv) (same j nj) (same k nk)) l absent ordered

module _ {T S : Type 0} (tree : Tree T) (laws : TreeLaws tree) where
  -- The packet at `i` stands in the tree.
  abbrev pub Waits : ℕ → Defer T S → Type 0
  Waits i dfr = 0 < times i (laws.items dfr.tree)

  module _ (timers : Timers S) (i : ℕ)
      (room : (c : ℕ → ℕ → Compare) (t : T) → tree.add c i t ≢ none) where
    added-Waits :
        (dfr : Defer T S) (pkts : ℕ → DeferredPkt) (c : ℕ → ℕ → Compare) (t : T) (o : Option T)
        → tree.add c i t ≡ o
        → Waits i (added tree timers dfr pkts o).1
    added-Waits dfr pkts c t none e = absurd (room c t e)
    added-Waits dfr pkts c t (some t') e =
        let (xs, ys, split, joined) = laws.add_lem c i t t' e in
        let is : times i (laws.items t') ≡ times i xs + (1 + times i ys) =
          ap (times i) joined ∙ times-append i xs (i ∷ ys) ∙ ground arith in
        omega (arith, is)

    armed-Waits :
        (later : Timeval) (out : Bool × Defer T S)
        → Waits i out.1
        → Waits i (if out.0 then defer_rearm tree timers later out.1 else (negsuc 0, out.1)).1
    armed-Waits later (true, dfr) h = rw ((same-defer_rearm tree laws timers later dfr).0) h
    armed-Waits later (false, dfr) h = h

    put_in-Waits :
        (now : Timeval) (dfr : Defer T S) (p : Ccpacket) (ms : ℕ)
        → Waits i (put_in tree timers now dfr i p ms).1
    unfolding put_in
    put_in-Waits now dfr p ms =
        let dpkt : DeferredPkt = record (dfr.pkts i) {
          tv = Timeval.adjust now ms;
          packet = Packet.copy (dfr.pkts i).packet p;
        } in
        let pkts = update dfr.pkts i dpkt in
        added-Waits dfr pkts (compare_pkts pkts) dfr.tree (tree.add (compare_pkts pkts) i dfr.tree)
          refl

    -- Where a node can be allocated, a packet that was deferred waits.
    pub defer_packet-Waits :
        (now later : Timeval) (dfr : Defer T S) (p : Ccpacket) (ms : ℕ)
        → Waits i (defer_packet tree timers now later dfr i (some p) ms).1
    unfolding defer_packet
    defer_packet-Waits now later dfr p ms =
        let rest = take_out tree timers dfr i in
        armed-Waits later (put_in tree timers now rest i p ms) (put_in-Waits now rest p ms)

  -- A packet that does not wait does not wait after it was taken out again.
  pub still_out :
      (timers : Timers S) (now later : Timeval) (dfr : Defer T S) (i ms : ℕ)
      → Ordered (compare_pkts dfr.pkts) (laws.items dfr.tree)
      → times i (laws.items dfr.tree) ≡ 0
      → times i (laws.items (defer_packet tree timers now later dfr i none ms).1.tree) ≡ 0
  unfolding defer_packet take_out
  still_out timers now later dfr i ms ordered absent =
      let removed =
        laws.remove_lem (compare_pkts dfr.pkts) i dfr.tree (compare_pkts-IsOrder dfr.pkts)
          ordered in
      let fewer =
        times-Removed (compare_pkts dfr.pkts) i (laws.items dfr.tree)
          (laws.items (tree.remove (compare_pkts dfr.pkts) i dfr.tree)) removed i in
      rw ((same-defer_rearm tree laws timers later (take_out tree timers dfr i)).0)
        (omega (arith, fewer, absent))
