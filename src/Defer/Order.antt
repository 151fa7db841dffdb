-- ===== src/Defer/Order.antt =====
-- The order of the deferred packets of src/defer.c.
use mn_protozoa.Base.{
  ℕ, ◌+◌, ◌≤◌, ◌<◌, ◌≡◌, ◌≢◌, inl, inr, refl, ap, ap₂, ◌∙◌, Bool, true, false, ◌==◌, Option, none,
  some, ◌∷◌, arith, if◌then◌else◌,
}
use mn_protozoa.Base.Int.{negsuc}
use mn_protozoa.Timeval
use mn_protozoa.Timeval.{Timeval, Compare, less, equal, greater}
use mn_protozoa.Timer.{Timers}
use mn_protozoa.Ccpacket.Packet
use mn_protozoa.Ccpacket.Packet.{Ccpacket}
use mn_protozoa.Defer.Queue.{Tree, TreeLaws, Ordered}
use mn_protozoa.Defer.Engine.{
  DeferredPkt, Defer, update, compare_pkts, take_out, added, put_in, defer_rearm, defer_packet,
}
use mn_protozoa.Defer.Memory.{equal_or_not, update_other}
use mn_protozoa.Defer.Lists.{
  times, times-append, Ordered-agree, compare_pkts-IsOrder, compare_self, Left, removed_lem,
}

module _ {T S : Type 0} (tree : Tree T) (laws : TreeLaws tree) where
  -- The tree is in the order of the times to send, and holds no packet twice.
  pub record IsQueue (dfr : Defer T S) : Type 0 where
    pub ordered : Ordered (compare_pkts dfr.pkts) (laws.items dfr.tree)
    pub once : (j : ℕ) → times j (laws.items dfr.tree) ≤ 1

  -- No other waiting packet has the very time of the packet at `i`.
  abbrev pub Alone : ℕ → Defer T S → Type 0
  Alone i dfr =
      (j : ℕ) → 0 < times j (laws.items dfr.tree) → j ≢ i → compare_pkts dfr.pkts j i ≢ equal

  -- What is left when the packet at `i` is taken out.
  pub take_out_lem :
      (timers : Timers S) (dfr : Defer T S) (i : ℕ)
      → IsQueue dfr
      → Alone i dfr
      → Left
          (compare_pkts dfr.pkts)
          i
          (laws.items dfr.tree)
          (laws.items (take_out tree timers dfr i).tree)
  unfolding take_out
  take_out_lem timers dfr i queue alone =
      removed_lem (compare_pkts dfr.pkts) i (laws.items dfr.tree)
        (laws.items (tree.remove (compare_pkts dfr.pkts) i dfr.tree)) (compare_self dfr.pkts i)
        queue.ordered queue.once alone
        (laws.remove_lem (compare_pkts dfr.pkts) i dfr.tree (compare_pkts-IsOrder dfr.pkts)
          queue.ordered)

  IsQueue-same :
      (dfr dfr' : Defer T S)
      → dfr'.tree ≡ dfr.tree
      → dfr'.pkts ≡ dfr.pkts
      → IsQueue dfr
      → IsQueue dfr'
  IsQueue-same dfr dfr' et ep queue = record {
    ordered = rw (et, ep) queue.ordered;
    once = λ j. rw et (queue.once j);
  }

  module _ (timers : Timers S) where
    pub same-defer_rearm :
        (now : Timeval) (dfr : Defer T S)
        → ((defer_rearm tree timers now dfr).1.tree ≡ dfr.tree)
          × ((defer_rearm tree timers now dfr).1.pkts ≡ dfr.pkts)
    unfolding defer_rearm
    same-defer_rearm now dfr = (ground arith, ground arith)

    defer_rearm-IsQueue :
        (now : Timeval) (dfr : Defer T S)
        → IsQueue dfr
        → IsQueue (defer_rearm tree timers now dfr).1
    defer_rearm-IsQueue now dfr queue =
        let (et, ep) = same-defer_rearm now dfr in
        IsQueue-same dfr (defer_rearm tree timers now dfr).1 et ep queue

    module _ (dfr : Defer T S) (i : ℕ) (queue : IsQueue dfr) (alone : Alone i dfr) where
      take_out-IsQueue : IsQueue (take_out tree timers dfr i)
      unfolding take_out
      take_out-IsQueue =
          let (ordered, absent, fewer) = take_out_lem timers dfr i queue alone in
          record { ordered = ordered; once = λ j. omega (arith, fewer j, queue.once j) }

      -- The packet put in with another time, behind those that are to be sent no later.
      put_in-IsQueue :
          (now : Timeval) (p : Ccpacket) (ms : ℕ)
          → IsQueue (put_in tree timers now (take_out tree timers dfr i) i p ms).1
      unfolding put_in take_out
      put_in-IsQueue now p ms = by_add (tree.add c' i rest) refl
        where
          rest : T
          rest = (take_out tree timers dfr i).tree

          dpkt : DeferredPkt
          dpkt = record (dfr.pkts i) {
            tv = Timeval.adjust now ms;
            packet = Packet.copy (dfr.pkts i).packet p;
          }

          c' : ℕ → ℕ → Compare
          c' = compare_pkts (update dfr.pkts i dpkt)

          agree : (j k : ℕ) → j ≢ i → k ≢ i → c' j k ≡ compare_pkts dfr.pkts j k
          agree j k nj nk =
              ap₂ (λ a b. Timeval.compare a.tv b.tv) (update_other dfr.pkts i dpkt j nj)
                (update_other dfr.pkts i dpkt k nk)

          removed : Left (compare_pkts dfr.pkts) i (laws.items dfr.tree) (laws.items rest)
          removed = take_out_lem timers dfr i queue alone

          ordered' : Ordered c' (laws.items rest)
          ordered' =
              Ordered-agree (compare_pkts dfr.pkts) c' i agree (laws.items rest) (removed.1)
                (removed.0)

          by_add :
              (o : Option T)
              → tree.add c' i rest ≡ o
              → IsQueue
                  (added tree timers (take_out tree timers dfr i) (update dfr.pkts i dpkt) o).1
          by_add none e = record {
            ordered = ordered';
            once = λ j. omega (arith, removed.2 j, queue.once j);
          }
          by_add (some t) e =
              let (xs, ys, split, joined) = laws.add_lem c' i rest t e in
              let in_order : Ordered c' (laws.items t) =
                laws.order_lem c' i rest t (compare_pkts-IsOrder (update dfr.pkts i dpkt)) ordered'
                  e in
              let was : (k : ℕ) → times k (laws.items rest) ≡ times k xs + times k ys =
                λ k. ap (times k) split ∙ times-append k xs ys in
              let is : (k : ℕ)
                  → times k (laws.items t) ≡ times k xs + ((if i == k then 1 else 0) + times k ys) =
                λ k. ap (times k) joined ∙ times-append k xs (i ∷ ys) in
              record {
                ordered = in_order;
                once = λ k. elim (equal_or_not k i) [
                  | inl same ↦ rw same (ground (arith, was i, is i, removed.1))
                  | inr ne ↦ ground (arith, ne, was k, is k, removed.2 k, queue.once k)
                ];
              }

      -- A waiting packet, or one that is to wait, is deferred to another time, or taken out where
      -- `p` is nothing. If no other waiting packet has the very time that it had, the tree stays in
      -- the order of the times to send and holds each packet once at most. This holds too where no
      -- node can be allocated.
      pub defer_packet-IsQueue :
          (now later : Timeval) (p : Option Ccpacket) (ms : ℕ)
          → IsQueue (defer_packet tree timers now later dfr i p ms).1
      unfolding defer_packet
      defer_packet-IsQueue now later none ms =
          defer_rearm-IsQueue later (take_out tree timers dfr i) take_out-IsQueue
      defer_packet-IsQueue now later (some p) ms =
          armed (put_in tree timers now (take_out tree timers dfr i) i p ms)
            (put_in-IsQueue now p ms)
        where
          armed :
              (out : Bool × Defer T S)
              → IsQueue out.1
              → IsQueue (if out.0 then defer_rearm tree timers later out.1 else (negsuc 0, out.1)).1
          armed (true, d) h = defer_rearm-IsQueue later d h
          armed (false, d) h = h
