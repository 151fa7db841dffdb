-- ===== src/Defer/Lists.antt =====
-- Lists of the deferred packets of src/defer.c, in the order of their times.
use mn_protozoa.Base.{
  ℕ, ◌+◌, ◌≤◌, ◌<◌, ◌≡◌, ◌≢◌, inl, inr, ap, ◌∙◌, ◌==◌, List, [], ◌∷◌, ◌++◌, Bool-cases, arith,
  if◌then◌else◌,
}
use mn_protozoa.Timeval
use mn_protozoa.Timeval.{Timeval, Compare, less, equal, greater}
use mn_protozoa.Defer.Queue.{Before, Ordered, Removed, IsOrder}
use mn_protozoa.Defer.Engine.{DeferredPkt, compare_pkts}
use mn_protozoa.Defer.Memory.{equal_or_not}

-- How often a packet stands in a list.
abbrev pub times : ℕ → List ℕ → ℕ
times i [] = 0
times i (j ∷ js) = (if j == i then 1 else 0) + times i js

pub times-append : (i : ℕ) (xs ys : List ℕ) → times i (xs ++ ys) ≡ times i xs + times i ys
times-append i [] ys = omega arith
times-append i (x ∷ xs) ys = omega (arith, times-append i xs ys)

-- A packet that stands in a list splits it.
abbrev Splits : ℕ → List ℕ → Type 0
Splits i l = (xs : List ℕ) × (ys : List ℕ) × (l ≡ xs ++ (i ∷ ys))

pub split_at : (i : ℕ) (l : List ℕ) → 0 < times i l → Splits i l
split_at i [] h = absurd (omega (arith, h))
split_at i (j ∷ js) h = elim (equal_or_not j i) [
  | inl e ↦ ([], js, ap (λ k. k ∷ js) e)
  | inr ne ↦
      let (xs, ys, e) = split_at i js (ground (arith, h, ne)) in (j ∷ xs, ys, ap (λ l. j ∷ l) e)
]

module _ (c : ℕ → ℕ → Compare) where
  Before-remove :
      (i : ℕ) (xs : List ℕ) (j : ℕ) (ys : List ℕ)
      → Before c i (xs ++ (j ∷ ys))
      → Before c i (xs ++ ys)
  Before-remove i [] j ys (_, h) = h
  Before-remove i (x ∷ xs) j ys (a, h) = (a, Before-remove i xs j ys h)

  Ordered-remove :
      (xs : List ℕ) (j : ℕ) (ys : List ℕ) → Ordered c (xs ++ (j ∷ ys)) → Ordered c (xs ++ ys)
  Ordered-remove [] j ys (_, h) = h
  Ordered-remove (x ∷ xs) j ys (a, h) = (Before-remove x xs j ys a, Ordered-remove xs j ys h)

-- A comparison that differs at `i` only, on a list without `i`.
module _ (c c' : ℕ → ℕ → Compare) (i : ℕ) (agree : (j k : ℕ) → j ≢ i → k ≢ i → c' j k ≡ c j k) where
  Before-agree : (j : ℕ) (l : List ℕ) → j ≢ i → times i l ≡ 0 → Before c j l → Before c' j l
  Before-agree j [] ne absent h = tt
  Before-agree j (k ∷ ks) ne absent (a, h) = (
    rw (agree j k ne (ground (arith, absent))) a,
    Before-agree j ks ne (ground (arith, absent)) h,
  )

  pub Ordered-agree : (l : List ℕ) → times i l ≡ 0 → Ordered c l → Ordered c' l
  Ordered-agree [] absent h = tt
  Ordered-agree (k ∷ ks) absent (a, h) = (
    Before-agree k ks (ground (arith, absent)) (ground (arith, absent)) a,
    Ordered-agree ks (ground (arith, absent)) h,
  )

pub compare_pkts-IsOrder : (pkts : ℕ → DeferredPkt) → IsOrder (compare_pkts pkts)
unfolding Timeval.compare
compare_pkts-IsOrder pkts = record {
  total = λ i j. ground arith;
  transitive = λ i j k ij jk. ground (arith, ij, jk);
}

pub compare_self : (pkts : ℕ → DeferredPkt) (i : ℕ) → compare_pkts pkts i i ≡ equal
unfolding Timeval.compare
compare_self pkts i = ground arith

-- What is left of a list that is in order when `i` is taken out.
abbrev pub Left : (ℕ → ℕ → Compare) → ℕ → (all left : List ℕ) → Type 0
Left c i all left = Ordered c left × (times i left ≡ 0) × ((j : ℕ) → times j left ≤ times j all)

pub removed_lem :
    (c : ℕ → ℕ → Compare) (i : ℕ) (all left : List ℕ)
    → c i i ≡ equal
    → Ordered c all
    → ((j : ℕ) → times j all ≤ 1)
    → ((j : ℕ) → 0 < times j all → j ≢ i → c j i ≢ equal)
    → Removed c i all left
    → Left c i all left
removed_lem c i all left self ordered once alone (inl (same, absent)) =
    elim (Bool-cases (times i all == 0)) [
      | inl e ↦ rw same (ordered, ground (arith, e), λ j. omega arith)
      | inr e ↦
          let (xs, ys, split) = split_at i all (ground (arith, e)) in
          absurd (absent xs ys i split self)
    ]
removed_lem c i all left self ordered once alone (inr (xs, ys, j, split, same_time, rest)) =
    elim (equal_or_not j i) [
      | inl e ↦ (
        rw rest (Ordered-remove c xs j ys (rw⁻¹ split ordered)),
        ground (arith, e, was i, is i, once i),
        λ k. ground (arith, was k, is k),
      )
      | inr ne ↦ absurd (alone j (ground (arith, was j)) ne same_time)
    ]
  where
    was : (k : ℕ) → times k all ≡ times k xs + ((if j == k then 1 else 0) + times k ys)
    was k = ap (times k) split ∙ times-append k xs (j ∷ ys)

    is : (k : ℕ) → times k left ≡ times k xs + times k ys
    is k = ap (times k) rest ∙ times-append k xs ys
