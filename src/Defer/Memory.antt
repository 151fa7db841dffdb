-- ===== src/Defer/Memory.antt =====
-- The memory that holds the deferred packets of src/defer.c.
use mn_protozoa.Base.{ℕ, ◌≡◌, ◌≢◌, ◌⊎◌, inl, inr, ap, ◌∙◌, ◌==◌, Bool-cases, arith}
use mn_protozoa.Defer.Engine.{DeferredPkt, update}

pub equal_or_not : (j i : ℕ) → (j ≡ i) ⊎ (j ≢ i)
equal_or_not j i = elim (Bool-cases (j == i)) [
  | inl e ↦ inl (ground arith)
  | inr e ↦ inr (λ same. ground arith)
]

module _ (pkts : ℕ → DeferredPkt) (i : ℕ) (dpkt : DeferredPkt) where
  pub update_self : update pkts i dpkt i ≡ dpkt
  update_self = ground arith

  pub update_other : (j : ℕ) → j ≢ i → update pkts i dpkt j ≡ pkts j
  update_other j ne = ground arith

  -- What the write does not change.
  pub update_field {ℓ} :
      {A : Type ℓ} (field : DeferredPkt → A) (j : ℕ)
      → field dpkt ≡ field (pkts i)
      → field (update pkts i dpkt j) ≡ field (pkts j)
  update_field field j h = elim (equal_or_not j i) [
    | inl e ↦ rw e (ap field update_self ∙ h)
    | inr ne ↦ ap field (update_other j ne)
  ]
