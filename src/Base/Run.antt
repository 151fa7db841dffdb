-- ===== src/Base/Run.antt =====
-- The outcome of code that can fail an `assert`, or that loops on fuel.

pub data Run {ℓ} (A : Type ℓ) : Type ℓ where
  done : A → Run A
  aborted : Run A
  out_of_fuel : Run A

infixl 5 ◌>>=◌
abbrev pub ◌>>=◌ {ℓ κ} : {A : Type ℓ} {B : Type κ} → Run A → (A → Run B) → Run B
done a >>= f = f a
aborted >>= f = aborted
out_of_fuel >>= f = out_of_fuel

-- The run returns, and what it returns has the property.
abbrev pub Returns {ℓ} : {A : Type ℓ} → Run A → (A → Type 0) → Type 0
Returns (done a) P = P a
Returns aborted P = ⊥
Returns out_of_fuel P = ⊥
