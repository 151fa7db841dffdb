-- ===== src/Base/Bits.antt =====
-- Laws of `&` and `|` at variables: the flags of a packet and the bits of a message are read and
-- written with them. Each law goes digit by digit, from the equations of `Digits`.
mod Digits
pub use Digits.{zero-bit_and, zero-bit_or}
use Digits.{
  bit_and_half, bit_and_low, bit_or_half, bit_or_low, zero-bit_and, zero-bit_or, halves_eq,
}
use Prim.Native.Nat.{ℕ, zero, suc, ◌+◌, ◌*◌, ◌/◌, ◌%◌, ◌^◌, ◌≤◌, ◌<◌, min, max, bit_and, bit_or}
use mathlib.Core.Path.{◌≡◌, refl, sym, ap, ap₂, ◌∙◌}
use native.Mathlib.Nat.{pow-suc, one-le-pow}
use native.Mathlib.Omega.{arith}

bit_and-zero_fuel : (n a : ℕ) → a ≤ n → bit_and a 0 ≡ 0
bit_and-zero_fuel n zero h = zero-bit_and 0
bit_and-zero_fuel zero (suc a) h = absurd (omega arith)
bit_and-zero_fuel (suc n) (suc a) h =
    halves_eq (bit_and (suc a) 0) 0
      (bit_and_half (suc a) 0 ∙ bit_and-zero_fuel n (suc a / 2) (omega arith))
      (omega (arith, bit_and_low (suc a) 0))

pub bit_and-zero : (a : ℕ) → bit_and a 0 ≡ 0
bit_and-zero a = bit_and-zero_fuel a a (omega arith)

bit_or-zero_fuel : (n a : ℕ) → a ≤ n → bit_or a 0 ≡ a
bit_or-zero_fuel n zero h = zero-bit_or 0
bit_or-zero_fuel zero (suc a) h = absurd (omega arith)
bit_or-zero_fuel (suc n) (suc a) h =
    halves_eq (bit_or (suc a) 0) (suc a)
      (bit_or_half (suc a) 0 ∙ bit_or-zero_fuel n (suc a / 2) (omega arith))
      (omega (arith, bit_or_low (suc a) 0))

pub bit_or-zero : (a : ℕ) → bit_or a 0 ≡ a
bit_or-zero a = bit_or-zero_fuel a a (omega arith)

assoc_fuel : (n a b c : ℕ) → a ≤ n → bit_and (bit_and a b) c ≡ bit_and a (bit_and b c)
assoc_fuel n zero b c h = rw (zero-bit_and b, zero-bit_and c, zero-bit_and (bit_and b c))
assoc_fuel zero (suc a) b c h = absurd (omega arith)
assoc_fuel (suc n) (suc a) b c h =
    halves_eq _ _
      (rw
        (
          bit_and_half (bit_and (suc a) b) c,
          bit_and_half (suc a) b,
          bit_and_half (suc a) (bit_and b c),
          bit_and_half b c,
        )
        (assoc_fuel n (suc a / 2) (b / 2) (c / 2) (omega arith)))
      (omega (
        arith,
        bit_and_low (bit_and (suc a) b) c,
        bit_and_low (suc a) b,
        bit_and_low (suc a) (bit_and b c),
        bit_and_low b c,
      ))

pub bit_and_assoc : (a b c : ℕ) → bit_and (bit_and a b) c ≡ bit_and a (bit_and b c)
bit_and_assoc a b c = assoc_fuel a a b c (omega arith)

and_or_fuel : (n a b c : ℕ) → c ≤ n → bit_and (bit_or a b) c ≡ bit_or (bit_and a c) (bit_and b c)
and_or_fuel n a b zero h = simp (bit_and-zero, zero-bit_or)
and_or_fuel zero a b (suc c) h = absurd (omega arith)
and_or_fuel (suc n) a b (suc c) h =
    halves_eq _ _
      (rw
        (
          bit_and_half (bit_or a b) (suc c),
          bit_or_half a b,
          bit_or_half (bit_and a (suc c)) (bit_and b (suc c)),
          bit_and_half a (suc c),
          bit_and_half b (suc c),
        )
        (and_or_fuel n (a / 2) (b / 2) (suc c / 2) (omega arith)))
      (omega (
        arith,
        bit_and_low (bit_or a b) (suc c),
        bit_or_low a b,
        bit_or_low (bit_and a (suc c)) (bit_and b (suc c)),
        bit_and_low a (suc c),
        bit_and_low b (suc c),
      ))

-- A mask of a union is the union of the masked parts.
pub bit_and-bit_or : (a b c : ℕ) → bit_and (bit_or a b) c ≡ bit_or (bit_and a c) (bit_and b c)
bit_and-bit_or a b c = and_or_fuel c a b c (omega arith)

and_le_fuel : (n a b : ℕ) → b ≤ n → bit_and a b ≤ b
and_le_fuel n a zero h = omega (arith, bit_and-zero a)
and_le_fuel zero a (suc b) h = absurd (omega arith)
and_le_fuel (suc n) a (suc b) h = omega (
  arith,
  and_le_fuel n (a / 2) (suc b / 2) (omega arith),
  bit_and_half a (suc b),
  bit_and_low a (suc b),
)

-- A masked value is at most the mask.
pub bit_and-le : (a b : ℕ) → bit_and a b ≤ b
bit_and-le a b = and_le_fuel b a b (omega arith)

-- `|` stays within the width of its operands.
pub bit_or-lt : (k a b : ℕ) → a < 2 ^ k → b < 2 ^ k → bit_or a b < 2 ^ k
bit_or-lt zero a b p q =
    let ea : a ≡ 0 = omega arith in
    let eb : b ≡ 0 = omega arith in rw (ea, eb) (omega (arith, zero-bit_or 0))
bit_or-lt (suc k) a b p q = omega (
  arith,
  pow-suc 2 k,
  bit_or-lt k (a / 2) (b / 2) (omega (arith, pow-suc 2 k)) (omega (arith, pow-suc 2 k)),
  bit_or_half a b,
  bit_or_low a b,
)

double : (q k : ℕ) → q * 2 ^ suc k ≡ q * 2 ^ k + q * 2 ^ k
double q k = omega (arith, ap (λ (t : ℕ). q * t) (pow-suc 2 k))

-- Fields that do not overlap add up under `|`.
pub bit_or_fields : (k q r : ℕ) → r < 2 ^ k → bit_or (q * 2 ^ k) r ≡ q * 2 ^ k + r
bit_or_fields zero q r h = ground (arith, bit_or-zero (q * 2 ^ 0))
bit_or_fields (suc k) q r h = ground (
  arith,
  double q k,
  pow-suc 2 k,
  bit_or_fields k q (r / 2),
  bit_or_half (q * 2 ^ suc k) r,
  bit_or_low (q * 2 ^ suc k) r,
)

mask_fields : (k q r m : ℕ) → r < 2 ^ k → m + 1 ≡ 2 ^ k → bit_and (q * 2 ^ k + r) m ≡ r
mask_fields zero q r m h e = let e' : m ≡ 0 = omega arith in rw (e', bit_and-zero) (omega arith)
mask_fields (suc k) q r m h e = ground (
  arith,
  double q k,
  pow-suc 2 k,
  mask_fields k q (r / 2) (m / 2),
  bit_and_half (q * 2 ^ suc k + r) m,
  bit_and_low (q * 2 ^ suc k + r) m,
)

-- A mask of `k` ones keeps the remainder by `2 ^ k`.
pub bit_and_mask : (k a m : ℕ) → m + 1 ≡ 2 ^ k → bit_and a m ≡ a % 2 ^ k
bit_and_mask k a m e = ground (arith, one-le-pow k 2, mask_fields k (a / 2 ^ k) (a % 2 ^ k) m)

le_or_fuel : (n a b : ℕ) → b ≤ n → b ≤ bit_or a b
le_or_fuel n a zero h = omega arith
le_or_fuel zero a (suc b) h = absurd (omega arith)
le_or_fuel (suc n) a (suc b) h = omega (
  arith,
  le_or_fuel n (a / 2) (suc b / 2) (omega arith),
  bit_or_half a (suc b),
  bit_or_low a (suc b),
)

-- `|` takes no bit away.
pub le-bit_or : (a b : ℕ) → b ≤ bit_or a b
le-bit_or a b = le_or_fuel b a b (omega arith)

bit_or_comm_fuel : (n a b : ℕ) → a ≤ n → b ≤ n → bit_or a b ≡ bit_or b a
bit_or_comm_fuel zero a b p q =
    let ea : a ≡ 0 = omega arith in let eb : b ≡ 0 = omega arith in rw (ea, eb) refl
bit_or_comm_fuel (suc n) a b p q =
    halves_eq (bit_or a b) (bit_or b a)
      (bit_or_half a b
        ∙ bit_or_comm_fuel n (a / 2) (b / 2) (omega arith) (omega arith)
        ∙ sym (bit_or_half b a))
      (omega (arith, bit_or_low a b, bit_or_low b a))

pub bit_or_comm : (a b : ℕ) → bit_or a b ≡ bit_or b a
bit_or_comm a b = bit_or_comm_fuel (a + b) a b (omega arith) (omega arith)
