-- ===== src/Base/Int.antt =====
-- Signed integers, for the `int` and `long` values of the source. `negsuc n` is -(n + 1).
-- No operation of the source on these values overflows its width at the values it meets, except
-- where a cast to an unsigned type is written out (`u8`, `u32`).
use Prim.Native.Nat.{ℕ, suc, ◌+◌, ◌-◌, ◌*◌, ◌/◌, ◌%◌, ◌^◌, ◌≤◌, ◌<◌, bit_and}
use mathlib.Core.Path.{◌≡◌, refl}
use mathlib.Core.Bool.{Bool, true}
use native.Mathlib.Omega.{arith}
use mn_protozoa.Base.Tests.{ltb, leb, if◌then◌else◌}

pub data ℤ : Type 0 where
  pos : ℕ → ℤ
  negsuc : ℕ → ℤ

abbrev pub pos_part : ℤ → ℕ
pos_part (pos n) = n
pos_part (negsuc n) = 0

abbrev pub neg_part : ℤ → ℕ
neg_part (pos n) = 0
neg_part (negsuc n) = suc n

-- a - b, as an integer.
abbrev pub sub_ℕ : ℕ → ℕ → ℤ
sub_ℕ a b = if leb b a then pos (a - b) else negsuc (b - a - 1)

abbrev pub neg : ℕ → ℤ
neg n = sub_ℕ 0 n

infixl 65 ◌+ℤ◌ ◌-ℤ◌
infixl 70 ◌*ℤ◌
infix 50 ◌≤ℤ◌ ◌<ℤ◌
abbrev pub ◌+ℤ◌ : ℤ → ℤ → ℤ
a +ℤ b = sub_ℕ (pos_part a + pos_part b) (neg_part a + neg_part b)

abbrev pub ◌-ℤ◌ : ℤ → ℤ → ℤ
a -ℤ b = sub_ℕ (pos_part a + neg_part b) (neg_part a + pos_part b)

abbrev pub ◌*ℤ◌ : ℤ → ℤ → ℤ
a *ℤ b =
    sub_ℕ (pos_part a * pos_part b + neg_part a * neg_part b)
      (pos_part a * neg_part b + neg_part a * pos_part b)

abbrev pub ◌≤ℤ◌ : ℤ → ℤ → Type 0
a ≤ℤ b = pos_part a + neg_part b ≤ pos_part b + neg_part a

abbrev pub ◌<ℤ◌ : ℤ → ℤ → Type 0
a <ℤ b = pos_part a + neg_part b < pos_part b + neg_part a

abbrev pub ltb_ℤ : ℤ → ℤ → Bool
ltb_ℤ a b = ltb (pos_part a + neg_part b) (pos_part b + neg_part a)

abbrev pub leb_ℤ : ℤ → ℤ → Bool
leb_ℤ a b = leb (pos_part a + neg_part b) (pos_part b + neg_part a)

-- An `int` in a Boolean context.
abbrev pub nonzero_ℤ : ℤ → Bool
nonzero_ℤ (pos n) = ltb 0 n
nonzero_ℤ (negsuc n) = true

-- `abs`
abbrev pub abs : ℤ → ℕ
abs (pos n) = n
abs (negsuc n) = suc n

-- Division and remainder of C round towards zero.
abbrev pub quot : ℤ → ℕ → ℤ
quot (pos n) m = pos (n / m)
quot (negsuc n) m = neg (suc n / m)

abbrev pub rem : ℤ → ℕ → ℤ
rem (pos n) m = pos (n % m)
rem (negsuc n) m = neg (suc n % m)

-- `x >> k`, an arithmetic shift (as gcc makes it).
abbrev pub shr : ℤ → ℕ → ℤ
shr (pos n) k = pos (n / 2 ^ k)
shr (negsuc n) k = negsuc (n / 2 ^ k)

-- The bit pattern of an `int`, and its cast to `uint8_t`.
abbrev pub u32 : ℤ → ℕ
u32 (pos n) = n % 2 ^ 32
u32 (negsuc n) = 2 ^ 32 - 1 - n % 2 ^ 32

abbrev pub u8 : ℤ → ℕ
u8 (pos n) = n % 2 ^ 8
u8 (negsuc n) = 2 ^ 8 - 1 - n % 2 ^ 8

-- `x & m` for a mask `m` that is not negative.
abbrev pub mask_ℤ : ℤ → ℕ → ℕ
mask_ℤ x m = bit_and (u32 x) m

-- An integer between two numbers is one of them.
pub between_pos :
    (x : ℤ) (lo hi : ℕ) → pos lo ≤ℤ x → x ≤ℤ pos hi → (n : ℕ) × (x ≡ pos n) × (lo ≤ n) × (n ≤ hi)
between_pos (pos n) lo hi p q = (n, refl, omega arith, omega arith)
between_pos (negsuc n) lo hi p q = absurd (omega arith)
