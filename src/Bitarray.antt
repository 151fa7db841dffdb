-- ===== src/Bitarray.antt =====
-- src/bitarray.h: bits of a message, numbered through its bytes.
pub mod Sets
use mn_protozoa.Base.{
  ℕ, zero, suc, ◌/◌, ◌%◌, ◌^◌, ◌<◌, ◌≡◌, ◌≢◌, refl, Bool, true, false, ◌||◌, List, ◌==◌, arith,
  bit_and, bit_or, nonzero, get_or, set, length, length-set, get_or-set_self, get_or-set_ne,
  replicate, Bool-cases, inl, inr,
}
use mn_protozoa.Base.Bits.{bit_and-bit_or, bit_or-zero, zero-bit_and, le-bit_or}
use native.Mathlib.Nat.{one-le-pow}
use mn_protozoa.Base.Table.{all_below, all_below_sound}

-- `mess[i]`
abbrev pub byte_at : List ℕ → ℕ → ℕ
byte_at mess i = get_or mess i 0

unfoldable pub bit_is_set : List ℕ → ℕ → Bool
bit_is_set mess bit = nonzero (bit_and (byte_at mess (bit / 8)) (2 ^ (bit % 8)))

unfoldable pub bit_set : List ℕ → ℕ → List ℕ
bit_set mess bit = set mess (bit / 8) (bit_or (byte_at mess (bit / 8)) (2 ^ (bit % 8)))

pub length-bit_set : (mess : List ℕ) (bit : ℕ) → length (bit_set mess bit) ≡ length mess
unfolding bit_set
length-bit_set mess bit = length-set mess (bit / 8) _

-- Two powers within a byte share a bit only if they are equal.
powers : (i j : ℕ) → Bool
powers i j = bit_and (2 ^ i) (2 ^ j) == (elim (i == j) [ true ↦ 2 ^ j | false ↦ 0 ])

powers_table : all_below 8 (λ i. all_below 8 (λ j. powers i j)) ≡ true
unfolding all_below powers
powers_table = refl

powers_all : (i j : ℕ) → i < 8 → j < 8 → powers i j ≡ true
powers_all i j hi hj =
    all_below_sound 8 (λ j. powers i j) j (all_below_sound 8 _ i powers_table hi) hj

power_self : (i : ℕ) → i < 8 → bit_and (2 ^ i) (2 ^ i) ≡ 2 ^ i
unfolding powers
power_self i h = ground (arith, powers_all i i)

power_other : (i j : ℕ) → i < 8 → j < 8 → i ≢ j → bit_and (2 ^ i) (2 ^ j) ≡ 0
unfolding powers
power_other i j hi hj ne = ground (arith, powers_all i j)

pub set_byte :
    (m : List ℕ) (b : ℕ)
    → b / 8 < length m
    → byte_at (bit_set m b) (b / 8) ≡ bit_or (byte_at m (b / 8)) (2 ^ (b % 8))
unfolding bit_set
set_byte m b h = get_or-set_self m (b / 8) _ 0 h

-- The other bytes stay.
pub byte_at-bit_set : (m : List ℕ) (b i : ℕ) → b / 8 ≢ i → byte_at (bit_set m b) i ≡ byte_at m i
unfolding bit_set
byte_at-bit_set m b i h = get_or-set_ne m (b / 8) i _ 0 h

-- A bit outside a byte that is stored stays.
pub bit_is_set-set :
    (m : List ℕ) (i v c : ℕ) → i ≢ c / 8 → bit_is_set (set m i v) c ≡ bit_is_set m c
unfolding bit_is_set
bit_is_set-set m i v c h = rw (get_or-set_ne m i (c / 8) v 0 h)

bit_is_set_self : (m : List ℕ) (b : ℕ) → b / 8 < length m → bit_is_set (bit_set m b) b ≡ true
unfolding bit_is_set
bit_is_set_self m b h =
    rw
      (
        set_byte m b h,
        bit_and-bit_or (byte_at m (b / 8)) (2 ^ (b % 8)) (2 ^ (b % 8)),
        power_self (b % 8) (omega arith),
      )
      (ground (
        arith,
        le-bit_or (bit_and (byte_at m (b / 8)) (2 ^ (b % 8))) (2 ^ (b % 8)),
        one-le-pow (b % 8) 2,
      ))

bit_is_set_same_byte :
    (m : List ℕ) (b c : ℕ)
    → b / 8 < length m
    → b / 8 ≡ c / 8
    → b % 8 ≢ c % 8
    → bit_is_set (bit_set m b) c ≡ bit_is_set m c
unfolding bit_is_set
bit_is_set_same_byte m b c h e ne =
    rw
      (
        ← e,
        set_byte m b h,
        bit_and-bit_or (byte_at m (b / 8)) (2 ^ (b % 8)) (2 ^ (c % 8)),
        power_other (b % 8) (c % 8) (omega arith) (omega arith) ne,
      )
      (rw (bit_or-zero (bit_and (byte_at m (b / 8)) (2 ^ (c % 8)))))

bit_is_set_other_byte :
    (m : List ℕ) (b c : ℕ) → b / 8 ≢ c / 8 → bit_is_set (bit_set m b) c ≡ bit_is_set m c
unfolding bit_is_set
bit_is_set_other_byte m b c h = rw (byte_at-bit_set m b (c / 8) h)

-- Setting a bit inside the message sets that bit and leaves every other bit as it was.
pub bit_is_set-bit_set :
    (m : List ℕ) (b c : ℕ)
    → b / 8 < length m
    → bit_is_set (bit_set m b) c ≡ (b == c || bit_is_set m c)
bit_is_set-bit_set m b c h = elim (Bool-cases (b == c)) [
  | inl e ↦ rw e (let e' : b ≡ c = ground arith in rw (← e') (bit_is_set_self m b h))
  | inr ne ↦ rw ne (elim (Bool-cases (b / 8 == c / 8)) [
    | inl e ↦ bit_is_set_same_byte m b c h (ground arith) (ground arith)
    | inr e ↦ bit_is_set_other_byte m b c (ground arith)
  ])
]

byte_at-replicate : (n i : ℕ) → byte_at (replicate n 0) i ≡ 0
byte_at-replicate zero i = refl
byte_at-replicate (suc n) zero = refl
byte_at-replicate (suc n) (suc i) = byte_at-replicate n i

-- No bit of a cleared message is set.
pub bit_is_set-replicate : (n c : ℕ) → bit_is_set (replicate n 0) c ≡ false
unfolding bit_is_set
bit_is_set-replicate n c = rw (byte_at-replicate n (c / 8)) (rw (zero-bit_and (2 ^ (c % 8))))
