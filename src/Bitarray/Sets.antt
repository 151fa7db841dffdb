-- ===== src/Bitarray/Sets.antt =====
-- A message that an encoder makes by setting bits, each under a condition: which bits are set and
-- which bytes stay as they were.
use mn_protozoa.Base.{
  ℕ, ◌/◌, ◌%◌, ◌^◌, bit_and, ◌<◌, ◌≡◌, refl, ◌∙◌, Bool, true, false, not, ◌&&◌, ◌||◌, List, [], ◌∷◌,
  ◌++◌, ◌==◌, ltb, arith, length, Bool-cases, inl, inr, if◌then◌else◌,
}
use mn_protozoa.Base.Bits.{bit_and-bit_or, bit_or-zero}
use mn_protozoa.Bitarray.{
  byte_at, bit_is_set, bit_set, bit_is_set-bit_set, byte_at-bit_set, length-bit_set, set_byte,
}

unfoldable pub set_bits : List (Bool × ℕ) → List ℕ → List ℕ
set_bits [] m = m
set_bits ((t, b) ∷ bs) m = set_bits bs (if t then bit_set m b else m)

-- Whether one of them sets the bit `c`.
abbrev pub sets : List (Bool × ℕ) → ℕ → Bool
sets [] c = false
sets ((t, b) ∷ bs) c = (t && b == c) || sets bs c

-- All of them lie in a message of `n` bytes, or none of them in byte `i`.
abbrev pub all_inside : List (Bool × ℕ) → ℕ → Bool
all_inside [] n = true
all_inside ((t, b) ∷ bs) n = ltb (b / 8) n && all_inside bs n

abbrev pub none_in : List (Bool × ℕ) → ℕ → Bool
none_in [] i = true
none_in ((t, b) ∷ bs) i = not (b / 8 == i) && none_in bs i

length-if : (t : Bool) (b : ℕ) (m : List ℕ) → length (if t then bit_set m b else m) ≡ length m
length-if true b m = length-bit_set m b
length-if false b m = refl

pub length-set_bits : (bs : List (Bool × ℕ)) (m : List ℕ) → length (set_bits bs m) ≡ length m
unfolding set_bits
length-set_bits [] m = refl
length-set_bits ((t, b) ∷ bs) m =
    length-set_bits bs (if t then bit_set m b else m) ∙ length-if t b m

bit_is_set-if :
    (t : Bool) (b c : ℕ) (m : List ℕ)
    → b / 8 < length m
    → bit_is_set (if t then bit_set m b else m) c ≡ ((t && b == c) || bit_is_set m c)
bit_is_set-if true b c m h = bit_is_set-bit_set m b c h
bit_is_set-if false b c m h = refl

||_swap : (a b c : Bool) → (a || (b || c)) ≡ ((b || a) || c)
||_swap true true c = refl
||_swap true false c = refl
||_swap false true c = refl
||_swap false false c = refl

pub bit_is_set-set_bits :
    (bs : List (Bool × ℕ)) (m : List ℕ) (c : ℕ)
    → all_inside bs (length m) ≡ true
    → bit_is_set (set_bits bs m) c ≡ (sets bs c || bit_is_set m c)
unfolding set_bits
bit_is_set-set_bits [] m c h = refl
bit_is_set-set_bits ((t, b) ∷ bs) m c h =
    bit_is_set-set_bits bs (if t then bit_set m b else m) c
      (rw (length-if t b m) (ground (arith, h)))
    ∙ rw (bit_is_set-if t b c m (ground (arith, h)))
        (||_swap (sets bs c) (t && b == c) (bit_is_set m c))

byte_at-if :
    (t : Bool) (b i : ℕ) (m : List ℕ)
    → (b / 8 == i) ≡ false
    → byte_at (if t then bit_set m b else m) i ≡ byte_at m i
byte_at-if true b i m h = byte_at-bit_set m b i (ground (arith, h))
byte_at-if false b i m h = refl

pub byte_at-set_bits :
    (bs : List (Bool × ℕ)) (m : List ℕ) (i : ℕ)
    → none_in bs i ≡ true
    → byte_at (set_bits bs m) i ≡ byte_at m i
unfolding set_bits
byte_at-set_bits [] m i h = refl
byte_at-set_bits ((t, b) ∷ bs) m i h =
    byte_at-set_bits bs (if t then bit_set m b else m) i (ground (arith, h))
    ∙ byte_at-if t b i m (ground (arith, h))

pub set_bits-append :
    (xs ys : List (Bool × ℕ)) (m : List ℕ) → set_bits (xs ++ ys) m ≡ set_bits ys (set_bits xs m)
unfolding set_bits
set_bits-append [] ys m = refl
set_bits-append ((t, b) ∷ xs) ys m = set_bits-append xs ys (if t then bit_set m b else m)

-- None of the bits shows under a mask of byte `i`.
abbrev pub none_under : List (Bool × ℕ) → ℕ → ℕ → Bool
none_under [] i mask = true
none_under ((t, b) ∷ bs) i mask =
    (not (b / 8 == i) || bit_and (2 ^ (b % 8)) mask == 0) && none_under bs i mask

masked-bit_set :
    (m : List ℕ) (b i mask : ℕ)
    → b / 8 < length m
    → (not (b / 8 == i) || bit_and (2 ^ (b % 8)) mask == 0) ≡ true
    → bit_and (byte_at (bit_set m b) i) mask ≡ bit_and (byte_at m i) mask
masked-bit_set m b i mask inside h = elim (Bool-cases (b / 8 == i)) [
  | inl e ↦
      let e' : b / 8 ≡ i = ground (arith, e) in
      let clear : bit_and (2 ^ (b % 8)) mask ≡ 0 = ground (arith, e, h) in
      rw (← e', set_byte m b inside, bit_and-bit_or (byte_at m (b / 8)) (2 ^ (b % 8)) mask, clear)
        (bit_or-zero (bit_and (byte_at m (b / 8)) mask))
  | inr e ↦ rw (byte_at-bit_set m b i (ground (arith, e))) refl
]

masked-if :
    (t : Bool) (m : List ℕ) (b i mask : ℕ)
    → b / 8 < length m
    → (not (b / 8 == i) || bit_and (2 ^ (b % 8)) mask == 0) ≡ true
    → bit_and (byte_at (if t then bit_set m b else m) i) mask ≡ bit_and (byte_at m i) mask
masked-if true m b i mask inside h = masked-bit_set m b i mask inside h
masked-if false m b i mask inside h = refl

&&-parts : (a b : Bool) → (a && b) ≡ true → (a ≡ true) × (b ≡ true)
&&-parts true b h = (refl, h)
&&-parts false b h = cc

pub masked-set_bits :
    (bs : List (Bool × ℕ)) (m : List ℕ) (i mask : ℕ)
    → all_inside bs (length m) ≡ true
    → none_under bs i mask ≡ true
    → bit_and (byte_at (set_bits bs m) i) mask ≡ bit_and (byte_at m i) mask
unfolding set_bits
masked-set_bits [] m i mask h k = refl
masked-set_bits ((t, b) ∷ bs) m i mask h k =
    let (here, rest) =
      &&-parts (not (b / 8 == i) || bit_and (2 ^ (b % 8)) mask == 0) (none_under bs i mask) k in
    masked-set_bits bs (if t then bit_set m b else m) i mask
      (rw (length-if t b m) (ground (arith, h))) rest
    ∙ masked-if t m b i mask (ground (arith, h)) here
