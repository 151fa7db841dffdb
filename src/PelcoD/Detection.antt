-- ===== src/PelcoD/Detection.antt =====
-- The checksum of a message of src/pelco_d.c: what it is, and what it detects.
use mn_protozoa.Base.{
  ℕ, ◌+◌, ◌%◌, ◌^◌, ◌≤◌, ◌<◌, ◌≡◌, ◌≢◌, ◌∙◌, ap, Bool-cases, inl, inr, true, false, List, arith,
  if◌then◌else◌, ◌==◌, set, length, length-set, get_or-set_self, get_or-set_ne,
}
use mn_protozoa.Bitarray.{byte_at}
use mn_protozoa.PelcoD.Checksum.{calculate_checksum}
use mn_protozoa.PelcoD.Decode.{checksum_is_valid}
use mn_protozoa.PelcoD.Encode.{encode_checksum}

-- The sum of the five bytes between the flag and the checksum.
abbrev pub sum_of : List ℕ → ℕ
sum_of m = byte_at m 1 + (byte_at m 2 + (byte_at m 3 + (byte_at m 4 + byte_at m 5)))

calculate_checksum-eq : (m : List ℕ) → calculate_checksum m ≡ sum_of m % 2 ^ 8
unfolding calculate_checksum
calculate_checksum-eq m = ground arith

byte_at-set :
    (m : List ℕ) (i v j : ℕ)
    → i < length m
    → byte_at (set m i v) j ≡ (if j == i then v else byte_at m j)
byte_at-set m i v j h = elim (Bool-cases (j == i)) [
  | inl same ↦
      let e : j ≡ i = ground (arith, same) in
      rw same (ap (byte_at (set m i v)) e ∙ get_or-set_self m i v 0 h)
  | inr other ↦ rw other (get_or-set_ne m i j v 0 (λ e. ground (arith, other, e)))
]

filled : (m : List ℕ) → length m ≡ 7 → checksum_is_valid (set m 6 (calculate_checksum m)) ≡ true
unfolding checksum_is_valid
filled m e =
    let c = calculate_checksum m in
    ground (
      arith,
      calculate_checksum-eq m,
      calculate_checksum-eq (set m 6 c),
      byte_at-set m 6 c 1 (omega (arith, e)),
      byte_at-set m 6 c 2 (omega (arith, e)),
      byte_at-set m 6 c 3 (omega (arith, e)),
      byte_at-set m 6 c 4 (omega (arith, e)),
      byte_at-set m 6 c 5 (omega (arith, e)),
      byte_at-set m 6 c 6 (omega (arith, e)),
    )

change_detected :
    (m : List ℕ) (i v : ℕ)
    → i < length m
    → checksum_is_valid m ≡ true
    → 1 ≤ i
    → i ≤ 6
    → v < 256
    → byte_at m i < 256
    → v ≢ byte_at m i
    → checksum_is_valid (set m i v) ≡ false
unfolding checksum_is_valid
change_detected m i v h ok lo hi small byte ne = ground (
  arith,
  calculate_checksum-eq m,
  calculate_checksum-eq (set m i v),
  byte_at-set m i v 1 h,
  byte_at-set m i v 2 h,
  byte_at-set m i v 3 h,
  byte_at-set m i v 4 h,
  byte_at-set m i v 5 h,
  byte_at-set m i v 6 h,
  ok,
)

-- Filling in the checksum of a message of seven bytes puts the sum of its second to sixth byte,
-- taken modulo 256, into the last, and the message passes the checksum test. With any one of the six
-- bytes behind the flag, which is less than 256, changed to another value less than 256, it does not
-- pass.
pub checksum_filled :
    (m : List ℕ) (i v : ℕ)
    → length m ≡ 7
    → let sent = encode_checksum m in
      1 ≤ i
      → i ≤ 6
      → byte_at sent i < 256
      → v < 256
      → v ≢ byte_at sent i
      → (byte_at sent 6 ≡ sum_of m % 256)
        × (checksum_is_valid sent ≡ true)
        × (checksum_is_valid (set sent i v) ≡ false)
unfolding encode_checksum
checksum_filled m i v e lo hi byte small ne =
    let c = calculate_checksum m in
    let passes : checksum_is_valid (set m 6 c) ≡ true = filled m e in
    (
      get_or-set_self m 6 c 0 (omega (arith, e)) ∙ calculate_checksum-eq m,
      passes,
      change_detected (set m 6 c) i v (omega (arith, e, hi, length-set m 6 c)) passes lo hi small
          byte ne,
    )
