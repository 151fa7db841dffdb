-- ===== src/Buffer/Inv.antt =====
-- The representation invariant of a buffer, base <= pout <= pin <= end, which is what the asserts
-- of src/buffer.c test; every operation keeps it, and the size of the block.
use mn_protozoa.Base.{
  ℕ, ◌+◌, ◌-◌, ◌≤◌, ◌<◌, ◌≡◌, some, List, ◌++◌, arith, length, take, drop, length-append,
  length-take, length-drop, if◌then◌else◌, ◌==◌,
}
use mn_protozoa.Base.Run.{done, aborted}
use mn_protozoa.Buffer.Defs.{
  Buffer, init, available, space, splice, compact, consume, append, store, take_in, bytes,
}

pub record IsValid (b : Buffer) : Type 0 where
  pub ordered : b.pout ≤ b.pin
  pub inside : b.pin ≤ length b.mem

-- A copy inside the block keeps its size.
pub length-splice :
    (mem : List ℕ) (i : ℕ) (bs : List ℕ)
    → i + length bs ≤ length mem
    → length (splice mem i bs) ≡ length mem
length-splice mem i bs h = omega (
  arith,
  length-append (take i mem) (bs ++ drop (i + length bs) mem),
  length-append bs (drop (i + length bs) mem),
  length-take i mem,
  length-drop (i + length bs) mem,
)

pub init-IsValid : (block : List ℕ) {b : Buffer} → init (some block) ≡ some b → IsValid b
unfolding init
init-IsValid block e = ground arith

pub length-pending :
    (b : Buffer) → IsValid b → length (take (available b) (drop b.pout b.mem)) ≡ available b
length-pending b v =
    omega (arith, length-take (available b) (drop b.pout b.mem), length-drop b.pout b.mem)

pub compact-IsValid :
    (b : Buffer)
    → IsValid b
    → IsValid (compact b)
      × (length (compact b).mem ≡ length b.mem)
      × (available (compact b) ≡ available b)
unfolding compact
compact-IsValid b v =
    (record { ordered = omega arith; inside = omega (arith, same) }, same, omega arith)
  where
    same : length (splice b.mem 0 (take (available b) (drop b.pout b.mem))) ≡ length b.mem
    same =
        length-splice b.mem 0 (take (available b) (drop b.pout b.mem))
          (omega (arith, length-pending b v))

-- The buffer after `buffer_consume`, where its assert holds.
abbrev pub consumed : Buffer → ℕ → Buffer
consumed b n =
    if b.pout + n == b.pin then record b { pin = 0; pout = 0 } else record b { pout = b.pout + n }

-- Consuming what is available does not fail the assert.
pub consume-eq-done :
    (b : Buffer) (n : ℕ) → IsValid b → n ≤ available b → consume b n ≡ done (consumed b n)
unfolding consume
consume-eq-done b n v h = ground arith

-- Consuming more than is available does.
pub consume-eq-aborted : (b : Buffer) (n : ℕ) → IsValid b → available b < n → consume b n ≡ aborted
unfolding consume
consume-eq-aborted b n v h = ground arith

pub consumed-IsValid :
    (b : Buffer) (n : ℕ)
    → IsValid b
    → n ≤ available b
    → IsValid (consumed b n)
      × (available (consumed b n) ≡ available b - n)
      × ((consumed b n).mem ≡ b.mem)
consumed-IsValid b n v h = ground arith

pub append-IsValid :
    (b : Buffer) (n : ℕ) {i : ℕ} {b' : Buffer}
    → IsValid b
    → append b n ≡ some (i, b')
    → IsValid b' × (i ≡ b.pin) × (b'.pin ≡ i + n) × (b'.pout ≡ b.pout) × (b'.mem ≡ b.mem)
unfolding append
append-IsValid b n v e = ground arith

pub store-IsValid :
    (b : Buffer) (i : ℕ) (bs : List ℕ) → IsValid b → i + length bs ≤ b.pin → IsValid (store b i bs)
unfolding store
store-IsValid b i bs v h = record {
  ordered = v.ordered;
  inside = omega (arith, v.inside, length-splice b.mem i bs (omega (arith, v.inside)));
}

pub take_in-IsValid :
    (b : Buffer) (bs : List ℕ) → IsValid b → length bs ≤ space b → IsValid (take_in b (bytes bs)).1
unfolding take_in
take_in-IsValid b bs v h = record {
  ordered = omega arith;
  inside = omega (arith, length-splice b.mem b.pin bs (omega arith));
}
