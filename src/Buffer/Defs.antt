-- ===== src/Buffer/Defs.antt =====
-- The operations of src/buffer.c. The block `base .. end` is a list of bytes, and the two other
-- pointers are offsets from `base`. The bytes that `malloc` hands out, and the answers of `read`
-- and `write`, are parameters.
use mn_protozoa.Base.{
  ℕ, ◌+◌, ◌-◌, Bool, Option, none, some, List, [], ◌∷◌, ◌++◌, ◌==◌, ltb, length, take, drop,
  if◌then◌else◌,
}
use mn_protozoa.Base.Run.{Run, done, aborted, out_of_fuel}

pub record Buffer : Type 0 where
  pub mem : List ℕ
  pub pin : ℕ
  pub pout : ℕ

-- `buffer_init` on what `malloc` gave, `none` for NULL.
unfoldable pub init : Option (List ℕ) → Option Buffer
init none = none
init (some block) = some (record { mem = block; pin = 0; pout = 0 })

-- `buffer_destroy`: the block is freed and the pointers are NULL.
unfoldable pub destroy : Buffer → Buffer
destroy b = record { mem = []; pin = 0; pout = 0 }

unfoldable pub clear : Buffer → Buffer
clear b = record b { pin = 0; pout = 0 }

-- `buffer_available` and `buffer_space`. Their asserts are the two halves of `Inv.IsValid`.
abbrev pub available : Buffer → ℕ
available b = b.pin - b.pout

abbrev pub is_empty : Buffer → Bool
is_empty b = available b == 0

abbrev pub space : Buffer → ℕ
space b = length b.mem - b.pin

abbrev pub is_full : Buffer → Bool
is_full b = space b == 0

-- A block copy of `bs` to offset `i`, as `memmove`, `memset` and the kernel's `read` make it.
abbrev pub splice : List ℕ → ℕ → List ℕ → List ℕ
splice mem i bs = take i mem ++ (bs ++ drop (i + length bs) mem)

unfoldable pub compact : Buffer → Buffer
compact b =
    let a = available b in
    record { mem = splice b.mem 0 (take a (drop b.pout b.mem)); pout = 0; pin = 0 + a }

-- `buffer_consume`, with its assert.
unfoldable pub consume : Buffer → ℕ → Run Buffer
unfolding clear
consume b n =
    let pout = b.pout + n in
    if ltb b.pin pout
    then aborted
    else if pout == b.pin
    then done (clear (record b { pout = pout }))
    else done (record b { pout = pout })

-- `buffer_append`: the offset of the appended bytes.
unfoldable pub append : Buffer → ℕ → Option (ℕ × Buffer)
append b n = if ltb (space b) n then none else some (b.pin, record b { pin = b.pin + n })

-- Bytes stored through a pointer into the buffer.
unfoldable pub store : Buffer → ℕ → List ℕ → Buffer
store b i bs = record b { mem = splice b.mem i bs }

-- One answer of `read`: EINTR, another error, or the bytes read.
pub data ReadAnswer : Type 0 where
  interrupted failed : ReadAnswer
  bytes : List ℕ → ReadAnswer

-- The `do … while` round `read`: the first answer that is not EINTR. The kernel's answers are a
-- list; where they run out, the call has not returned.
unfoldable pub retry_read : List ReadAnswer → Run ReadAnswer
retry_read [] = out_of_fuel
retry_read (interrupted ∷ rest) = retry_read rest
retry_read (failed ∷ rest) = done failed
retry_read (bytes bs ∷ rest) = done (bytes bs)

-- The return value of `buffer_read` and `buffer_write`: -1 or a count.
pub data Status : Type 0 where
  no_buffers error : Status
  count : ℕ → Status

-- What `buffer_read` does with the answer. A positive count moves `pin`.
unfoldable pub take_in : Buffer → ReadAnswer → Status × Buffer
take_in b (bytes bs) =
    (count (length bs), record b { mem = splice b.mem b.pin bs; pin = b.pin + length bs })
take_in b _ = (error, b)

-- The first test of `buffer_read`: a buffer with no space is compacted.
unfoldable pub make_room : Buffer → Buffer
make_room b = if is_full b then compact b else b

-- `buffer_read`
unfoldable pub read : Buffer → List ReadAnswer → Run (Status × Buffer)
read b answers =
    let b' = make_room b in
    if is_full b' then done (no_buffers, b') else elim (retry_read answers) [
      | done a ↦ done (take_in b' a)
      | aborted ↦ aborted
      | out_of_fuel ↦ out_of_fuel
    ]

-- One answer of `write`: EINTR, another error, or how many bytes it took.
pub data WriteAnswer : Type 0 where
  interrupted failed : WriteAnswer
  wrote : ℕ → WriteAnswer

unfoldable pub retry_write : List WriteAnswer → Run WriteAnswer
retry_write [] = out_of_fuel
retry_write (WriteAnswer.interrupted ∷ rest) = retry_write rest
retry_write (WriteAnswer.failed ∷ rest) = done WriteAnswer.failed
retry_write (wrote n ∷ rest) = done (wrote n)

-- What `buffer_write` does with the answer.
unfoldable pub give_out : Buffer → WriteAnswer → Run (Status × Buffer)
unfolding consume
give_out b (wrote n) = if n == 0 then done (count 0, b) else elim (consume b n) [
  | done b' ↦ done (count n, b')
  | aborted ↦ aborted
  | out_of_fuel ↦ out_of_fuel
]
give_out b _ = done (error, b)

-- `buffer_write`
unfoldable pub write : Buffer → List WriteAnswer → Run (Status × Buffer)
write b answers = if is_empty b then done (no_buffers, b) else elim (retry_write answers) [
  | done a ↦ give_out b a
  | aborted ↦ aborted
  | out_of_fuel ↦ out_of_fuel
]
