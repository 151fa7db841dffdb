-- ===== src/Ccwriter/Append.antt =====
-- `ccwriter_append` of src/ccwriter.c, and how a protocol uses the pointer that it returns. What
-- the function logs when the buffer is full is left out.
use mn_protozoa.Base.{
  ℕ, ◌+◌, ◌≤◌, ◌≡◌, sym, ap, ap₂, ◌∙◌, Bool-cases, inl, inr, Option, none, some, List, ◌++◌, arith,
  length, take, drop, replicate, length-replicate, length-append, length-take, take-append,
  drop-append, ltb, if◌then◌else◌,
}
use mathlib.Core.List.{append_assoc}
use mn_protozoa.Buffer.Defs
use mn_protozoa.Buffer.Defs.{Buffer, store, splice, space}
use mn_protozoa.Buffer.Inv.{IsValid}
use mn_protozoa.Buffer.Queue.{pushed}

-- `ccwriter_append`: the appended bytes are set to 0.
unfoldable pub append : Buffer → ℕ → Option (ℕ × Buffer)
append tx n = elim (Defs.append tx n) [
  | none ↦ none
  | some (i, tx') ↦ some (i, store tx' i (replicate n 0))
]

-- The code that encodes a message of `n` bytes in place, at offset `i`.
unfoldable pub fill : Buffer → ℕ → ℕ → (List ℕ → List ℕ) → Buffer
fill tx i n encode = store tx i (encode (take n (drop i tx.mem)))

-- `mess = ccwriter_append(wtr, n); if(mess) …`
unfoldable pub message : Buffer → ℕ → (List ℕ → List ℕ) → Buffer
unfolding append fill
message tx n encode = elim (append tx n) [ none ↦ tx | some (i, tx') ↦ fill tx' i n encode ]

splice_read :
    (mem : List ℕ) (i n : ℕ) (bs : List ℕ)
    → i ≤ length mem
    → n ≡ length bs
    → take n (drop i (splice mem i bs)) ≡ bs
splice_read mem i n bs h e =
    ap (take n) (
      drop-append (take i mem) (bs ++ drop (i + length bs) mem) i
        (omega (arith, length-take i mem)))
    ∙ take-append bs (drop (i + length bs) mem) n e

splice_again :
    (mem : List ℕ) (i : ℕ) (old bs : List ℕ)
    → i ≤ length mem
    → length old ≡ length bs
    → splice (splice mem i old) i bs ≡ splice mem i bs
splice_again mem i old bs h e = ap₂ (λ s t. s ++ (bs ++ t)) front back
  where
    rest : List ℕ
    rest = drop (i + length old) mem

    front : take i (splice mem i old) ≡ take i mem
    front = take-append (take i mem) (old ++ rest) i (omega (arith, length-take i mem))

    back : drop (i + length bs) (splice mem i old) ≡ drop (i + length bs) mem
    back =
        ap (drop (i + length bs)) (sym (append_assoc (take i mem) old rest))
        ∙ drop-append (take i mem ++ old) rest (i + length bs)
            (omega (arith, length-take i mem, length-append (take i mem) old))
        ∙ ap (λ k. drop (i + k) mem) e

-- Encoding in place over the zeros that `memset` left.
encoded :
    (mem : List ℕ) (i n : ℕ) (encode : List ℕ → List ℕ)
    → i ≤ length mem
    → length (encode (replicate n 0)) ≡ n
    → let zeroed = splice mem i (replicate n 0) in
      splice zeroed i (encode (take n (drop i zeroed))) ≡ splice mem i (encode (replicate n 0))
encoded mem i n encode h e =
    ap (λ old. splice (splice mem i (replicate n 0)) i (encode old))
      (splice_read mem i n (replicate n 0) h (sym (length-replicate n 0)))
    ∙ splice_again mem i (replicate n 0) (encode (replicate n 0)) h (length-replicate n 0 ∙ sym e)

-- A message that fits is pushed behind the pending bytes, as its encoder makes it from zeros. One
-- that does not fit is dropped whole.
pub message-eq-pushed :
    (tx : Buffer) (n : ℕ) (encode : List ℕ → List ℕ)
    → IsValid tx
    → length (encode (replicate n 0)) ≡ n
    → message tx n encode ≡ (if ltb (space tx) n then tx else pushed tx (encode (replicate n 0)))
unfolding message Defs.append store
message-eq-pushed tx n encode v e = elim (Bool-cases (ltb (space tx) n)) [
  | inl full ↦ rw full (ground arith)
  | inr fits ↦ rw fits (ground (arith, encoded tx.mem tx.pin n encode))
]
