-- ===== src/Buffer/Queue.antt =====
-- A buffer as a queue of bytes: what is pending between `pout` and `pin`, oldest first.
use mn_protozoa.Base.{
  ℕ, zero, suc, ◌+◌, ◌-◌, ◌≤◌, ◌<◌, ◌≡◌, ◌↔◌, refl, sym, ap, ◌∙◌, none, some, List, ◌++◌, arith,
  length, take, drop, length-append, length-take, take-append, drop-drop, drop-take, drop-all,
  drop-append_le, Bool-cases, inl, inr, ◌==◌, if◌then◌else◌,
}
use mathlib.Core.List.{append_assoc}
use mn_protozoa.Base.Run.{done}
use mn_protozoa.Buffer.Defs.{
  make_room, Buffer, available, space, splice, compact, append, store, read, write, take_in,
  give_out, retry_read, retry_write, ReadAnswer, WriteAnswer, bytes, wrote, is_full, Status,
}
use mn_protozoa.Buffer.Inv.{
  IsValid, consumed, consumed-IsValid, length-splice, length-pending, compact-IsValid,
  consume-eq-done,
}

abbrev pub contents : Buffer → List ℕ
contents b = take (available b) (drop b.pout b.mem)

pub length-contents : (b : Buffer) → IsValid b → length (contents b) ≡ available b
length-contents b v = length-pending b v

-- `buffer_compact` moves the pending bytes to the front and keeps them.
pub contents-compact : (b : Buffer) → IsValid b → contents (compact b) ≡ contents b
unfolding compact
contents-compact b v =
    ap (λ k. take k (splice b.mem 0 (contents b))) (omega arith)
    ∙ take-append (contents b) _ (available b) (sym (length-contents b v))

-- `buffer_consume` drops the oldest bytes.
pub contents-consumed :
    (b : Buffer) (n : ℕ)
    → IsValid b
    → n ≤ available b
    → contents (consumed b n) ≡ drop n (contents b)
contents-consumed b n v h = elim (Bool-cases (b.pout + n == b.pin)) [
  | inl e ↦ rw e (sym (drop-all n (contents b) (ground (arith, length-contents b v))))
  | inr e ↦ rw e (
      sym (
        drop-take n (available b) (b.pin - (b.pout + n)) (drop b.pout b.mem) (omega arith)
        ∙ ap (take (b.pin - (b.pout + n))) (drop-drop n b.pout (b.pout + n) b.mem (omega arith))))
]

-- The buffer with `bs` stored behind its pending bytes.
abbrev pub pushed : Buffer → List ℕ → Buffer
pushed b bs = record b { mem = splice b.mem b.pin bs; pin = b.pin + length bs }

pub pushed-IsValid :
    (b : Buffer) (bs : List ℕ) → IsValid b → length bs ≤ space b → IsValid (pushed b bs)
pushed-IsValid b bs v h = record {
  ordered = omega arith;
  inside = omega (arith, length-splice b.mem b.pin bs (omega arith));
}

pub contents-pushed :
    (b : Buffer) (bs : List ℕ)
    → IsValid b
    → length bs ≤ space b
    → contents (pushed b bs) ≡ contents b ++ bs
contents-pushed b bs v h =
    ap (take (b.pin + length bs - b.pout)) regroup
    ∙ take-append (contents b ++ bs) rest (b.pin + length bs - b.pout)
        (omega (arith, length-append (contents b) bs, length-contents b v))
  where
    rest : List ℕ
    rest = drop (b.pin + length bs) b.mem

    regroup : drop b.pout (splice b.mem b.pin bs) ≡ (contents b ++ bs) ++ rest
    regroup =
        drop-append_le b.pout (take b.pin b.mem) (bs ++ rest)
          (omega (arith, length-take b.pin b.mem))
        ∙ ap (λ t. t ++ (bs ++ rest)) (drop-take b.pout b.pin (available b) b.mem (omega arith))
        ∙ sym (append_assoc (contents b) bs rest)

-- What was appended and then filled through the borrowed pointer is pushed.
pub store-append :
    (b : Buffer) (bs : List ℕ) {i : ℕ} {b' : Buffer}
    → append b (length bs) ≡ some (i, b')
    → (store b' i bs ≡ pushed b bs) × (length bs ≤ space b)
unfolding append store
store-append b bs e = ground arith

-- An append fails exactly where the bytes do not fit behind `pin`.
pub append-eq-none : (b : Buffer) (n : ℕ) → (append b n ≡ none) ↔ (space b < n)
unfolding append
append-eq-none b n = ground arith

pub make_room-IsValid :
    (b : Buffer)
    → IsValid b
    → IsValid (make_room b)
      × (contents (make_room b) ≡ contents b)
      × (space (make_room b) ≡ (if is_full b then length b.mem - available b else space b))
unfolding make_room
make_room-IsValid b v = elim (Bool-cases (is_full b)) [
  | inl full ↦ rw full (
    (compact-IsValid b v).0,
    contents-compact b v,
    ground (arith, compact-IsValid b v, pin_compact),
  )
  | inr free ↦ rw free (v, refl, refl)
]
  where
    pin_compact : (compact b).pin ≡ available b
    pin_compact = unfold compact in omega arith

-- `buffer_read` on a valid buffer that is not full to the last byte, when the kernel answers with
-- at most as many bytes as it is asked for: it returns their count and a valid buffer, where they
-- are pending behind those that were.
pub read_pushes :
    (b : Buffer) (answers : List ReadAnswer) (bs : List ℕ)
    → IsValid b
    → available b < length b.mem
    → retry_read answers ≡ done (bytes bs)
    → length bs ≤ space (make_room b)
    → (b' : Buffer) × (read b answers ≡ done (Status.count (length bs), b'))
      × IsValid b'
      × (contents b' ≡ contents b ++ bs)
unfolding read take_in
read_pushes b answers bs v room e fits = (
  pushed (make_room b) bs,
  ground (arith, make_room-IsValid b v),
  pushed-IsValid (make_room b) bs valid.0 fits,
  contents-pushed (make_room b) bs valid.0 fits ∙ ap (λ t. t ++ bs) valid.1,
)
  where
    valid :
        IsValid (make_room b)
        × (contents (make_room b) ≡ contents b)
        × (space (make_room b) ≡ (if is_full b then length b.mem - available b else space b))
    valid = make_room-IsValid b v

-- `buffer_read` on a buffer that holds as many bytes as its block fails with ENOBUFS, asks the
-- kernel nothing, and keeps what is pending.
pub read_full :
    (b : Buffer) (answers : List ReadAnswer)
    → IsValid b
    → available b ≡ length b.mem
    → (read b answers ≡ done (Status.no_buffers, make_room b))
      × (contents (make_room b) ≡ contents b)
unfolding read
read_full b answers v full = (ground (arith, make_room-IsValid b v), (make_room-IsValid b v).1)

-- `buffer_write` on a valid buffer with pending bytes, when the kernel takes at most as many as
-- are offered: it returns their count and a valid buffer, from which exactly the oldest so many
-- are gone. Its assert holds.
pub write_pops :
    (b : Buffer) (answers : List WriteAnswer) (n : ℕ)
    → IsValid b
    → 0 < available b
    → retry_write answers ≡ done (wrote n)
    → n ≤ available b
    → (b' : Buffer) × (write b answers ≡ done (Status.count n, b'))
      × IsValid b'
      × (contents b' ≡ drop n (contents b))
unfolding write give_out
write_pops b answers zero v some_left e h = (b, ground arith, v, refl)
write_pops b answers (suc n) v some_left e h = (
  consumed b (suc n),
  ground (arith, consume-eq-done b (suc n) v h),
  (consumed-IsValid b (suc n) v h).0,
  contents-consumed b (suc n) v h,
)

-- `buffer_write` on an empty buffer fails with ENOBUFS and changes nothing.
pub write_empty :
    (b : Buffer) (answers : List WriteAnswer)
    → available b ≡ 0
    → write b answers ≡ done (Status.no_buffers, b)
unfolding write
write_empty b answers h = ground arith
