-- ===== src/Infinova/Frames.antt =====
-- What src/infinova.c appends to the transmit buffer, by the space that is left.
use mn_protozoa.Base.{
  ℕ, ◌+◌, ◌-◌, ◌≤◌, ◌<◌, ◌≡◌, ◌∙◌, refl, ap, Bool, true, false, List, [], ◌∷◌, ◌++◌, length,
  replicate, not, sym, ltb, Bool-cases, inl, inr, arith, if◌then◌else◌,
}
use mathlib.Core.List.{append-nil, append_assoc}
use mn_protozoa.Buffer.Defs
use mn_protozoa.Buffer.Defs.{Buffer, space, store}
use mn_protozoa.Buffer.Inv.{IsValid, length-splice}
use mn_protozoa.Buffer.Queue.{contents, pushed, contents-pushed, pushed-IsValid}
use mn_protozoa.Ccwriter.Append.{append, message, message-eq-pushed}
use mn_protozoa.Infinova.Write.{
  header_sz, auth_sz, msg_id_auth, msg_id_ptz, header_bytes, d_header_bytes, try_message, header,
  authenticate, d_header,
}

try_message_eq :
    (tx : Buffer) (n : ℕ) (encode : List ℕ → List ℕ)
    → try_message tx n encode
      ≡ (if ltb (space tx) n then (tx, false) else (message tx n encode, true))
unfolding message append Defs.append
try_message_eq tx n encode = ground arith

-- A message that may not fit.
try_message-pushed :
    (tx : Buffer) (n : ℕ) (encode : List ℕ → List ℕ)
    → IsValid tx
    → length (encode (replicate n 0)) ≡ n
    → try_message tx n encode
      ≡ (if ltb (space tx) n then (tx, false) else (pushed tx (encode (replicate n 0)), true))
try_message-pushed tx n encode v e = elim (Bool-cases (ltb (space tx) n)) [
  | inl full ↦ try_message_eq tx n encode ∙ rw full refl
  | inr fits ↦
      try_message_eq tx n encode
      ∙ rw fits (ap (λ b. (b, true)) (message-eq-pushed tx n encode v e ∙ rw fits refl))
]

-- The bytes that one message adds, and what is left.
module _ (tx : Buffer) (n : ℕ) (encode : List ℕ → List ℕ) (v : IsValid tx)
    (sized : length (encode (replicate n 0)) ≡ n) where
  abbrev one : Buffer × Bool
  one = try_message tx n encode

  too_long : space tx < n → one ≡ (tx, false)
  too_long h =
      let full : ltb (space tx) n ≡ true = ground (arith, h) in
      try_message-pushed tx n encode v sized ∙ rw full refl

  fits_lem :
      n ≤ space tx
      → (one.1 ≡ true)
        × (contents one.0 ≡ contents tx ++ encode (replicate n 0))
        × IsValid one.0
        × (space one.0 ≡ space tx - n)
  fits_lem h =
      let enough : ltb (space tx) n ≡ false = ground (arith, h) in
      let bs = encode (replicate n 0) in
      let small : length bs ≤ space tx = omega (arith, sized, h) in
      let e : one ≡ (pushed tx bs, true) =
        try_message-pushed tx n encode v sized ∙ rw enough refl in
      rw e (
        refl,
        contents-pushed tx bs v small,
        pushed-IsValid tx bs v small,
        omega (arith, length-splice tx.mem tx.pin bs (omega (arith, v.inside)), sized),
      )

-- One message, and another behind it, as `infinova_d_header` and `infinova_authenticate` send them.
module _ (tx : Buffer) (n k : ℕ) (encode encode' : List ℕ → List ℕ) (v : IsValid tx)
    (sized : length (encode (replicate n 0)) ≡ n)
    (sized' : length (encode' (replicate k 0)) ≡ k) where
  abbrev both : Buffer × Bool
  both =
      let (tx', ok) = try_message tx n encode in
      if ok then try_message tx' k encode' else (tx', false)

  abbrev bytes : List ℕ
  bytes = encode (replicate n 0)

  -- The bytes that were added, by the space that was left.
  abbrev added : List ℕ
  added =
      if ltb (space tx) n
      then []
      else if ltb (space tx) (n + k)
      then bytes
      else bytes ++ encode' (replicate k 0)

  both_lem :
      (both.1 ≡ not (ltb (space tx) (n + k)))
      × (contents both.0 ≡ contents tx ++ added)
      × IsValid both.0
  both_lem = elim (Bool-cases (ltb (space tx) n)) [
    | inl short ↦
        let none_fits : ltb (space tx) (n + k) ≡ true = ground (arith, short) in
        rw (too_long tx n encode v sized (ground (arith, short)), short, none_fits)
          (refl, sym (append-nil (contents tx)), v)
    | inr enough ↦
        let (ok, added_one, v', left) = fits_lem tx n encode v sized (ground (arith, enough)) in
        let tx' = (try_message tx n encode).0 in
        elim (Bool-cases (ltb (space tx) (n + k))) [
          | inl short ↦
              rw (ok, enough, short, too_long tx' k encode' v' sized' (ground (arith, short, left)))
                (refl, added_one, v')
          | inr all ↦
              let (ok', added_two, v'', _) =
                fits_lem tx' k encode' v' sized' (ground (arith, all, left)) in
              rw (ok, enough, all)
                (
                  ok',
                  added_two
                      ∙ ap (λ l. l ++ encode' (replicate k 0)) added_one
                      ∙ append_assoc (contents tx) bytes (encode' (replicate k 0)),
                  v'',
                )
        ]
  ]

-- The header of an authentication, and the two of a Pelco D message.
abbrev pub auth_header : List ℕ
auth_header = 73 ∷ 78 ∷ 70 ∷ 1 ∷ 0 ∷ 1 ∷ 0 ∷ 1 ∷ 0 ∷ 0 ∷ 0 ∷ 64 ∷ []

abbrev pub ptz_header : List ℕ
ptz_header = 73 ∷ 78 ∷ 70 ∷ 19 ∷ 0 ∷ 0 ∷ 0 ∷ 0 ∷ 0 ∷ 0 ∷ 0 ∷ 19 ∷ []

abbrev pub extra_header : List ℕ
extra_header = 1 ∷ 0 ∷ 0 ∷ 0 ∷ 0 ∷ 0 ∷ 0 ∷ 7 ∷ 0 ∷ 0 ∷ 0 ∷ 0 ∷ []

if_first :
    (ok : Bool) (a : Buffer × Bool) (b : Buffer)
    → (if ok then a.0 else b) ≡ (if ok then a else (b, false)).0
if_first true a b = refl
if_first false a b = refl

-- What the writer puts in front of a message, in a valid transmit buffer. With space for 24 bytes the
-- two headers are appended, and the message may follow. With less, none may follow; from 12 bytes
-- on, the first header has been appended all the same, and stays. An authentication is its header
-- and 66 zeros, of which the header alone is appended where there is no space for both.
pub headers_lem :
    (tx : Buffer)
    → IsValid tx
    → ((d_header tx).1 ≡ not (ltb (space tx) 24))
      × (contents (d_header tx).0
          ≡ contents tx
            ++ (if ltb (space tx) 12
                then []
                else if ltb (space tx) 24
                then ptz_header
                else ptz_header ++ extra_header))
      × (contents (authenticate tx)
          ≡ contents tx
            ++ (if ltb (space tx) 12
                then []
                else if ltb (space tx) 78
                then auth_header
                else auth_header ++ replicate 66 0))
unfolding d_header authenticate header
headers_lem tx v =
    let framed =
      both_lem tx header_sz header_sz (header_bytes msg_id_ptz 19) d_header_bytes v refl refl in
    let known =
      both_lem tx header_sz (auth_sz + 2) (header_bytes msg_id_auth auth_sz) (λ m. m) v refl refl in
    let sent = try_message tx header_sz (header_bytes msg_id_auth auth_sz) in
    (
      framed.0,
      framed.1,
      ap contents (if_first sent.1 (try_message sent.0 (auth_sz + 2) (λ m. m)) sent.0) ∙ known.1,
    )
