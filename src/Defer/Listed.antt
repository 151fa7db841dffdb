-- ===== src/Defer/Listed.antt =====
-- A list kept in order, which shows that the laws of Queue can hold.
use mn_protozoa.Base.{
  ℕ, ◌≡◌, ◌≢◌, ◌⊎◌, inl, inr, refl, sym, ap, ◌∙◌, Option, none, some, List, [], ◌∷◌, ◌++◌, arith,
}
use mathlib.Core.List.{nil≢cons, head-eq_of_cons-eq, tail-eq_of_cons-eq}
use mn_protozoa.Timeval.{Compare, less, equal, greater}
use mn_protozoa.Defer.Queue.{Tree, TreeLaws, Le, IsOrder, Before, Ordered, first, Removed}

-- One step of each: `rest` is what the tail gives.
abbrev pub place : Compare → ℕ → ℕ → List ℕ → List ℕ → List ℕ
place less i j js rest = i ∷ j ∷ js
place equal i j js rest = i ∷ j ∷ js
place greater i j js rest = j ∷ rest

abbrev pub keep : Compare → ℕ → List ℕ → List ℕ → List ℕ
keep less j js rest = j ∷ rest
keep equal j js rest = js
keep greater j js rest = j ∷ rest

module _ (c : ℕ → ℕ → Compare) where
  unfoldable pub insert : ℕ → List ℕ → List ℕ
  insert i [] = i ∷ []
  insert i (j ∷ js) = place (c i j) i j js (insert i js)

  unfoldable pub delete : ℕ → List ℕ → List ℕ
  delete i [] = []
  delete i (j ∷ js) = keep (c j i) j js (delete i js)

less≢equal : less ≢ equal
less≢equal h = ground arith

greater≢equal : greater ≢ equal
greater≢equal h = ground arith

cases_of : (x : Compare) → ((x ≡ less) ⊎ (x ≡ equal)) ⊎ (x ≡ greater)
cases_of less = inl (inl refl)
cases_of equal = inl (inr refl)
cases_of greater = inr refl

module _ (c : ℕ → ℕ → Compare) (i : ℕ) where
  insert_front : (j : ℕ) (js : List ℕ) → Le c i j → insert c i (j ∷ js) ≡ i ∷ j ∷ js
  unfolding insert
  insert_front j js (inl e) = ap (λ x. place x i j js (insert c i js)) e
  insert_front j js (inr e) = ap (λ x. place x i j js (insert c i js)) e

  insert_behind : (j : ℕ) (js : List ℕ) → c i j ≡ greater → insert c i (j ∷ js) ≡ j ∷ insert c i js
  unfolding insert
  insert_behind j js e = ap (λ x. place x i j js (insert c i js)) e

  -- The item is put in at one place.
  insert_place :
      (l : List ℕ)
      → (xs : List ℕ) × (ys : List ℕ) × (l ≡ xs ++ ys) × (insert c i l ≡ xs ++ (i ∷ ys))
  insert_place [] = unfold insert in ([], [], refl, refl)
  insert_place (x ∷ xs) = elim (cases_of (c i x)) [
    | inl le ↦ ([], x ∷ xs, refl, insert_front x xs le)
    | inr gt ↦
        let (us, vs, split, joined) = insert_place xs in
        (x ∷ us, vs, ap (λ l. x ∷ l) split, insert_behind x xs gt ∙ ap (λ l. x ∷ l) joined)
  ]

module _ (c : ℕ → ℕ → Compare) (order : IsOrder c) (i : ℕ) where
  not_after : (j : ℕ) → c i j ≡ greater → Le c j i
  not_after j e = elim (order.total i j) [
    | inl (inl h) ↦ absurd (distinct (sym e ∙ h))
    | inl (inr h) ↦ absurd (distinct' (sym e ∙ h))
    | inr h ↦ h
  ]
    where
      distinct : greater ≢ less
      distinct h = ground arith

      distinct' : greater ≢ equal
      distinct' h = ground arith

  Before-le : (j k : ℕ) (l : List ℕ) → Le c j k → Before c k l → Before c j l
  Before-le j k [] h b = b
  Before-le j k (x ∷ xs) h (a, b) = (order.transitive j k x h a, Before-le j k xs h b)

  Before-insert : (j : ℕ) (l : List ℕ) → Le c j i → Before c j l → Before c j (insert c i l)
  Before-insert j [] h b = unfold insert in (h, b)
  Before-insert j (x ∷ xs) h (a, b) = elim (cases_of (c i x)) [
    | inl le ↦ rw (insert_front c i x xs le) (h, (a, b))
    | inr e ↦ rw (insert_behind c i x xs e) (a, Before-insert j xs h b)
  ]

  insert_lem : (l : List ℕ) → Ordered c l → Ordered c (insert c i l)
  insert_lem [] h = unfold insert in (h, h)
  insert_lem (x ∷ xs) (b, h) = elim (cases_of (c i x)) [
    | inl le ↦ rw (insert_front c i x xs le) ((le, Before-le i x xs le b), (b, h))
    | inr gt ↦
        rw (insert_behind c i x xs gt) (Before-insert x xs (not_after x gt) b, insert_lem xs h)
  ]

  -- The head of a list is kept, if it does not compare equal.
  kept_lem :
      (x : ℕ) (l left : List ℕ)
      → c x i ≢ equal
      → Removed c i l left
      → Removed c i (x ∷ l) (x ∷ left)
  kept_lem x l left ne (inl (same, absent)) = inl (ap (λ k. x ∷ k) same, absent')
    where
      absent' : (xs ys : List ℕ) (j : ℕ) → x ∷ l ≡ xs ++ (j ∷ ys) → c j i ≢ equal
      absent' [] ys j e = λ h. ne (ap (λ k. c k i) (head-eq_of_cons-eq e) ∙ h)
      absent' (y ∷ xs) ys j e = absent xs ys j (tail-eq_of_cons-eq e)
  kept_lem x l left ne (inr (xs, ys, j, split, same_time, rest)) =
      inr (x ∷ xs, ys, j, ap (λ k. x ∷ k) split, same_time, ap (λ k. x ∷ k) rest)

  pub delete_lem : (l : List ℕ) → Removed c i l (delete c i l)
  unfolding delete
  delete_lem [] = inl (refl, λ xs ys j e. absurd (no_split xs ys j e))
    where
      no_split : (xs ys : List ℕ) (j : ℕ) → [] ≢ xs ++ (j ∷ ys)
      no_split [] ys j e = nil≢cons e
      no_split (x ∷ xs) ys j e = nil≢cons e
  delete_lem (x ∷ xs) = by_case (delete_lem xs) (c x i) refl
    where
      by_case :
          Removed c i xs (delete c i xs)
          → (r : Compare) → c x i ≡ r
          → Removed c i (x ∷ xs) (keep r x xs (delete c i xs))
      by_case h less e = kept_lem x xs (delete c i xs) (λ k. less≢equal (sym e ∙ k)) h
      by_case h equal e = inr ([], xs, x, refl, e, refl)
      by_case h greater e = kept_lem x xs (delete c i xs) (λ k. greater≢equal (sym e ∙ k)) h

abbrev pub listed : Tree (List ℕ)
listed = record { add = λ c i l. some (insert c i l); remove = delete; peek = first }

items_of : Option (List ℕ) → List ℕ → List ℕ
items_of none l = l
items_of (some k) l = k

pub same_inserted :
    (c : ℕ → ℕ → Compare) (i : ℕ) (l l' : List ℕ)
    → some (insert c i l) ≡ some l'
    → l' ≡ insert c i l
same_inserted c i l l' e = unfold items_of in sym (ap (λ o. items_of o []) e)

pub inserted_place :
    (c : ℕ → ℕ → Compare) (i : ℕ) (l l' : List ℕ)
    → some (insert c i l) ≡ some l'
    → (xs : List ℕ) × (ys : List ℕ) × (l ≡ xs ++ ys) × (l' ≡ xs ++ (i ∷ ys))
inserted_place c i l l' e = rw (same_inserted c i l l' e) (insert_place c i l)

pub inserted_order :
    (c : ℕ → ℕ → Compare) (i : ℕ) (l l' : List ℕ)
    → IsOrder c
    → Ordered c l
    → some (insert c i l) ≡ some l'
    → Ordered c l'
inserted_order c i l l' order ordered e =
    rw (same_inserted c i l l' e) (insert_lem c order i l ordered)

-- A node can always be allocated.
pub room : (i : ℕ) (c : ℕ → ℕ → Compare) (l : List ℕ) → listed.add c i l ≢ none
room i c l e = ground arith

unfoldable pub listed-TreeLaws : TreeLaws listed
listed-TreeLaws = record {
  items = λ l. l;
  add_lem = λ c i l l' e. inserted_place c i l l' e;
  order_lem = λ c i l l' order ordered e. inserted_order c i l l' order ordered e;
  remove_lem = λ c i l order ordered. delete_lem c order i l;
  peek_lem = λ l. refl;
}
