-- ===== src/Defer/Queue.antt =====
-- The collection of src/clump.h that src/defer.c keeps its packets in: `cl_rbtree`, filled with
-- pointers and ordered by a comparison function. Its operations are parameters. A pointer is a
-- number.
use mn_protozoa.Base.{ℕ, ◌≡◌, ◌≢◌, ◌⊎◌, Option, none, some, List, [], ◌∷◌, ◌++◌}
use mn_protozoa.Timeval.{Compare, less, equal}

-- `cl_rbtree_add` with CL_DUP_ALLOW gives nothing if no node can be allocated.
pub record Tree (T : Type 0) : Type 0 where
  pub add : (compare : ℕ → ℕ → Compare) → ℕ → T → Option T
  pub remove : (compare : ℕ → ℕ → Compare) → ℕ → T → T
  pub peek : T → Option ℕ

abbrev pub Le : (ℕ → ℕ → Compare) → ℕ → ℕ → Type 0
Le compare i j = (compare i j ≡ less) ⊎ (compare i j ≡ equal)

-- What a comparison function has to be.
pub record IsOrder (compare : ℕ → ℕ → Compare) : Type 0 where
  pub total : (i j : ℕ) → Le compare i j ⊎ Le compare j i
  pub transitive : (i j k : ℕ) → Le compare i j → Le compare j k → Le compare i k

-- Each item compares less than or equal to those behind it.
abbrev pub Before : (ℕ → ℕ → Compare) → ℕ → List ℕ → Type 0
Before compare i [] = Unit
Before compare i (j ∷ js) = Le compare i j × Before compare i js

abbrev pub Ordered : (ℕ → ℕ → Compare) → List ℕ → Type 0
Ordered compare [] = Unit
Ordered compare (i ∷ is) = Before compare i is × Ordered compare is

abbrev pub first : List ℕ → Option ℕ
first [] = none
first (i ∷ is) = some i

-- One item that compares equal to `i` is taken out of the list, or there is none.
abbrev pub Removed : (ℕ → ℕ → Compare) → ℕ → (all left : List ℕ) → Type 0
Removed compare i all left =
    ((left ≡ all) × ((xs ys : List ℕ) (j : ℕ) → all ≡ xs ++ (j ∷ ys) → compare j i ≢ equal))
    ⊎ ((xs : List ℕ) × (ys : List ℕ) × (j : ℕ) × (all ≡ xs ++ (j ∷ ys))
        × (compare j i ≡ equal)
        × (left ≡ xs ++ ys))

-- What the code relies on: `items` lists the tree in its order. `add` puts an item in at one place,
-- which keeps the order of a tree in order. On a tree in order, `remove` takes out one item that
-- compares equal, if there is one. `peek` gives the first.
pub record TreeLaws {T : Type 0} (tree : Tree T) : Type 0 where
  pub items : T → List ℕ
  pub add_lem :
      (compare : ℕ → ℕ → Compare) (i : ℕ) (t t' : T)
      → tree.add compare i t ≡ some t'
      → (xs : List ℕ) × (ys : List ℕ) × (items t ≡ xs ++ ys) × (items t' ≡ xs ++ (i ∷ ys))
  pub order_lem :
      (compare : ℕ → ℕ → Compare) (i : ℕ) (t t' : T)
      → IsOrder compare
      → Ordered compare (items t)
      → tree.add compare i t ≡ some t'
      → Ordered compare (items t')
  pub remove_lem :
      (compare : ℕ → ℕ → Compare) (i : ℕ) (t : T)
      → IsOrder compare
      → Ordered compare (items t)
      → Removed compare i (items t) (items (tree.remove compare i t))
  pub peek_lem : (t : T) → tree.peek t ≡ first (items t)
