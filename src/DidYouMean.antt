-- ===== src/DidYouMean.antt =====
-- src/parse/did_you_mean.c: names that resemble an unknown one. The table of `wagner_fisher` is a
-- function of two indices; `junk` is what it holds before the first write. An `unsigned` cell holds a
-- number below the length of a name plus one, which is far from its limit.
pub mod Distance
pub mod Cells
pub mod Resembles
pub mod Suggest
mod Tests
use mathlib.Core.Bool.{not}
use gwion.Prelude.{
  ℕ, zero, suc, ◌+◌, ◌-◌, Bool, true, false, ◌&&◌, ◌||◌, Option, none, some, List, [], ◌∷◌, ◌++◌,
  ltb, ◌==◌, if◌then◌else◌, get_or, length,
}

abbrev pub max_distance : ℕ
max_distance = 2

abbrev pub max_name_len : ℕ
max_name_len = 16

abbrev pub min2 : ℕ → ℕ → ℕ
min2 a b = if ltb a b then a else b

abbrev pub min : ℕ → ℕ → ℕ → ℕ
min a b c = min2 (min2 a b) c

abbrev pub Table : Type 0
Table = ℕ → ℕ → ℕ

unfoldable pub put : Table → (i j v : ℕ) → Table
put d i j v a b = if (a == i) && (b == j) then v else d a b

-- The first two loops, over the rounds left and the index.
unfoldable pub init_column : (rounds i : ℕ) → Table → Table
init_column zero i d = d
init_column (suc k) i d = init_column k (i + 1) (put d i 0 i)

unfoldable pub init_row : (rounds i : ℕ) → Table → Table
init_row zero i d = d
init_row (suc k) i d = init_row k (i + 1) (put d 0 i i)

module _ (s t : List ℕ) where
  unfoldable pub cell : Table → (i j : ℕ) → ℕ
  cell d i j =
      if get_or s i 0 == get_or t j 0
      then d (i - 1) (j - 1)
      else min (d (i - 1) j + 1) (d i (j - 1) + 1) (d (i - 1) (j - 1) + 1)

  -- The inner loop; none is the early `return 0`.
  unfoldable pub fill_column : (rounds i j : ℕ) → Table → Option Table
  fill_column zero i j d = some d
  fill_column (suc k) i j d =
      let v = cell d i j in
      let rest = fill_column k (i + 1) j (put d i j v) in
      if ltb (max_distance + 1) v then none else rest

  -- The outer loop.
  unfoldable pub fill : (rounds j : ℕ) → Table → Option Table
  fill zero j d = some d
  fill (suc k) j d = elim (fill_column (length s - 1) 1 j d) [
    | none ↦ none
    | some d' ↦ fill k (j + 1) d'
  ]

  -- After the loops `j` is at least 1, and `i` is 0 only if `t` is empty.
  unfoldable pub wagner_fisher : (junk : Table) → Bool
  wagner_fisher junk =
      let m = length s in
      let n = length t in
      elim (fill (n - 1) 1 (init_row n 0 (init_column m 0 junk))) [
        | none ↦ false
        | some d ↦ not (n == 0) && ltb (d (m - 1) (n - 1)) max_distance
      ]

-- A value or a trait of a scope; `shown` tells whether the place of its definition is printed.
pub record Entry : Type 0 where
  pub name : List ℕ
  pub shown : Bool

pub data Line : Type 0 where
  did_you_mean : Line
  defined_here : Entry → Line

module _ (junk : Table) (name : List ℕ) where
  -- The lines printed for one scope, and whether the heading has been printed.
  unfoldable pub ressembles : List Entry → (done : Bool) → List Line × Bool
  ressembles [] done = ([], done)
  ressembles (v ∷ vs) done =
      let hit = wagner_fisher name v.name junk in
      let (rest, done') = ressembles vs (hit || done) in
      (
        (if hit && not done then did_you_mean ∷ [] else [])
            ++ ((if hit && v.shown then defined_here v ∷ [] else []) ++ rest),
        done',
      )

  -- The namespace or type and its parents, innermost first.
  unfoldable pub search_parents : List (List Entry) → (done : Bool) → List Line
  search_parents [] done = []
  search_parents (scope ∷ parents) done =
      let (lines, done') = ressembles scope done in lines ++ search_parents parents done'

  unfoldable pub did_you_mean_nspc : List (List Entry) → List Line
  did_you_mean_nspc scopes =
      if ltb max_name_len (length name) then [] else search_parents scopes false
