-- ===== src/Passes.antt =====
-- src/pass.c with struct Passes_ of include/pass.h: the compilation passes by name, and those that are chosen.
-- `Map` of the util submodule is an interface; insert_symbol gives a name always the same symbol, so a name is a
-- number here. A pass is a function of the compiler, of which only the identity matters.
pub mod Choose
mod Tests
use gwion.Prelude.{
  ℕ, zero, suc, ◌≡◌, ◌≢◌, Bool, true, false, Option, none, some, List, [], ◌∷◌, ◌++◌,
}

pub record MapOps (P M : Type 0) : Type 0 where
  pub init : M
  pub set : M → ℕ → P → M
  pub get : M → ℕ → Option P

pub record MapLaws {P M : Type 0} (mo : MapOps P M) : Type 0 where
  pub get-set : (m : M) (k : ℕ) (p : P) → mo.get (mo.set m k p) k ≡ some p
  pub get-set_other : (m : M) (k j : ℕ) (p : P) → j ≢ k → mo.get (mo.set m k p) j ≡ mo.get m j

-- `struct Passes_`.
pub record Passes (P M : Type 0) : Type 0 where
  pub map : M
  pub vec : List P

module _ {P M : Type 0} (mo : MapOps P M) where
  unfoldable pub pass_register : Passes P M → (name : ℕ) → P → Passes P M
  pass_register a name pass = record a { map = mo.set a.map name pass }

  -- The loop of `pass_set`, up to a name without a pass.
  unfoldable pub set_rounds : M → List ℕ → (vec : List P) → Option (List P)
  set_rounds m [] vec = some vec
  set_rounds m (name ∷ names) vec = elim (mo.get m name) [
    | none ↦ none
    | some pass ↦ set_rounds m names (vec ++ pass ∷ [])
  ]

  -- `default_names` are those of default_passes_name; `pass_default` calls this function again. The fuel bounds
  -- the calls.
  unfoldable pub pass_set :
      (default_names : List ℕ) (fuel : ℕ) → Passes P M → List ℕ → Option (Passes P M × Bool)
  pass_set default_names zero a passes = none
  pass_set default_names (suc fuel) a passes =
      let pass_default = pass_set default_names fuel a default_names in
      elim (set_rounds a.map passes []) [
        | some vec ↦ some (record a { vec = vec }, true)
        | none ↦ elim pass_default [ none ↦ none | some (b, ok) ↦ some (b, false) ]
      ]

  unfoldable pub register_all : Passes P M → List (ℕ × P) → Passes P M
  register_all a [] = a
  register_all a ((name, pass) ∷ more) = register_all (pass_register a name pass) more

  unfoldable pub new_passes : (sema check emit scan0 scan1 scan2 : ℕ × P) → Passes P M
  new_passes sema check emit scan0 scan1 scan2 =
      register_all (record { map = mo.init; vec = [] })
        (sema ∷ check ∷ emit ∷ scan0 ∷ scan1 ∷ scan2 ∷ [])
