-- ===== src/Passes/Tests.antt =====
-- Choosing passes at concrete maps (src/pass.c).
use gwion.Prelude.{
  ℕ, ◌≡◌, refl, Bool, true, false, Option, none, some, List, [], ◌∷◌, ◌==◌, if◌then◌else◌, ◌⊎◌,
  ==-refl, ne→==,
}
use gwion.Passes.{
  MapOps, MapLaws, Passes, pass_register, set_rounds, pass_set, register_all, new_passes,
}
use gwion.Passes.Choose.{Named, Unknown, pass_set-register_all}

-- A map as a function.
abbrev functions : MapOps ℕ (ℕ → Option ℕ)
functions = record {
  init = λ k. none;
  set = λ m k p j. if j == k then some p else m j;
  get = λ m k. m k;
}

functions-laws : MapLaws functions
functions-laws = record {
  get-set = λ m k p. rw (==-refl k) refl;
  get-set_other = λ m k j p ne. rw (ne→== j k ne) refl;
}

-- The names are 1 to 6; the pass with the name `k` is `10 * k`, and a plug-in adds one with the name 7.
abbrev passes : Passes ℕ (ℕ → Option ℕ)
passes =
    register_all functions (new_passes functions (1, 10) (2, 20) (3, 30) (4, 40) (5, 50) (6, 60))
      ((7, 70) ∷ [])

chosen : Option (Passes ℕ (ℕ → Option ℕ) × Bool) → List ℕ
chosen none = []
chosen (some (a, ok)) = a.vec

known_test : chosen (pass_set functions (1 ∷ 2 ∷ 3 ∷ []) 2 passes (1 ∷ 7 ∷ [])) ≡ 10 ∷ 70 ∷ []
unfolding chosen pass_set set_rounds register_all new_passes pass_register
known_test = refl

unknown_test :
    chosen (pass_set functions (1 ∷ 2 ∷ 3 ∷ []) 2 passes (1 ∷ 9 ∷ [])) ≡ 10 ∷ 20 ∷ 30 ∷ []
unfolding chosen pass_set set_rounds register_all new_passes pass_register
unknown_test = refl

pass_set-register_all_example :
    ((ps : List ℕ) × Named functions passes.map (1 ∷ 7 ∷ []) ps
      × (pass_set functions (1 ∷ 2 ∷ 3 ∷ []) 2 passes (1 ∷ 7 ∷ [])
          ≡ some (record passes { vec = ps }, true)))
    ⊎ (Unknown functions passes.map (1 ∷ 7 ∷ [])
        × ((ps : List ℕ) × Named functions passes.map (1 ∷ 2 ∷ 3 ∷ []) ps
            × (pass_set functions (1 ∷ 2 ∷ 3 ∷ []) 2 passes (1 ∷ 7 ∷ [])
                ≡ some (record passes { vec = ps }, false))))
pass_set-register_all_example =
    pass_set-register_all functions functions-laws (1, 10) (2, 20) (3, 30) (4, 40) (5, 50) (6, 60)
      ((7, 70) ∷ []) (1 ∷ 7 ∷ []) 0
