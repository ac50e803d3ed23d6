-- ===== src/Passes/Choose.antt =====
-- Choosing compilation passes (src/pass.c).
use mathlib.Core.List.{append-nil, append_assoc}
use mathlib.Core.Option.{none-ne-some}
use gwion.Prelude.{
  ℕ, suc, ◌≡◌, refl, sym, ap, ◌∙◌, true, false, none, some, List, [], ◌∷◌, ◌++◌, All, ◌⊎◌, inl, inr,
  ◌==◌, Bool-cases, ==→eq, ==→ne,
}
use gwion.Passes.{
  MapOps, MapLaws, Passes, pass_register, set_rounds, pass_set, register_all, new_passes,
}

module _ {P M : Type 0} (mo : MapOps P M) where
  -- The passes of names in order: each name has one.
  unfoldable pub Named : M → List ℕ → List P → Type 0
  Named m [] [] = Unit {0}
  Named m [] (p ∷ ps) = ⊥
  Named m (name ∷ names) [] = ⊥
  Named m (name ∷ names) (p ∷ ps) = (mo.get m name ≡ some p) × Named m names ps

  pub HasPass : M → ℕ → Type 0
  HasPass m name = (p : P) × (mo.get m name ≡ some p)

  -- Some name has none.
  unfoldable pub Unknown : M → List ℕ → Type 0
  Unknown m [] = ⊥
  Unknown m (name ∷ names) = (mo.get m name ≡ none) ⊎ Unknown m names

  get-cases : (m : M) (name : ℕ) → HasPass m name ⊎ (mo.get m name ≡ none)
  unfolding HasPass
  get-cases m name = elim (mo.get m name) as (λ o. ((p : P) × (o ≡ some p)) ⊎ (o ≡ none)) [
    | none ↦ inr refl
    | some p ↦ inl (p, refl)
  ]

  set_rounds-cases :
      (m : M) (names : List ℕ) (vec : List P)
      → ((ps : List P) × Named m names ps × (set_rounds mo m names vec ≡ some (vec ++ ps)))
        ⊎ (Unknown m names × (set_rounds mo m names vec ≡ none))
  unfolding set_rounds Named Unknown HasPass
  set_rounds-cases m [] vec = inl ([], tt, ap some (sym (append-nil vec)))
  set_rounds-cases m (name ∷ names) vec = elim (get-cases m name) [
    | inr missing ↦ inr (inl missing, rw (missing, set_rounds) refl)
    | inl (p, found) ↦ elim (set_rounds-cases m names (vec ++ p ∷ [])) [
      | inl (ps, named, e) ↦ inl (
        p ∷ ps,
        (found, named),
        rw (found, set_rounds) (e ∙ ap some (append_assoc vec (p ∷ []) ps)),
      )
      | inr (unknown, e) ↦ inr (inr unknown, rw (found, set_rounds) e)
    ]
  ]

  known : (m : M) (names : List ℕ) → All (HasPass m) names → Unknown m names → ⊥
  unfolding Unknown HasPass
  known m [] all never = never
  known m (name ∷ names) ((p, found), all) (inl missing) = none-ne-some p (sym missing ∙ found)
  known m (name ∷ names) (found, all) (inr unknown) = known m names all unknown

  pass_set_known :
      (defaults : List ℕ) (a : Passes P M) (fuel : ℕ) (names : List ℕ)
      → All (HasPass a.map) defaults
      → ((ps : List P) × Named a.map names ps
          × (pass_set mo defaults (suc (suc fuel)) a names ≡ some (record a { vec = ps }, true)))
        ⊎ (Unknown a.map names
            × ((ps : List P) × Named a.map defaults ps
                × (pass_set mo defaults (suc (suc fuel)) a names
                    ≡ some (record a { vec = ps }, false))))
  unfolding pass_set
  pass_set_known defaults a fuel names all = elim (set_rounds-cases a.map names []) [
    | inl (ps, named, e) ↦ inl (ps, named, rw (e, pass_set) refl)
    | inr (unknown, e) ↦ elim (set_rounds-cases a.map defaults []) [
      | inl (ps, named, e') ↦ inr (unknown, (ps, named, rw (e, e', pass_set) refl))
      | inr (unknown', e') ↦ absurd (known a.map defaults all unknown')
    ]
  ]

  module _ (laws : MapLaws mo) where
    pass_register-HasPass :
        (a : Passes P M) (k : ℕ) (p : P) (name : ℕ)
        → HasPass a.map name
        → HasPass (pass_register mo a k p).map name
    unfolding HasPass pass_register
    pass_register-HasPass a k p name (q, found) = elim (Bool-cases (name == k)) [
      | inl same ↦ (p, ap (mo.get (mo.set a.map k p)) (==→eq name k same) ∙ laws.get-set a.map k p)
      | inr other ↦ (q, laws.get-set_other a.map k name p (==→ne name k other) ∙ found)
    ]

    register_all-HasPass :
        (a : Passes P M) (more : List (ℕ × P)) (name : ℕ)
        → HasPass a.map name
        → HasPass (register_all mo a more).map name
    unfolding register_all
    register_all-HasPass a [] name has_pass = has_pass
    register_all-HasPass a ((k, p) ∷ more) name has_pass =
        register_all-HasPass (pass_register mo a k p) more name
          (pass_register-HasPass a k p name has_pass)

    registered : (a : Passes P M) (k : ℕ) (p : P) → HasPass (pass_register mo a k p).map k
    unfolding HasPass pass_register
    registered a k p = (p, laws.get-set a.map k p)

    new_passes-HasPass :
        (sema check emit scan0 scan1 scan2 : ℕ × P)
        → All
            (HasPass (new_passes mo sema check emit scan0 scan1 scan2).map)
            (sema.0 ∷ check.0 ∷ emit.0 ∷ [])
    unfolding new_passes register_all
    new_passes-HasPass (n1, p1) (n2, p2) (n3, p3) s0 s1 s2 =
        let a0 : Passes P M = record { map = mo.init; vec = [] } in
        let a1 = pass_register mo a0 n1 p1 in
        let a2 = pass_register mo a1 n2 p2 in
        let a3 = pass_register mo a2 n3 p3 in
        let scans = s0 ∷ s1 ∷ s2 ∷ [] in
        (
          register_all-HasPass a1 ((n2, p2) ∷ (n3, p3) ∷ scans) n1 (registered a0 n1 p1),
          (
            register_all-HasPass a2 ((n3, p3) ∷ scans) n2 (registered a1 n2 p2),
            (register_all-HasPass a3 scans n3 (registered a2 n3 p3), tt),
          ),
        )

    register_all-All :
        (a : Passes P M) (more : List (ℕ × P)) (names : List ℕ)
        → All (HasPass a.map) names
        → All (HasPass (register_all mo a more).map) names
    register_all-All a more [] all = tt
    register_all-All a more (name ∷ names) (one, all) =
        (register_all-HasPass a more name one, register_all-All a more names all)

    -- After the passes of the compiler, and then any others, were registered, also in the place of the first ones:
    -- when each of the given names has a pass, pass_set chooses these passes in order and is true; when one has none, it
    -- chooses the passes of the three default names and is false. Two calls are enough.
    pub pass_set-register_all :
        (sema check emit scan0 scan1 scan2 : ℕ × P) (more : List (ℕ × P)) (names : List ℕ)
        (fuel : ℕ)
        → let a = register_all mo (new_passes mo sema check emit scan0 scan1 scan2) more in
          let defaults = sema.0 ∷ check.0 ∷ emit.0 ∷ [] in
          ((ps : List P) × Named a.map names ps
            × (pass_set mo defaults (suc (suc fuel)) a names ≡ some (record a { vec = ps }, true)))
          ⊎ (Unknown a.map names
              × ((ps : List P) × Named a.map defaults ps
                  × (pass_set mo defaults (suc (suc fuel)) a names
                      ≡ some (record a { vec = ps }, false))))
    pass_set-register_all sema check emit scan0 scan1 scan2 more names fuel =
        let a = new_passes mo sema check emit scan0 scan1 scan2 in
        pass_set_known (sema.0 ∷ check.0 ∷ emit.0 ∷ []) (register_all mo a more) fuel names (
          register_all-All a more (sema.0 ∷ check.0 ∷ emit.0 ∷ [])
            (new_passes-HasPass sema check emit scan0 scan1 scan2))
