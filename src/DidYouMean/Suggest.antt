-- ===== src/DidYouMean/Suggest.antt =====
-- What src/parse/did_you_mean.c prints for an unknown name.
use mathlib.Core.Bool.{not}
use mathlib.Core.List.{append_assoc}
use gwion.Prelude.{
  ℕ, ◌≡◌, refl, Bool, true, false, ◌&&◌, ◌||◌, List, [], ◌∷◌, ◌++◌, arith, if◌then◌else◌, ltb,
  length, ◌∙◌, ap,
}
use gwion.DidYouMean.{
  Table, wagner_fisher, Entry, Line, did_you_mean, defined_here, ressembles, search_parents,
  did_you_mean_nspc, max_name_len,
}

module _ (junk : Table) (name : List ℕ) where
  unfoldable pub some_hit : List Entry → Bool
  some_hit [] = false
  some_hit (v ∷ vs) = wagner_fisher name v.name junk || some_hit vs

  unfoldable pub places : List Entry → List Line
  places [] = []
  places (v ∷ vs) =
      (if wagner_fisher name v.name junk && v.shown then defined_here v ∷ [] else []) ++ places vs

  abbrev heading : (hit done : Bool) → List Line
  heading hit done = if hit && not done then did_you_mean ∷ [] else []

  heading-places :
      (hit shown done more : Bool) (v : Entry) (ls : List Line)
      → heading hit done
          ++ ((if hit && shown then defined_here v ∷ [] else [])
              ++ (heading more (hit || done) ++ ls))
        ≡ heading (hit || more) done ++ ((if hit && shown then defined_here v ∷ [] else []) ++ ls)
  heading-places true shown true true v ls = refl
  heading-places true shown true false v ls = refl
  heading-places true shown false true v ls = refl
  heading-places true shown false false v ls = refl
  heading-places false shown done more v ls = refl

  or_assoc : (a b c : Bool) → (b || (a || c)) ≡ ((a || b) || c)
  or_assoc true true c = refl
  or_assoc true false c = refl
  or_assoc false b c = refl

  ressembles-places :
      (vs : List Entry) (done : Bool)
      → ressembles junk name vs done
        ≡ (heading (some_hit vs) done ++ places vs, some_hit vs || done)
  unfolding ressembles some_hit places
  ressembles-places [] done = refl
  ressembles-places (v ∷ vs) done =
      let hit = wagner_fisher name v.name junk in
      let ih = ressembles-places vs (hit || done) in
      let here = if hit && v.shown then defined_here v ∷ [] else [] in
      let lines =
        ap (λ (p : List Line × Bool). heading hit done ++ (here ++ p.0)) ih
        ∙ heading-places hit v.shown done (some_hit vs) v (places vs) in
      let last = ap (λ (p : List Line × Bool). p.1) ih ∙ or_assoc hit (some_hit vs) done in
      λ i. (lines i, last i)

  places-append : (us vs : List Entry) → places (us ++ vs) ≡ places us ++ places vs
  unfolding places
  places-append [] vs = refl
  places-append (u ∷ us) vs = simp (places-append us vs, append_assoc)

  some_hit-append : (us vs : List Entry) → some_hit (us ++ vs) ≡ (some_hit us || some_hit vs)
  unfolding some_hit
  some_hit-append [] vs = refl
  some_hit-append (u ∷ us) vs = ground (arith, some_hit-append us vs)

  unfoldable pub all_of : List (List Entry) → List Entry
  all_of [] = []
  all_of (scope ∷ parents) = scope ++ all_of parents

  places-no_hit : (vs : List Entry) → some_hit vs ≡ false → places vs ≡ []
  unfolding some_hit places
  places-no_hit [] h = refl
  places-no_hit (v ∷ vs) h = ground (arith, places-no_hit vs)

  -- The heading of the scopes that are left, in front of what their first scope prints.
  join :
      (hit more done : Bool) (us vs : List Line)
      → (hit ≡ false → us ≡ [])
      → (heading hit done ++ us) ++ (heading more (hit || done) ++ vs)
        ≡ heading (hit || more) done ++ (us ++ vs)
  join true true true us vs h = refl
  join true false true us vs h = refl
  join true true false us vs h = refl
  join true false false us vs h = refl
  join false more done us vs h = rw (h refl)

  search_parents-places :
      (scopes : List (List Entry)) (done : Bool)
      → search_parents junk name scopes done
        ≡ heading (some_hit (all_of scopes)) done ++ places (all_of scopes)
  unfolding search_parents all_of
  search_parents-places [] done = unfold some_hit places in refl
  search_parents-places (scope ∷ parents) done =
      let one = ressembles-places scope done in
      let hit = some_hit scope in
      let more = some_hit (all_of parents) in
      let split =
        ap (λ (p : List Line × Bool). p.0 ++ search_parents junk name parents p.1) one
        ∙ ap (λ ls. (heading hit done ++ places scope) ++ ls)
            (search_parents-places parents (hit || done))
        ∙ join hit more done (places scope) (places (all_of parents)) (places-no_hit scope) in
      split ∙ (rw (some_hit-append, places-append))

  -- A name of at most 16 characters: if anything in the scopes and their parents is similar, one
  -- heading is printed and behind it, in order, the places of all that are similar and have one to
  -- show; otherwise, and for a longer name, nothing is printed.
  pub did_you_mean_nspc-places :
      (scopes : List (List Entry))
      → did_you_mean_nspc junk name scopes ≡ (
          if ltb max_name_len (length name) || not (some_hit (all_of scopes))
          then []
          else did_you_mean ∷ places (all_of scopes))
  unfolding did_you_mean_nspc
  did_you_mean_nspc-places scopes =
      ground (arith, search_parents-places scopes false, places-no_hit (all_of scopes))
