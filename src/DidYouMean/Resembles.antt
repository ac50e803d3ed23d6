-- ===== src/DidYouMean/Resembles.antt =====
-- What `wagner_fisher` of src/parse/did_you_mean.c answers.
use gwion.Prelude.{
  ℕ, ◌-◌, ◌<◌, ◌≤◌, ◌≡◌, ◌↔◌, ◌⊎◌, true, false, none, some, List, arith, ltb, Bool-cases, inl, inr,
  length,
}
use gwion.DidYouMean.{Table, init_column, init_row, fill, wagner_fisher}
use gwion.DidYouMean.Distance.{distance, distance-ge}
use gwion.DidYouMean.Cells.{fill-Filling, init-Holds}

module _ (s t : List ℕ) where
  -- Every distance between two beginnings is at most 3, and that of the whole names is 0 or 1; all
  -- without the first characters.
  abbrev pub Resembles : Type 0
  Resembles =
      ((a b : ℕ) → 0 < a → a < length s → 0 < b → b < length t → distance s t a b ≤ 3)
      × (distance s t (length s - 1) (length t - 1) < 2)

  wagner_fisher-some :
      (junk d : Table)
      → 0 < length t
      → fill s t (length t - 1) 1 (init_row (length t) 0 (init_column (length s) 0 junk)) ≡ some d
      → wagner_fisher s t junk ≡ ltb (d (length s - 1) (length t - 1)) 2
  unfolding wagner_fisher
  wagner_fisher-some junk d some_t e = ground (arith, e)

  wagner_fisher-none :
      (junk : Table)
      → fill s t (length t - 1) 1 (init_row (length t) 0 (init_column (length s) 0 junk)) ≡ none
      → wagner_fisher s t junk ≡ false
  unfolding wagner_fisher
  wagner_fisher-none junk e = rw (e, wagner_fisher)

  module _ (junk : Table) (some_s : 0 < length s) (some_t : 0 < length t) where
    -- Two names that are not empty are reported as similar exactly when they resemble one another,
    -- whatever the table holds at first.
    pub wagner_fisher-Resembles : (wagner_fisher s t junk ≡ true) ↔ Resembles
    wagner_fisher-Resembles =
        elim (fill-Filling s t (length t - 1) 0
          (init_row (length t) 0 (init_column (length s) 0 junk)) (omega arith) some_s
          (init-Holds s t junk)) [
            | inl (d, runs, good, low) ↦
                let last =
                  good (length s - 1) (length t - 1) (omega arith) (omega arith) (omega arith) in
                let answer = wagner_fisher-some junk d some_t runs in
                (
                  (λ h. ((λ a b ha hm hb hn. low a b ha hm hb hn), ground arith)),
                  (λ r. ground (arith, r.1)),
                )
            | inr (a, b, runs, ha, hm, hb, hn, far) ↦ (
              (λ h. absurd (ground (arith, wagner_fisher-none junk runs))),
              (λ r. absurd (omega (arith, r.0 a b ha hm hb hn))),
            )
          ]

    -- Names of at least two and at least six characters are never reported, equal ones included.
    wagner_fisher-long :
        (2 ≤ length s) × (6 ≤ length t) ⊎ (6 ≤ length s) × (2 ≤ length t)
        → wagner_fisher s t junk ≡ false
    wagner_fisher-long long = elim (Bool-cases (wagner_fisher s t junk)) [
      | inr no_match ↦ no_match
      | inl match ↦
          let r = wagner_fisher-Resembles.0 match in
          absurd (elim long [
            | inl (hs, ht) ↦ omega (
              arith,
              r.0 1 5 (omega arith) (omega arith) (omega arith) (omega arith),
              distance-ge s t 1 5,
            )
            | inr (hs, ht) ↦ omega (
              arith,
              r.0 5 1 (omega arith) (omega arith) (omega arith) (omega arith),
              distance-ge s t 5 1,
            )
          ])
    ]
