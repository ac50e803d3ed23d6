-- ===== src/DidYouMean/Cells.antt =====
-- The loops of `wagner_fisher` (src/parse/did_you_mean.c) and the edit distance.
use gwion.Prelude.{
  ℕ, zero, suc, ◌+◌, ◌-◌, ◌<◌, ◌≤◌, ◌≡◌, refl, ◌⊎◌, false, ◌&&◌, none, some, List, arith, ◌==◌,
  if◌then◌else◌, ltb, Bool-cases, inl, inr, length, ltb→lt, ltb→le, leb, ◌∙◌, ==→eq, sym,
}
use mathlib.Core.Path.{subst}
use gwion.DidYouMean.{Table, put, init_column, init_row, cell, fill_column, fill, max_distance}
use gwion.DidYouMean.Distance.{distance}

-- The cells that are final while row `i` of column `j` is due.
abbrev pub Filled : (j i a b : ℕ) → Type 0
Filled j i a b = (a ≡ 0) ⊎ (b ≡ 0) ⊎ (b < j) ⊎ ((b ≡ j) × (a < i))

module _ (s t : List ℕ) where
  abbrev pub Holds : Table → (j i : ℕ) → Type 0
  Holds d j i = (a b : ℕ) → a < length s → b < length t → Filled j i a b → d a b ≡ distance s t a b

  cell-distance :
      (d : Table) (i j : ℕ)
      → suc i < length s
      → suc j < length t
      → Holds d (suc j) (suc i)
      → cell s t d (suc i) (suc j) ≡ distance s t (suc i) (suc j)
  unfolding cell distance
  cell-distance d i j hi hj good =
      let up : suc i - 1 ≡ i = omega arith in
      let left : suc j - 1 ≡ j = omega arith in
      rw (up, left) (ground (arith, good i (suc j), good (suc i) j, good i j))

  put-Holds :
      (d : Table) (i j v : ℕ) → v ≡ distance s t i j → Holds d j i → Holds (put d i j v) j (i + 1)
  unfolding put
  put-Holds d i j v e good a b ha hb f = ground (arith, good a b)

  next_column : (d : Table) (j : ℕ) → Holds d j (length s) → Holds d (j + 1) 1
  next_column d j good a b ha hb f = good a b ha hb (omega arith)

  -- A column is filled to the end, or stops at a cell above 3.
  abbrev RunsDown : (k i j : ℕ) → Table → Type 0
  RunsDown k i j d =
      ((d' : Table) × (fill_column s t k i j d ≡ some d')
        × Holds d' j (length s)
        × ((a : ℕ) → i ≤ a → a < length s → distance s t a j ≤ 3))
      ⊎ ((a : ℕ) × (fill_column s t k i j d ≡ none)
          × (i ≤ a)
          × (a < length s)
          × (3 < distance s t a j))

  RunsDown-step :
      (k i j : ℕ) (d : Table)
      → ltb (max_distance + 1) (cell s t d (suc i) (suc j)) ≡ false
      → distance s t (suc i) (suc j) ≤ 3
      → RunsDown k (suc i + 1) (suc j) (put d (suc i) (suc j) (cell s t d (suc i) (suc j)))
      → RunsDown (suc k) (suc i) (suc j) d
  unfolding fill_column
  RunsDown-step k i j d near low (inl (d', runs, good, rest)) =
      inl (d', rw near runs, good, λ a h h'. all_low a (rest a) low h h')
    where
      all_low :
          (a : ℕ)
          → (suc i + 1 ≤ a → a < length s → distance s t a (suc j) ≤ 3)
          → distance s t (suc i) (suc j) ≤ 3
          → suc i ≤ a
          → a < length s
          → distance s t a (suc j) ≤ 3
      all_low a rest' low' h h' = elim (Bool-cases (a == suc i)) [
        | inl same ↦ rw (==→eq a (suc i) same) low'
        | inr other ↦ rest' (ground arith) h'
      ]
  RunsDown-step k i j d near low (inr (a, runs, above, inside, far)) =
      inr (a, rw near runs, omega arith, inside, far)

  fill_column-RunsDown :
      (k i j : ℕ) (d : Table)
      → suc i + k ≡ length s
      → suc j < length t
      → Holds d (suc j) (suc i)
      → RunsDown k (suc i) (suc j) d
  unfolding fill_column
  fill_column-RunsDown zero i j d e hj good =
      inl (d, refl, λ a b ha hb f. good a b ha hb (omega arith), λ a h h'. absurd (omega arith))
  fill_column-RunsDown (suc k) i j d e hj good =
      let v = cell s t d (suc i) (suc j) in
      let ev = cell-distance d i j (omega arith) hj good in
      elim (Bool-cases (ltb (max_distance + 1) v)) [
        | inl far ↦ inr (
          suc i,
          rw far,
          omega arith,
          omega arith,
          omega (arith, ltb→lt (max_distance + 1) v far, ev),
        )
        | inr near ↦
            let next : suc i + 1 ≡ suc (suc i) = omega arith in
            let good' = put-Holds d (suc i) (suc j) v ev good in
            RunsDown-step k i j d near (omega (arith, ltb→le (max_distance + 1) v near, ev)) (
              subst (λ x. RunsDown k x (suc j) (put d (suc i) (suc j) v)) (sym next)
                (fill_column-RunsDown k (suc i) j (put d (suc i) (suc j) v) (omega arith) hj
                  (subst (λ x. Holds (put d (suc i) (suc j) v) (suc j) x) next good')))
      ]

  -- All cells from column `j` on are at most 3, or one is above.
  abbrev Low : (j : ℕ) → Type 0
  Low j = (a b : ℕ) → 0 < a → a < length s → j ≤ b → b < length t → distance s t a b ≤ 3

  abbrev Filling : (k j : ℕ) → Table → Type 0
  Filling k j d =
      ((d' : Table) × (fill s t k j d ≡ some d') × Holds d' (length t) 1 × Low j)
      ⊎ ((a b : ℕ) × (fill s t k j d ≡ none)
          × (0 < a)
          × (a < length s)
          × (j ≤ b)
          × (b < length t)
          × (3 < distance s t a b))

  fill-none :
      (k j : ℕ) (d : Table)
      → fill_column s t (length s - 1) 1 j d ≡ none
      → fill s t (suc k) j d ≡ none
  unfolding fill
  fill-none k j d e = rw (e, fill)

  fill-some :
      (k j : ℕ) (d d' : Table)
      → fill_column s t (length s - 1) 1 j d ≡ some d'
      → fill s t (suc k) j d ≡ fill s t k (j + 1) d'
  unfolding fill
  fill-some k j d d' e = rw (e, fill)

  Filling-step :
      (k j : ℕ) (d d' : Table)
      → fill_column s t (length s - 1) 1 (suc j) d ≡ some d'
      → ((a : ℕ) → 1 ≤ a → a < length s → distance s t a (suc j) ≤ 3)
      → Filling k (suc j + 1) d'
      → Filling (suc k) (suc j) d
  Filling-step k j d d' e low (inl (d'', runs, good, rest)) = inl (
    d'',
    fill-some k (suc j) d d' e ∙ runs,
    good,
    λ a b ha hm hb hn. elim (Bool-cases (b == suc j)) [
      | inl same ↦ rw (==→eq b (suc j) same) (low a ha hm)
      | inr other ↦ rest a b ha hm (ground arith) hn
    ],
  )
  Filling-step k j d d' e low (inr (a, b, runs, ha, hm, hb, hn, far)) =
      inr (a, b, fill-some k (suc j) d d' e ∙ runs, ha, hm, omega arith, hn, far)

  pub fill-Filling :
      (k j : ℕ) (d : Table)
      → suc j + k ≡ length t
      → 0 < length s
      → Holds d (suc j) 1
      → Filling k (suc j) d
  unfolding fill
  fill-Filling zero j d e some_s good = inl (
    d,
    refl,
    λ a b ha hb f. good a b ha hb (omega arith),
    λ a b ha hm hb hn. absurd (omega arith),
  )
  fill-Filling (suc k) j d e some_s good =
      elim (fill_column-RunsDown (length s - 1) 0 j d (omega arith) (omega arith) good) [
        | inl (d', runs, holds, low) ↦
            let next : suc (suc j) ≡ suc j + 1 = omega arith in
            let good' = next_column d' (suc j) holds in
            Filling-step k j d d' runs low (
              subst (λ x. Filling k x d') next
                (fill-Filling k (suc j) d' (omega arith) some_s
                  (subst (λ x. Holds d' x 1) (sym next) good')))
        | inr (a, runs, above, inside, far) ↦
            inr (a, suc j, fill-none k (suc j) d runs, above, inside, omega arith, omega arith, far)
      ]

  -- The borders.
  init_row-border :
      (k i : ℕ) (d : Table) (a b : ℕ)
      → init_row k i d a b ≡ (if (a == 0) && (leb i b && ltb b (i + k)) then b else d a b)
  unfolding init_row put
  init_row-border zero i d a b = ground arith
  init_row-border (suc k) i d a b = ground (arith, init_row-border k (i + 1) (put d 0 i i) a b)

  init_column-border :
      (k i : ℕ) (d : Table) (a b : ℕ)
      → init_column k i d a b ≡ (if (b == 0) && (leb i a && ltb a (i + k)) then a else d a b)
  unfolding init_column put
  init_column-border zero i d a b = ground arith
  init_column-border (suc k) i d a b =
      ground (arith, init_column-border k (i + 1) (put d i 0 i) a b)

  pub init-Holds :
      (junk : Table) → Holds (init_row (length t) 0 (init_column (length s) 0 junk)) 1 1
  unfolding distance
  init-Holds junk zero b ha hb f =
      ground (arith, init_row-border (length t) 0 (init_column (length s) 0 junk) 0 b)
  init-Holds junk (suc a) zero ha hb f = ground (
    arith,
    init_row-border (length t) 0 (init_column (length s) 0 junk) (suc a) 0,
    init_column-border (length s) 0 junk (suc a) 0,
  )
  init-Holds junk (suc a) (suc b) ha hb f = absurd (omega arith)
