-- ===== src/Array/Slice.antt =====
-- `ArraySlice` (src/lib/array.c).
use gwion.Prelude.{
  ℕ, zero, suc, ◌+◌, ◌-◌, ◌%◌, ◌<◌, ◌≤◌, ◌≡◌, ◌≢◌, refl, sym, ap, ◌∙◌, true, some, List, [], ◌∷◌,
  length, get_elem?, set, length-set, arith, Bool-cases, inl, inr, ◌==◌, ne→==, ==-refl, ==→eq,
  ==→ne,
}
use gwion.Word.{word_mod}
use gwion.Array.{MVectorOps, slice_rounds}
use gwion.Array.Elements.{MVectorLaws, elem_at}

get_elem?-set_same :
    {A : Type 0} (xs : List A) (i : ℕ) (x : A) → i < length xs → get_elem? (set xs i x) i ≡ some x
get_elem?-set_same [] i x below = absurd (omega (arith, below))
get_elem?-set_same (y ∷ xs) zero x below = refl
get_elem?-set_same (y ∷ xs) (suc i) x below = get_elem?-set_same xs i x (omega (arith, below))

get_elem?-set_before :
    {A : Type 0} (xs : List A) (i k : ℕ) (x : A) → k < i → get_elem? (set xs i x) k ≡ get_elem? xs k
get_elem?-set_before [] i k x before = refl
get_elem?-set_before (y ∷ xs) zero k x before = absurd (omega (arith, before))
get_elem?-set_before (y ∷ xs) (suc i) zero x before = refl
get_elem?-set_before (y ∷ xs) (suc i) (suc k) x before =
    get_elem?-set_before xs i k x (omega (arith, before))

-- The rounds, where round `k` reads the element at `place k`.
module _ {V E : Type 0} (mv : MVectorOps V E) (laws : MVectorLaws mv) (array : V) (place : ℕ → ℕ)
    (stop op sz : ℕ) (next : (k : ℕ) → k < sz → (place k + op) % word_mod ≡ place (suc k))
    (before_stop : (k : ℕ) → k < sz → place k ≢ stop) (last : place sz ≡ stop)
    (inside : (k : ℕ) → k < sz → place k < length (laws.items array)) where
  Copied : ℕ → V → Type 0
  Copied n out =
      (k : ℕ) → k < n → get_elem? (laws.items out) k ≡ get_elem? (laws.items array) (place k)

  set-Copied :
      (j : ℕ) (out : V)
      → j < sz
      → length (laws.items out) ≡ sz
      → Copied j out
      → (length (laws.items (mv.set out j (mv.get array (place j)))) ≡ sz)
        × Copied (suc j) (mv.set out j (mv.get array (place j)))
  unfolding Copied
  set-Copied j out below long copied =
      let (x, e) = elem_at (laws.items array) (place j) (inside j below) in
      let got = laws.get_lem array (place j) x e in
      let now = laws.items-set out j (mv.get array (place j)) (omega (arith, below, long)) in
      (
        ap length now ∙ length-set (laws.items out) j (mv.get array (place j)) ∙ long,
        λ k before. ap (λ l. get_elem? l k) now ∙ elim (Bool-cases (k == j)) [
          | inl same ↦
              let at = ==→eq k j same in
              ap (λ m. get_elem? (set (laws.items out) j (mv.get array (place j))) m) at
              ∙ get_elem?-set_same (laws.items out) j (mv.get array (place j))
                  (omega (arith, below, long))
              ∙ ap some got
              ∙ sym e
              ∙ ap (λ m. get_elem? (laws.items array) (place m)) (sym at)
          | inr other ↦
              let ne = ==→ne k j other in
              get_elem?-set_before (laws.items out) j k (mv.get array (place j))
                (omega (arith, before, ne))
              ∙ copied k (omega (arith, before, ne))
        ],
      )

  slice_rounds_lem :
      (fuel j : ℕ) (out : V)
      → j ≤ sz
      → sz - j < fuel
      → length (laws.items out) ≡ sz
      → Copied j out
      → (made : V) × (slice_rounds mv fuel array (place j) stop op j out ≡ some made)
        × (length (laws.items made) ≡ sz)
        × ((k : ℕ)
            → k < sz
            → get_elem? (laws.items made) k ≡ get_elem? (laws.items array) (place k))
  unfolding slice_rounds Copied
  slice_rounds_lem zero j out within enough long copied = absurd (omega (arith, enough))
  slice_rounds_lem (suc fuel) j out within enough long copied = elim (Bool-cases (j == sz)) [
    | inl ended ↦
        let at = ==→eq j sz ended in
        let here : (place j == stop) ≡ true =
          ap (λ m. place m == stop) at ∙ ap (λ p. p == stop) last ∙ ==-refl stop in
        (out, rw here refl, long, λ k below. copied k (omega (arith, below, at)))
    | inr more ↦
        let ne = ==→ne j sz more in
        let below : j < sz = omega (arith, within, ne) in
        let (long_next, copied_more) = set-Copied j out below long copied in
        let (made, runs, length_made, elements) =
          slice_rounds_lem fuel (suc j) (mv.set out j (mv.get array (place j)))
            (omega (arith, below)) (omega (arith, enough)) long_next copied_more in
        let up : j + 1 ≡ suc j = omega arith in
        (
          made,
          rw (ne→== (place j) stop (before_stop j below), next j below, up) runs,
          length_made,
          elements,
        )
  ]

  -- All the rounds, from an array of the slice's size.
  pub slice_whole :
      (fuel : ℕ)
      → sz < fuel
      → (made : V) × (slice_rounds mv fuel array (place 0) stop op 0 (mv.init sz) ≡ some made)
        × (length (laws.items made) ≡ sz)
        × ((k : ℕ)
            → k < sz
            → get_elem? (laws.items made) k ≡ get_elem? (laws.items array) (place k))
  unfolding Copied
  slice_whole fuel enough =
      slice_rounds_lem fuel 0 (mv.init sz) (omega arith) (omega (arith, enough))
        (laws.length-init sz) (λ k before. absurd (omega (arith, before)))
