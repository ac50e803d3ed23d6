-- ===== src/Array/Bounds.antt =====
-- What `ArraySlice` gives for every range (src/lib/array.c).
use gwion.Prelude.{
  ℕ, ◌+◌, ◌-◌, ◌%◌, ◌^◌, ◌<◌, ◌≤◌, ◌≡◌, refl, sym, ap, ◌∙◌, true, false, some, length, get_elem?,
  if◌then◌else◌, arith, Bool-cases, ◌⊎◌, inl, inr, ltb, ◌==◌, ==→eq, ==→ne, ltb→lt, ltb→le,
}
use gwion.Word.{word_mod, int_lt}
use gwion.Array.{MVectorOps, value, bounds, slice_rounds, slice_end, array_slice}
use gwion.Array.Elements.{MVectorLaws}
use gwion.Array.Slice.{slice_whole}

unfoldable pub distance : ℕ → ℕ → ℕ
distance start stop = if ltb start stop then stop - start else start - stop

-- Where the `k`th element of a slice stands: a slice to a smaller index is in reverse.
unfoldable pub slice_place : ℕ → ℕ → ℕ → ℕ
slice_place start stop k = if ltb start stop then start + k else start - k

module _ {V E : Type 0} (mv : MVectorOps V E) (laws : MVectorLaws mv) where
  unfoldable pub InBounds : V → ℕ → Type 0
  InBounds array i = (0 < i) × (i < length (laws.items array))

  unfoldable pub IsSlice : V → (start stop : ℕ) → V → Type 0
  IsSlice array start stop out =
      (length (laws.items out) ≡ distance start stop)
      × ((k : ℕ)
          → k < distance start stop
          → get_elem? (laws.items out) k ≡ get_elem? (laws.items array) (slice_place start stop k))

  unfoldable pub OutOfBounds : V → ℕ → Type 0
  OutOfBounds array i = (i ≡ 0) ⊎ (length (laws.items array) ≤ i)

  int_lt_small : (a b : ℕ) → a < 2 ^ 63 → b < 2 ^ 63 → int_lt a b ≡ ltb a b
  unfolding int_lt
  int_lt_small a b sa sb =
      let ea : (a + 2 ^ 63) % word_mod ≡ a + 2 ^ 63 = omega (arith, sa) in
      let eb : (b + 2 ^ 63) % word_mod ≡ b + 2 ^ 63 = omega (arith, sb) in
      rw (ea, eb) (ground arith)

  pub bounds-cases :
      (array : V) (i : ℕ)
      → ((bounds mv array i ≡ true) × InBounds array i)
        ⊎ ((bounds mv array i ≡ false) × OutOfBounds array i)
  unfolding bounds InBounds OutOfBounds
  bounds-cases array i =
      let long = laws.size_lem array in
      elim (Bool-cases (i == 0)) [
        | inl at_zero ↦ inr (rw at_zero refl, inl (==→eq i 0 at_zero))
        | inr positive ↦
            let ne = ==→ne i 0 positive in
            elim (Bool-cases (ltb i (mv.size array))) [
              | inl below ↦
                  let less = ltb→lt i (mv.size array) below in
                  inl (rw (positive, below) refl, (omega (arith, ne), omega (arith, less, long)))
              | inr above ↦
                  let more = ltb→le i (mv.size array) above in
                  inr (rw (positive, above) refl, inr (omega (arith, more, long)))
            ]
      ]

  module _ (array : V) (start stop : ℕ) (small : length (laws.items array) < 2 ^ 63)
      (start_in : InBounds array start) (stop_in : InBounds array stop) where
    start_small : start < 2 ^ 63
    unfolding InBounds
    start_small = let (positive, less) = start_in in omega (arith, less, small)

    stop_small : stop < 2 ^ 63
    unfolding InBounds
    stop_small = let (positive, less) = stop_in in omega (arith, less, small)

    copy_up :
        (fuel : ℕ)
        → length (laws.items array) < fuel
        → start < stop
        → (out : V) × (slice_rounds mv fuel array start stop 1 0 (mv.init (stop - start))
            ≡ some out)
          × (length (laws.items out) ≡ stop - start)
          × ((k : ℕ)
              → k < stop - start
              → get_elem? (laws.items out) k ≡ get_elem? (laws.items array) (start + k))
    unfolding InBounds
    copy_up fuel enough less =
        let begin : start + 0 ≡ start = omega arith in
        let (positive, below) = stop_in in
        let tight = stop_small in
        let (out, runs, long, rest) =
          slice_whole mv laws array (λ k. start + k) stop 1 (stop - start)
            (λ k before. omega (arith, before, tight)) (λ k before e. omega (arith, before, e))
            (omega (arith, less)) (λ k before. omega (arith, before, below)) fuel
            (omega (arith, enough, below)) in
        (
          out,
          sym (ap (λ i. slice_rounds mv fuel array i stop 1 0 (mv.init (stop - start))) begin)
              ∙ runs,
          long,
          rest,
        )

    copy_down :
        (fuel : ℕ)
        → length (laws.items array) < fuel
        → stop ≤ start
        → (out : V) × (slice_rounds mv fuel array start stop
              (word_mod - 1)
              0
              (mv.init (start - stop))
            ≡ some out)
          × (length (laws.items out) ≡ start - stop)
          × ((k : ℕ)
              → k < start - stop
              → get_elem? (laws.items out) k ≡ get_elem? (laws.items array) (start - k))
    unfolding InBounds
    copy_down fuel enough more =
        let begin : start - 0 ≡ start = omega arith in
        let (positive, below) = start_in in
        let tight = start_small in
        let (out, runs, long, rest) =
          slice_whole mv laws array (λ k. start - k) stop (word_mod - 1) (start - stop)
            (λ k before. omega (arith, before, tight)) (λ k before e. omega (arith, before, e))
            (omega (arith, more)) (λ k before. omega (arith, before, below)) fuel
            (omega (arith, enough, below)) in
        (
          out,
          sym (
                ap
                  (λ i. slice_rounds mv fuel array i stop (word_mod - 1) 0 (mv.init (start - stop)))
                  begin)
              ∙ runs,
          long,
          rest,
        )

    pub array_slice-IsSlice :
        (fuel stop0 : ℕ)
        → slice_end mv array stop0 ≡ stop
        → length (laws.items array) < fuel
        → bounds mv array start ≡ true
        → bounds mv array stop ≡ true
        → (out : V) × (array_slice mv fuel array start stop0 ≡ some (value out))
          × IsSlice array start stop out
    unfolding array_slice IsSlice distance slice_place
    array_slice-IsSlice fuel stop0 at enough start_true stop_true =
        elim (Bool-cases (ltb start stop)) [
          | inl up ↦
              let less = ltb→lt start stop up in
              let (out, runs, long, rest) = copy_up fuel enough less in
              let way : int_lt start stop ≡ true =
                int_lt_small start stop start_small stop_small ∙ up in
              let tight = stop_small in
              let room : (stop + word_mod - start) % word_mod ≡ stop - start =
                omega (arith, less, tight) in
              (out, rw (at, way, room, start_true, stop_true, runs) refl, rw up (long, rest))
          | inr down ↦
              let more = ltb→le start stop down in
              let (out, runs, long, rest) = copy_down fuel enough more in
              let way : int_lt start stop ≡ false =
                int_lt_small start stop start_small stop_small ∙ down in
              let tight = start_small in
              let room : (start + word_mod - stop) % word_mod ≡ start - stop =
                omega (arith, more, tight) in
              (out, rw (at, way, room, start_true, stop_true, runs) refl, rw down (long, rest))
        ]
