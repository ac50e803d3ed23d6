-- ===== src/Array/Loops.antt =====
-- The rounds of the methods that call a function for each element (src/lib/array.c).
use gwion.Prelude.{
  ℕ, zero, suc, ◌+◌, ◌-◌, ◌%◌, ◌^◌, ◌<◌, ◌≤◌, ◌≡◌, inl, inr, refl, sym, ap, none, some, ◌==◌, arith,
  Bool-cases, ==→eq, ==→ne, ne→==,
}
use gwion.Array.{run_rounds, run_method}

-- What the rounds before `n` make of `a`.
unfoldable pub rounds_to : {A : Type 0} → (ℕ → A → A) → ℕ → A → A
rounds_to step zero a = a
rounds_to step (suc n) a = step n (rounds_to step n a)

module _ {A : Type 0} (step : ℕ → A → A) (size : ℕ) where
  rounds_lem :
      (fuel index : ℕ) (a : A)
      → index < size
      → size < 2 ^ 16
      → size - index ≤ fuel
      → run_rounds step size fuel index (rounds_to step index a) ≡ some (rounds_to step size a)
  unfolding run_rounds rounds_to
  rounds_lem zero index a below small enough = absurd (omega (arith, below, enough))
  rounds_lem (suc fuel) index a below small enough =
      let next : (index + 1) % 2 ^ 16 ≡ suc index = omega (arith, below, small) in
      rw next (elim (Bool-cases (suc index == size)) [
        | inl last ↦ rw last (ap (λ n. some (rounds_to step n a)) (==→eq (suc index) size last))
        | inr more ↦
            let ne = ==→ne (suc index) size more in
            rw more (
              rounds_lem fuel (suc index) a (omega (arith, below, ne)) small
                (omega (arith, enough)))
      ])

  -- A method makes one round for each element of an array with fewer than 2^16 of them.
  pub run_method_lem :
      (fuel : ℕ) (a : A)
      → size < 2 ^ 16
      → size ≤ fuel
      → run_method step size fuel a ≡ some (rounds_to step size a)
  unfolding rounds_to
  run_method_lem fuel a small enough = elim (Bool-cases (size == 0)) [
    | inl empty ↦ rw empty (ap (λ n. some (rounds_to step n a)) (sym (==→eq size 0 empty)))
    | inr full ↦
        let ne = ==→ne size 0 full in
        rw full (rounds_lem fuel 0 a (omega (arith, ne)) small (omega (arith, enough)))
  ]

  never_lem : (fuel index : ℕ) (a : A) → 2 ^ 16 ≤ size → run_rounds step size fuel index a ≡ none
  unfolding run_rounds
  never_lem zero index a large = refl
  never_lem (suc fuel) index a large =
      rw (ne→== ((index + 1) % 2 ^ 16) size (λ e. omega (arith, large, e)))
        (never_lem fuel ((index + 1) % 2 ^ 16) (step index a) large)

  -- On a longer array it never ends.
  pub run_method_never : (fuel : ℕ) (a : A) → 2 ^ 16 ≤ size → run_method step size fuel a ≡ none
  run_method_never fuel a large =
      rw (ne→== size 0 (λ e. omega (arith, large, e))) (never_lem fuel 0 a large)
