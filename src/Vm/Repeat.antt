-- ===== src/Vm/Repeat.antt =====
-- The counted loop of src/vm/vm.c: `repeat`, a body, and a jump back to `repeat`.
use mathlib.Core.Path.{subst}
use gwion.Prelude.{
  ℕ, zero, suc, ◌+◌, ◌-◌, ◌%◌, ◌<◌, ◌≡◌, refl, sym, true, List, ◌∙◌, arith, ap, Option, none, some,
  get_elem?, if◌then◌else◌, ◌==◌, ne→==,
}
use gwion.Word.{word_mod}
use gwion.Vm
use gwion.Vm.{Memory, Instr, poke, plus_ptr, Shred, run, at}
use gwion.Vm.Represents.{Represents}
use gwion.Vm.Dispatch.{run-next}
use gwion.Vm.Machine
use gwion.Vm.Machine.{Frame, is_outside, step, machine_run, machine_proceed, next, exception}

proceed-proceed :
    (go before after : List ℕ → Memory → ℕ → Option Machine.Step)
    → ((xs : List ℕ) (vars : Memory) (pc : ℕ)
        → go xs vars pc ≡ machine_proceed after (before xs vars pc))
    → (t : Option Machine.Step)
    → machine_proceed go t ≡ machine_proceed after (machine_proceed before t)
proceed-proceed go before after e none = refl
proceed-proceed go before after e (some exception) = refl
proceed-proceed go before after e (some (next xs vars pc)) = e xs vars pc

fetch-append :
    (go before after : List ℕ → Memory → ℕ → Option Machine.Step)
    (act : Instr → Option Machine.Step)
    → ((xs : List ℕ) (vars : Memory) (pc : ℕ)
        → go xs vars pc ≡ machine_proceed after (before xs vars pc))
    → (i : Option Instr)
    → elim i [ none ↦ none | some i ↦ machine_proceed go (act i) ]
      ≡ machine_proceed after (elim i [ none ↦ none | some i ↦ machine_proceed before (act i) ])
fetch-append go before after act e none = refl
fetch-append go before after act e (some i) = proceed-proceed go before after e (act i)

-- A run goes on from where a shorter one stops.
machine_run-append :
    (n k : ℕ) (code : List Instr) (f : Frame) (xs : List ℕ) (vars : Memory) (pc : ℕ)
    → machine_run (n + k) code f xs vars pc
      ≡ machine_proceed (machine_run k code f) (machine_run n code f xs vars pc)
unfolding machine_run
machine_run-append zero k code f xs vars pc =
    let e : k ≡ 0 + k = omega arith in
    subst (λ n. machine_run n code f xs vars pc ≡ machine_run k code f xs vars pc) e refl
machine_run-append (suc n) k code f xs vars pc =
    let e : suc (n + k) ≡ suc n + k = omega arith in
    subst
      (λ m.
        machine_run m code f xs vars pc
        ≡ machine_proceed (machine_run k code f) (machine_run (suc n) code f xs vars pc))
      e
      (fetch-append (machine_run (n + k) code f) (machine_run n code f) (machine_run k code f)
        (λ i. step f i xs vars pc) (machine_run-append n k code f) (get_elem? code pc))

-- Some run of the stack machine leads from one state to the other.
abbrev pub Reaches :
    List Instr → Frame → List ℕ → Memory → (pc : ℕ) → List ℕ → Memory → (pc' : ℕ) → Type 0
Reaches code f xs vars pc xs' vars' pc' =
    (n : ℕ) × (machine_run n code f xs vars pc ≡ some (next xs' vars' pc'))

module _ (code : List Instr) (f : Frame) where
  Reaches-trans :
      (xs ys zs : List ℕ) (vars vars' vars'' : Memory) (pc pc' pc'' : ℕ)
      → Reaches code f xs vars pc ys vars' pc'
      → Reaches code f ys vars' pc' zs vars'' pc''
      → Reaches code f xs vars pc zs vars'' pc''
  Reaches-trans xs ys zs vars vars' vars'' pc pc' pc'' (n, e) (k, e') = (
    n + k,
    machine_run-append n k code f xs vars pc ∙ ap (machine_proceed (machine_run k code f)) e ∙ e',
  )

  -- One execution of `repeat`.
  repeat_lem :
      (exit offset pc : ℕ) (xs : List ℕ) (vars : Memory)
      → get_elem? code pc ≡ some (Vm.repeat exit offset)
      → is_outside f (plus_ptr f.mem offset) ≡ true
      → let counter = plus_ptr f.mem offset in
        Reaches code f xs vars pc xs
          (poke vars counter ((vars counter + word_mod - 1) % word_mod))
          (if vars counter == 0 then exit else pc + 1)
  unfolding machine_run step
  repeat_lem exit offset pc xs vars found out =
      let counter = plus_ptr f.mem offset in
      let target = if vars counter == 0 then exit else pc + 1 in
      let want =
        some (next xs (poke vars counter ((vars counter + word_mod - 1) % word_mod)) target) in
      (
        suc zero,
        subst
            (λ o.
              elim o [
                | none ↦ none
                | some i ↦ machine_proceed (machine_run 0 code f) (step f i xs vars pc)
              ]
              ≡ want)
            (sym found)
            (subst (λ b. machine_proceed (machine_run 0 code f) (if b then want else none) ≡ want)
              (sym out) refl),
      )

  -- The counter holds the number of rounds left, and each round leads back to `repeat` with the counter
  -- as `repeat` left it. Then the loop ends at its exit.
  repeat-Reaches :
      (exit offset pc : ℕ) (xs : List ℕ) (I : ℕ → Memory → Type 0)
      → get_elem? code pc ≡ some (Vm.repeat exit offset)
      → is_outside f (plus_ptr f.mem offset) ≡ true
      → ((k : ℕ) (vars : Memory)
          → suc k < word_mod
          → I (suc k) vars
          → (vars' : Memory) × Reaches code f xs
              (poke vars (plus_ptr f.mem offset) k)
              (pc + 1)
              xs
              vars'
              pc
            × (vars' (plus_ptr f.mem offset) ≡ k)
            × I k vars')
      → (n : ℕ) (vars : Memory) → n < word_mod
      → vars (plus_ptr f.mem offset) ≡ n
      → I n vars
      → (vars' : Memory) × I 0 vars'
        × Reaches code f xs vars pc xs (poke vars' (plus_ptr f.mem offset) (word_mod - 1)) exit
  repeat-Reaches exit offset pc xs I found out body zero vars small e inv = (
    vars,
    inv,
    subst
        (λ c.
          Reaches code f xs vars pc xs
            (poke vars (plus_ptr f.mem offset) ((c + word_mod - 1) % word_mod))
            (if c == 0 then exit else pc + 1))
        e (repeat_lem exit offset pc xs vars found out),
  )
  repeat-Reaches exit offset pc xs I found out body (suc k) vars small e inv =
      let (vars', round, left, inv') = body k vars small inv in
      let (last, done, rest) =
        repeat-Reaches exit offset pc xs I found out body k vars' (omega (arith, small)) left
          inv' in
      let counter = plus_ptr f.mem offset in
      let less : (suc k + word_mod - 1) % word_mod ≡ k = omega (arith, small) in
      let begun =
        subst
          (λ c.
            Reaches code f xs vars pc xs (poke vars counter ((c + word_mod - 1) % word_mod))
              (if c == 0 then exit else pc + 1))
          e (repeat_lem exit offset pc xs vars found out) in
      let entered : Reaches code f xs vars pc xs (poke vars counter k) (pc + 1) =
        subst (λ b. Reaches code f xs vars pc xs (poke vars counter k) (if b then exit else pc + 1))
          (ne→== (suc k) 0 (λ h. omega (arith, h)))
          (subst
            (λ c.
              Reaches code f xs vars pc xs (poke vars counter c)
                (if suc k == 0 then exit else pc + 1))
            less begun) in
      (
        last,
        done,
        Reaches-trans _ _ _ _ _ _ _ _ _ entered (Reaches-trans _ _ _ _ _ _ _ _ _ round rest),
      )

  -- A loop counts down to its end: if the counter holds the number of rounds n, and each round of the
  -- body leads the stack machine back to `repeat` with the counter as `repeat` left it and with the
  -- invariant for one round less, then the shred reaches the exit, with the invariant for no round left and
  -- the counter wrapped around to -1.
  pub repeat-run :
      f.limit < word_mod
      → (exit offset pc : ℕ) (xs : List ℕ) (I : ℕ → Memory → Type 0)
      → get_elem? code pc ≡ some (Vm.repeat exit offset)
      → is_outside f (plus_ptr f.mem offset) ≡ true
      → ((k : ℕ) (vars : Memory)
          → suc k < word_mod
          → I (suc k) vars
          → (vars' : Memory) × Reaches code f xs
              (poke vars (plus_ptr f.mem offset) k)
              (pc + 1)
              xs
              vars'
              pc
            × (vars' (plus_ptr f.mem offset) ≡ k)
            × I k vars')
      → (n : ℕ) (vars : Memory) (s : Shred) → n < word_mod
      → vars (plus_ptr f.mem offset) ≡ n
      → I n vars
      → Represents f xs vars pc s
      → (m : ℕ) × (s' : Shred) × (vars' : Memory) × (run m code s ≡ at s')
        × I 0 vars'
        × Represents f xs (poke vars' (plus_ptr f.mem offset) (word_mod - 1)) exit s'
  repeat-run fits exit offset pc xs I found out body n vars s small e inv r =
      let (vars', done, (m, steps)) =
        repeat-Reaches exit offset pc xs I found out body n vars small e inv in
      let (s', ran, r') = run-next f fits m code xs xs vars _ pc exit s r steps in
      (m, s', vars', ran, done, r')
