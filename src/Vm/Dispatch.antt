-- ===== src/Vm/Dispatch.antt =====
-- The runs of the dispatch loop of src/vm/vm.c against those of the stack machine.
use mathlib.Core.Path.{subst}
use gwion.Prelude.{ℕ, zero, suc, ◌<◌, ◌≡◌, refl, sym, List, ap, Option, none, some, get_elem?}
use gwion.Word.{word_mod}
use gwion.Vm
use gwion.Vm.{Shred, Memory, Instr, exec, Run, run, at, raised, proceed, Outcome}
use gwion.Vm.Machine
use gwion.Vm.Machine.{Frame, step, machine_run, machine_proceed, next, exception}
use gwion.Vm.Represents.{Represents}
use gwion.Vm.Refine.{Refines}
use gwion.Vm.Exec.{exec-Refines}

module _ (f : Frame) (small : f.limit < word_mod) where
  abbrev RunRefines : Option Machine.Step → Run → Type 0
  RunRefines none o = Unit {0}
  RunRefines (some (next xs vars pc)) o = (s : Shred) × (o ≡ at s) × Represents f xs vars pc s
  RunRefines (some exception) o = (s : Shred) × (o ≡ raised s)

  proceed-Refines :
      (go : Shred → Run) (want : List ℕ → Memory → ℕ → Option Machine.Step)
      → ((xs : List ℕ) (vars : Memory) (pc : ℕ) (s : Shred)
          → Represents f xs vars pc s
          → RunRefines (want xs vars pc) (go s))
      → (t : Option Machine.Step) (o : Outcome) → Refines f t o
      → RunRefines (machine_proceed want t) (proceed go o)
  proceed-Refines go want later none o r = tt
  proceed-Refines go want later (some exception) o (s, e) = (s, ap (proceed go) e)
  proceed-Refines go want later (some (next xs vars pc)) o (s, e, r) =
      subst (λ p. RunRefines (want xs vars pc) (proceed go p)) (sym e) (later xs vars pc s r)

  fetch-Refines :
      (n : ℕ) (code : List Instr) (i : Option Instr) {xs : List ℕ} {vars : Memory} {pc : ℕ}
      {s : Shred}
      → Represents f xs vars pc s
      → ((xs : List ℕ) (vars : Memory) (pc : ℕ) (s : Shred)
          → Represents f xs vars pc s
          → RunRefines (machine_run n code f xs vars pc) (run n code s))
      → RunRefines
          (elim i [
            | none ↦ none
            | some i ↦ machine_proceed (machine_run n code f) (step f i xs vars pc)
          ])
          (elim i [ none ↦ Vm.stuck | some i ↦ proceed (run n code) (exec i s) ])
  fetch-Refines n code none r later = tt
  fetch-Refines n code (some i) {xs} {vars} {pc} {s} r later =
      proceed-Refines (run n code) (machine_run n code f) later (step f i xs vars pc) (exec i s)
        (exec-Refines f small i r)

  run-Refines :
      (n : ℕ) (code : List Instr) (xs : List ℕ) (vars : Memory) (pc : ℕ) (s : Shred)
      → Represents f xs vars pc s
      → RunRefines (machine_run n code f xs vars pc) (run n code s)
  unfolding run machine_run
  run-Refines zero code xs vars pc s r = (s, refl, r)
  run-Refines (suc n) code xs vars pc s r =
      subst
        (λ q.
          RunRefines (machine_run (suc n) code f xs vars pc) (elim (get_elem? code q) [
            | none ↦ Vm.stuck
            | some i ↦ proceed (run n code) (exec i s)
          ]))
        (sym r.pc_at) (fetch-Refines n code (get_elem? code pc) r (run-Refines n code))

  pub run-next :
      (n : ℕ) (code : List Instr) (xs xs' : List ℕ) (vars vars' : Memory) (pc pc' : ℕ) (s : Shred)
      → Represents f xs vars pc s
      → machine_run n code f xs vars pc ≡ some (next xs' vars' pc')
      → (s' : Shred) × (run n code s ≡ at s') × Represents f xs' vars' pc' s'
  run-next n code xs xs' vars vars' pc pc' s r e =
      subst (λ t. RunRefines t (run n code s)) e (run-Refines n code xs vars pc s r)

  -- A run of the stack machine that divides by zero is a run of the shred that raises.
  run-exception :
      (n : ℕ) (code : List Instr) (xs : List ℕ) (vars : Memory) (pc : ℕ) (s : Shred)
      → Represents f xs vars pc s
      → machine_run n code f xs vars pc ≡ some exception
      → (s' : Shred) × (run n code s ≡ raised s')
  run-exception n code xs vars pc s r e =
      subst (λ t. RunRefines t (run n code s)) e (run-Refines n code xs vars pc s r)
