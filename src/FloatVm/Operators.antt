-- ===== src/FloatVm/Operators.antt =====
-- The operators on floats of src/vm/vm.c against the stack machine.
use mathlib.Core.Path.{subst}
use gwion.Prelude.{ℕ, ◌<◌, sym, Bool, List, [], ◌∷◌, none, if◌then◌else◌}
use gwion.Word.{word_mod, Value}
use gwion.Vm.{Shred, Memory, store, advance, write_both, zero_divide_exception}
use gwion.Vm.Machine.{Frame, is_outside, updated}
use gwion.Vm.Represents.{Represents, Represents-pop, Represents-replace}
use gwion.Vm.Refine.{Refines, guarded, excepted, advanced}
use gwion.Vm.Operators.{popped, top, at_top_two, updated-Refines}
use gwion.FloatVm.{exec_binary, exec_update}
use gwion.FloatVm.Machine

module _ (f : Frame) (small : f.limit < word_mod) where
  pub two_words-Refines :
      (g : ℕ → ℕ → ℕ) (xs : List ℕ) {vars : Memory} {pc : ℕ} {s : Shred}
      → Represents f xs vars pc s
      → Refines f (Machine.two_words g xs vars pc) (exec_binary g s)
  unfolding exec_binary
  two_words-Refines g [] r = tt
  two_words-Refines g (y ∷ []) r = tt
  two_words-Refines g (y ∷ x ∷ xs) {vars} {pc} {s} r =
      at_top_two f small
        (λ a b.
          Refines f (Machine.two_words g (y ∷ x ∷ xs) vars pc)
            (advance (store (popped s) (top (popped s)) (g b a))))
        r (advanced f (Represents-replace small x (Represents-pop small y r) (g x y)))

  pub update-Refines :
      (check : ℕ → Bool) (g : ℕ → ℕ → Value) (xs : List ℕ) {vars : Memory} {pc : ℕ} {s : Shred}
      → Represents f xs vars pc s
      → Refines f (Machine.update f check g xs vars pc) (exec_update check g s)
  unfolding exec_update
  update-Refines check g [] r = tt
  update-Refines check g (p ∷ []) r = tt
  update-Refines check g (p ∷ v ∷ xs) {vars} {pc} {s} r =
      let want = updated (g (vars p) v) p xs vars pc in
      let given = write_both (g (s.memory p) v) (popped s) p (top (popped s)) in
      at_top_two f small
        (λ a b. Refines f (Machine.update f check g (p ∷ v ∷ xs) vars pc) (
          if check b
          then zero_divide_exception (popped s)
          else write_both (g (s.memory a) b) (popped s) a (top (popped s))))
        r
        (excepted f (check v) (if is_outside f p then want else none) given (popped s) (
          guarded f (is_outside f p) want given (λ out.
            subst (λ a. Refines f want (write_both (g a v) (popped s) p (top (popped s))))
              (sym (r.agrees p out))
              (updated-Refines f small (g (vars p) v) p out (Represents-pop small p r)))))
