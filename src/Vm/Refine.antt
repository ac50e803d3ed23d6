-- ===== src/Vm/Refine.antt =====
-- The pieces that the instructions of src/vm/vm.c are made of, against the stack machine.
use mathlib.Core.Path.{subst}
use gwion.Prelude.{
  ℕ, ◌+◌, ◌<◌, ◌≡◌, refl, sym, Bool, true, false, List, [], ◌∷◌, ◌∙◌, ap, Option, none, some,
  if◌then◌else◌,
}
use gwion.Word.{word_mod, Value, word, undefined}
use gwion.Vm.{
  Shred, Memory, poke, minus_ptr, sz_int, store, push, Outcome, running, zero_divide_exception,
  advance, branch_dispatch, write_value,
}
use gwion.Vm.Machine
use gwion.Vm.Machine.{Frame, is_outside, has_room, next, exception}
use gwion.Vm.Represents.{
  Represents, Represents-jump, Represents-advance, Represents-store, Represents-push,
  Represents-top, Represents-replace,
}

-- The outcome is what the stack machine allows.
abbrev pub Refines : Frame → Option Machine.Step → Outcome → Type 0
Refines f none o = Unit {0}
Refines f (some (next xs vars pc)) o = (s : Shred) × (o ≡ running s) × Represents f xs vars pc s
Refines f (some exception) o = (s : Shred) × (o ≡ zero_divide_exception s)

module _ (f : Frame) where
  pub guarded :
      (b : Bool) (t : Option Machine.Step) (o : Outcome)
      → (b ≡ true → Refines f t o)
      → Refines f (if b then t else none) o
  guarded true t o h = h refl
  guarded false t o h = tt

  pub excepted :
      (b : Bool) (t : Option Machine.Step) (o : Outcome) (s : Shred)
      → Refines f t o
      → Refines f (if b then some exception else t) (if b then zero_divide_exception s else o)
  excepted true t o s h = (s, refl)
  excepted false t o s h = h

  pub advanced :
      {xs : List ℕ} {vars : Memory} {pc : ℕ} {s : Shred}
      → Represents f xs vars pc s
      → Refines f (some (next xs vars (pc + 1))) (advance s)
  advanced {s = s} r = (record s { pc = s.pc + 1 }, refl, Represents-advance r)

  pub branched :
      (b : Bool) (target : ℕ) {xs : List ℕ} {vars : Memory} {pc : ℕ} {s : Shred}
      → Represents f xs vars pc s
      → Refines f (some (next xs vars (if b then target else pc + 1))) (branch_dispatch s b target)
  branched true target {s = s} r = (record s { pc = target }, refl, Represents-jump target r)
  branched false target r = advanced r

  pub set_var-Refines :
      (p q v w : ℕ) {xs : List ℕ} {vars : Memory} {pc : ℕ} {s : Shred}
      → Represents f xs vars pc s
      → p ≡ q
      → (is_outside f q ≡ true → v ≡ w)
      → Refines f (Machine.set_var f q w xs vars (pc + 1)) (advance (store s p v))
  set_var-Refines p q v w {xs} {vars} {pc} {s} r e same =
      guarded (is_outside f q) (some (next xs (poke vars q w) (pc + 1))) (advance (store s p v))
        (λ out.
          subst (λ a. Refines f (some (next xs (poke vars q w) (pc + 1))) (advance (store s a v)))
            (sym e)
            (subst
              (λ a. Refines f (some (next xs (poke vars q w) (pc + 1))) (advance (store s q a)))
              (sym (same out)) (advanced (Represents-store q w out r))))

  module _ (small : f.limit < word_mod) where
    pub pushed-Refines :
        (v w : ℕ) {xs : List ℕ} {vars : Memory} {pc : ℕ} {s : Shred}
        → Represents f xs vars pc s
        → v ≡ w
        → Refines f (Machine.pushed f w xs vars pc) (advance (push s v))
    pushed-Refines v w {xs} {vars} {pc} {s} r e =
        guarded (has_room f xs) (some (next (w ∷ xs) vars (pc + 1))) (advance (push s v)) (λ room.
          subst (λ a. Refines f (some (next (w ∷ xs) vars (pc + 1))) (advance (push s a))) (sym e)
            (advanced (Represents-push small w room r)))

    pub loaded-Refines :
        (p q : ℕ) {xs : List ℕ} {vars : Memory} {pc : ℕ} {s : Shred}
        → Represents f xs vars pc s
        → p ≡ q
        → Refines f (Machine.loaded f q xs vars pc) (advance (push s (s.memory p)))
    loaded-Refines p q {xs} {vars} {pc} {s} r e =
        guarded (is_outside f q) (Machine.pushed f (vars q) xs vars pc)
          (advance (push s (s.memory p)))
          (λ out. pushed-Refines (s.memory p) (vars q) r (ap s.memory e ∙ r.agrees q out))

    pub replaced-Refines :
        (g : Value) {x : ℕ} {xs : List ℕ} {vars : Memory} {pc : ℕ} {s : Shred}
        → Represents f (x ∷ xs) vars pc s
        → Refines f (Machine.replaced g xs vars pc) (write_value g s (minus_ptr s.reg sz_int))
    replaced-Refines (word v) {x = x} r = advanced (Represents-replace small x r v)
    replaced-Refines undefined r = tt

    pub unary-Refines :
        (g : ℕ → Value) (xs : List ℕ) {vars : Memory} {pc : ℕ} {s : Shred}
        → Represents f xs vars pc s
        → Refines f
            (Machine.unary g xs vars pc)
            (write_value (g (s.memory (minus_ptr s.reg sz_int))) s (minus_ptr s.reg sz_int))
    unary-Refines g [] r = tt
    unary-Refines g (x ∷ xs) {vars} {pc} {s} r =
        subst
          (λ a.
            Refines f (Machine.replaced (g x) xs vars pc)
              (write_value (g a) s (minus_ptr s.reg sz_int)))
          (sym (Represents-top small x r)) (replaced-Refines (g x) r)
