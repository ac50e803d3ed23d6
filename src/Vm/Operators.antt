-- ===== src/Vm/Operators.antt =====
-- The operators of src/vm/vm.c against the stack machine: those that take two words, those that update
-- a variable through its address, and the conditional jumps.
use mathlib.Core.Path.{subst}
use gwion.Prelude.{
  ℕ, ◌+◌, ◌%◌, ◌<◌, ◌≡◌, sym, Bool, true, List, [], ◌∷◌, ◌&&◌, none, some, if◌then◌else◌, ◌==◌,
}
use gwion.Word.{word_mod, Value, word, undefined, IntOp, int_apply}
use gwion.Vm.{
  Shred, Memory, poke, plus_ptr, minus_ptr, sz_int, store, zero_divide_exception, advance,
  branch_dispatch, write_value, write_both, is_division, exec_int_op, exec_int_r, exec_step,
  exec_self,
}
use gwion.Vm.Machine
use gwion.Vm.Machine.{Frame, is_outside, next, exception}
use gwion.Vm.Represents.{
  Represents, Represents-store, Represents-top, Represents-pop, Represents-replace,
}
use gwion.Vm.Refine.{Refines, guarded, excepted, advanced, branched, replaced-Refines}

-- The register pointer after one word is popped.
abbrev pub popped : Shred → Shred
popped s = record s { reg = minus_ptr s.reg sz_int }

abbrev pub top : Shred → ℕ
top s = minus_ptr s.reg sz_int

module _ (f : Frame) (small : f.limit < word_mod) where
  -- What is shown of the two top words holds of what is read at their addresses.
  pub at_top_two :
      (P : ℕ → ℕ → Type 0) {y x : ℕ} {xs : List ℕ} {vars : Memory} {pc : ℕ} {s : Shred}
      → Represents f (y ∷ x ∷ xs) vars pc s
      → P y x
      → P (s.memory (top s)) (s.memory (top (popped s)))
  at_top_two P {y} {x} {s = s} r h =
      subst (λ a. P a (s.memory (top (popped s)))) (sym (Represents-top small y r))
        (subst (λ b. P y b) (sym (Represents-top small x (Represents-pop small y r))) h)

  pub binary-Refines :
      (op : IntOp) (xs : List ℕ) {vars : Memory} {pc : ℕ} {s : Shred}
      → Represents f xs vars pc s
      → Refines f (Machine.binary (is_division op) (int_apply op) xs vars pc) (exec_int_op op s)
  unfolding exec_int_op
  binary-Refines op [] r = tt
  binary-Refines op (y ∷ []) r = tt
  binary-Refines op (y ∷ x ∷ xs) {vars} {pc} {s} r =
      at_top_two
        (λ a b. Refines f (Machine.binary (is_division op) (int_apply op) (y ∷ x ∷ xs) vars pc) (
          if is_division op && (a == 0)
          then zero_divide_exception (popped s)
          else write_value (int_apply op b a) (popped s) (top (popped s))))
        r
        (excepted f (is_division op && (y == 0)) (Machine.replaced (int_apply op x y) xs vars pc)
          (write_value (int_apply op x y) (popped s) (top (popped s))) (popped s)
          (replaced-Refines f small (int_apply op x y) (Represents-pop small y r)))

  pub assigned-Refines :
      (xs : List ℕ) {vars : Memory} {pc : ℕ} {s : Shred}
      → Represents f xs vars pc s
      → Refines f
          (Machine.assigned f xs vars pc)
          (advance (store (popped s) (s.memory (top s)) (s.memory (top (popped s)))))
  assigned-Refines [] r = tt
  assigned-Refines (p ∷ []) r = tt
  assigned-Refines (p ∷ v ∷ xs) {vars} {pc} {s} r =
      at_top_two
        (λ a b.
          Refines f (Machine.assigned f (p ∷ v ∷ xs) vars pc) (advance (store (popped s) a b)))
        r
        (guarded f (is_outside f p) (some (next (v ∷ xs) (poke vars p v) (pc + 1)))
          (advance (store (popped s) p v))
          (λ out. advanced f (Represents-store p v out (Represents-pop small p r))))

  pub updated-Refines :
      (g : Value) (p : ℕ) {v : ℕ} {xs : List ℕ} {vars : Memory} {pc : ℕ} {s : Shred}
      → is_outside f p ≡ true
      → Represents f (v ∷ xs) vars pc s
      → Refines f (Machine.updated g p xs vars pc) (write_both g s p (top s))
  updated-Refines (word w) p {v = v} out r =
      advanced f (Represents-replace small v (Represents-store p w out r) w)
  updated-Refines undefined p out r = tt

  pub compound-Refines :
      (op : IntOp) (xs : List ℕ) {vars : Memory} {pc : ℕ} {s : Shred}
      → Represents f xs vars pc s
      → Refines f (Machine.compound f (is_division op) (int_apply op) xs vars pc) (exec_int_r op s)
  unfolding exec_int_r
  compound-Refines op [] r = tt
  compound-Refines op (p ∷ []) r = tt
  compound-Refines op (p ∷ v ∷ xs) {vars} {pc} {s} r =
      at_top_two
        (λ a b.
          Refines f (Machine.compound f (is_division op) (int_apply op) (p ∷ v ∷ xs) vars pc) (
            if is_division op && (b == 0)
            then zero_divide_exception (popped s)
            else write_both (int_apply op (s.memory a) b) (popped s) a (top (popped s))))
        r
        (excepted f (is_division op && (v == 0))
          (if is_outside f p then Machine.updated (int_apply op (vars p) v) p xs vars pc else none)
          (write_both (int_apply op (s.memory p) v) (popped s) p (top (popped s))) (popped s)
          (guarded f (is_outside f p) (Machine.updated (int_apply op (vars p) v) p xs vars pc)
            (write_both (int_apply op (s.memory p) v) (popped s) p (top (popped s)))
            (λ out.
              subst
                (λ a.
                  Refines f (Machine.updated (int_apply op (vars p) v) p xs vars pc)
                    (write_both (int_apply op a v) (popped s) p (top (popped s))))
                (sym (r.agrees p out))
                (updated-Refines (int_apply op (vars p) v) p out (Represents-pop small p r)))))

  pub stepped-Refines :
      (add : ℕ) (old : Bool) (xs : List ℕ) {vars : Memory} {pc : ℕ} {s : Shred}
      → Represents f xs vars pc s
      → Refines f (Machine.stepped f add old xs vars pc) (exec_step add old s)
  unfolding exec_step
  stepped-Refines add old [] r = tt
  stepped-Refines add old (p ∷ xs) {vars} {pc} {s} r =
      let after : ℕ → ℕ = λ v. (v + add) % word_mod in
      let shown : ℕ → ℕ = λ v. if old then v else after v in
      let want = next (shown (vars p) ∷ xs) (poke vars p (after (vars p))) (pc + 1) in
      subst
        (λ q.
          Refines f (Machine.stepped f add old (p ∷ xs) vars pc)
            (advance (store (store s q (after (s.memory q))) (top s) (shown (s.memory q)))))
        (sym (Represents-top small p r))
        (guarded f (is_outside f p) (some want)
          (advance (store (store s p (after (s.memory p))) (top s) (shown (s.memory p))))
          (λ out.
            subst
              (λ v. Refines f (some want) (advance (store (store s p (after v)) (top s) (shown v))))
              (sym (r.agrees p out))
              (advanced f (
                Represents-replace small p (Represents-store p (after (vars p)) out r)
                  (shown (vars p))))))

  pub member-Refines :
      (val : ℕ) (xs : List ℕ) {vars : Memory} {pc : ℕ} {s : Shred}
      → Represents f xs vars pc s
      → Refines f (Machine.member f val xs vars pc) (exec_self (λ p. s.memory (plus_ptr p val)) s)
  unfolding exec_self
  member-Refines val [] r = tt
  member-Refines val (p ∷ xs) {vars} {pc} {s} r =
      let q = plus_ptr p val in
      subst
        (λ a.
          Refines f (Machine.member f val (p ∷ xs) vars pc)
            (advance (store s (top s) (s.memory (plus_ptr a val)))))
        (sym (Represents-top small p r))
        (guarded f (is_outside f q) (some (next (vars q ∷ xs) vars (pc + 1)))
          (advance (store s (top s) (s.memory q)))
          (λ out.
            subst
              (λ v.
                Refines f (some (next (vars q ∷ xs) vars (pc + 1))) (advance (store s (top s) v)))
              (sym (r.agrees q out)) (advanced f (Represents-replace small p r (vars q)))))

  pub branch-Refines :
      (check : ℕ → Bool) (target : ℕ) (xs : List ℕ) {vars : Memory} {pc : ℕ} {s : Shred}
      → Represents f xs vars pc s
      → Refines f
          (Machine.branch check target xs vars pc)
          (branch_dispatch (popped s) (check (s.memory (top s))) target)
  branch-Refines check target [] r = tt
  branch-Refines check target (x ∷ xs) {vars} {pc} {s} r =
      subst
        (λ a.
          Refines f (some (next xs vars (if check x then target else pc + 1)))
            (branch_dispatch (popped s) (check a) target))
        (sym (Represents-top small x r)) (branched f (check x) target (Represents-pop small x r))
