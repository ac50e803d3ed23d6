-- ===== src/Vm/Exec.antt =====
-- The single instructions of src/vm/vm.c against the stack machine.
use mathlib.Core.Path.{subst}
use mathlib.Core.Bool.{not}
use gwion.Prelude.{
  ℕ, ◌+◌, ◌-◌, ◌%◌, ◌<◌, ◌≡◌, refl, sym, true, false, List, ◌∙◌, ap, none, some, if◌then◌else◌,
  ◌==◌,
}
use gwion.Word.{word_mod, word, negate, of_bool}
use gwion.Vm
use gwion.Vm.{
  Shred, Memory, Instr, poke, plus_ptr, sz_int, store, push, advance, branch_dispatch, exec,
  exec_self, exec_int_imm_op, int_imm_apply, is_division, zero_divide_exception,
}
use gwion.Vm.Meaning.{divides_lem, int_value, int_value_lem, imm_value_lem}
use gwion.Vm.Machine
use gwion.Vm.Machine.{Frame, is_outside, step, machine_run, next, exception}
use gwion.Vm.Represents.{Represents, Represents-store}
use gwion.Vm.Refine.{
  Refines, guarded, advanced, branched, set_var-Refines, pushed-Refines, loaded-Refines,
  unary-Refines,
}
use gwion.Vm.Operators.{
  binary-Refines, assigned-Refines, compound-Refines, stepped-Refines, member-Refines,
  branch-Refines,
}

module _ (f : Frame) (small : f.limit < word_mod) where
  -- The counters of the two kinds of loop.
  repeat-Refines :
      (val val2 : ℕ) {xs : List ℕ} {vars : Memory} {pc : ℕ} {s : Shred}
      → Represents f xs vars pc s
      → Refines f (step f (Vm.repeat val val2) xs vars pc) (exec (Vm.repeat val val2) s)
  unfolding exec step
  repeat-Refines val val2 {xs} {vars} {pc} {s} r =
      let p = plus_ptr f.mem val2 in
      let less : ℕ → ℕ = λ n. (n + word_mod - 1) % word_mod in
      let want = next xs (poke vars p (less (vars p))) (if vars p == 0 then val else pc + 1) in
      subst
        (λ m. Refines f (step f (Vm.repeat val val2) xs vars pc) (
          branch_dispatch (store s (plus_ptr m val2) (less (s.memory (plus_ptr m val2))))
            (s.memory (plus_ptr m val2) == 0) val))
        (sym r.mem_at)
        (guarded f (is_outside f p) (some want)
          (branch_dispatch (store s p (less (s.memory p))) (s.memory p == 0) val)
          (λ out.
            subst (λ n. Refines f (some want) (branch_dispatch (store s p (less n)) (n == 0) val))
              (sym (r.agrees p out))
              (branched f (vars p == 0) val (Represents-store p (less (vars p)) out r))))

  repeat_idx-Refines :
      (val val2 : ℕ) {xs : List ℕ} {vars : Memory} {pc : ℕ} {s : Shred}
      → Represents f xs vars pc s
      → Refines f (step f (Vm.repeat_idx val val2) xs vars pc) (exec (Vm.repeat_idx val val2) s)
  unfolding exec step
  repeat_idx-Refines val val2 {xs} {vars} {pc} {s} r =
      let p = plus_ptr f.mem val2 in
      let q = plus_ptr p sz_int in
      let more : ℕ → ℕ = λ n. (n + 1) % word_mod in
      let want =
        next xs (poke vars p (more (vars p))) (if vars q == more (vars p) then val else pc + 1) in
      subst
        (λ m. Refines f (step f (Vm.repeat_idx val val2) xs vars pc) (
          branch_dispatch (store s (plus_ptr m val2) (more (s.memory (plus_ptr m val2))))
            (s.memory (plus_ptr (plus_ptr m val2) sz_int) == more (s.memory (plus_ptr m val2)))
            val))
        (sym r.mem_at)
        (guarded f (is_outside f q) (if is_outside f p then some want else none)
          (branch_dispatch (store s p (more (s.memory p))) (s.memory q == more (s.memory p)) val)
          (λ above.
            guarded f (is_outside f p) (some want)
              (branch_dispatch (store s p (more (s.memory p))) (s.memory q == more (s.memory p))
                val)
              (λ out.
                subst
                  (λ b.
                    Refines f (some want) (
                      branch_dispatch (store s p (more (s.memory p))) (b == more (s.memory p)) val))
                  (sym (r.agrees q above))
                  (subst
                    (λ n.
                      Refines f (some want)
                        (branch_dispatch (store s p (more n)) (vars q == more n) val))
                    (sym (r.agrees p out))
                    (branched f (vars q == more (vars p)) val
                      (Represents-store p (more (vars p)) out r))))))

  pub alloc_int-Refines :
      (val : ℕ) {xs : List ℕ} {vars : Memory} {pc : ℕ} {s : Shred}
      → Represents f xs vars pc s
      → Refines f (step f (Vm.alloc_int val) xs vars pc) (exec (Vm.alloc_int val) s)
  unfolding exec step
  alloc_int-Refines val {xs} {vars} {pc} {s} r =
      let p = plus_ptr f.mem val in
      subst
        (λ m.
          Refines f (step f (Vm.alloc_int val) xs vars pc)
            (advance (push (store s (plus_ptr m val) 0) 0)))
        (sym r.mem_at)
        (guarded f (is_outside f p) (Machine.pushed f 0 xs (poke vars p 0) pc)
          (advance (push (store s p 0) 0))
          (λ out. pushed-Refines f small 0 0 (Represents-store p 0 out r) refl))

  pub exec-Refines :
      (i : Instr) {xs : List ℕ} {vars : Memory} {pc : ℕ} {s : Shred}
      → Represents f xs vars pc s
      → Refines f (step f i xs vars pc) (exec i s)
  unfolding exec step exec_self exec_int_imm_op negate
  exec-Refines (Vm.reg_push_imm val) r = pushed-Refines f small val val r refl
  exec-Refines (Vm.reg_push_mem val) r =
      loaded-Refines f small _ _ r (ap (λ m. plus_ptr m val) r.mem_at)
  exec-Refines (Vm.reg_push_mem_addr val) r =
      pushed-Refines f small _ _ r (ap (λ m. plus_ptr m val) r.mem_at)
  exec-Refines (Vm.base_int val) r =
      loaded-Refines f small _ _ r (ap (λ m. plus_ptr m val) r.base_at)
  exec-Refines (Vm.base_addr val) r =
      pushed-Refines f small _ _ r (ap (λ m. plus_ptr m val) r.base_at)
  exec-Refines (Vm.struct_member val) {xs} r = member-Refines f small val xs r
  exec-Refines (Vm.struct_member_addr val) {xs} r =
      unary-Refines f small (λ p. word (plus_ptr p val)) xs r
  exec-Refines (Vm.mem_set_imm val val2) r =
      set_var-Refines f _ _ val2 val2 r (ap (λ m. plus_ptr m val) r.mem_at) (λ _. refl)
  exec-Refines (Vm.mem_add_imm val val2) {s = s} r =
      let e = ap (λ m. plus_ptr m val) r.mem_at in
      set_var-Refines f _ _ _ _ r e
        (λ out. ap (λ v. (v + val2) % word_mod) (ap s.memory e ∙ r.agrees (plus_ptr f.mem val) out))
  exec-Refines (Vm.repeat val val2) r = repeat-Refines val val2 r
  exec-Refines (Vm.repeat_idx val val2) r = repeat_idx-Refines val val2 r
  exec-Refines (Vm.goto val) r = branched f true val r
  exec-Refines (Vm.alloc_int val) r = alloc_int-Refines val r
  exec-Refines (Vm.int_op op) {xs} {vars} {pc} {s} r =
      subst (λ q. Refines f (Machine.binary q (int_value op) xs vars pc) (exec (Vm.int_op op) s))
        (sym (divides_lem op))
        (subst
          (λ g. Refines f (Machine.binary (is_division op) g xs vars pc) (exec (Vm.int_op op) s))
          (λ i x y. sym (int_value_lem op x y) i) (binary-Refines f small op xs r))
  exec-Refines (Vm.int_imm_op op val) {xs} {vars} {pc} {s} r =
      subst (λ g. Refines f (Machine.unary g xs vars pc) (exec (Vm.int_imm_op op val) s))
        (λ i x. sym (imm_value_lem op x val) i)
        (unary-Refines f small (λ x. int_imm_apply op x val) xs r)
  exec-Refines Vm.int_negate {xs} r = unary-Refines f small (λ x. word (negate x)) xs r
  exec-Refines Vm.int_not {xs} r = unary-Refines f small (λ x. word (of_bool (x == 0))) xs r
  exec-Refines Vm.int_cmp {xs} r = unary-Refines f small (λ x. word (word_mod - 1 - x)) xs r
  exec-Refines Vm.int_r_assign {xs} r = assigned-Refines f small xs r
  exec-Refines (Vm.int_r op) {xs} {vars} {pc} {s} r =
      subst (λ q. Refines f (Machine.compound f q (int_value op) xs vars pc) (exec (Vm.int_r op) s))
        (sym (divides_lem op))
        (subst
          (λ g. Refines f (Machine.compound f (is_division op) g xs vars pc) (exec (Vm.int_r op) s))
          (λ i x y. sym (int_value_lem op x y) i) (compound-Refines f small op xs r))
  exec-Refines Vm.pre_inc {xs} r = stepped-Refines f small 1 false xs r
  exec-Refines Vm.pre_dec {xs} r = stepped-Refines f small (word_mod - 1) false xs r
  exec-Refines Vm.post_inc {xs} r = stepped-Refines f small 1 true xs r
  exec-Refines Vm.post_dec {xs} r = stepped-Refines f small (word_mod - 1) true xs r
  exec-Refines (Vm.branch_eq_int val) {xs} r = branch-Refines f small (λ x. x == 0) val xs r
  exec-Refines (Vm.branch_neq_int val) {xs} r = branch-Refines f small (λ x. not (x == 0)) val xs r
  exec-Refines Vm.noop r = advanced f r
  exec-Refines (Vm.reg_set_imm val val2) r = tt
  exec-Refines (Vm.reg_to_reg val val2) r = tt
  exec-Refines (Vm.reg_to_reg_addr val val2) r = tt
  exec-Refines (Vm.reg_to_mem val val2) r = tt
  exec-Refines (Vm.reg_move val) r = tt

  -- When the stack machine divides by zero, the shred raises `ZeroDivideException`.
  exec-exception :
      (i : Instr) {xs : List ℕ} {vars : Memory} {pc : ℕ} {s : Shred}
      → Represents f xs vars pc s
      → step f i xs vars pc ≡ some exception
      → (s' : Shred) × (exec i s ≡ zero_divide_exception s')
  exec-exception i {s = s} r e = subst (λ t. Refines f t (exec i s)) e (exec-Refines i r)
