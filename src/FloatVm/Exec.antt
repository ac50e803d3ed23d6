-- ===== src/FloatVm/Exec.antt =====
-- The single instructions on floats of src/vm/vm.c against the stack machine.
use mathlib.Core.Path.{subst}
use mathlib.Core.Bool.{not}
use gwion.Prelude.{ℕ, ◌<◌, ◌≡◌, refl, sym, ap, List, some, ◌&&◌}
use gwion.Word.{word_mod, word, of_bool}
use gwion.Vm.{Shred, Memory, plus_ptr, zero_divide_exception, exec, exec_self}
use gwion.Vm.Machine.{Frame, step, exception, unary}
use gwion.Vm.Represents.{Represents}
use gwion.Vm.Refine.{Refines, pushed-Refines, loaded-Refines, unary-Refines}
use gwion.Vm.Operators.{assigned-Refines, member-Refines, branch-Refines}
use gwion.Vm.Exec.{alloc_int-Refines}
use gwion.FloatVm
use gwion.FloatVm.{
  FloatBits, FloatInstr, exec_float, float_apply, float_test, int_float_test, float_int_test,
  tests_divisor, no_check,
}
use gwion.FloatVm.Meaning.{
  float_value, float_value_lem, test_value_lem, int_float_value_lem, float_int_value_lem,
  refused_lem,
}
use gwion.FloatVm.Machine.{float_step, two_words, update}
use gwion.FloatVm.Operators.{two_words-Refines, update-Refines}

module _ (bits : FloatBits) (f : Frame) (small : f.limit < word_mod) where
  exec_float-Refines :
      (i : FloatInstr) {xs : List ℕ} {vars : Memory} {pc : ℕ} {s : Shred}
      → Represents f xs vars pc s
      → Refines f (float_step bits f i xs vars pc) (exec_float bits i s)
  unfolding exec_float float_step exec_self exec step
  exec_float-Refines (FloatVm.reg_push_float val) r = pushed-Refines f small val val r refl
  exec_float-Refines (FloatVm.reg_push_mem_float val) r =
      loaded-Refines f small _ _ r (ap (λ m. plus_ptr m val) r.mem_at)
  exec_float-Refines (FloatVm.base_float val) r =
      loaded-Refines f small _ _ r (ap (λ m. plus_ptr m val) r.base_at)
  exec_float-Refines (FloatVm.struct_member_float val) {xs} r = member-Refines f small val xs r
  exec_float-Refines (FloatVm.alloc_float val) r = alloc_int-Refines f small val r
  exec_float-Refines (FloatVm.float_op op) {xs} {vars} {pc} {s} r =
      subst (λ g. Refines f (two_words g xs vars pc) (exec_float bits (FloatVm.float_op op) s))
        (λ i x y. sym (float_value_lem bits op x y) i) (two_words-Refines f small _ xs r)
  exec_float-Refines (FloatVm.float_op_imm op val) {xs} {vars} {pc} {s} r =
      subst (λ g. Refines f (unary g xs vars pc) (exec_float bits (FloatVm.float_op_imm op val) s))
        (λ i x. word (sym (float_value_lem bits op x val) i))
        (unary-Refines f small (λ a. word (float_apply bits op a val)) xs r)
  exec_float-Refines (FloatVm.float_logical t) {xs} {vars} {pc} {s} r =
      subst (λ g. Refines f (two_words g xs vars pc) (exec_float bits (FloatVm.float_logical t) s))
        (λ i x y. sym (test_value_lem bits t x y) i) (two_words-Refines f small _ xs r)
  exec_float-Refines (FloatVm.float_logical_imm t val) {xs} {vars} {pc} {s} r =
      subst
        (λ g. Refines f (unary g xs vars pc) (exec_float bits (FloatVm.float_logical_imm t val) s))
        (λ i x. word (sym (test_value_lem bits t x val) i))
        (unary-Refines f small (λ a. word (float_test bits t a val)) xs r)
  exec_float-Refines (FloatVm.int_float_op op) {xs} {vars} {pc} {s} r =
      subst (λ g. Refines f (two_words g xs vars pc) (exec_float bits (FloatVm.int_float_op op) s))
        (λ i x y. sym (float_value_lem bits op (bits.of_int x) y) i)
        (two_words-Refines f small _ xs r)
  exec_float-Refines (FloatVm.int_float_logical t) {xs} {vars} {pc} {s} r =
      subst
        (λ g. Refines f (two_words g xs vars pc) (exec_float bits (FloatVm.int_float_logical t) s))
        (λ i x y. sym (int_float_value_lem bits t x y) i) (two_words-Refines f small _ xs r)
  exec_float-Refines (FloatVm.float_int_op op) {xs} {vars} {pc} {s} r =
      subst (λ g. Refines f (two_words g xs vars pc) (exec_float bits (FloatVm.float_int_op op) s))
        (λ i x y. sym (float_value_lem bits op x (bits.of_int y)) i)
        (two_words-Refines f small _ xs r)
  exec_float-Refines (FloatVm.float_int_logical t) {xs} {vars} {pc} {s} r =
      subst
        (λ g. Refines f (two_words g xs vars pc) (exec_float bits (FloatVm.float_int_logical t) s))
        (λ i x y. sym (float_int_value_lem bits t x y) i) (two_words-Refines f small _ xs r)
  exec_float-Refines FloatVm.float_negate {xs} r =
      unary-Refines f small (λ a. word (bits.neg a)) xs r
  exec_float-Refines FloatVm.float_not {xs} r =
      unary-Refines f small (λ a. word (of_bool (bits.is_zero a))) xs r
  exec_float-Refines FloatVm.int_to_float {xs} r =
      unary-Refines f small (λ a. word (bits.of_int a)) xs r
  exec_float-Refines FloatVm.float_to_int {xs} r = unary-Refines f small bits.to_int xs r
  exec_float-Refines FloatVm.float_r_assign {xs} r = assigned-Refines f small xs r
  exec_float-Refines (FloatVm.float_r op) {xs} {vars} {pc} {s} r =
      subst
        (λ g. Refines f (update f no_check g xs vars pc) (exec_float bits (FloatVm.float_r op) s))
        (λ i x y. word (sym (float_value_lem bits op x y) i))
        (update-Refines f small no_check (λ a b. word (float_apply bits op a b)) xs r)
  exec_float-Refines FloatVm.int_float_r_assign {xs} r =
      update-Refines f small no_check (λ a b. word (bits.of_int b)) xs r
  exec_float-Refines (FloatVm.int_float_r op) {xs} {vars} {pc} {s} r =
      subst
        (λ g.
          Refines f (update f no_check g xs vars pc) (exec_float bits (FloatVm.int_float_r op) s))
        (λ i x y. word (sym (float_value_lem bits op x (bits.of_int y)) i))
        (update-Refines f small no_check (λ a b. word (float_apply bits op a (bits.of_int b))) xs r)
  exec_float-Refines FloatVm.float_int_r_assign {xs} r =
      update-Refines f small no_check (λ a b. bits.to_int b) xs r
  exec_float-Refines (FloatVm.float_int_r op) {xs} {vars} {pc} {s} r =
      subst
        (λ c.
          Refines f
            (update f c (λ a b. bits.to_int (float_value bits op (bits.of_int a) b)) xs vars pc)
            (exec_float bits (FloatVm.float_int_r op) s))
        (λ i y. sym (refused_lem bits op y) i)
        (subst
          (λ g.
            Refines f (update f (λ b. tests_divisor op && bits.is_zero b) g xs vars pc)
              (exec_float bits (FloatVm.float_int_r op) s))
          (λ i x y. bits.to_int (sym (float_value_lem bits op (bits.of_int x) y) i))
          (update-Refines f small (λ b. tests_divisor op && bits.is_zero b)
            (λ a b. bits.to_int (float_apply bits op (bits.of_int a) b)) xs r))
  exec_float-Refines (FloatVm.branch_eq_float val) {xs} r =
      branch-Refines f small bits.is_zero val xs r
  exec_float-Refines (FloatVm.branch_neq_float val) {xs} r =
      branch-Refines f small (λ x. not (bits.is_zero x)) val xs r

  -- When the stack machine divides an integer variable by a float that is zero, the shred raises
  -- `ZeroDivideException`. The register stack lies below 2^64.
  exec_float-exception :
      (i : FloatInstr) {xs : List ℕ} {vars : Memory} {pc : ℕ} {s : Shred}
      → Represents f xs vars pc s
      → float_step bits f i xs vars pc ≡ some exception
      → (s' : Shred) × (exec_float bits i s ≡ zero_divide_exception s')
  exec_float-exception i {s = s} r e =
      subst (λ t. Refines f t (exec_float bits i s)) e (exec_float-Refines i r)
