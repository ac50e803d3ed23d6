-- ===== src/FloatVm/Machine.antt =====
-- What the instructions on floats of src/vm/vm.c mean on the stack machine. `none` is outside its contract,
-- as for the other instructions.
use mathlib.Core.Bool.{not}
use gwion.Prelude.{ℕ, ◌+◌, Bool, Option, none, some, List, [], ◌∷◌, if◌then◌else◌}
use gwion.Word.{Value, word, of_bool}
use gwion.Vm
use gwion.Vm.Machine.{
  Frame, Step, next, exception, is_outside, pushed, loaded, member, unary, updated, branch,
  assigned,
}
use gwion.FloatVm
use gwion.FloatVm.{FloatBits, FloatInstr, no_check}
use gwion.FloatVm.Meaning.{refused, float_value, test_value, int_float_value, float_int_value}

abbrev pub two_words : (ℕ → ℕ → ℕ) → List ℕ → Vm.Memory → ℕ → Option Step
two_words g [] vars pc = none
two_words g (y ∷ []) vars pc = none
two_words g (y ∷ x ∷ xs) vars pc = some (next (g x y ∷ xs) vars (pc + 1))

abbrev pub update :
    Frame → (check : ℕ → Bool) (g : ℕ → ℕ → Value) → List ℕ → Vm.Memory → ℕ → Option Step
update f check g [] vars pc = none
update f check g (p ∷ []) vars pc = none
update f check g (p ∷ v ∷ xs) vars pc =
    if check v
    then some exception
    else if is_outside f p
    then updated (g (vars p) v) p xs vars pc
    else none

module _ (bits : FloatBits) where
  unfoldable pub float_step : Frame → FloatInstr → List ℕ → Vm.Memory → ℕ → Option Step
  float_step f (FloatVm.reg_push_float val) xs vars pc = pushed f val xs vars pc
  float_step f (FloatVm.reg_push_mem_float val) xs vars pc =
      loaded f (Vm.plus_ptr f.mem val) xs vars pc
  float_step f (FloatVm.base_float val) xs vars pc = loaded f (Vm.plus_ptr f.base val) xs vars pc
  float_step f (FloatVm.struct_member_float val) xs vars pc = member f val xs vars pc
  float_step f (FloatVm.alloc_float val) xs vars pc =
      if is_outside f (Vm.plus_ptr f.mem val)
      then pushed f 0 xs (Vm.poke vars (Vm.plus_ptr f.mem val) 0) pc
      else none
  float_step f (FloatVm.float_op op) xs vars pc = two_words (float_value bits op) xs vars pc
  float_step f (FloatVm.float_op_imm op val) xs vars pc =
      unary (λ a. word (float_value bits op a val)) xs vars pc
  float_step f (FloatVm.float_logical t) xs vars pc = two_words (test_value bits t) xs vars pc
  float_step f (FloatVm.float_logical_imm t val) xs vars pc =
      unary (λ a. word (test_value bits t a val)) xs vars pc
  float_step f (FloatVm.int_float_op op) xs vars pc =
      two_words (λ a b. float_value bits op (bits.of_int a) b) xs vars pc
  float_step f (FloatVm.int_float_logical t) xs vars pc =
      two_words (int_float_value bits t) xs vars pc
  float_step f (FloatVm.float_int_op op) xs vars pc =
      two_words (λ a b. float_value bits op a (bits.of_int b)) xs vars pc
  float_step f (FloatVm.float_int_logical t) xs vars pc =
      two_words (float_int_value bits t) xs vars pc
  float_step f FloatVm.float_negate xs vars pc = unary (λ a. word (bits.neg a)) xs vars pc
  float_step f FloatVm.float_not xs vars pc =
      unary (λ a. word (of_bool (bits.is_zero a))) xs vars pc
  float_step f FloatVm.int_to_float xs vars pc = unary (λ a. word (bits.of_int a)) xs vars pc
  float_step f FloatVm.float_to_int xs vars pc = unary bits.to_int xs vars pc
  float_step f FloatVm.float_r_assign xs vars pc = assigned f xs vars pc
  float_step f (FloatVm.float_r op) xs vars pc =
      update f no_check (λ a b. word (float_value bits op a b)) xs vars pc
  float_step f FloatVm.int_float_r_assign xs vars pc =
      update f no_check (λ a b. word (bits.of_int b)) xs vars pc
  float_step f (FloatVm.int_float_r op) xs vars pc =
      update f no_check (λ a b. word (float_value bits op a (bits.of_int b))) xs vars pc
  float_step f FloatVm.float_int_r_assign xs vars pc =
      update f no_check (λ a b. bits.to_int b) xs vars pc
  float_step f (FloatVm.float_int_r op) xs vars pc =
      update f (λ b. refused bits.is_zero op b)
        (λ a b. bits.to_int (float_value bits op (bits.of_int a) b)) xs vars pc
  float_step f (FloatVm.branch_eq_float val) xs vars pc = branch bits.is_zero val xs vars pc
  float_step f (FloatVm.branch_neq_float val) xs vars pc =
      branch (λ x. not (bits.is_zero x)) val xs vars pc
