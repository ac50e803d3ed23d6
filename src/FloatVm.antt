-- ===== src/FloatVm.antt =====
-- src/vm/vm.c: the instructions of `vm_prepare` that compute with floats, alone or mixed with integers.
-- A float is the word that holds it (SZ_FLOAT is SZ_INT); the operations on such words are the host's,
-- so they are an interface.
pub mod Meaning
pub mod Machine
pub mod Operators
pub mod Exec
mod Tests
use mathlib.Core.Bool.{not}
use gwion.Prelude.{ℕ, ◌+◌, ◌-◌, Bool, true, false, ◌&&◌, ◌||◌, ◌==◌, if◌then◌else◌}
use gwion.Word.{Value, word, undefined, of_bool}
use gwion.Vm.{
  Shred, Outcome, zero_divide_exception, advance, push, store, branch_dispatch, write_value,
  write_both, exec_self, minus_ptr, plus_ptr, sz_int,
}

-- `to_int` cuts towards zero, and is undefined where the result is no word.
pub record FloatBits : Type 0 where
  pub add : ℕ → ℕ → ℕ
  pub sub : ℕ → ℕ → ℕ
  pub mul : ℕ → ℕ → ℕ
  pub div : ℕ → ℕ → ℕ
  pub neg : ℕ → ℕ
  pub is_zero : ℕ → Bool
  pub eq : ℕ → ℕ → Bool
  pub lt : ℕ → ℕ → Bool
  pub le : ℕ → ℕ → Bool
  pub of_int : ℕ → ℕ
  pub to_int : ℕ → Value

pub data FloatOp : Type 0 where
  plus minus mul div : FloatOp

pub data FloatTest : Type 0 where
  logical_and logical_or eq ne gt ge lt le : FloatTest

pub data FloatInstr : Type 0 where
  reg_push_float reg_push_mem_float base_float struct_member_float alloc_float :
      (val : ℕ) → FloatInstr
  float_op int_float_op float_int_op float_r int_float_r float_int_r : FloatOp → FloatInstr
  float_op_imm : FloatOp → (val : ℕ) → FloatInstr
  float_logical int_float_logical float_int_logical : FloatTest → FloatInstr
  float_logical_imm : FloatTest → (val : ℕ) → FloatInstr
  float_negate float_not float_r_assign int_float_r_assign float_int_r_assign : FloatInstr
  int_to_float float_to_int : FloatInstr
  branch_eq_float branch_neq_float : (val : ℕ) → FloatInstr

module _ (bits : FloatBits) where
  unfoldable pub float_apply : FloatOp → ℕ → ℕ → ℕ
  float_apply plus a b = bits.add a b
  float_apply minus a b = bits.sub a b
  float_apply mul a b = bits.mul a b
  float_apply div a b = bits.div a b

  -- `zero_a` and `zero_b` tell whether the operands are zero, as `&&` and `||` read them.
  abbrev pub test_apply : FloatTest → (zero_a zero_b : Bool) → ℕ → ℕ → Bool
  test_apply logical_and zero_a zero_b a b = not zero_a && not zero_b
  test_apply logical_or zero_a zero_b a b = not zero_a || not zero_b
  test_apply eq zero_a zero_b a b = bits.eq a b
  test_apply ne zero_a zero_b a b = not (bits.eq a b)
  test_apply gt zero_a zero_b a b = bits.lt b a
  test_apply ge zero_a zero_b a b = bits.le b a
  test_apply lt zero_a zero_b a b = bits.lt a b
  test_apply le zero_a zero_b a b = bits.le a b

  unfoldable pub float_test : FloatTest → ℕ → ℕ → ℕ
  float_test t a b = of_bool (test_apply t (bits.is_zero a) (bits.is_zero b) a b)

  -- The integer operand is converted.
  unfoldable pub int_float_test : FloatTest → ℕ → ℕ → ℕ
  int_float_test t a b = of_bool (test_apply t (a == 0) (bits.is_zero b) (bits.of_int a) b)

  unfoldable pub float_int_test : FloatTest → ℕ → ℕ → ℕ
  float_int_test t a b = of_bool (test_apply t (bits.is_zero a) (b == 0) a (bits.of_int b))

-- Only the division of an integer variable by a float tests its divisor.
unfoldable pub tests_divisor : FloatOp → Bool
tests_divisor div = true
tests_divisor _ = false

-- `FLOAT_OP`, `FLOAT_LOGICAL`, `IF_OP`, `IF_LOGICAL`, `FI_OP` and `FI_LOGICAL`: the two top words give way
-- to the result.
unfoldable pub exec_binary : (ℕ → ℕ → ℕ) → Shred → Outcome
exec_binary g s =
    let reg = minus_ptr s.reg sz_int in
    let below = minus_ptr reg sz_int in
    advance (store (record s { reg = reg }) below (g (s.memory below) (s.memory reg)))

-- `FLOAT_R`, `IF_R` and `FI_R`: the top word is the address of a variable, which is updated from the word
-- below; the new value takes the place of that word. `check` tests that word first.
unfoldable pub exec_update : (check : ℕ → Bool) (g : ℕ → ℕ → Value) → Shred → Outcome
exec_update check g s =
    let reg = minus_ptr s.reg sz_int in
    let below = minus_ptr reg sz_int in
    let p = s.memory reg in
    if check (s.memory below)
    then zero_divide_exception (record s { reg = reg })
    else write_both (g (s.memory p) (s.memory below)) (record s { reg = reg }) p below

abbrev pub no_check : ℕ → Bool
no_check v = false

module _ (bits : FloatBits) where
  unfoldable pub exec_float : FloatInstr → Shred → Outcome
  unfolding exec_binary exec_update exec_self
  exec_float (reg_push_float val) s = advance (push s val)
  exec_float (reg_push_mem_float val) s = advance (push s (s.memory (plus_ptr s.mem val)))
  exec_float (base_float val) s = advance (push s (s.memory (plus_ptr s.base val)))
  exec_float (struct_member_float val) s = exec_self (λ p. s.memory (plus_ptr p val)) s
  exec_float (alloc_float val) s = advance (push (store s (plus_ptr s.mem val) 0) 0)
  exec_float (float_op op) s = exec_binary (float_apply bits op) s
  exec_float (float_op_imm op val) s = exec_self (λ a. float_apply bits op a val) s
  exec_float (float_logical t) s = exec_binary (float_test bits t) s
  exec_float (float_logical_imm t val) s = exec_self (λ a. float_test bits t a val) s
  exec_float (int_float_op op) s = exec_binary (λ a b. float_apply bits op (bits.of_int a) b) s
  exec_float (int_float_logical t) s = exec_binary (int_float_test bits t) s
  exec_float (float_int_op op) s = exec_binary (λ a b. float_apply bits op a (bits.of_int b)) s
  exec_float (float_int_logical t) s = exec_binary (float_int_test bits t) s
  exec_float float_negate s = exec_self bits.neg s
  exec_float float_not s = exec_self (λ a. of_bool (bits.is_zero a)) s
  exec_float int_to_float s = exec_self bits.of_int s
  exec_float float_to_int s =
      let top = minus_ptr s.reg sz_int in write_value (bits.to_int (s.memory top)) s top
  exec_float float_r_assign s =
      let reg = minus_ptr s.reg sz_int in
      advance (store (record s { reg = reg }) (s.memory reg) (s.memory (minus_ptr reg sz_int)))
  exec_float (float_r op) s = exec_update no_check (λ a b. word (float_apply bits op a b)) s
  exec_float int_float_r_assign s = exec_update no_check (λ a b. word (bits.of_int b)) s
  exec_float (int_float_r op) s =
      exec_update no_check (λ a b. word (float_apply bits op a (bits.of_int b))) s
  exec_float float_int_r_assign s = exec_update no_check (λ a b. bits.to_int b) s
  exec_float (float_int_r op) s =
      exec_update (λ b. tests_divisor op && bits.is_zero b)
        (λ a b. bits.to_int (float_apply bits op (bits.of_int a) b)) s
  exec_float (branch_eq_float val) s =
      let reg = minus_ptr s.reg sz_int in
      branch_dispatch (record s { reg = reg }) (bits.is_zero (s.memory reg)) val
  exec_float (branch_neq_float val) s =
      let reg = minus_ptr s.reg sz_int in
      branch_dispatch (record s { reg = reg }) (not (bits.is_zero (s.memory reg))) val
