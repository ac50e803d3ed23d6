-- ===== src/Vm.antt =====
-- src/vm/vm.c: the dispatch loop of `vm_prepare` on the instructions over integers, addresses and
-- jumps. Memory is a map from addresses to words; `reg` and `mem` are addresses, and the operands of
-- an instruction are words, negative offsets included. `pc` is the index of the next instruction.
-- Words do not overlap: each is stored under its own address.
pub mod Stack
pub mod Meaning
pub mod Machine
pub mod Represents
pub mod Refine
pub mod Operators
pub mod Exec
pub mod Dispatch
pub mod Repeat
mod Tests
use mathlib.Core.Bool.{not}
use gwion.Prelude.{
  ℕ, zero, suc, ◌+◌, ◌-◌, ◌*◌, ◌/◌, ◌%◌, ◌^◌, Bool, true, false, ◌&&◌, ◌||◌, Option, none, some,
  List, [], ◌∷◌, ◌==◌, ltb, if◌then◌else◌, get_elem?,
}
use gwion.Word.{word_mod, Value, word, undefined, IntOp, int_apply, div, rem, negate, of_bool}

abbrev pub sz_int : ℕ
sz_int = 8

abbrev pub Memory : Type 0
Memory = ℕ → ℕ

unfoldable pub poke : Memory → ℕ → ℕ → Memory
poke m p v a = if a == p then v else m a

-- `p + n` for an offset `n` that may be negative, and `p - n`.
abbrev pub plus_ptr : ℕ → ℕ → ℕ
plus_ptr p n = (p + n) % word_mod

abbrev pub minus_ptr : ℕ → ℕ → ℕ
minus_ptr p n = (p + word_mod - n) % word_mod

pub record Shred : Type 0 where
  pub memory : Memory
  pub reg : ℕ
  pub mem : ℕ
  pub base : ℕ
  pub pc : ℕ

pub data Instr : Type 0 where
  reg_set_imm reg_to_reg reg_to_reg_addr mem_set_imm mem_add_imm reg_to_mem repeat_idx repeat :
      (val val2 : ℕ) → Instr
  reg_push_imm reg_push_mem reg_push_mem_addr base_int base_addr struct_member struct_member_addr
        goto :
      (val : ℕ) → Instr
  alloc_int reg_move branch_eq_int branch_neq_int : (val : ℕ) → Instr
  int_op int_r : IntOp → Instr
  int_imm_op : IntOp → (val : ℕ) → Instr
  int_negate int_not int_cmp int_r_assign pre_inc pre_dec post_inc post_dec noop : Instr

-- After an instruction: the next one, an effect that `handle` takes over, or no defined result.
pub data Outcome : Type 0 where
  running : Shred → Outcome
  zero_divide_exception : Shred → Outcome
  undefined_behaviour : Outcome

abbrev pub advance : Shred → Outcome
advance s = running (record s { pc = s.pc + 1 })

abbrev pub store : Shred → ℕ → ℕ → Shred
store s p v = record s { memory = poke s.memory p v }

abbrev pub push : Shred → ℕ → Shred
push s v = record s { memory = poke s.memory s.reg v; reg = plus_ptr s.reg sz_int }

abbrev pub jump : Shred → ℕ → Outcome
jump s target = running (record s { pc = target })

-- `BRANCH_DISPATCH`.
abbrev pub branch_dispatch : Shred → Bool → ℕ → Outcome
branch_dispatch s check target = if check then jump s target else advance s

abbrev pub is_division : IntOp → Bool
is_division div = true
is_division rem = true
is_division _ = false

-- The value of an operator is written at `p`.
abbrev pub write_value : Value → Shred → ℕ → Outcome
write_value (word v) s p = advance (store s p v)
write_value undefined s p = undefined_behaviour

-- `INT_OP` and `INT_LOGICAL`: the two top words give way to the result. Division tests its divisor.
unfoldable pub exec_int_op : IntOp → Shred → Outcome
exec_int_op op s =
    let reg = minus_ptr s.reg sz_int in
    let below = minus_ptr reg sz_int in
    if is_division op && (s.memory reg == 0)
    then zero_divide_exception (record s { reg = reg })
    else write_value (int_apply op (s.memory below) (s.memory reg)) (record s { reg = reg }) below

-- `INT_IMM_OP` takes its operand as an unsigned word, so that it divides unsigned; `INT_IMM_LOGICAL` takes a
-- signed one, and a shift has the sign of its left operand.
unfoldable pub int_imm_apply : IntOp → ℕ → ℕ → Value
int_imm_apply div a val = if val == 0 then undefined else word (a / val)
int_imm_apply rem a val = if val == 0 then undefined else word (a % val)
int_imm_apply op a val = int_apply op a val

-- `INT_IMM_OP` and `INT_IMM_LOGICAL`: no test of the divisor.
unfoldable pub exec_int_imm_op : IntOp → ℕ → Shred → Outcome
exec_int_imm_op op val s =
    let top = minus_ptr s.reg sz_int in write_value (int_imm_apply op (s.memory top) val) s top

abbrev pub write_both : Value → Shred → (p q : ℕ) → Outcome
write_both (word v) s p q = advance (store (store s p v) q v)
write_both undefined s p q = undefined_behaviour

-- `INT_R`: the top word is the address of the left operand, which is updated.
unfoldable pub exec_int_r : IntOp → Shred → Outcome
exec_int_r op s =
    let reg = minus_ptr s.reg sz_int in
    let below = minus_ptr reg sz_int in
    let p = s.memory reg in
    if is_division op && (s.memory below == 0)
    then zero_divide_exception (record s { reg = reg })
    else write_both (int_apply op (s.memory p) (s.memory below)) (record s { reg = reg }) p below

-- `SELF`, `INT_PRE` and `INT_POST`.
unfoldable pub exec_self : (ℕ → ℕ) → Shred → Outcome
exec_self f s = let top = minus_ptr s.reg sz_int in advance (store s top (f (s.memory top)))

unfoldable pub exec_step : (add : ℕ) (old : Bool) → Shred → Outcome
exec_step add old s =
    let top = minus_ptr s.reg sz_int in
    let p = s.memory top in
    let v = s.memory p in
    let v' = (v + add) % word_mod in advance (store (store s p v') top (if old then v else v'))

unfoldable pub exec : Instr → Shred → Outcome
exec (reg_set_imm val val2) s = advance (store s (plus_ptr s.reg val2) val)
exec (reg_push_imm val) s = advance (push s val)
exec (reg_push_mem val) s = advance (push s (s.memory (plus_ptr s.mem val)))
exec (reg_push_mem_addr val) s = advance (push s (plus_ptr s.mem val))
exec (base_int val) s = advance (push s (s.memory (plus_ptr s.base val)))
exec (base_addr val) s = advance (push s (plus_ptr s.base val))
exec (reg_to_reg val val2) s =
    advance (store s (plus_ptr s.reg val) (s.memory (plus_ptr s.reg val2)))
exec (reg_to_reg_addr val val2) s = advance (store s (plus_ptr s.reg val) (plus_ptr s.reg val2))
exec (struct_member val) s = exec_self (λ p. s.memory (plus_ptr p val)) s
exec (struct_member_addr val) s = exec_self (λ p. plus_ptr p val) s
exec (mem_set_imm val val2) s = advance (store s (plus_ptr s.mem val) val2)
exec (mem_add_imm val val2) s =
    let p = plus_ptr s.mem val in advance (store s p ((s.memory p + val2) % word_mod))
exec (repeat_idx val val2) s =
    let p = plus_ptr s.mem val2 in
    let idx = (s.memory p + 1) % word_mod in
    branch_dispatch (store s p idx) (s.memory (plus_ptr p sz_int) == idx) val
exec (repeat val val2) s =
    let p = plus_ptr s.mem val2 in
    let n = s.memory p in branch_dispatch (store s p ((n + word_mod - 1) % word_mod)) (n == 0) val
exec (goto val) s = jump s val
exec (alloc_int val) s = advance (push (store s (plus_ptr s.mem val) 0) 0)
exec (int_op op) s = exec_int_op op s
exec (int_imm_op op val) s = exec_int_imm_op op val s
exec int_negate s = exec_self negate s
exec int_not s = exec_self (λ v. of_bool (v == 0)) s
exec int_cmp s = exec_self (λ v. word_mod - 1 - v) s
exec int_r_assign s =
    let reg = minus_ptr s.reg sz_int in
    advance (store (record s { reg = reg }) (s.memory reg) (s.memory (minus_ptr reg sz_int)))
exec (int_r op) s = exec_int_r op s
exec pre_inc s = exec_step 1 false s
exec pre_dec s = exec_step (word_mod - 1) false s
exec post_inc s = exec_step 1 true s
exec post_dec s = exec_step (word_mod - 1) true s
exec (reg_move val) s = advance (record s { reg = plus_ptr s.reg val })
exec (reg_to_mem val val2) s =
    advance (store s (plus_ptr s.mem val) (s.memory (plus_ptr s.reg val2)))
exec (branch_eq_int val) s =
    let reg = minus_ptr s.reg sz_int in
    branch_dispatch (record s { reg = reg }) (s.memory reg == 0) val
exec (branch_neq_int val) s =
    let reg = minus_ptr s.reg sz_int in
    branch_dispatch (record s { reg = reg }) (not (s.memory reg == 0)) val
exec noop s = advance s

-- The dispatch loop for some rounds; it stops at the end of the code.
pub data Run : Type 0 where
  at : Shred → Run
  raised : Shred → Run
  stuck : Run

abbrev pub proceed : (Shred → Run) → Outcome → Run
proceed go (running s) = go s
proceed go (zero_divide_exception s) = raised s
proceed go undefined_behaviour = stuck

unfoldable pub run : ℕ → List Instr → Shred → Run
run zero code s = at s
run (suc n) code s = elim (get_elem? code s.pc) [
  | none ↦ stuck
  | some i ↦ proceed (run n code) (exec i s)
]
