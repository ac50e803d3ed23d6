-- ===== src/Vm/Machine.antt =====
-- A stack machine that knows no pointer into the stack: what the instructions of src/vm/vm.c mean on
-- a list of words and the memory outside the register stack. `none` is outside its contract: too few
-- words, no room, a variable inside the stack, no defined result, or an instruction that reaches into
-- the register stack by an offset.
use mathlib.Core.Bool.{not}
use gwion.Prelude.{
  ℕ, zero, suc, ◌+◌, ◌-◌, ◌*◌, ◌%◌, Bool, true, false, ◌&&◌, ◌||◌, Option, none, some, List, [],
  ◌∷◌, ◌==◌, ltb, leb, if◌then◌else◌, get_elem?, length,
}
use gwion.Word.{word_mod, Value, word, undefined, of_bool}
use gwion.Vm
use gwion.Vm.Meaning.{divides, int_value, imm_value}

-- Where the register stack lies, and the two pointers that variables are addressed from.
pub record Frame : Type 0 where
  pub bottom : ℕ
  pub limit : ℕ
  pub mem : ℕ
  pub base : ℕ

pub data Step : Type 0 where
  next : (stack : List ℕ) (vars : Vm.Memory) (pc : ℕ) → Step
  exception : Step

abbrev pub is_outside : Frame → ℕ → Bool
is_outside f p = ltb p f.bottom || leb f.limit p

abbrev pub has_room : Frame → List ℕ → Bool
has_room f xs = leb (f.bottom + Vm.sz_int * length xs + Vm.sz_int) f.limit

abbrev pub pushed : Frame → ℕ → List ℕ → Vm.Memory → ℕ → Option Step
pushed f v xs vars pc = if has_room f xs then some (next (v ∷ xs) vars (pc + 1)) else none

abbrev pub loaded : Frame → ℕ → List ℕ → Vm.Memory → ℕ → Option Step
loaded f p xs vars pc = if is_outside f p then pushed f (vars p) xs vars pc else none

abbrev pub replaced : Value → List ℕ → Vm.Memory → ℕ → Option Step
replaced (word v) xs vars pc = some (next (v ∷ xs) vars (pc + 1))
replaced undefined xs vars pc = none

abbrev pub updated : Value → ℕ → List ℕ → Vm.Memory → ℕ → Option Step
updated (word v) p xs vars pc = some (next (v ∷ xs) (Vm.poke vars p v) (pc + 1))
updated undefined p xs vars pc = none

abbrev pub unary : (ℕ → Value) → List ℕ → Vm.Memory → ℕ → Option Step
unary g [] vars pc = none
unary g (x ∷ xs) vars pc = replaced (g x) xs vars pc

-- `quot` tells whether the operator is a quotient, which a divisor of zero has none of.
abbrev pub binary : (quot : Bool) (g : ℕ → ℕ → Value) → List ℕ → Vm.Memory → ℕ → Option Step
binary quot g [] vars pc = none
binary quot g (y ∷ []) vars pc = none
binary quot g (y ∷ x ∷ xs) vars pc =
    if quot && (y == 0) then some exception else replaced (g x y) xs vars pc

abbrev pub assigned : Frame → List ℕ → Vm.Memory → ℕ → Option Step
assigned f [] vars pc = none
assigned f (p ∷ []) vars pc = none
assigned f (p ∷ v ∷ xs) vars pc =
    if is_outside f p then some (next (v ∷ xs) (Vm.poke vars p v) (pc + 1)) else none

abbrev pub compound :
    Frame → (quot : Bool) (g : ℕ → ℕ → Value) → List ℕ → Vm.Memory → ℕ → Option Step
compound f quot g [] vars pc = none
compound f quot g (p ∷ []) vars pc = none
compound f quot g (p ∷ v ∷ xs) vars pc =
    if quot && (v == 0)
    then some exception
    else if is_outside f p
    then updated (g (vars p) v) p xs vars pc
    else none

abbrev pub stepped : Frame → (add : ℕ) (old : Bool) → List ℕ → Vm.Memory → ℕ → Option Step
stepped f add old [] vars pc = none
stepped f add old (p ∷ xs) vars pc =
    let v' = (vars p + add) % word_mod in
    if is_outside f p
    then some (next ((if old then vars p else v') ∷ xs) (Vm.poke vars p v') (pc + 1))
    else none

abbrev pub member : Frame → ℕ → List ℕ → Vm.Memory → ℕ → Option Step
member f val [] vars pc = none
member f val (p ∷ xs) vars pc =
    if is_outside f (Vm.plus_ptr p val)
    then some (next (vars (Vm.plus_ptr p val) ∷ xs) vars (pc + 1))
    else none

abbrev pub set_var : Frame → ℕ → ℕ → List ℕ → Vm.Memory → (pc : ℕ) → Option Step
set_var f p v xs vars pc = if is_outside f p then some (next xs (Vm.poke vars p v) pc) else none

abbrev pub branch : (ℕ → Bool) → ℕ → List ℕ → Vm.Memory → ℕ → Option Step
branch check target [] vars pc = none
branch check target (x ∷ xs) vars pc = some (next xs vars (if check x then target else pc + 1))

unfoldable pub step : Frame → Vm.Instr → List ℕ → Vm.Memory → ℕ → Option Step
step f (Vm.reg_push_imm val) xs vars pc = pushed f val xs vars pc
step f (Vm.reg_push_mem val) xs vars pc = loaded f (Vm.plus_ptr f.mem val) xs vars pc
step f (Vm.reg_push_mem_addr val) xs vars pc = pushed f (Vm.plus_ptr f.mem val) xs vars pc
step f (Vm.base_int val) xs vars pc = loaded f (Vm.plus_ptr f.base val) xs vars pc
step f (Vm.base_addr val) xs vars pc = pushed f (Vm.plus_ptr f.base val) xs vars pc
step f (Vm.struct_member val) xs vars pc = member f val xs vars pc
step f (Vm.struct_member_addr val) xs vars pc = unary (λ p. word (Vm.plus_ptr p val)) xs vars pc
step f (Vm.mem_set_imm val val2) xs vars pc =
    set_var f (Vm.plus_ptr f.mem val) val2 xs vars (pc + 1)
step f (Vm.mem_add_imm val val2) xs vars pc =
    let p = Vm.plus_ptr f.mem val in set_var f p ((vars p + val2) % word_mod) xs vars (pc + 1)
step f (Vm.repeat val val2) xs vars pc =
    let p = Vm.plus_ptr f.mem val2 in
    set_var f p ((vars p + word_mod - 1) % word_mod) xs vars (if vars p == 0 then val else pc + 1)
step f (Vm.goto val) xs vars pc = some (next xs vars val)
step f (Vm.alloc_int val) xs vars pc =
    if is_outside f (Vm.plus_ptr f.mem val)
    then pushed f 0 xs (Vm.poke vars (Vm.plus_ptr f.mem val) 0) pc
    else none
step f (Vm.int_op op) xs vars pc = binary (divides op) (int_value op) xs vars pc
step f (Vm.int_imm_op op val) xs vars pc = unary (λ x. imm_value op x val) xs vars pc
step f Vm.int_negate xs vars pc =
    unary (λ x. word ((18446744073709551616 - x) % 18446744073709551616)) xs vars pc
step f Vm.int_not xs vars pc = unary (λ x. word (of_bool (x == 0))) xs vars pc
step f Vm.int_cmp xs vars pc = unary (λ x. word (word_mod - 1 - x)) xs vars pc
step f Vm.int_r_assign xs vars pc = assigned f xs vars pc
step f (Vm.int_r op) xs vars pc = compound f (divides op) (int_value op) xs vars pc
step f Vm.pre_inc xs vars pc = stepped f 1 false xs vars pc
step f Vm.pre_dec xs vars pc = stepped f (word_mod - 1) false xs vars pc
step f Vm.post_inc xs vars pc = stepped f 1 true xs vars pc
step f Vm.post_dec xs vars pc = stepped f (word_mod - 1) true xs vars pc
step f (Vm.branch_eq_int val) xs vars pc = branch (λ x. x == 0) val xs vars pc
step f (Vm.branch_neq_int val) xs vars pc = branch (λ x. not (x == 0)) val xs vars pc
step f Vm.noop xs vars pc = some (next xs vars (pc + 1))
step f (Vm.repeat_idx val val2) xs vars pc =
    let p = Vm.plus_ptr f.mem val2 in
    let idx = (vars p + 1) % word_mod in
    if is_outside f (Vm.plus_ptr p Vm.sz_int)
    then set_var f p idx xs vars (if vars (Vm.plus_ptr p Vm.sz_int) == idx then val else pc + 1)
    else none
step f (Vm.reg_set_imm val val2) xs vars pc = none
step f (Vm.reg_to_reg val val2) xs vars pc = none
step f (Vm.reg_to_reg_addr val val2) xs vars pc = none
step f (Vm.reg_to_mem val val2) xs vars pc = none
step f (Vm.reg_move val) xs vars pc = none

abbrev pub machine_proceed : (List ℕ → Vm.Memory → ℕ → Option Step) → Option Step → Option Step
machine_proceed go none = none
machine_proceed go (some exception) = some exception
machine_proceed go (some (next xs vars pc)) = go xs vars pc

unfoldable pub machine_run : ℕ → List Vm.Instr → Frame → List ℕ → Vm.Memory → ℕ → Option Step
machine_run zero code f xs vars pc = some (next xs vars pc)
machine_run (suc n) code f xs vars pc = elim (get_elem? code pc) [
  | none ↦ none
  | some i ↦ machine_proceed (machine_run n code f) (step f i xs vars pc)
]
