-- ===== src/Bytecode.antt =====
-- src/vm/vm_code.c: `tobytecode` turns the instructions of the emitter into bytecode. It merges moves of
-- the register pointer, joins a push with the member access behind it, leaves out what does nothing, and
-- moves the targets of jumps accordingly. The instructions are changed in place. Where an instruction
-- refers to another one by its address, the model has the place of that one.
pub mod Noops
pub mod Refine
pub mod Run
pub mod Compact
pub mod Passed
pub mod First
pub mod Taken
pub mod Round
pub mod Merge
pub mod Blocks
pub mod Simulate
pub mod Stored
pub mod Rewrite
pub mod Chain
pub mod Loop
pub mod Original
pub mod Registers
mod Tests
use mathlib.Core.Bool.{not}
use gwion.Prelude.{
  ℕ, zero, suc, ◌+◌, ◌-◌, ◌%◌, ◌^◌, Bool, true, false, ◌&&◌, ◌||◌, Option, none, some, List, [],
  ◌∷◌, ◌++◌, ◌==◌, ltb, leb, if◌then◌else◌, length,
}
use gwion.Word.{word_mod}

-- The opcodes that are looked at; `other` stands for the rest of them, and `native` for the numbers from
-- eOP_MAX on, whose instruction is a function.
pub data Opcode : Type 0 where
  noop reg_move reg_push_mem dot_member dot_member2 dot_member4 dot_member_mem dot_member_mem2
        dot_member_mem4 :
      Opcode
  goto array_top branch_eq_int branch_neq_int branch_eq_float branch_neq_float handle_effect :
      Opcode
  repeat repeat_idx auto_loop array_cast_loop recurs vm_in : Opcode
  other native : ℕ → Opcode

-- `struct Instr_`.
pub record Instr : Type 0 where
  pub opcode : Opcode
  pub m_val : ℕ
  pub m_val2 : ℕ

-- BYTECODE_SZ bytes: a copy of the instruction, and the next program counter in the place of `execute`.
pub record Slot : Type 0 where
  pub instr : Instr
  pub next : ℕ

abbrev pub is_noop : Opcode → Bool
is_noop noop = true
is_noop _ = false

abbrev pub is_reg_move : Opcode → Bool
is_reg_move reg_move = true
is_reg_move _ = false

abbrev pub isgoto : Opcode → Bool
isgoto goto = true
isgoto array_top = true
isgoto branch_eq_int = true
isgoto branch_neq_int = true
isgoto branch_eq_float = true
isgoto branch_neq_float = true
isgoto handle_effect = true
isgoto repeat = true
isgoto repeat_idx = true
isgoto auto_loop = true
isgoto array_cast_loop = true
isgoto _ = false

abbrev pub is_handle_effect : Opcode → Bool
is_handle_effect handle_effect = true
is_handle_effect _ = false

abbrev pub is_recurs : Opcode → Bool
is_recurs recurs = true
is_recurs _ = false

abbrev pub Code : Type 0
Code = ℕ → Instr

abbrev pub write {ℓ} : {A : Type ℓ} → (ℕ → A) → ℕ → A → ℕ → A
write f p x a = if a == p then x else f a

abbrev pub blank : Instr → Instr
blank x = record x { opcode = noop }

-- The first pass: the instructions, the places that are left out, and the bytes.
pub record Pass : Type 0 where
  pub code : Code
  pub nop : List ℕ
  pub bytes : ℕ → Slot

-- The loop over the moves behind the one at `i`: `rest` instructions are left behind the last of them.
-- A code ends with an instruction that is no move.
pub record Moves : Type 0 where
  pub code : Code
  pub nop : List ℕ
  pub j : ℕ
  pub move : ℕ

unfoldable pub merge_moves : (rest i : ℕ) → Moves → Moves
merge_moves zero i m = m
merge_moves (suc rest) i m =
    let at = i + m.j + 1 in
    let next = m.code at in
    let merged = merge_moves rest i (record {
      code = write m.code at (blank next);
      nop = m.nop ++ at ∷ [];
      j = m.j + 1;
      move = (m.move + next.m_val) % word_mod;
    }) in
    if is_reg_move next.opcode then merged else m

-- The member access that a push of memory can be joined with.
abbrev pub joined : Opcode → Option Opcode
joined dot_member = some dot_member_mem
joined dot_member2 = some dot_member_mem2
joined dot_member4 = some dot_member_mem4
joined _ = none

unfoldable pub join_member : (i : ℕ) → Code → Code
join_member i code =
    let next = code (i + 1) in
    elim (joined next.opcode) [
      | none ↦ code
      | some op ↦
          write (write code i (record { opcode = op; m_val = next.m_val; m_val2 = (code i).m_val }))
            (i + 1) (blank next)
    ]

-- The places of `nop` before `pc`, and those from `pc` to `pc + more`, up to the first one past them.
unfoldable pub reduces : (pc more : ℕ) → List ℕ → ℕ × ℕ
reduces pc more [] = (0, 0)
reduces pc more (at ∷ nop) =
    let rest = reduces pc more nop in
    if ltb at pc
    then (rest.0 + 1, rest.1)
    else if ltb (pc + more) at
    then (0, 0)
    else (rest.0, rest.1 + 1)

abbrev pub less_val2 : Instr → ℕ → Instr
less_val2 x n = record x { m_val2 = (x.m_val2 + word_mod - n) % word_mod }

-- `VM_IN` closes an unrolled loop; `m_val` is its `Unroll`. The bytes are those of the place less the places
-- left out before it, although nothing was moved yet.
unfoldable pub end_unroll : (i : ℕ) → Pass → Pass
end_unroll i st =
    let pc = (st.code i).m_val in
    let (reduce_pre, reduce) = reduces pc (st.code pc).m_val2 st.nop in
    let slot = st.bytes (pc - reduce_pre) in
    let code = write st.code pc (less_val2 (st.code pc) reduce) in
    record {
      code = write code i (blank (code i));
      nop = st.nop ++ i ∷ [];
      bytes =
          write st.bytes (pc - reduce_pre) (record slot { instr = less_val2 slot.instr reduce });
    }

-- The end of a round: a jump to the next instruction does nothing.
unfoldable pub store_instr : (i : ℕ) → Pass → Pass
store_instr i st =
    let x = st.code i in
    let kept = record st { bytes = write st.bytes i (record { instr = x; next = i + 1 }) } in
    let left = record st { code = write st.code i (blank x); nop = st.nop ++ i ∷ [] } in
    elim x.opcode [ goto ↦ if x.m_val == i + 1 then left else kept | noop ↦ left | _ ↦ kept ]

-- A round at a move: what it merged, and how many instructions it took.
unfoldable pub store_move : (rest i : ℕ) → Pass → Pass × ℕ
store_move rest i st =
    let m =
      merge_moves rest i
        (record { code = st.code; nop = st.nop; j = 0; move = (st.code i).m_val }) in
    let x = record (m.code i) { m_val = m.move } in
    (
      (if m.move == 0
          then record st { code = write m.code i (blank x); nop = m.nop ++ i ∷ [] }
          else record {
            code = write m.code i x;
            nop = m.nop;
            bytes = write st.bytes i (record { instr = x; next = i + 1 });
          }),
      m.j,
    )

-- The rounds of the first loop. The fuel bounds them.
unfoldable pub first_pass : (fuel size i : ℕ) → Pass → Pass
first_pass zero size i st = st
first_pass (suc fuel) size i st =
    let (moved, j) = store_move (size - (i + 1)) i st in
    let joined = store_instr i (record st { code = join_member i st.code }) in
    elim (ltb i size) [
      | false ↦ st
      | true ↦ elim (st.code i).opcode [
        | reg_move ↦ first_pass fuel size (i + j + 1) moved
        | reg_push_mem ↦ first_pass fuel size (i + 1) joined
        | vm_in ↦ first_pass fuel size (i + 1) (end_unroll i st)
        | _ ↦ first_pass fuel size (i + 1) (store_instr i st)
      ]
    ]

-- The place in `nop` of the first entry that is not before the target.
unfoldable pub nops_before : (target : ℕ) → List ℕ → ℕ
nops_before target [] = 0
nops_before target (at ∷ nop) = if leb target at then 0 else nops_before target nop + 1

unfoldable pub new_pc : (target : ℕ) → List ℕ → ℕ
new_pc target nop = let pc = nops_before target nop in if ltb pc target then target - pc else 0

-- `udata.one` is the low half-word.
abbrev pub add_one : ℕ → ℕ → ℕ
add_one val2 n = val2 - val2 % 2 ^ 16 + (val2 + n) % 2 ^ 16

-- An instruction that is kept, at its new place `j`.
unfoldable pub relocate : List ℕ → (j : ℕ) → Instr → Slot → Slot
relocate nop j x slot =
    if isgoto x.opcode
    then record { instr = record slot.instr { m_val = new_pc x.m_val nop }; next = j + 1 }
    else if is_recurs x.opcode
    then record { instr = record slot.instr { m_val2 = add_one x.m_val2 (j + 1) }; next = j + 1 }
    else record { instr = slot.instr; next = j + 1 }

-- The second loop: `rest` instructions are left from `i` on. With the bytes come the handlers.
unfoldable pub second_pass : (rest i j : ℕ) → Pass → List Slot × List (ℕ × ℕ)
second_pass zero i j st = ([], [])
second_pass (suc rest) i j st =
    let x = st.code i in
    let left = second_pass rest (i + 1) j st in
    let (slots, handlers) = second_pass rest (i + 1) (j + 1) st in
    if is_noop x.opcode then left else (
      relocate st.nop j x (st.bytes i) ∷ slots,
      if is_handle_effect x.opcode then (j, new_pc x.m_val st.nop) ∷ handlers else handlers,
    )

-- The bytes as they are, where nothing was left out.
unfoldable pub all_bytes : (rest i : ℕ) → (ℕ → Slot) → List Slot
all_bytes zero i bytes = []
all_bytes (suc rest) i bytes = bytes i ∷ all_bytes rest (i + 1) bytes

-- `fresh` is the memory that is allocated.
unfoldable pub tobytecode : (fresh : ℕ → Slot) (size : ℕ) → Code → List Slot × List (ℕ × ℕ)
unfolding first_pass second_pass all_bytes
tobytecode fresh size code =
    let st = first_pass size size 0 (record { code = code; nop = []; bytes = fresh }) in
    elim st.nop [ [] ↦ (all_bytes size 0 st.bytes, []) | _ ∷ _ ↦ second_pass size 0 0 st ]
