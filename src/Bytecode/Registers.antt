-- ===== src/Bytecode/Registers.antt =====
-- A small machine with the registers that the rewritten instructions use (src/vm/vm_code.c).
use mathlib.Core.Option.{none-ne-some, some-injective}
use mathlib.Core.HLevel.{Σ_prop_path}
use package.native.Mathlib.Bridge.{le_prop}
use gwion.Prelude.{
  ℕ, ◌+◌, ◌*◌, ◌%◌, ◌<◌, ◌≡◌, refl, sym, ap, true, some, ◌==◌, if◌then◌else◌, arith,
}
use gwion.Word.{word_mod}
use gwion.Bytecode.{Opcode, is_noop, is_reg_move, isgoto, is_recurs, joined}
use Opcode.{
  noop, reg_move, reg_push_mem, dot_member, dot_member2, dot_member4, dot_member_mem,
  dot_member_mem2, dot_member_mem4, goto, array_top, branch_eq_int, branch_neq_int, branch_eq_float,
  branch_neq_float, handle_effect, repeat, repeat_idx, auto_loop, array_cast_loop, recurs, vm_in,
  other, native,
}
use gwion.Bytecode.Run.{Machine, Effect}
use Effect.{next, taken, leaves}
use gwion.Bytecode.Blocks.{is_reg_push_mem, Joining}

-- The register pointer, which is a word, and the word on top of the register stack.
abbrev pub Word : Type 0
Word = (n : ℕ) × (n < word_mod)

pub record Regs : Type 0 where
  pub reg : Word
  pub top : ℕ

pub add_word : ℕ → Word → Word
add_word v (n, _) = ((n + v) % word_mod, omega arith)

abbrev pub move_reg : ℕ → Regs → Regs
move_reg v s = record s { reg = add_word v s.reg }

-- The memory at an address, and a member of an object, are read off their numbers.
abbrev pub mem_at : ℕ → ℕ
mem_at a = a + 100

abbrev pub member : (val object : ℕ) → ℕ
member val object = val + 2 * object

abbrev pub act : Opcode → (val val2 : ℕ) → Regs → Effect Regs
act reg_move val val2 s = next (move_reg val s)
act reg_push_mem val val2 s = next (record s { top = mem_at val })
act dot_member val val2 s = next (record s { top = member val s.top })
act dot_member2 val val2 s = next (record s { top = member val s.top })
act dot_member4 val val2 s = next (record s { top = member val s.top })
act dot_member_mem val val2 s = next (record s { top = member val (mem_at val2) })
act dot_member_mem2 val val2 s = next (record s { top = member val (mem_at val2) })
act dot_member_mem4 val val2 s = next (record s { top = member val (mem_at val2) })
act goto val val2 s = taken s
act branch_eq_int val val2 s = if s.top == 0 then taken s else next s
act recurs val val2 s = leaves
act vm_in val val2 s = leaves
act (other n) val val2 s = leaves
act (native n) val val2 s = leaves
act _ val val2 s = next s

pub act_noop_lem :
    (op : Opcode) (val val2 : ℕ) (s : Regs) → is_noop op ≡ true → act op val val2 s ≡ next s
act_noop_lem noop val val2 s e = refl
act_noop_lem _ val val2 s e = absurd (cc)

pub act_goto_lem :
    (op : Opcode) (val val2 t : ℕ) (s : Regs)
    → isgoto op ≡ true
    → act op t val2 s ≡ act op val val2 s
act_goto_lem goto val val2 t s e = refl
act_goto_lem array_top val val2 t s e = refl
act_goto_lem branch_eq_int val val2 t s e = refl
act_goto_lem branch_neq_int val val2 t s e = refl
act_goto_lem branch_eq_float val val2 t s e = refl
act_goto_lem branch_neq_float val val2 t s e = refl
act_goto_lem handle_effect val val2 t s e = refl
act_goto_lem repeat val val2 t s e = refl
act_goto_lem repeat_idx val val2 t s e = refl
act_goto_lem auto_loop val val2 t s e = refl
act_goto_lem array_cast_loop val val2 t s e = refl
act_goto_lem _ val val2 t s e = absurd (cc)

pub act_recurs_lem :
    (op : Opcode) (val val2 : ℕ) (s : Regs) → is_recurs op ≡ true → act op val val2 s ≡ leaves
act_recurs_lem recurs val val2 s e = refl
act_recurs_lem _ val val2 s e = absurd (cc)

act_move_lem :
    (op : Opcode) (val val2 : ℕ) (s : Regs)
    → is_reg_move op ≡ true
    → act op val val2 s ≡ next (move_reg val s)
act_move_lem reg_move val val2 s e = refl
act_move_lem _ val val2 s e = absurd (cc)

act_push_lem :
    (op : Opcode) (val val2 : ℕ) (s : Regs)
    → is_reg_push_mem op ≡ true
    → act op val val2 s ≡ next (record s { top = mem_at val })
act_push_lem reg_push_mem val val2 s e = refl
act_push_lem _ val val2 s e = absurd (cc)

act_joined_lem :
    (op op' : Opcode) (val val2 a : ℕ) (s : Regs)
    → joined op ≡ some op'
    → (act op val val2 (record s { top = mem_at a })
        ≡ next (record s { top = member val (mem_at a) }))
      × (act op' val a s ≡ next (record s { top = member val (mem_at a) }))
act_joined_lem dot_member op' val val2 a s e =
    (refl, ap (λ o. act o val a s) (sym (some-injective dot_member_mem op' e)))
act_joined_lem dot_member2 op' val val2 a s e =
    (refl, ap (λ o. act o val a s) (sym (some-injective dot_member_mem2 op' e)))
act_joined_lem dot_member4 op' val val2 a s e =
    (refl, ap (λ o. act o val a s) (sym (some-injective dot_member_mem4 op' e)))
act_joined_lem _ op' val val2 a s e = absurd (none-ne-some op' e)

unfoldable pub registers : Machine Regs
registers = record {
  act = λ x s. act x.opcode x.m_val x.m_val2 s;
  act_noop = λ x s e. act_noop_lem x.opcode x.m_val x.m_val2 s e;
  act_goto = λ x t s e. act_goto_lem x.opcode x.m_val x.m_val2 t s e;
  act_recurs = λ x s e. act_recurs_lem x.opcode x.m_val x.m_val2 s e;
}

add_word-zero : (w : Word) → add_word 0 w ≡ w
unfolding add_word
add_word-zero (n, below) =
    let same : (n + 0) % word_mod ≡ n = omega (arith, below) in Σ_prop_path (λ n. le_prop) same

add_word-add : (a b : ℕ) (w : Word) → add_word b (add_word a w) ≡ add_word ((a + b) % word_mod) w
unfolding add_word
add_word-add a b (n, below) =
    let same : ((n + a) % word_mod + b) % word_mod ≡ (n + (a + b) % word_mod) % word_mod =
      omega arith in
    Σ_prop_path (λ n. le_prop) same

pub registers-Joining : Joining registers
unfolding registers
registers-Joining = record {
  move = move_reg;
  act_move = λ x s e. act_move_lem x.opcode x.m_val x.m_val2 s e;
  move_add = λ a b s. ap (λ w. record s { reg = w }) (add_word-add a b s.reg);
  move_zero = λ s. ap (λ w. record s { reg = w }) (add_word-zero s.reg);
  act_joined = λ x y op s push dot.
      let (one, other_way) = act_joined_lem y.opcode op y.m_val y.m_val2 x.m_val s dot in
      (
        record s { top = mem_at x.m_val },
        record s { top = member y.m_val (mem_at x.m_val) },
        act_push_lem x.opcode x.m_val x.m_val2 s push,
        one,
        other_way,
      );
  act_goto_taken = λ x s e. ap (λ op. act op x.m_val x.m_val2 s) e;
}
