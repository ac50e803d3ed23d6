-- ===== src/Bytecode/Original.antt =====
-- The instructions that `tobytecode` is given, and the bytecode it makes of them (src/vm/vm_code.c).
use mathlib.Core.Path.{subst}
use gwion.Prelude.{
  ℕ, zero, suc, ◌+◌, ◌-◌, ◌<◌, ◌≤◌, ◌≡◌, inl, inr, refl, sym, ap, ◌∙◌, Bool, true, false, ◌&&◌, [],
  arith, Bool-cases,
}
use gwion.Bytecode.{Code, Slot, is_reg_move, isgoto, tobytecode}
use gwion.Bytecode.Noops.{place}
use gwion.Bytecode.Round.{is_vm_in}
use gwion.Bytecode.Passed.{inside_moves}
use gwion.Bytecode.Run.{Machine, Config, moved, run_code, run_bytes}
use Config.{left}
use gwion.Bytecode.Refine.{rewritten, IsPlain, tobytecode-run}
use gwion.Bytecode.Blocks.{is_glued, Joining, Block, run_add, run_left}
use Block.{same, blanked, no_jump, chain, join}
use gwion.Bytecode.Simulate.{Starts, simulate}
use gwion.Bytecode.Stored.{noop_no_jump, move_no_jump, joined_stays}
use gwion.Bytecode.Rewrite.{Rewrites}
use gwion.Bytecode.Chain.{moves-glued}
use gwion.Bytecode.Loop.{first_pass-blocks}

-- No unrolled loop; and where a jump leads, or the code ends, there is no instruction that may be made one with the
-- one before it.
pub record IsClosed (size : ℕ) (c : Code) : Type 0 where
  pub no_vm_in : (p : ℕ) → is_vm_in (c p).opcode ≡ false
  pub ends : is_glued c size ≡ false
  pub targets :
      (p : ℕ)
      → p < size
      → isgoto (c p).opcode ≡ true
      → ((c p).m_val ≤ size) × (is_glued c (c p).m_val ≡ false)

and_false : (b : Bool) → b && false ≡ false
and_false true = refl
and_false false = refl

not_inside : (c : Code) (t : ℕ) → is_glued c t ≡ false → inside_moves c t ≡ false
not_inside c zero free = refl
not_inside c (suc t) free = elim (Bool-cases (is_reg_move (c t).opcode)) [
  | inr other_op ↦ rw other_op (and_false (is_reg_move (c (suc t)).opcode))
  | inl is_move ↦
      let e =
        moves-glued (c t).opcode (c (suc t)).opcode (is_reg_move (c (suc t)).opcode) is_move refl in
      rw (sym e ∙ free) refl
]

module _ (fresh : ℕ → Slot) (size : ℕ) (c : Code) (closed : IsClosed size c) where
  abbrev after_loop : Code
  after_loop = (rewritten fresh size c).code

  blocks_of :
      Rewrites c size 0 (record { code = c; nop = []; bytes = fresh }) (rewritten fresh size c)
  blocks_of =
      first_pass-blocks size c closed.ends closed.no_vm_in
        (record { code = c; nop = []; bytes = fresh }) refl

  -- The jumps that are left are jumps of the code.
  jump_kept : (p : ℕ) → p < size → isgoto (after_loop p).opcode ≡ true → after_loop p ≡ c p
  jump_kept p below jump = elim (Bool-cases (is_glued c p)) [
    | inl is ↦
        let no = noop_no_jump (after_loop p).opcode (blocks_of.inside p (omega arith) below is) in
        absurd (cc)
    | inr free ↦
        let (q, up, within, free', block) = blocks_of.blocks p (omega arith) below free in
        by_block q block
  ]
    where
      by_block : (q : ℕ) → Block c after_loop p q → after_loop p ≡ c p
      by_block q (same e) = e
      by_block q (blanked g g1) = let no = noop_no_jump (after_loop p).opcode g1 in absurd (cc)
      by_block q (no_jump e v g1) = let no = noop_no_jump (after_loop p).opcode g1 in absurd (cc)
      by_block q (chain d i ms ns sum) = elim sum [
        | inl (_, g1) ↦ let no = noop_no_jump (after_loop p).opcode g1 in absurd (cc)
        | inr (is_move, _) ↦ let no = move_no_jump (after_loop p).opcode is_move in absurd (cc)
      ]
      by_block q (join op push e whole g) =
          let (_, _, stays) = joined_stays (c (suc p)).opcode op e in
          let at = ap (λ x. isgoto x.opcode) whole in absurd (cc)

  closed-IsPlain : IsPlain fresh size c
  closed-IsPlain = record {
    no_vm_in = closed.no_vm_in;
    targets = λ p below jump.
        let e = jump_kept p below jump in
        let (bound, free) = closed.targets p below (ap (λ x. isgoto x.opcode) (sym e) ∙ jump) in
        (
          subst (λ x. x.m_val ≤ size) (sym e) bound,
          ap (λ x. inside_moves c x.m_val) e ∙ not_inside c (c p).m_val free,
        );
  }

  module _ {S : Type 0} (m : Machine S) (j : Joining m) where
    -- However far a run of the instructions goes, from a place where none may be made one with the one before it, the
    -- bytecode comes to the place and the state that the run comes to there or further on, in no more steps.
    pub tobytecode-original :
        (n : ℕ) (from : Config S)
        → Starts c from
        → (k : ℕ) × (b : ℕ) × (n ≤ k)
          × (b ≤ k)
          × (run_bytes m b (tobytecode fresh size c).0 (moved after_loop from)
              ≡ moved after_loop (run_code m k size c from))
    tobytecode-original n from starts =
        let (k, far, e) =
          simulate m j size c after_loop (λ p below jump. (closed.targets p below jump).1)
            (λ p below free. blocks_of.blocks p (omega arith) below free) n from starts in
        let (b, few, e') = tobytecode-run fresh size c closed-IsPlain m k from in
        (k, b, far, few, e' ∙ ap (moved after_loop) e)

    -- Where a run of the instructions leaves the code, the bytecode leaves at the corresponding place, in the same state.
    tobytecode-leaves :
        (n : ℕ) (from : Config S) (pc : ℕ) (s : S)
        → Starts c from
        → run_code m n size c from ≡ left pc s
        → (b : ℕ) × (run_bytes m b (tobytecode fresh size c).0 (moved after_loop from)
            ≡ left (place after_loop pc) s)
    tobytecode-leaves n from pc s starts e =
        let (k, b, far, few, e') = tobytecode-original n from starts in
        let whole : k ≡ n + (k - n) = omega (arith, far) in
        let there : run_code m k size c from ≡ left pc s =
          ap (λ x. run_code m x size c from) whole
          ∙ run_add m size c n (k - n) from
          ∙ ap (run_code m (k - n) size c) e
          ∙ run_left m size c (k - n) pc s in
        (b, e' ∙ ap (moved after_loop) there)
