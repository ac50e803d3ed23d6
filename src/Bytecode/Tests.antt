-- ===== src/Bytecode/Tests.antt =====
-- A code with a merged move, a joined access and jumps, and the theorems at it (src/vm/vm_code.c).
use gwion.Prelude.{ℕ, zero, suc, ◌<◌, ◌≤◌, ◌≡◌, ◌≢◌, refl, true, false, [], ◌∷◌, arith}
use gwion.Bytecode.{
  Opcode, Code, Instr, Slot, isgoto, tobytecode, first_pass, second_pass, store_move, store_instr,
  join_member, merge_moves, relocate, new_pc, nops_before,
}
use Opcode.{
  reg_move, reg_push_mem, dot_member, dot_member_mem, goto, branch_eq_int, handle_effect, other,
}
use gwion.Bytecode.Round.{is_vm_in}
use gwion.Bytecode.Passed.{inside_moves}
use gwion.Bytecode.Compact.{kept_handlers}
use gwion.Bytecode.Run.{Config, moved, step_code, run_code, run_bytes}
use gwion.Bytecode.Refine.{IsPlain, rewritten, tobytecode-handlers}
use gwion.Bytecode.Blocks.{is_glued}
use gwion.Bytecode.Simulate.{Starts}
use gwion.Bytecode.Original.{IsClosed, tobytecode-original}
use gwion.Bytecode.Registers.{Regs, registers, registers-Joining}

abbrev instr : Opcode → ℕ → Instr
instr op val = record { opcode = op; m_val = val; m_val2 = 0 }

abbrev fresh : ℕ → Slot
fresh p = record { instr = instr (other 0) 0; next = 0 }

abbrev sample : Code
sample zero = instr branch_eq_int 4
sample (suc zero) = instr reg_move 8
sample (suc (suc zero)) = instr reg_move 16
sample (suc (suc (suc zero))) = instr goto 0
sample (suc (suc (suc (suc zero)))) = instr reg_push_mem 24
sample (suc (suc (suc (suc (suc zero))))) = instr dot_member 40
sample (suc (suc (suc (suc (suc (suc zero)))))) = instr handle_effect 7
sample (suc (suc (suc (suc (suc (suc (suc n))))))) = instr (other 1) 0

-- The branch goes to the joined access at the place 3.
sample_bytes : tobytecode fresh 8 sample ≡ (
  record { instr = instr branch_eq_int 3; next = 1 }
      ∷ record { instr = instr reg_move 24; next = 2 }
      ∷ record { instr = instr goto 0; next = 3 }
      ∷ record { instr = record { opcode = dot_member_mem; m_val = 40; m_val2 = 24 }; next = 4 }
      ∷ record { instr = instr handle_effect 5; next = 5 }
      ∷ record { instr = instr (other 1) 0; next = 6 }
      ∷ [],
  (4, 5) ∷ [],
)
unfolding tobytecode first_pass second_pass store_move store_instr join_member merge_moves relocate
    new_pc nops_before
sample_bytes = refl

sample-IsPlain : IsPlain fresh 8 sample
unfolding first_pass store_move store_instr join_member merge_moves
sample-IsPlain = record { no_vm_in = no_end; targets = targets }
  where
    no_end : (p : ℕ) → is_vm_in (sample p).opcode ≡ false
    no_end zero = refl
    no_end (suc zero) = refl
    no_end (suc (suc zero)) = refl
    no_end (suc (suc (suc zero))) = refl
    no_end (suc (suc (suc (suc zero)))) = refl
    no_end (suc (suc (suc (suc (suc zero))))) = refl
    no_end (suc (suc (suc (suc (suc (suc zero)))))) = refl
    no_end (suc (suc (suc (suc (suc (suc (suc n))))))) = refl

    targets :
        (p : ℕ)
        → p < 8
        → isgoto ((rewritten fresh 8 sample).code p).opcode ≡ true
        → (((rewritten fresh 8 sample).code p).m_val ≤ 8)
          × (inside_moves sample ((rewritten fresh 8 sample).code p).m_val ≡ false)
    targets zero to jump = (omega arith, refl)
    targets (suc zero) to jump = absurd (cc)
    targets (suc (suc zero)) to jump = absurd (cc)
    targets (suc (suc (suc zero))) to jump = (omega arith, refl)
    targets (suc (suc (suc (suc zero)))) to jump = absurd (cc)
    targets (suc (suc (suc (suc (suc zero))))) to jump = absurd (cc)
    targets (suc (suc (suc (suc (suc (suc zero)))))) to jump = (omega arith, refl)
    targets (suc (suc (suc (suc (suc (suc (suc zero))))))) to jump = absurd (cc)
    targets (suc (suc (suc (suc (suc (suc (suc (suc n)))))))) to jump = absurd (omega (arith, to))

tobytecode-handlers_example :
    ((rewritten fresh 8 sample).nop ≢ []
      → (tobytecode fresh 8 sample).1 ≡ kept_handlers (rewritten fresh 8 sample).code 8 0)
    × ((rewritten fresh 8 sample).nop ≡ [] → (tobytecode fresh 8 sample).1 ≡ [])
tobytecode-handlers_example = tobytecode-handlers fresh 8 sample sample-IsPlain

sample-IsClosed : IsClosed 8 sample
sample-IsClosed = record { no_vm_in = sample-IsPlain.no_vm_in; ends = refl; targets = targets }
  where
    targets :
        (p : ℕ)
        → p < 8
        → isgoto (sample p).opcode ≡ true
        → ((sample p).m_val ≤ 8) × (is_glued sample (sample p).m_val ≡ false)
    targets zero to jump = (omega arith, refl)
    targets (suc zero) to jump = absurd (cc)
    targets (suc (suc zero)) to jump = absurd (cc)
    targets (suc (suc (suc zero))) to jump = (omega arith, refl)
    targets (suc (suc (suc (suc zero)))) to jump = absurd (cc)
    targets (suc (suc (suc (suc (suc zero))))) to jump = absurd (cc)
    targets (suc (suc (suc (suc (suc (suc zero)))))) to jump = (omega arith, refl)
    targets (suc (suc (suc (suc (suc (suc (suc n))))))) to jump = absurd (cc)

abbrev regs : ℕ → Regs
regs top = record { reg = (64, omega arith); top = top }

tobytecode-original_example :
    (k : ℕ) × (b : ℕ) × (3 ≤ k)
    × (b ≤ k)
    × (run_bytes registers b
          (tobytecode fresh 8 sample).0
          (moved (rewritten fresh 8 sample).code (Config.at 0 (regs 5)))
        ≡ moved
            (rewritten fresh 8 sample).code
            (run_code registers k 8 sample (Config.at 0 (regs 5))))
unfolding Starts
tobytecode-original_example =
    tobytecode-original fresh 8 sample sample-IsClosed registers registers-Joining 3
      (Config.at 0 (regs 5)) refl

-- From the branch to the joined access and out of the code.
leaving : run_code registers 5 8 sample (Config.at 0 (regs 0)) ≡ Config.left 7 (regs 288)
unfolding run_code step_code registers
leaving = refl
