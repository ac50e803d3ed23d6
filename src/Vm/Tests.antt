-- ===== src/Vm/Tests.antt =====
-- Small programs on a shred with a register stack of some words, and the theorems at them.
use gwion.Prelude.{
  ℕ, suc, ◌+◌, ◌-◌, ◌*◌, ◌%◌, ◌<◌, ◌≡◌, refl, List, [], ◌∷◌, arith, if◌then◌else◌, ◌==◌,
}
use gwion.Word.{word_mod, minus, div}
use gwion.Vm
use gwion.Vm.{Shred, Memory, Instr, poke, run, at, raised, zero_divide_exception}
use gwion.Vm.Machine.{Frame, step, machine_run}
use gwion.Vm.Represents.{Represents}
use gwion.Vm.Repeat.{Reaches, repeat-run}

abbrev frame : Frame
frame = record { bottom = 1000; limit = 2000; mem = 2000; base = 2000 }

abbrev words : Memory
words a = if a == 1000 then 6 else if a == 1008 then 2 else if a == 2000 then 3 else 0

-- A shred with the given height of its stack.
abbrev shred_at : ℕ → Shred
shred_at reg = record { memory = words; reg = reg; mem = 2000; base = 2000; pc = 0 }

two_words : Represents frame (2 ∷ 6 ∷ []) words 0 (shred_at 1016)
two_words = record {
  stack = (omega arith, refl, (omega arith, refl, refl));
  fits = omega arith;
  agrees = λ p h. refl;
  mem_at = refl;
  base_at = refl;
  pc_at = refl;
}

three_words : Represents frame (0 ∷ 2 ∷ 6 ∷ []) words 0 (shred_at 1024)
three_words = record {
  stack = (omega arith, refl, (omega arith, refl, (omega arith, refl, refl)));
  fits = omega arith;
  agrees = λ p h. refl;
  mem_at = refl;
  base_at = refl;
  pc_at = refl;
}

-- The variable, a constant, and their difference, skipped over if it is not zero.
abbrev difference : List Instr
difference = Vm.reg_push_mem 0 ∷ Vm.reg_push_imm 1 ∷ Vm.int_op minus ∷ Vm.branch_neq_int 7 ∷ []

abbrev quotient : List Instr
quotient = Vm.reg_push_imm 5 ∷ Vm.reg_push_imm 0 ∷ Vm.int_op div ∷ []

-- Three times, five is added to a variable.
abbrev add_five : List Instr
add_five = Vm.repeat 3 0 ∷ Vm.mem_add_imm 8 5 ∷ Vm.goto 0 ∷ []

round_of_add_five :
    (k : ℕ) (vars : Memory)
    → suc k < word_mod
    → vars 2008 + 5 * suc k ≡ 15
    → (vars' : Memory) × Reaches add_five frame
        (2 ∷ 6 ∷ [])
        (poke vars 2000 k)
        1
        (2 ∷ 6 ∷ [])
        vars'
        0
      × (vars' 2000 ≡ k)
      × (vars' 2008 + 5 * k ≡ 15)
unfolding machine_run step poke
round_of_add_five k vars small e =
    (poke (poke vars 2000 k) 2008 ((vars 2008 + 5) % word_mod), (2, refl), refl, omega (arith, e))

repeat-run_example :
    (m : ℕ) × (s' : Shred) × (vars' : Memory) × (run m add_five (shred_at 1016) ≡ at s')
    × (vars' 2008 + 5 * 0 ≡ 15)
    × Represents frame (2 ∷ 6 ∷ []) (poke vars' 2000 (word_mod - 1)) 3 s'
repeat-run_example =
    repeat-run add_five frame (omega arith) 3 0 0 (2 ∷ 6 ∷ []) (λ k vars. vars 2008 + 5 * k ≡ 15)
      refl refl round_of_add_five 3 words (shred_at 1016) (omega arith) refl refl two_words
