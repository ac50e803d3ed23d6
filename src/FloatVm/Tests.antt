-- ===== src/FloatVm/Tests.antt =====
-- Instructions on floats that count in a fixed unit, and the theorems at them.
use gwion.Prelude.{ℕ, ◌+◌, ◌-◌, ◌*◌, ◌/◌, if◌then◌else◌, ◌==◌, ltb, leb}
use gwion.Word.{word}
use gwion.Vm.{Shred, Memory}
use gwion.Vm.Machine.{Frame}
use gwion.Vm.Represents.{Represents}
use gwion.FloatVm
use gwion.FloatVm.{FloatBits, float_apply, tests_divisor}

-- Hundredths.
abbrev hundredths : FloatBits
hundredths = record {
  add = ◌+◌;
  sub = ◌-◌;
  mul = λ a b. a * b / 100;
  div = λ a b. a * 100 / b;
  neg = λ a. 0;
  is_zero = λ a. a == 0;
  eq = ◌==◌;
  lt = ltb;
  le = leb;
  of_int = λ a. a * 100;
  to_int = λ a. word (a / 100);
}

abbrev frame : Frame
frame = record { bottom = 1000; limit = 2000; mem = 2000; base = 2000 }

-- The address of a variable on top of a value.
abbrev words : ℕ → Memory
words v a = if a == 1000 then v else if a == 1008 then 2000 else if a == 2000 then 30 else 0

abbrev shred_with : ℕ → Shred
shred_with v = record { memory = words v; reg = 1016; mem = 2000; base = 2000; pc = 0 }
