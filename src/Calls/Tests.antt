-- ===== src/Calls/Tests.antt =====
-- Calls on an empty memory stack, and the theorems at them.
use gwion.Prelude.{ℕ, ◌≡◌, refl, Bool, List, [], ◌∷◌, ◌==◌}
use gwion.Calls.{
  Fiber, Event, call, call_self, return, work, func_usr_end, prepare_call, shred_unwind,
}

abbrev none_builtin : ℕ → Bool
none_builtin c = c == 9

abbrev fiber : Fiber
fiber = record {
  code = 1;
  pc = 4;
  reg = 1000;
  mem = 5000;
  bottom = 5000;
  callee = 0;
  next = func_usr_end;
  frames = λ a. record { push = 0; pc = 0; code = 0 };
}

-- A call, a call of itself inside, and both returns.
abbrev nested : List Event
nested = call 2 8 0 2 100 ∷ work 1008 5 ∷ call_self 0 3 24 100 ∷ work 1008 7 ∷ return ∷ return ∷ []

abbrev endless : List Event
endless = call 2 8 0 2 100 ∷ call_self 0 3 65512 100 ∷ []

-- A call of a printing function is unwound to where it was made.
unwound : (shred_unwind (prepare_call 8 fiber)).pc ≡ 4
unfolding shred_unwind prepare_call
unwound = refl
