-- ===== src/Handle/Tests.antt =====
-- An effect raised in a function that was called inside a try, and the theorems at it.
use gwion.Prelude.{
  ℕ, ◌≡◌, refl, true, false, List, [], ◌∷◌, some, none, arith, length, get_or, if◌then◌else◌, ◌==◌,
}
use gwion.Float.{ticks_ops, ticks_laws}
use gwion.Vector.{list_ops}
use gwion.Calls.{Frame, func_usr_end}
use gwion.Calls.Places.{Stands}
use gwion.Shreduler.{Shreduler, queued}
use gwion.Shreduler.Insert.{insert_due}
use gwion.Shreduler.Queue.{IsQueue}
use gwion.Shreduler.Tests.{state, ticks, state-IsQueue, three-IsDetached, quiet}
use gwion.Handle.{Indexed, VmValue, Code, Thrower, Unwound, caught, unwind, handle, clean_values}
use gwion.Handle.Landing.{landing, first_try}
use gwion.Handle.Unwind.{unwind-caught, unwind-uncaught}
use gwion.Handle.Caught.{handle-caught}

abbrev keys : Indexed (List ℕ) ℕ
keys = record { size = length; at = λ m i. get_or m i 0 }

abbrev dead : VmValue
dead = record { typ = 0; offset = 0; start = 0; stop = 0 }

abbrev values : Indexed (List VmValue) VmValue
values = record { size = length; at = λ m i. get_or m i dead }

-- Code 1 has a try that ends at 10, for effect 77.
abbrev code_of : ℕ → Code (List ℕ) (List VmValue)
code_of c =
    if c == 1
    then record {
      instr = λ i. record { m_val = 0; m_val2 = if i == 10 then 77 else 8 };
      handlers = some (10 ∷ []);
      live_values = none;
    }
    else record {
      instr = λ i. record { m_val = 0; m_val2 = 0 };
      handlers = none;
      live_values = some (record { typ = 5; offset = 16; start = 1; stop = 9 } ∷ []);
    }

abbrev caller : Frame
caller = record { push = 24; pc = 7; code = 1 }

-- Code 2, called from code 1 inside the try.
abbrev thrower : Thrower (List ℕ)
thrower = record {
  fiber = record {
    code = 2;
    pc = 3;
    reg = 940;
    mem = 5024;
    bottom = 5000;
    callee = 2;
    next = func_usr_end;
    frames = λ a. caller;
  };
  memory = λ a. 0;
  tries = 4 ∷ 900 ∷ [];
}

-- The value that lives in code 2 is released.
live_at_3 : clean_values values (code_of 2) thrower.fiber ≡ (5, 5040) ∷ []
unfolding clean_values
live_at_3 = refl

unwind-caught_example :
    (u : Unwound (List ℕ)) × (unwind code_of (λ e. e) 77 keys values 3 thrower 2 [] ≡ some u)
    × (u.found ≡ true)
    × Stands 1 11 [] u.thrower.fiber
    × (u.thrower.fiber.reg ≡ 900)
    × (u.thrower.tries ≡ [])
unfolding landing first_try
unwind-caught_example =
    unwind-caught keys code_of (λ e. e) 77 values 3 (caller ∷ []) [] thrower 2 [] 1 11
      (omega arith, omega arith, refl, refl) (omega arith) refl

unwind-uncaught_example :
    (u : Unwound (List ℕ)) × (unwind code_of (λ e. e) 78 keys values 3 thrower 2 [] ≡ some u)
    × (u.found ≡ false)
unfolding landing first_try
unwind-uncaught_example =
    unwind-uncaught keys code_of (λ e. e) 78 values 3 (caller ∷ []) thrower 2 []
      (omega arith, omega arith, refl, refl) (omega arith) refl

handle-caught_example :
    (s' : Shreduler ℕ (List ℕ)) × (u : Unwound (List ℕ)) × (handle keys values quiet code_of
        (λ e. e)
        1
        3
        3
        (state 6 3)
        103
        thrower
        77
      ≡ some (caught (queued (some s')) u))
    × IsQueue s' (insert_due ticks 6 3 (1 ∷ 2 ∷ []))
    × Stands 1 11 [] u.thrower.fiber
    × (u.thrower.fiber.reg ≡ 900)
unfolding landing first_try
handle-caught_example =
    handle-caught ticks_laws keys values quiet code_of (λ e. e) 1 3 3 (state 6 3) 103 (1 ∷ 2 ∷ [])
      thrower 77 (caller ∷ []) [] 1 11 (omega arith) (state-IsQueue 6) (three-IsDetached 6) refl
      refl (omega arith, omega arith, refl, refl) (omega arith) refl
