-- ===== src/Handle.antt =====
-- src/vm/vm.c: how an effect is handled: the frames of the shred are unwound, their live values released,
-- up to a code with handlers. Maps and vectors of the util submodule are interfaces; the trace that is printed
-- is left out. `tries` is `info->frame`, which holds a place and a register pointer for each open try.
pub mod Landing
pub mod Unwind
pub mod Caught
mod Tests
use gwion.Prelude.{
  ℕ, zero, suc, ◌+◌, ◌-◌, ◌%◌, ◌^◌, Bool, true, false, ◌&&◌, ◌||◌, Option, none, some, List, [],
  ◌∷◌, ◌++◌, ◌==◌, ltb, leb, if◌then◌else◌,
}
use gwion.Float.{FloatOps}
use gwion.Vector.{VectorOps}
use gwion.Vm.{Memory, poke}
use gwion.Calls.{Fiber, shred_unwind}
use gwion.Shreduler.{Ptr, Shreduler, Shreduled, queued, negative_wake_up_time, shredule}
use gwion.Shreduler.Erase.{Hooks, shreduler_remove}

-- A container that is read by index: the keys of a `Map`, or the entries of an `M_Vector`.
pub record Indexed (C A : Type 0) : Type 0 where
  pub size : C → ℕ
  pub at : C → ℕ → A

-- `VMValue`: a value of a type, at an offset, that lives between two instructions.
pub record VmValue : Type 0 where
  pub typ : ℕ
  pub offset : ℕ
  pub start : ℕ
  pub stop : ℕ

-- The arguments of an instruction.
pub record Operands : Type 0 where
  pub m_val : ℕ
  pub m_val2 : ℕ

-- The parts of `struct VM_Code_` that unwinding reads; none is a null pointer.
pub record Code (M L : Type 0) : Type 0 where
  pub instr : ℕ → Operands
  pub handlers : Option M
  pub live_values : Option L

-- A shred that handles an effect: its registers and frames, its words and its open tries.
pub record Thrower (V : Type 0) : Type 0 where
  pub fiber : Fiber
  pub memory : Memory
  pub tries : V

-- What `unwind` leaves: whether a handler was found, the shred, and the values that were released, each
-- with its type and its address.
pub record Unwound (V : Type 0) : Type 0 where
  pub found : Bool
  pub thrower : Thrower V
  pub released : List (ℕ × ℕ)

-- The loop runs from the last value to the first.
clean_from : {L : Type 0} → Indexed L VmValue → L → (pc mem count : ℕ) → List (ℕ × ℕ)
clean_from vs live pc mem zero = []
clean_from vs live pc mem (suc i) =
    let v = vs.at live i in
    let rest = clean_from vs live pc mem i in
    if leb pc v.start then [] else if leb v.stop pc then rest else (v.typ, mem + v.offset) ∷ rest

-- `pc` is a `uint16_t` here.
unfoldable pub clean_values : {M L : Type 0} → Indexed L VmValue → Code M L → Fiber → List (ℕ × ℕ)
unfolding clean_from
clean_values vs code s = elim code.live_values [
  | none ↦ []
  | some live ↦ clean_from vs live (s.pc % 2 ^ 16) s.mem (vs.size live)
]

module _ {M L : Type 0} (keys : Indexed M ℕ) (code : Code M L) (effect : ℕ) where
  abbrev pub handles : ℕ → Bool
  handles key = ((code.instr key).m_val2 == 0) || ((code.instr key).m_val2 == effect)

  unfoldable pub find_from : (m : M) (start pc i count : ℕ) → ℕ
  find_from m start pc i zero = 0
  find_from m start pc i (suc count) =
      let rest = find_from m start pc (i + 1) count in
      if ltb pc start
      then 0
      else if ltb start pc && ltb pc (keys.at m i) && handles (keys.at m i)
      then (keys.at m i + 1) % 2 ^ 16
      else rest

  -- The place of the handler, zero if there is none; a try that opens later gives one.
  unfoldable pub find_pc : (m : M) (start pc : ℕ) → ℕ
  unfolding find_from
  find_pc m start pc = if ltb pc start then 1 else find_from m start pc 0 (keys.size m)

abbrev pub try_start : {V : Type 0} ⦃vo : VectorOps V⦄ → Thrower V → ℕ
try_start ⦃vo⦄ s = vo.at s.tries (vo.size s.tries - 2)

module _ {V M L : Type 0} ⦃vo : VectorOps V⦄ (code_of : ℕ → Code M L) (name : ℕ → ℕ)
    (effect : ℕ) where
  -- The shred goes on at the place of the handler, its tries closed and its register pointer as it was
  -- at the try.
  abbrev pub resume : Thrower V → (pc : ℕ) → Thrower V
  resume s pc =
      let operands = (code_of s.fiber.code).instr pc in
      record {
        fiber = record s.fiber { reg = vo.at s.tries (vo.size s.tries - 1); pc = pc };
        memory =
            if operands.m_val == 0
            then poke s.memory (s.fiber.mem + operands.m_val2) (name effect)
            else s.memory;
        tries = vo.pop (vo.pop s.tries);
      }

  -- What `find_handle` does to the shred itself; `handle` schedules it.
  unfoldable pub find_handle : Indexed M ℕ → M → Thrower V → Bool × Thrower V
  find_handle keys m s =
      let pc = find_pc keys (code_of s.fiber.code) effect m (try_start s) s.fiber.pc in
      if pc == 0 then (false, s) else (true, resume s pc)

  module _ (keys : Indexed M ℕ) (vs : Indexed L VmValue) where
    -- The fuel bounds the frames; none runs out of it.
    unfoldable pub unwind : ℕ → Thrower V → (size : ℕ) → List (ℕ × ℕ) → Option (Unwound V)
    unwind zero s size log = none
    unwind (suc fuel) s size log =
        let code = code_of s.fiber.code in
        let log1 = log ++ clean_values vs code s.fiber in
        let caller = shred_unwind s.fiber in
        let less = if s.fiber.code == caller.code then size else size - 1 in
        let rest = unwind fuel (record s { fiber = caller }) less log1 in
        if size == 0
        then some (record { found = false; thrower = s; released = log1 })
        else elim code.handlers [
          | some m ↦
              let (found, s1) = find_handle keys m s in
              some (record { found = found; thrower = s1; released = log1 })
          | none ↦
              if s.fiber.mem == s.fiber.bottom
              then some (record { found = false; thrower = s; released = log1 })
              else rest
        ]

-- The effect is caught, and the shred is scheduled now, or the shred is removed.
pub data Handled (F V : Type 0) : Type 0 where
  caught : Shreduled F V → Unwound V → Handled F V
  failed : Option (Shreduler F V) → Unwound V → Handled F V

module _ {F V M L : Type 0} ⦃o : FloatOps F⦄ ⦃vo : VectorOps V⦄ (keys : Indexed M ℕ)
    (vs : Indexed L VmValue) where
  -- `depth` and `fuel` are those of the shreduler, `frames` that of `unwind`.
  unfoldable pub handle :
      (hooks : Hooks F V) (code_of : ℕ → Code M L) (name : ℕ → ℕ) (depth fuel frames : ℕ)
      → Shreduler F V
      → (shred : Ptr) → Thrower V
      → (effect : ℕ) → Option (Handled F V)
  handle hooks code_of name depth fuel frames s shred t effect =
      elim (shreduler_remove hooks depth s shred false) [
        | none ↦ none
        | some s1 ↦ elim (unwind code_of name effect keys vs frames t (vo.size t.tries) []) [
          | none ↦ none
          | some u ↦
              if u.found
              then some (caught (shredule fuel s1 shred (o.of_uint 0)) u)
              else some (failed (shreduler_remove hooks depth s1 shred true) u)
        ]
      ]
