-- ===== src/Calls.antt =====
-- src/vm/vm.c: the instructions of `vm_prepare` that call and return, and `shred_unwind`. A `frame_t` stands
-- below `mem`, at its address; the words of the same memory are those of Vm. `pc` is the index of the next
-- instruction of `code`.
pub mod Frames
pub mod Places
pub mod Sequence
mod Tests
use gwion.Prelude.{
  ℕ, zero, suc, ◌+◌, ◌-◌, ◌*◌, ◌%◌, ◌^◌, Bool, true, false, Option, none, some, List, [], ◌∷◌, ◌==◌,
  ltb, if◌then◌else◌,
}
use gwion.Vm.{plus_ptr, minus_ptr}

-- `struct frame_t`.
pub record Frame : Type 0 where
  pub push : ℕ
  pub pc : ℕ
  pub code : ℕ

abbrev pub sizeof_frame : ℕ
sizeof_frame = 16

abbrev pub sizeof_mem : ℕ
sizeof_mem = 0x1 * 2 ^ 16

-- The label that `overflow` goes on with.
pub data Next : Type 0 where
  func_usr_end func_usr_end2 func_member_end : Next

-- The registers of the dispatch loop while a call is prepared. `callee` is `a.code`, and `bottom`
-- the bottom of the memory stack.
pub record Fiber : Type 0 where
  pub code : ℕ
  pub pc : ℕ
  pub reg : ℕ
  pub mem : ℕ
  pub bottom : ℕ
  pub callee : ℕ
  pub next : Next
  pub frames : ℕ → Frame

-- A call goes on, enters native code, or overflows the memory stack.
pub data Called : Type 0 where
  entered : Fiber → Called
  native : Fiber → Called
  stack_overflow : Fiber → Called

unfoldable pub write_frame : (ℕ → Frame) → ℕ → Frame → ℕ → Frame
write_frame h p t a = if a == p then t else h a

-- The memory stack grows by `push`, and a frame is put below its new top.
abbrev pub push_frame : Fiber → (push pc : ℕ) → Fiber
push_frame s push pc = record s {
  mem = s.mem + push;
  frames =
      write_frame s.frames (s.mem + push - sizeof_frame)
        (record { push = push; pc = pc; code = s.code });
}

-- A call of the function itself: SVAL2 words of the stack, SVAL the place to return to.
unfoldable pub recurs : (ival sval sval2 : ℕ) → Fiber → Fiber
unfolding write_frame
recurs ival sval sval2 s = record (push_frame s sval2 sval) {
  reg = plus_ptr s.reg ival;
  next = func_usr_end2;
  pc = s.pc + 1;
}

-- `word` is what stands at `reg - SZ_INT`, `depth` what stands at `reg`; the instruction goes on with
-- `regmove`.
unfoldable pub setcode : (builtin : ℕ → Bool) (word depth : ℕ) (ival sval : ℕ) → Fiber → Fiber
unfolding write_frame
setcode builtin word depth ival sval s =
    let called =
      if builtin word
      then record s { mem = s.mem + depth; callee = word; next = func_member_end }
      else record (push_frame s ((depth + sizeof_frame) % 2 ^ 32) ((s.pc + sval) % 2 ^ 32)) {
        callee = word;
        next = func_usr_end;
      } in
    record called { reg = plus_ptr s.reg ival; pc = s.pc + 1 }

abbrev pub overflow_ : ℕ → Fiber → Bool
overflow_ mem s = ltb (s.bottom + sizeof_mem) mem

abbrev pub enter : Next → Fiber → Called
enter func_usr_end s = entered (record s { code = s.callee; pc = 0 })
enter func_usr_end2 s = entered (record s { pc = 0 })
enter func_member_end s = native s

unfoldable pub overflow : (val2 : ℕ) → Fiber → Called
overflow val2 s = if overflow_ (s.mem + val2) s then stack_overflow s else enter s.next s

unfoldable pub func_return : Fiber → Fiber
func_return s =
    let frame = s.frames (s.mem - sizeof_frame) in
    record s { code = frame.code; mem = s.mem - frame.push; pc = frame.pc }

-- The same on a shred that is not running.
unfoldable pub shred_unwind : Fiber → Fiber
shred_unwind s =
    let frame = s.frames (s.mem - sizeof_frame) in
    record s { code = frame.code; pc = frame.pc; mem = s.mem - frame.push }

-- src/vm/gack.c: the call of a printing function, which returns to where the shred stands. The memory pointer
-- moves by the whole size, of which the frame keeps 32 bits.
unfoldable pub prepare_call : (offset : ℕ) → Fiber → Fiber
unfolding write_frame
prepare_call offset s =
    let mem = s.mem + (offset + 24) in
    let x : Frame = record { push = (offset + 24) % 2 ^ 32; pc = s.pc % 2 ^ 32; code = s.code } in
    record s { mem = mem; frames = write_frame s.frames (mem - sizeof_frame) x; pc = 0 }

-- What a shred does about calls; `work` stands for instructions that leave the memory stack alone.
pub data Event : Type 0 where
  call : (word depth ival sval val2 : ℕ) → Event
  call_self : (ival sval sval2 val2 : ℕ) → Event
  return : Event
  work : (reg pc : ℕ) → Event

module _ (builtin : ℕ → Bool) where
  unfoldable pub act : Event → Fiber → Called
  unfolding setcode recurs overflow func_return
  act (call word depth ival sval val2) s = overflow val2 (setcode builtin word depth ival sval s)
  act (call_self ival sval sval2 val2) s = overflow val2 (recurs ival sval sval2 s)
  act return s = entered (func_return s)
  act (work reg pc) s = entered (record s { reg = reg; pc = pc })

  unfoldable pub act_all : List Event → Fiber → Called
  act_all [] s = entered s
  act_all (e ∷ es) s = elim (act e s) [
    | entered s' ↦ act_all es s'
    | native s' ↦ native s'
    | stack_overflow s' ↦ stack_overflow s'
  ]
