-- ===== src/Calls/Places.antt =====
-- Where a call or a return of src/vm/vm.c leads, with a list of frames.
use mathlib.Core.Path.{subst}
use gwion.Prelude.{
  ℕ, ◌+◌, ◌%◌, ◌^◌, ◌≤◌, ◌≡◌, refl, sym, ap, ◌∙◌, Bool, true, false, List, [], ◌∷◌, arith, ltb, leb,
  if◌then◌else◌, leb→le,
}
use gwion.Vm.{plus_ptr}
use gwion.Calls.{
  func_usr_end, Frame, Fiber, Called, entered, stack_overflow, Event, call, call_self, return, work,
  sizeof_frame, sizeof_mem, overflow, overflow_, setcode, recurs, push_frame,
}
use gwion.Calls.Frames.{Frames, Frames-used, Frames-push, used}

-- The code and the instruction where a shred stands, with its frames; or it overflows; or a native
-- function, a return with no frame, or a frame with no room for itself.
pub data Place : Type 0 where
  at : (code pc : ℕ) → List Frame → Place
  overflows : Place
  outside : Place

abbrev pub entering : (code val2 : ℕ) → List Frame → Place
entering code val2 [] = outside
entering code val2 (x ∷ fs) =
    if leb sizeof_frame x.push
    then (if ltb sizeof_mem (used (x ∷ fs) + val2) then overflows else at code 0 (x ∷ fs))
    else outside

abbrev pub move : (builtin : ℕ → Bool) → Event → (code pc : ℕ) → List Frame → Place
move builtin (call word depth ival sval val2) code pc fs =
    if builtin word
    then outside
    else entering word val2 (
        record { push = (depth + sizeof_frame) % 2 ^ 32; pc = (pc + sval) % 2 ^ 32; code = code }
        ∷ fs)
move builtin (call_self ival sval sval2 val2) code pc fs =
    entering code val2 (record { push = sval2; pc = sval; code = code } ∷ fs)
move builtin return code pc [] = outside
move builtin return code pc (x ∷ fs) = at x.code x.pc fs
move builtin (work reg to) code pc fs = at code to fs

abbrev pub proceed : (ℕ → ℕ → List Frame → Place) → Place → Place
proceed go (at code pc fs) = go code pc fs
proceed go overflows = overflows
proceed go outside = outside

unfoldable pub move_all : (builtin : ℕ → Bool) → List Event → (code pc : ℕ) → List Frame → Place
move_all builtin [] code pc fs = at code pc fs
move_all builtin (e ∷ es) code pc fs = proceed (move_all builtin es) (move builtin e code pc fs)

-- The shred stands at this place.
pub record Stands (code pc : ℕ) (fs : List Frame) (s : Fiber) : Type 0 where
  pub code_at : s.code ≡ code
  pub pc_at : s.pc ≡ pc
  pub frames_at : Frames s.frames s.bottom fs s.mem

abbrev pub Reached : Place → Called → Type 0
Reached (at code pc fs) o = (s : Fiber) × (o ≡ entered s) × Stands code pc fs s
Reached overflows o = (s : Fiber) × (o ≡ stack_overflow s)
Reached outside o = Unit {0}

guarded :
    (b : Bool) (t : Place) (o : Called)
    → (b ≡ true → Reached t o)
    → Reached (if b then t else outside) o
guarded true t o h = h refl
guarded false t o h = tt

tested :
    (b : Bool) (code pc : ℕ) (fs : List Frame) (s t : Fiber)
    → Stands code pc fs t
    → Reached (if b then overflows else at code pc fs) (if b then stack_overflow s else entered t)
tested true code pc fs s t st = (s, refl)
tested false code pc fs s t st = (t, refl, st)

ltb-shift : (b m n : ℕ) → ltb (b + m) (b + n) ≡ ltb m n
ltb-shift b m n = ground arith

-- What follows a pushed frame: the test of the memory stack, and the entry.
overflow-Reached :
    (code val2 : ℕ) (x : Frame) (fs : List Frame) (s t : Fiber)
    → (sizeof_frame ≤ x.push → Frames s.frames s.bottom (x ∷ fs) s.mem × Stands code 0 (x ∷ fs) t)
    → Reached
        (entering code val2 (x ∷ fs))
        (if overflow_ (s.mem + val2) s then stack_overflow s else entered t)
overflow-Reached code val2 x fs s t known =
    let want = if ltb sizeof_mem (used (x ∷ fs) + val2) then overflows else at code 0 (x ∷ fs) in
    let given = if overflow_ (s.mem + val2) s then stack_overflow s else entered t in
    guarded (leb sizeof_frame x.push) want given (λ least.
      let (frames, stands) = known (leb→le sizeof_frame x.push least) in
      let total : s.mem + val2 ≡ s.bottom + (used (x ∷ fs) + val2) =
        omega (arith, Frames-used s.frames s.bottom (x ∷ fs) s.mem frames) in
      let same : ltb sizeof_mem (used (x ∷ fs) + val2) ≡ overflow_ (s.mem + val2) s = sym (
        ap (λ m. ltb (s.bottom + sizeof_mem) m) total
        ∙ ltb-shift s.bottom sizeof_mem (used (x ∷ fs) + val2)) in
      subst
        (λ b.
          Reached (if ltb sizeof_mem (used (x ∷ fs) + val2) then overflows else at code 0 (x ∷ fs))
            (if b then stack_overflow s else entered t))
        same (tested (ltb sizeof_mem (used (x ∷ fs) + val2)) code 0 (x ∷ fs) s t stands))

pub call_self-Reached :
    (ival sval sval2 val2 code pc : ℕ) (fs : List Frame) (s : Fiber)
    → Stands code pc fs s
    → Reached
        (entering code val2 (record { push = sval2; pc = sval; code = code } ∷ fs))
        (overflow val2 (recurs ival sval sval2 s))
unfolding overflow recurs
call_self-Reached ival sval sval2 val2 code pc fs s st =
    let s' = recurs ival sval sval2 s in
    let frame = λ (c : ℕ). (let x : Frame = record { push = sval2; pc = sval; code = c } in x) in
    subst (λ c. Reached (entering c val2 (frame c ∷ fs)) (overflow val2 s')) st.code_at
      (overflow-Reached s.code val2 (frame s.code) fs s' (record s' { pc = 0 })
        (λ least.
          let pushed = Frames-push s.frames s.bottom fs s.mem (frame s.code) least st.frames_at in
          (pushed, record { code_at = refl; pc_at = refl; frames_at = pushed })))

-- What `setcode` does for a function that is not native.
abbrev prepared : (word depth ival sval : ℕ) → Fiber → Fiber
prepared word depth ival sval s =
    record (push_frame s ((depth + sizeof_frame) % 2 ^ 32) ((s.pc + sval) % 2 ^ 32)) {
      callee = word;
      next = func_usr_end;
      reg = plus_ptr s.reg ival;
      pc = s.pc + 1;
    }

pub setcode-prepared :
    (builtin : ℕ → Bool) (word depth ival sval : ℕ) (s : Fiber)
    → builtin word ≡ false
    → setcode builtin word depth ival sval s ≡ prepared word depth ival sval s
unfolding setcode
setcode-prepared builtin word depth ival sval s e = rw e refl

abbrev pub call_frame : (depth sval code pc : ℕ) → Frame
call_frame depth sval code pc = record {
  push = (depth + sizeof_frame) % 2 ^ 32;
  pc = (pc + sval) % 2 ^ 32;
  code = code;
}

pub call-Reached :
    (word depth ival sval val2 code pc : ℕ) (fs : List Frame) (s : Fiber)
    → Stands code pc fs s
    → Reached
        (entering word val2 (call_frame depth sval code pc ∷ fs))
        (overflow val2 (prepared word depth ival sval s))
unfolding overflow setcode
call-Reached word depth ival sval val2 code pc fs s st =
    let s' = prepared word depth ival sval s in
    let frame = call_frame depth sval in
    subst (λ c. Reached (entering word val2 (frame c pc ∷ fs)) (overflow val2 s')) st.code_at
      (subst (λ p. Reached (entering word val2 (frame s.code p ∷ fs)) (overflow val2 s')) st.pc_at
        (overflow-Reached word val2 (frame s.code s.pc) fs s' (record s' { code = word; pc = 0 })
          (λ least.
            let pushed =
              Frames-push s.frames s.bottom fs s.mem (frame s.code s.pc) least st.frames_at in
            (pushed, record { code_at = refl; pc_at = refl; frames_at = pushed }))))
