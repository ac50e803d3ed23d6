-- ===== src/Calls/Sequence.antt =====
-- Sequences of calls and returns of src/vm/vm.c against a list of frames.
use mathlib.Core.Path.{subst}
use gwion.Prelude.{
  ℕ, ◌-◌, ◌≡◌, refl, sym, ap, inl, inr, Bool, List, [], ◌∷◌, if◌then◌else◌, Bool-cases,
}
use gwion.Calls.{
  Frame, Fiber, Called, entered, native, stack_overflow, Event, call, call_self, return, work, act,
  act_all, overflow, func_return,
}
use gwion.Calls.Frames.{Frames}
use gwion.Calls.Places.{
  Place, entering, move, proceed, move_all, Stands, Reached, call_self-Reached, setcode-prepared,
  call_frame, call-Reached, at, overflows, outside,
}

module _ (builtin : ℕ → Bool) where
  act-Reached :
      (e : Event) {code pc : ℕ} {fs : List Frame} {s : Fiber}
      → Stands code pc fs s
      → Reached (move builtin e code pc fs) (act builtin e s)
  unfolding act func_return
  act-Reached (call word depth ival sval val2) {code} {pc} {fs} {s} st =
      let want = entering word val2 (call_frame depth sval code pc ∷ fs) in
      let given = act builtin (call word depth ival sval val2) s in
      elim (Bool-cases (builtin word)) [
        | inl in_c ↦ subst (λ b. Reached (if b then outside else want) given) (sym in_c) tt
        | inr e ↦
            subst (λ b. Reached (if b then outside else want) given) (sym e)
              (subst (λ t. Reached want (overflow val2 t))
                (sym (setcode-prepared builtin word depth ival sval s e))
                (call-Reached word depth ival sval val2 code pc fs s st))
      ]
  act-Reached (call_self ival sval sval2 val2) {code} {pc} {fs} {s} st =
      call_self-Reached ival sval sval2 val2 code pc fs s st
  act-Reached return {fs = []} st = tt
  act-Reached return {fs = x ∷ fs} {s = s} st =
      let (room, least, top, rest) = st.frames_at in
      (
        func_return s,
        refl,
        record {
          code_at = ap (λ y. y.code) top;
          pc_at = ap (λ y. y.pc) top;
          frames_at = subst (λ y. Frames s.frames s.bottom fs (s.mem - y.push)) (sym top) rest;
        },
      )
  act-Reached (work reg to) {s = s} st = (
    record s { reg = reg; pc = to },
    refl,
    record { code_at = st.code_at; pc_at = refl; frames_at = st.frames_at },
  )

  abbrev goes_on : List Event → Called → Called
  goes_on es (entered s) = act_all builtin es s
  goes_on es (native s) = native s
  goes_on es (stack_overflow s) = stack_overflow s

  proceed-Reached :
      (es : List Event)
      → ((code pc : ℕ) (fs : List Frame) (s : Fiber)
          → Stands code pc fs s
          → Reached (move_all builtin es code pc fs) (act_all builtin es s))
      → (t : Place) (o : Called) → Reached t o
      → Reached (proceed (move_all builtin es) t) (goes_on es o)
  proceed-Reached es later (at code pc fs) o (s, e, st) =
      subst (λ p. Reached (move_all builtin es code pc fs) (goes_on es p)) (sym e)
        (later code pc fs s st)
  proceed-Reached es later overflows o (s, e) = (s, ap (goes_on es) e)
  proceed-Reached es later outside o st = tt

  act_all-Reached :
      (es : List Event) (code pc : ℕ) (fs : List Frame) (s : Fiber)
      → Stands code pc fs s
      → Reached (move_all builtin es code pc fs) (act_all builtin es s)
  unfolding act_all move_all
  act_all-Reached [] code pc fs s st = (s, refl, st)
  act_all-Reached (e ∷ es) code pc fs s st =
      proceed-Reached es (act_all-Reached es) (move builtin e code pc fs) (act builtin e s)
        (act-Reached e st)

  -- If a call on the list finds no room on the memory stack, the shred raises `StackOverflow`.
  act_all-overflow :
      (es : List Event) (code pc : ℕ) (fs : List Frame) (s : Fiber)
      → Stands code pc fs s
      → move_all builtin es code pc fs ≡ overflows
      → (s' : Fiber) × (act_all builtin es s ≡ stack_overflow s')
  act_all-overflow es code pc fs s st e =
      subst (λ t. Reached t (act_all builtin es s)) e (act_all-Reached es code pc fs s st)
