-- ===== src/Handle/Unwind.antt =====
-- Unwinding (src/vm/vm.c) against the list of frames of the memory stack.
use mathlib.Core.Path.{subst}
use gwion.Prelude.{
  ℕ, zero, suc, ◌-◌, ◌<◌, ◌≡◌, refl, sym, Bool, true, false, Option, none, some, List, [], ◌∷◌,
  ◌++◌, arith, length, ◌==◌, if◌then◌else◌, ne→==, ◌+◌, ◌%◌, ◌^◌, ltb, Bool-cases, inl, inr,
}
use gwion.Vector.{VectorOps}
use gwion.Calls.{Frame, Fiber, shred_unwind}
use gwion.Calls.Frames.{Frames}
use gwion.Calls.Places.{Stands}
use gwion.Handle.Landing.{
  Landing, nowhere, astray, behind, place_behind, try_here, landed, landing, find_pc_lem,
}
use gwion.Handle.{
  clean_values, Indexed, VmValue, Code, Thrower, Unwound, find_handle, unwind, try_start, resume,
}

ends : (s : Fiber) → s.mem ≡ s.bottom → (s.mem == s.bottom) ≡ true
ends s e = ground arith

abbrev pub Lands : {V : Type 0} → ⦃vo : VectorOps V⦄ → V → Landing → Option (Unwound V) → Type 0
Lands {V} tries nowhere r = (u : Unwound V) × (r ≡ some u) × (u.found ≡ false)
Lands {V} tries astray r = Unit {0}
Lands {V} ⦃vo⦄ tries (Landing.at code pc fs) r =
    (u : Unwound V) × (r ≡ some u)
    × (u.found ≡ true)
    × Stands code pc fs u.thrower.fiber
    × (u.thrower.fiber.reg ≡ vo.at tries (vo.size tries - 1))
    × (u.thrower.tries ≡ vo.pop (vo.pop tries))

module _ {V : Type 0} ⦃vo : VectorOps V⦄ where
  at_bottom :
      (b : Bool) (tries : V) (u : Unwound V) (r : Option (Unwound V))
      → u.found ≡ false
      → b ≡ true
      → Lands tries nowhere (if b then some u else r)
  at_bottom true tries u r not_found e = (u, refl, not_found)
  at_bottom false tries u r not_found e = absurd (cc)

  above_bottom :
      (b : Bool) (tries : V) (u : Unwound V) (t : Landing) (r : Option (Unwound V))
      → b ≡ false
      → Lands tries t r
      → Lands tries t (if b then some u else r)
  above_bottom true tries u t r e known = absurd (cc)
  above_bottom false tries u t r e known = known

  counted-Lands :
      (b : Bool) (tries : V) (u : Unwound V) (t : Landing) (r : Option (Unwound V))
      → u.found ≡ false
      → Lands tries t r
      → Lands tries (if b then nowhere else t) (if b then some u else r)
  counted-Lands true tries u t r not_found known = (u, refl, not_found)
  counted-Lands false tries u t r not_found known = known

module _ {V M L : Type 0} ⦃vo : VectorOps V⦄ (keys : Indexed M ℕ) (code_of : ℕ → Code M L)
    (name : ℕ → ℕ) (effect : ℕ) where
  abbrev handling : Option M → Thrower V → List (ℕ × ℕ) → Option (Unwound V) → Option (Unwound V)
  handling h s log rest = elim h [
    | some m ↦
        let (found, s1) = find_handle code_of name effect keys m s in
        some (record { found = found; thrower = s1; released = log })
    | none ↦ rest
  ]

  handling-Lands :
      (h : Option M) (s : Thrower V) (fs : List Frame) (log : List (ℕ × ℕ)) (t : Landing)
      (r : Option (Unwound V))
      → Frames s.fiber.frames s.fiber.bottom fs s.fiber.mem
      → Lands s.tries t r
      → Lands s.tries
          (landed keys code_of effect (try_start s) s.fiber.code s.fiber.pc fs h t)
          (handling h s log r)
  unfolding find_handle
  handling-Lands none s fs log t r st known = known
  handling-Lands (some m) s fs log t r st known =
      let start = try_start s in
      let pc = s.fiber.pc in
      elim (Bool-cases (ltb pc start)) [
        | inl early ↦ rw early tt
        | inr late ↦
            subst
              (λ to.
                Lands s.tries (landed keys code_of effect start s.fiber.code pc fs (some m) t) (
                  let r : Bool × Thrower V =
                    if to == 0 then (false, s) else (true, resume code_of name effect s to) in
                  some (record { found = r.0; thrower = r.1; released = log })))
              (sym (find_pc_lem keys code_of effect s.fiber.code start pc m late))
              (rw late (chosen (try_here keys code_of effect start s.fiber.code pc m)))
      ]
    where
      decided :
          (b : Bool) (to : ℕ)
          → Lands s.tries (if b then nowhere else Landing.at s.fiber.code to fs) (
              let r : Bool × Thrower V =
                if b then (false, s) else (true, resume code_of name effect s to) in
              some (record { found = r.0; thrower = r.1; released = log }))
      decided true to = (_, refl, refl)
      decided false to =
          (_, refl, refl, record { code_at = refl; pc_at = refl; frames_at = st }, refl, refl)

      chosen :
          (k : Option ℕ)
          → Lands s.tries (behind s.fiber.code fs k) (
              let to = place_behind k in
              let r : Bool × Thrower V =
                if to == 0 then (false, s) else (true, resume code_of name effect s to) in
              some (record { found = r.0; thrower = r.1; released = log }))
      chosen none = (_, refl, refl)
      chosen (some k) = decided ((k + 1) % 2 ^ 16 == 0) ((k + 1) % 2 ^ 16)

  unwind-Lands :
      (vs : Indexed L VmValue) (fuel : ℕ) (fs : List Frame) (s : Thrower V) (size : ℕ)
      (log : List (ℕ × ℕ))
      → Frames s.fiber.frames s.fiber.bottom fs s.fiber.mem
      → length fs < fuel
      → Lands s.tries
          (landing keys code_of effect (try_start s) size s.fiber.code s.fiber.pc fs)
          (unwind code_of name effect keys vs fuel s size log)
  unfolding unwind landing shred_unwind
  unwind-Lands vs zero fs s size log st enough = absurd (omega (arith, enough))
  unwind-Lands vs (suc fuel) [] s size log st enough =
      let log1 = log ++ clean_values vs (code_of s.fiber.code) s.fiber in
      let last : Unwound V = record { found = false; thrower = s; released = log1 } in
      counted-Lands (size == 0) s.tries last _ _ refl (
        handling-Lands (code_of s.fiber.code).handlers s [] log1 nowhere _ st
          (at_bottom (s.fiber.mem == s.fiber.bottom) s.tries last _ refl (ends s.fiber st)))
  unwind-Lands vs (suc fuel) (x ∷ fs) s size log (room, least, top, st) enough =
      let log1 = log ++ clean_values vs (code_of s.fiber.code) s.fiber in
      let last : Unwound V = record { found = false; thrower = s; released = log1 } in
      let caller = shred_unwind s.fiber in
      let less = if s.fiber.code == caller.code then size else size - 1 in
      let below : Frames s.fiber.frames s.fiber.bottom fs caller.mem =
        subst (λ y. Frames s.fiber.frames s.fiber.bottom fs (s.fiber.mem - y.push)) (sym top) st in
      let ih =
        unwind-Lands vs fuel fs (record s { fiber = caller }) less log1 below
          (omega (arith, enough)) in
      let start = try_start s in
      counted-Lands (size == 0) s.tries last _ _ refl (
        handling-Lands (code_of s.fiber.code).handlers s (x ∷ fs) log1 _ _ (room, least, top, st)
          (above_bottom (s.fiber.mem == s.fiber.bottom) s.tries last _ _
            (ne→== s.fiber.mem s.fiber.bottom (λ e. omega (arith, room, least, e)))
            (subst
              (λ y.
                Lands s.tries
                  (landing keys code_of effect start
                    (if s.fiber.code == y.code then size else size - 1) y.code y.pc fs)
                  (unwind code_of name effect keys vs fuel (record s { fiber = caller }) less log1))
              top ih)))

  -- If the frames of the memory stack are a list, and on the way down it the first code with handlers has
  -- one for the effect, in a try around the place where it stands, `unwind` with
  -- fuel above the number of frames finds it: the shred stands at the handler with the frames that
  -- are left, its register pointer as at the last try, and this try is closed.
  pub unwind-caught :
      (vs : Indexed L VmValue) (fuel : ℕ) (fs fs' : List Frame) (s : Thrower V) (size : ℕ)
      (log : List (ℕ × ℕ)) (code pc : ℕ)
      → Frames s.fiber.frames s.fiber.bottom fs s.fiber.mem
      → length fs < fuel
      → landing keys code_of effect (try_start s) size s.fiber.code s.fiber.pc fs
        ≡ Landing.at code pc fs'
      → (u : Unwound V) × (unwind code_of name effect keys vs fuel s size log ≡ some u)
        × (u.found ≡ true)
        × Stands code pc fs' u.thrower.fiber
        × (u.thrower.fiber.reg ≡ vo.at s.tries (vo.size s.tries - 1))
        × (u.thrower.tries ≡ vo.pop (vo.pop s.tries))
  unwind-caught vs fuel fs fs' s size log code pc st enough e =
      subst (λ t. Lands s.tries t (unwind code_of name effect keys vs fuel s size log)) e
        (unwind-Lands vs fuel fs s size log st enough)

  -- If there is no handler on the way down, in no code with a last try that opened later, `unwind` with fuel above the number of frames says so.
  pub unwind-uncaught :
      (vs : Indexed L VmValue) (fuel : ℕ) (fs : List Frame) (s : Thrower V) (size : ℕ)
      (log : List (ℕ × ℕ))
      → Frames s.fiber.frames s.fiber.bottom fs s.fiber.mem
      → length fs < fuel
      → landing keys code_of effect (try_start s) size s.fiber.code s.fiber.pc fs ≡ nowhere
      → (u : Unwound V) × (unwind code_of name effect keys vs fuel s size log ≡ some u)
        × (u.found ≡ false)
  unwind-uncaught vs fuel fs s size log st enough e =
      subst (λ t. Lands s.tries t (unwind code_of name effect keys vs fuel s size log)) e
        (unwind-Lands vs fuel fs s size log st enough)
