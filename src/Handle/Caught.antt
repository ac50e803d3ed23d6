-- ===== src/Handle/Caught.antt =====
-- `handle` of src/vm/vm.c for the running shred: unwinding together with the queue of shreds.
use mathlib.Core.Path.{subst}
use gwion.Prelude.{ℕ, ◌-◌, ◌<◌, ◌≡◌, refl, sym, ap, ◌∙◌, true, some, List, [], length}
use gwion.Float.{FloatOps, FloatLaws}
use gwion.Vector.{VectorOps}
use gwion.Calls.{Frame}
use gwion.Calls.Frames.{Frames}
use gwion.Calls.Places.{Stands}
use gwion.Shreduler.{Ptr, Shreduler, queued}
use gwion.Shreduler.Insert.{insert_due}
use gwion.Shreduler.Order.{insert_due-same}
use gwion.Shreduler.Queue.{IsQueue, IsDetached, same_in_all}
use gwion.Shreduler.Erase.{Hooks}
use gwion.Shreduler.Detach.{shreduler_remove-curr}
use gwion.Shreduler.Add.{shredule-IsQueue}
use gwion.Handle.{Indexed, VmValue, Code, Thrower, Unwound, caught, try_start, handle}
use gwion.Handle.Landing
use gwion.Handle.Landing.{landing}
use gwion.Handle.Unwind.{unwind-caught}

module _ {F V M L : Type 0} ⦃o : FloatOps F⦄ ⦃vo : VectorOps V⦄ (laws : FloatLaws o)
    (keys : Indexed M ℕ) (vs : Indexed L VmValue) (hooks : Hooks F V) (code_of : ℕ → Code M L)
    (name : ℕ → ℕ) where
  -- The running shred raises an effect, and on the way down its frames the first code with handlers has one
  -- for it, in a try around the place where it stands: the shred goes on at the handler with the frames that are left, and it is queued at the position of the driver, behind
  -- the shreds that are due no later; none is running, and the others keep their order. The frames are a
  -- list, and the fuels are above the number of frames and the length of the queue.
  pub handle-caught :
      (depth fuel frames : ℕ) (s : Shreduler F V) (shred : Ptr) (qs : List Ptr) (t : Thrower V)
      (effect : ℕ) (fs fs' : List Frame) (code pc : ℕ)
      → length qs < fuel
      → IsQueue s qs
      → IsDetached s qs (s.tick shred)
      → s.curr ≡ s.tick shred
      → o.le (o.of_uint 0) (o.of_uint 0) ≡ true
      → Frames t.fiber.frames t.fiber.bottom fs t.fiber.mem
      → length fs < frames
      → landing keys code_of effect (try_start t) (vo.size t.tries) t.fiber.code t.fiber.pc fs
        ≡ Landing.at code pc fs'
      → (s' : Shreduler F V) × (u : Unwound V) × (handle keys vs hooks code_of name depth fuel
            frames s shred t effect
          ≡ some (caught (queued (some s')) u))
        × IsQueue s' (insert_due s.ticks (o.add (o.of_uint 0) (o.of_uint s.pos)) (s.tick shred) qs)
        × Stands code pc fs' u.thrower.fiber
        × (u.thrower.fiber.reg ≡ vo.at t.tries (vo.size t.tries - 1))
  unfolding handle
  handle-caught depth fuel frames s shred qs t effect fs fs' code pc room is free at zero st enough
        e =
      let (s1, removed, is1, free1, _, same_tick, same_pos, times) =
        shreduler_remove-curr hooks depth s shred qs is free at in
      let (u, found, yes_found, stands, reg, _) =
        unwind-caught keys code_of name effect vs frames fs fs' t (vo.size t.tries) [] code pc st
          enough e in
      let free2 = subst (λ (k : Ptr → Ptr). IsDetached s1 qs (k shred)) (sym same_tick) free1 in
      let w = o.add (o.of_uint 0) (o.of_uint s.pos) in
      let same =
        insert_due-same s.ticks s1.ticks w (s.tick shred) qs
          (same_in_all s.ticks s1.ticks qs times) in
      let queue =
        ap (λ (n : ℕ). insert_due s1.ticks (o.add (o.of_uint 0) (o.of_uint n)) (s1.tick shred) qs)
          same_pos
        ∙ ap (λ (k : Ptr → Ptr). insert_due s1.ticks w (k shred) qs) same_tick
        ∙ same in
      let (s', runs, is', _) =
        shredule-IsQueue laws fuel s1 shred (o.of_uint 0) qs room is1 free2 zero in
      (
        s',
        u,
        rw (handle, removed) (rw (found) (rw (yes_found, runs) refl)),
        subst (λ x. IsQueue s' x) queue is',
        stands,
        reg,
      )
