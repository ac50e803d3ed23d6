-- ===== src/Event/Wake.antt =====
-- Waiting for an event and signalling it (src/lib/event.c), on the queue of the shreduler.
use gwion.Prelude.{
  ℕ, ◌<◌, ◌≡◌, refl, ap, ◌∙◌, true, false, List, [], ◌∷◌, ◌++◌, some, arith, length, ne→==, ◌==◌,
}
use gwion.Float.{FloatOps, FloatLaws}
use gwion.Vector.{VectorOps, VectorLaws, QueueLaws}
use gwion.Shreduler.{Ptr, null, Shreduler, queued}
use gwion.Shreduler.Insert.{insert_due}
use gwion.Shreduler.Queue.{IsQueue, IsDetached}
use gwion.Shreduler.Erase.{Hooks}
use gwion.Shreduler.Detach.{shreduler_remove-curr}
use gwion.Shreduler.Add.{shredule-IsQueue}
use gwion.Event.{event_wait, event_signal}

module _ {F V : Type 0} ⦃o : FloatOps F⦄ ⦃vo : VectorOps V⦄ (vl : VectorLaws vo)
    (hooks : Hooks F V) where
  -- The running shred waits: it comes last among those that wait for the event, it is ready to be
  -- scheduled again, and the shreduler's queue stays, with no shred running.
  pub event_wait-IsQueue :
      (depth : ℕ) (s : Shreduler F V) (event : V) (shred : Ptr) (qs : List Ptr)
      → IsQueue s qs
      → IsDetached s qs (s.tick shred)
      → s.curr ≡ s.tick shred
      → (s' : Shreduler F V) × (event' : V) × (event_wait hooks depth s event shred
          ≡ some (s', event'))
        × (vl.items event' ≡ vl.items event ++ shred ∷ [])
        × IsQueue s' qs
        × IsDetached s' qs (s.tick shred)
        × (s'.curr ≡ null)
  unfolding event_wait
  event_wait-IsQueue depth s event shred qs is free at =
      let (s', runs, is', free', stopped, _, _, _) =
        shreduler_remove-curr hooks depth s shred qs is free at in
      (
        s',
        vo.add event shred,
        rw (event_wait, runs) refl,
        vl.items-add event shred,
        is',
        free',
        stopped,
      )

  -- A signal wakes the shred that has waited longest, and no other: it is queued at the position of
  -- the driver plus epsilon, after the shreds that are due no later, and then released. Epsilon is not
  -- negative, and the shred waits nowhere else.
  pub event_signal-IsQueue :
      FloatLaws o
      → QueueLaws vo vl
      → o.le (o.of_uint 0) o.epsilon ≡ true
      → (fuel : ℕ) (s : Shreduler F V) (event : V) (shred : Ptr) (rest qs : List Ptr)
      → vl.items event ≡ shred ∷ rest
      → length qs < fuel
      → IsQueue s qs
      → IsDetached s qs (s.tick shred)
      → (s' : Shreduler F V) × (event' : V) × (event_signal hooks fuel s event
          ≡ (queued (some (hooks.release shred s')), event'))
        × (vl.items event' ≡ rest)
        × IsQueue s' (insert_due s.ticks (o.add o.epsilon (o.of_uint s.pos)) (s.tick shred) qs)
  unfolding event_signal
  event_signal-IsQueue laws ql positive fuel s event shred rest qs waiting enough is free =
      let (s', runs, is', _) =
        shredule-IsQueue laws fuel s shred o.epsilon qs enough is free positive in
      let some_shred : (vo.size event == 0) ≡ false =
        ne→== (vo.size event) 0 (λ e. omega (arith, vl.size_lem event ∙ ap length waiting, e)) in
      (
        s',
        vo.rem event 0,
        rw (some_shred, ql.front_lem event shred rest waiting) (rw runs refl),
        ql.items-rem event shred rest waiting,
        is',
      )
