-- ===== src/Shreduler/Detach.antt =====
-- `shreduler_remove` of src/vm/shreduler.c on the queue: suspension.
use gwion.Prelude.{
  ℕ, ◌≡◌, refl, ◌≢◌, false, List, [], ◌∷◌, some, arith, ◌∈◌, ◌∉◌, erase, not-mem-erase_self,
}
use gwion.Float.{FloatOps}
use gwion.Vector.{VectorOps}
use gwion.Shreduler.{
  Ptr, null, erased, Ticks, Shreduler, write, set_prev, set_next, unlink, tk_remove,
}
use gwion.Shreduler.Chain.{SameLinks, frame, null-not-mem}
use gwion.Shreduler.Order.{SameTimesIn, DueOrder-same}
use gwion.Shreduler.Queue.{IsQueue, IsDetached}
use gwion.Shreduler.Remove.{tk_remove-IsQueue}
use gwion.Shreduler.Erase.{Hooks, shreduler_remove}

module _ {F V : Type 0} ⦃o : FloatOps F⦄ where
  -- A write to a tick that does not wait leaves the queue as it is.
  pub IsQueue-outside :
      (s : Shreduler F V) (h : Ticks F V) (curr : Ptr) (active : V) (qs : List Ptr)
      → ((a : Ptr) → a ∈ qs → SameLinks h s.ticks a × ((h a).wake_time ≡ (s.ticks a).wake_time))
      → curr ∉ qs
      → IsQueue s qs
      → IsQueue (record s { ticks = h; curr = curr; active_shreds = active }) qs
  IsQueue-outside s h curr active qs same running is = record {
    chain = frame h s.ticks null s.list qs (λ a i. (same a i).0) is.chain;
    apart = is.apart;
    valid = is.valid;
    order = DueOrder-same s.ticks h qs (times qs (λ a i. (same a i).1)) is.order;
    running = running;
  }
    where
      times :
          (rs : List Ptr)
          → ((a : Ptr) → a ∈ rs → (h a).wake_time ≡ (s.ticks a).wake_time)
          → SameTimesIn rs s.ticks h
      times [] f = tt
      times (r ∷ rs) f = (f r (ground arith), times rs (λ a i. f a (ground arith)))

  detach : Ticks F V → Ptr → Ticks F V
  detach h tk = set_next (set_prev h tk null) tk null

  detach-same :
      (h : Ticks F V) (tk a : Ptr)
      → a ≢ tk
      → SameLinks (detach h tk) h a × ((detach h tk a).wake_time ≡ (h a).wake_time)
  unfolding detach write
  detach-same h tk a ne = ground arith

  detach-times : (h : Ticks F V) (tk a : Ptr) → (detach h tk a).wake_time ≡ (h a).wake_time
  unfolding detach write
  detach-times h tk a = ground arith

  detach-free :
      (h : Ticks F V) (tk : Ptr)
      → ((detach h tk tk).prev ≡ null)
        × ((detach h tk tk).next ≡ null)
        × ((detach h tk tk).wake_time ≡ (h tk).wake_time)
  unfolding detach write
  detach-free h tk = ground arith

  detach-IsQueue :
      (s : Shreduler F V) (tk : Ptr) (qs : List Ptr)
      → IsQueue s qs
      → tk ∉ qs
      → IsQueue (record s { ticks = detach s.ticks tk }) qs
  detach-IsQueue s tk qs is out =
      IsQueue-outside s (detach s.ticks tk) s.curr s.active_shreds qs
        (λ a i. detach-same s.ticks tk a (ground arith)) is.running is

  module _ ⦃vo : VectorOps V⦄ (hooks : Hooks F V) (depth : ℕ) where
    remove_detached :
        (s s1 : Shreduler F V) (out : Ptr)
        → tk_remove s (s.tick out) ≡ some s1
        → shreduler_remove hooks depth s out false
          ≡ some (record s1 { ticks = detach s1.ticks (s.tick out) })
    unfolding shreduler_remove detach
    remove_detached s s1 out e = ground (arith, e)

    -- A waiting shred that is suspended leaves the queue and is ready to be scheduled again.
    pub shreduler_remove-IsDetached :
        (s : Shreduler F V) (out : Ptr) (qs : List Ptr)
        → IsQueue s qs
        → s.tick out ∈ qs
        → s.tick out ≢ null
        → s.tick out ≢ erased
        → (s' : Shreduler F V) × (shreduler_remove hooks depth s out false ≡ some s')
          × IsQueue s' (erase (s.tick out) qs)
          × IsDetached s' (erase (s.tick out) qs) (s.tick out)
    shreduler_remove-IsDetached s out qs is i some_tk valid =
        let tk = s.tick out in
        let (s1, runs, is1, _, _, _, _, _) = tk_remove-IsQueue s tk qs is i in
        let gone = not-mem-erase_self tk qs is.apart in
        let free = detach-free s1.ticks tk in
        (
          record s1 { ticks = detach s1.ticks tk },
          remove_detached s s1 out runs,
          detach-IsQueue s1 tk (erase tk qs) is1 gone,
          record {
            some_tk = some_tk;
            valid = valid;
            out = gone;
            no_prev = free.0;
            no_next = free.1;
          },
        )

    tk_remove-curr :
        (s : Shreduler F V) (tk : Ptr) (qs : List Ptr)
        → IsDetached s qs tk
        → s.curr ≡ tk
        → tk_remove s tk ≡ some (record s { curr = null })
    unfolding tk_remove unlink
    tk_remove-curr s tk qs free at = ground (arith, free.no_prev, free.no_next)

    -- The running shred waits nowhere: suspending it leaves the queue, the ticks of
    -- the shreds, their wake-up times and the position, and clears `curr`.
    pub shreduler_remove-curr :
        (s : Shreduler F V) (out : Ptr) (qs : List Ptr)
        → IsQueue s qs
        → IsDetached s qs (s.tick out)
        → s.curr ≡ s.tick out
        → (s' : Shreduler F V) × (shreduler_remove hooks depth s out false ≡ some s')
          × IsQueue s' qs
          × IsDetached s' qs (s.tick out)
          × (s'.curr ≡ null)
          × (s'.tick ≡ s.tick)
          × (s'.pos ≡ s.pos)
          × ((a : Ptr) → (s'.ticks a).wake_time ≡ (s.ticks a).wake_time)
    shreduler_remove-curr s out qs is free at =
        let tk = s.tick out in
        let s1 = record s { curr = null } in
        let links = detach-free s.ticks tk in
        (
          record s1 { ticks = detach s1.ticks tk },
          remove_detached s s1 out (tk_remove-curr s tk qs free at),
          IsQueue-outside s (detach s.ticks tk) null s.active_shreds qs
              (λ a i. detach-same s.ticks tk a (ground (arith, free.out)))
              (null-not-mem s.ticks null s.list qs is.chain) is,
          record {
            some_tk = free.some_tk;
            valid = free.valid;
            out = free.out;
            no_prev = links.0;
            no_next = links.1;
          },
          refl,
          refl,
          refl,
          detach-times s.ticks tk,
        )
