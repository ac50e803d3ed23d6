-- ===== src/Shreduler/Add.antt =====
-- `shreduler_add` and `shredule` of src/vm/shreduler.c on the queue.
use gwion.Prelude.{
  ℕ, ◌+◌, ◌%◌, ◌^◌, ◌<◌, ◌≡◌, ◌≢◌, true, List, [], ◌∷◌, ◌++◌, some, arith, ◌∉◌, length, ◌∙◌, ap,
}
use gwion.Float.{FloatOps, FloatLaws}
use gwion.Vector.{VectorOps, VectorLaws}
use gwion.Shreduler.{
  Ptr, null, erased, Shreduler, write, queued, shredule, shreduler_ini, shreduler_add,
}
use gwion.Shreduler.Chain.{SameLinks}
use gwion.Shreduler.Order.{SameTimesIn, insert_due-same}
use gwion.Shreduler.Insert.{insert_due}
use gwion.Shreduler.Queue.{IsQueue, IsDetached, shredule_-IsQueue}
use gwion.Shreduler.Detach.{IsQueue-outside}

module _ {F V : Type 0} ⦃o : FloatOps F⦄ ⦃vo : VectorOps V⦄ (laws : FloatLaws o) where
  -- A delay that is not negative: the shred is queued at the delay after the driver's position.
  pub shredule-IsQueue :
      (fuel : ℕ) (s : Shreduler F V) (shred : Ptr) (delay : F) (qs : List Ptr)
      → length qs < fuel
      → IsQueue s qs
      → IsDetached s qs (s.tick shred)
      → o.le (o.of_uint 0) delay ≡ true
      → (s' : Shreduler F V) × (shredule fuel s shred delay ≡ queued (some s'))
        × IsQueue s' (insert_due s.ticks (o.add delay (o.of_uint s.pos)) (s.tick shred) qs)
        × ((s'.ticks (s.tick shred)).wake_time ≡ o.add delay (o.of_uint s.pos))
  unfolding shredule
  shredule-IsQueue fuel s shred delay qs enough is free positive =
      let w = o.add delay (o.of_uint s.pos) in
      let (s', runs, is', now, _, _, _) =
        shredule_-IsQueue laws fuel s (s.tick shred) w qs enough is free in
      (s', rw (laws.not_lt-add _ _ positive) (ap queued runs), is', now)

  -- The shreduler after the bookkeeping of `shreduler_add`, just before the tick is queued.
  registered : Shreduler F V → (fresh shred : Ptr) → Shreduler F V
  unfolding shreduler_ini
  registered s fresh shred =
      let s1 = shreduler_ini s fresh shred in
      let ids = (s1.shred_ids + 1) % 2 ^ 64 in
      record s1 {
        shred_ids = ids;
        ticks = write s1.ticks fresh (record (s1.ticks fresh) { xid = ids });
        active_shreds = vo.add s1.active_shreds shred;
      }

  registered-same :
      (s : Shreduler F V) (fresh shred a : Ptr)
      → a ≢ fresh
      → SameLinks (registered s fresh shred).ticks s.ticks a
        × (((registered s fresh shred).ticks a).wake_time ≡ (s.ticks a).wake_time)
  unfolding registered write
  registered-same s fresh shred a ne = ground arith

  registered-free :
      (s : Shreduler F V) (fresh shred : Ptr)
      → (((registered s fresh shred).ticks fresh).prev ≡ null)
        × (((registered s fresh shred).ticks fresh).next ≡ null)
        × ((registered s fresh shred).tick shred ≡ fresh)
  unfolding registered write
  registered-free s fresh shred = ground arith

  registered-named :
      (s : Shreduler F V) (fresh shred : Ptr)
      → (((registered s fresh shred).ticks fresh).xid ≡ (s.shred_ids + 1) % 2 ^ 64)
        × (((registered s fresh shred).ticks fresh).self ≡ shred)
  unfolding registered write
  registered-named s fresh shred = ground arith

  registered-IsQueue :
      (s : Shreduler F V) (fresh shred : Ptr) (qs : List Ptr)
      → IsQueue s qs
      → fresh ∉ qs
      → IsQueue (registered s fresh shred) qs
  unfolding registered
  registered-IsQueue s fresh shred qs is out =
      let q =
        IsQueue-outside s (registered s fresh shred).ticks s.curr s.active_shreds qs
          (λ a i. registered-same s fresh shred a (ground (arith, out))) is.running is in
      record {
        chain = q.chain;
        apart = q.apart;
        valid = q.valid;
        order = q.order;
        running = q.running;
      }

  registered-times :
      (s : Shreduler F V) (fresh shred : Ptr) (qs : List Ptr)
      → fresh ∉ qs
      → SameTimesIn qs s.ticks (registered s fresh shred).ticks
  registered-times s fresh shred [] out = tt
  registered-times s fresh shred (q ∷ qs) out = (
    (registered-same s fresh shred q (ground arith)).1,
    registered-times s fresh shred qs (ground arith),
  )

  -- A new shred, with the fresh tick that the memory pool returns, is active and waits at `epsilon`
  -- whatever the driver's position; its id is one above the last one given, modulo 2^64, and that is now
  -- the last one given.
  pub shreduler_add-IsQueue :
      (vl : VectorLaws vo) (fuel : ℕ) (s : Shreduler F V) (fresh shred : Ptr) (qs : List Ptr)
      → length qs < fuel
      → IsQueue s qs
      → fresh ∉ qs
      → fresh ≢ null
      → fresh ≢ erased
      → (s' : Shreduler F V) × (shreduler_add fuel s fresh shred ≡ some s')
        × IsQueue s' (insert_due s.ticks o.epsilon fresh qs)
        × ((s'.ticks fresh).wake_time ≡ o.epsilon)
        × (s'.tick shred ≡ fresh)
        × (s'.shred_ids ≡ (s.shred_ids + 1) % 2 ^ 64)
        × ((s'.ticks fresh).xid ≡ (s.shred_ids + 1) % 2 ^ 64)
        × ((s'.ticks fresh).self ≡ shred)
        × (vl.items s'.active_shreds ≡ vl.items s.active_shreds ++ shred ∷ [])
  unfolding shreduler_add registered
  shreduler_add-IsQueue vl fuel s fresh shred qs enough is out some_fresh valid =
      let s1 = registered s fresh shred in
      let links = registered-free s fresh shred in
      let (s', runs, is', now, _, bodies, rest) =
        shredule_-IsQueue laws fuel s1 fresh o.epsilon qs enough
          (registered-IsQueue s fresh shred qs is out)
          (record {
            some_tk = some_fresh;
            valid = valid;
            out = out;
            no_prev = links.0;
            no_next = links.1;
          }) in
      (
        s',
        runs,
        rw
            (← insert_due-same s.ticks s1.ticks o.epsilon fresh qs
              (registered-times s fresh shred qs out))
            is',
        now,
        ap (λ (t : Shreduler F V). t.tick shred) rest ∙ links.2,
        ap (λ (t : Shreduler F V). t.shred_ids) rest,
        (bodies fresh).3 ∙ (registered-named s fresh shred).0,
        (bodies fresh).0 ∙ (registered-named s fresh shred).1,
        ap (λ (t : Shreduler F V). vl.items t.active_shreds) rest
            ∙ vl.items-add s.active_shreds shred,
      )
