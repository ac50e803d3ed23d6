-- ===== src/Shreduler/Get.antt =====
-- `shreduler_get` of src/vm/shreduler.c, with a tick that is due.
use gwion.Prelude.{
  ◌≡◌, refl, ◌≢◌, Bool, true, List, [], ◌∷◌, arith, ◌==◌, ◌∈◌, ◌∉◌, Distinct, if◌then◌else◌,
}
use gwion.Float.{FloatOps}
use gwion.Vector.{VectorOps}
use gwion.Shreduler.{Ptr, null, Ticks, Shreduler, write, set_prev, set_next, shreduler_get}
use gwion.Shreduler.Chain.{Chain, SameLinks, frame}
use gwion.Shreduler.Order.{SameTimesIn, DueOrder-same}
use gwion.Shreduler.Queue.{IsQueue, IsDetached}

module _ {F V : Type 0} ⦃o : FloatOps F⦄ where
  -- The heap once the first tick `q` is taken out and `rest` is the first.
  unlink_head : Ticks F V → (q rest : Ptr) → Ticks F V
  unlink_head h q rest =
      let g = if rest == null then h else set_prev h rest null in
      set_prev (set_next g q null) q null

  unlink_head-Chain :
      (h : Ticks F V) (q : Ptr) (qs : List Ptr)
      → q ∉ qs
      → Distinct qs
      → Chain h q (h q).next qs
      → Chain (unlink_head h q (h q).next) null (h q).next qs
  unfolding unlink_head write
  unlink_head-Chain h q [] out apart c = c
  unlink_head-Chain h q (r ∷ rs) out apart c =
      let g = unlink_head h q (h q).next in
      let same : (a : Ptr) → a ∈ rs → SameLinks g h a = λ a i. ground arith in
      let stay : (g r).next ≡ (h r).next = ground arith in
      (c.0, c.1, ground arith, rw stay (frame g h r (h r).next rs same c.3))

  unlink_head-times :
      (h : Ticks F V) (q rest : Ptr) (qs : List Ptr) → SameTimesIn qs h (unlink_head h q rest)
  unfolding unlink_head write
  unlink_head-times h q rest [] = tt
  unlink_head-times h q rest (r ∷ rs) = (ground arith, unlink_head-times h q rest rs)

  unlink_head-free :
      (h : Ticks F V) (q rest : Ptr)
      → ((unlink_head h q rest q).prev ≡ null) × ((unlink_head h q rest q).next ≡ null)
  unfolding unlink_head write
  unlink_head-free h q rest = ground arith

  module _ ⦃vo : VectorOps V⦄ where
    abbrev pub is_due : Shreduler F V → Ptr → Bool
    is_due s q = o.le (s.ticks q).wake_time (o.add (o.of_uint s.pos) o.epsilon)

    get_due :
        (s : Shreduler F V) (q : Ptr)
        → s.list ≡ q
        → q ≢ null
        → is_due s q ≡ true
        → shreduler_get s ≡ (
          (s.ticks q).self,
          record s {
            list = (s.ticks q).next;
            ticks = unlink_head s.ticks q (s.ticks q).next;
            curr = q;
          },
        )
    unfolding shreduler_get unlink_head
    get_due s q at some_q due = ground arith

    -- The first tick is due: its shred is returned, it becomes the current one and is detached, and
    -- the others wait on in the same order.
    pub shreduler_get-IsQueue :
        (s : Shreduler F V) (q : Ptr) (qs : List Ptr)
        → IsQueue s (q ∷ qs)
        → is_due s q ≡ true
        → ((shreduler_get s).0 ≡ (s.ticks q).self)
          × IsQueue (shreduler_get s).1 qs
          × IsDetached (shreduler_get s).1 qs q
          × ((shreduler_get s).1.curr ≡ q)
          × ((shreduler_get s).1.is_running ≡ s.is_running)
    shreduler_get-IsQueue s q qs is due = rw (get_due s q is.chain.0 is.chain.1 due) (
      refl,
      record {
        chain = unlink_head-Chain s.ticks q qs is.apart.0 is.apart.1 is.chain.3;
        apart = is.apart.1;
        valid = is.valid.1;
        order =
            DueOrder-same s.ticks (unlink_head s.ticks q (s.ticks q).next) qs
              (unlink_head-times s.ticks q (s.ticks q).next qs) is.order.1;
        running = is.apart.0;
      },
      record {
        some_tk = is.chain.1;
        valid = is.valid.0;
        out = is.apart.0;
        no_prev = (unlink_head-free s.ticks q (s.ticks q).next).0;
        no_next = (unlink_head-free s.ticks q (s.ticks q).next).1;
      },
      refl,
      refl,
    )
