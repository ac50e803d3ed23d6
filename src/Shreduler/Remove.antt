-- ===== src/Shreduler/Remove.antt =====
-- `tk_remove` of src/vm/shreduler.c on the queue.
use gwion.Prelude.{
  ◌≡◌, refl, ◌≢◌, false, List, [], ◌∷◌, some, arith, ◌==◌, ◌∈◌, ◌∉◌, Distinct, if◌then◌else◌, ne→==,
  All, inl, inr, Bool-cases, ◌∙◌, erase, not-mem-erase, ==-refl, ==→eq, ==→ne, sym, Distinct-erase,
  All-erase,
}
use mathlib.Core.Path.{subst}
use gwion.Float.{FloatOps}
use gwion.Shreduler.{Ptr, null, erased, Ticks, Shreduler, write, unlink, tk_remove}
use gwion.Shreduler.Order.{DueOrder, SameTimesIn, DueOrder-same}
use gwion.Shreduler.Queue.{IsQueue}
use gwion.Shreduler.Chain.{Chain, SameLinks, SameBody, SameOutside, frame, null-not-mem}

module _ {F V : Type 0} where
  -- What the unlinking of `tk` does to a chain that starts behind `before`.
  record Unlinked (h : Ticks F V) (tk before p : Ptr) (qs : List Ptr) : Type 0 where
    chain : Chain (unlink h tk) before (if tk == p then (h tk).next else p) (erase tk qs)
    same : SameOutside (before ∷ qs) h (unlink h tk)
    back : (unlink h tk before).prev ≡ (h before).prev
    next :
        before ≢ null
        → (unlink h tk before).next ≡ (if tk == p then (h tk).next else (h before).next)

  unlink-here :
      (h : Ticks F V) (tk before : Ptr) (qs : List Ptr)
      → before ∉ (tk ∷ qs)
      → Distinct (tk ∷ qs)
      → Chain h before tk (tk ∷ qs)
      → Chain (unlink h tk) before (h tk).next qs
  unfolding unlink write
  unlink-here h tk before [] out apart c = c.3
  unlink-here h tk before (r ∷ rs) out apart c =
      let g = unlink h tk in
      let same : (a : Ptr) → a ∈ rs → SameLinks g h a = λ a i. ground arith in
      let stay : (g r).next ≡ (h r).next = ground arith in
      (c.3.0, c.3.1, ground arith, rw stay (frame g h r (h r).next rs same c.3.3))

  Unlinked-here :
      (h : Ticks F V) (tk before : Ptr) (qs : List Ptr)
      → before ∉ (tk ∷ qs)
      → Distinct (tk ∷ qs)
      → Chain h before tk (tk ∷ qs)
      → Unlinked h tk before tk (tk ∷ qs)
  unfolding unlink write erase
  Unlinked-here h tk before [] out apart c = record {
    chain = rw ==-refl (unlink-here h tk before [] out apart c);
    same = λ a o. ground arith;
    back = ground arith;
    next = λ ne. ground arith;
  }
  Unlinked-here h tk before (r ∷ rs) out apart c = record {
    chain = rw ==-refl (unlink-here h tk before (r ∷ rs) out apart c);
    same = λ a o. ground arith;
    back = ground arith;
    next = λ ne. ground arith;
  }

  Unlinked-there :
      (h : Ticks F V) (tk before q : Ptr) (qs : List Ptr)
      → tk ≢ q
      → before ∉ (q ∷ qs)
      → Distinct (q ∷ qs)
      → Chain h before q (q ∷ qs)
      → Unlinked h tk q (h q).next qs
      → Unlinked h tk before q (q ∷ qs)
  unfolding erase
  Unlinked-there h tk before q qs ne out apart c u =
      let (sp, sn) = u.same before (ground arith) in
      record {
        chain = rw (ne→== tk q ne) (refl, c.1, u.back ∙ c.2, rw (u.next c.1) u.chain);
        same = λ a o. u.same a (ground arith);
        back = sp;
        next = λ _. rw (ne→== tk q ne) sn;
      }

  unlink-Unlinked :
      (h : Ticks F V) (tk before p : Ptr) (qs : List Ptr)
      → tk ∈ qs
      → before ∉ qs
      → Distinct qs
      → Chain h before p qs
      → Unlinked h tk before p qs
  unlink-Unlinked h tk before p [] i out apart c = cc
  unlink-Unlinked h tk before p (q ∷ qs) i out apart c =
      subst (λ x. Unlinked h tk before x (q ∷ qs)) (sym c.0)
        (elim (Bool-cases (tk == q)) [
          | inl here ↦
              subst (λ x. Unlinked h x before q (q ∷ qs)) (sym (==→eq tk q here))
                (Unlinked-here h q before qs out apart (refl, c.1, c.2, c.3))
          | inr there ↦
              Unlinked-there h tk before q qs (==→ne tk q there) out apart (refl, c.1, c.2, c.3)
                (unlink-Unlinked h tk q (h q).next qs (ground arith) apart.0 apart.1 c.3)
        ])

  prev-ne-erased :
      (h : Ticks F V) (tk before p : Ptr) (qs : List Ptr)
      → tk ∈ qs
      → before ≢ erased
      → All (λ q. q ≢ erased) qs
      → Chain h before p qs
      → (h tk).prev ≢ erased
  prev-ne-erased h tk before p [] i ne valid c = cc
  prev-ne-erased h tk before p (q ∷ qs) i ne valid c = elim (Bool-cases (tk == q)) [
    | inl here ↦ λ e. ne (sym c.2 ∙ rw (← ==→eq tk q here) e)
    | inr there ↦ prev-ne-erased h tk q (h q).next qs (ground arith) valid.0 valid.1 c.3
  ]

  unlink-times_body :
      (h : Ticks F V) (tk a : Ptr)
      → SameBody (unlink h tk) h a × ((unlink h tk a).wake_time ≡ (h a).wake_time)
  unfolding unlink write
  unlink-times_body h tk a = ground arith

  module _ ⦃o : FloatOps F⦄ where
    DueOrder-erase :
        (h : Ticks F V) (tk : Ptr) (qs : List Ptr) → DueOrder h qs → DueOrder h (erase tk qs)
    unfolding erase
    DueOrder-erase h tk [] d = tt
    DueOrder-erase h tk (q ∷ qs) d = elim (Bool-cases (tk == q)) [
      | inl here ↦ rw here d.1
      | inr there ↦ rw there (All-erase _ tk qs d.0, DueOrder-erase h tk qs d.1)
    ]

    unlink-times : (h : Ticks F V) (tk : Ptr) (qs : List Ptr) → SameTimesIn qs h (unlink h tk)
    unlink-times h tk [] = tt
    unlink-times h tk (q ∷ qs) = ((unlink-times_body h tk q).1, unlink-times h tk qs)

    -- A tick that waits, anywhere in the queue, is taken out; the others keep their order
    -- and the invariant. Every tick keeps its shred, parent, children, id and time, and of the shreduler
    -- only the ticks' links and the first tick change.
    pub tk_remove-IsQueue :
        (s : Shreduler F V) (tk : Ptr) (qs : List Ptr)
        → IsQueue s qs
        → tk ∈ qs
        → (s' : Shreduler F V) × (tk_remove s tk ≡ some s')
          × IsQueue s' (erase tk qs)
          × (s'.curr ≡ s.curr)
          × ((a : Ptr)
              → SameBody s'.ticks s.ticks a × ((s'.ticks a).wake_time ≡ (s.ticks a).wake_time))
          × (s'.tick ≡ s.tick)
          × (s'.active_shreds ≡ s.active_shreds)
          × (s' ≡ record s { ticks = s'.ticks; list = s'.list })
    unfolding tk_remove
    tk_remove-IsQueue s tk qs is i =
        let out = null-not-mem s.ticks null s.list qs is.chain in
        let u = unlink-Unlinked s.ticks tk null s.list qs i out is.apart is.chain in
        let ne = prev-ne-erased s.ticks tk null s.list qs i (omega arith) is.valid is.chain in
        let other : (tk == s.curr) ≡ false = ground (arith, is.running) in
        (
          record s {
            list = if tk == s.list then (s.ticks tk).next else s.list;
            ticks = unlink s.ticks tk;
          },
          rw (ne→== (s.ticks tk).prev erased ne, other),
          record {
            chain = u.chain;
            apart = Distinct-erase tk qs is.apart;
            valid = All-erase _ tk qs is.valid;
            order =
                DueOrder-same s.ticks (unlink s.ticks tk) (erase tk qs) (unlink-times s.ticks tk _)
                  (DueOrder-erase s.ticks tk qs is.order);
            running = not-mem-erase s.curr tk qs is.running;
          },
          refl,
          unlink-times_body s.ticks tk,
          refl,
          refl,
          refl,
        )
