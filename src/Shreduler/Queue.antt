-- ===== src/Shreduler/Queue.antt =====
-- The shreduler's invariant: the ticks that wait form a doubly linked list, each once, in order of
-- wake-up time.
use gwion.Prelude.{
  ℕ, ◌<◌, ◌≡◌, refl, ◌≢◌, false, ◌||◌, List, [], ◌∷◌, some, arith, ◌==◌, has, ◌∉◌, Distinct, length,
  if◌then◌else◌, All, ◌∙◌,
}
use gwion.Float.{FloatOps, FloatLaws}
use gwion.Shreduler.{Ptr, null, erased, Ticks, Shreduler, write, set_wake_time, enqueue, shredule_}
use gwion.Shreduler.Chain.{Chain, SameLinks, SameBody, frame, null-not-mem}
use gwion.Shreduler.Order.{
  DueOrder, has-insert_due, Distinct-insert_due, All-insert_due, SameTimesIn, insert_due-same,
  DueOrder-same, DueOrder-insert_due,
}
use gwion.Shreduler.Insert.{insert_due, enqueue-Chain, SameTimes}

not_running :
    (tk curr : Ptr) (qs : List Ptr)
    → tk ≢ null
    → null ∉ qs
    → curr ∉ qs
    → (((if tk == curr then null else curr) == tk) || has (if tk == curr then null else curr) qs)
      ≡ false
not_running tk curr qs some_tk out running = ground arith

module _ {F V : Type 0} ⦃o : FloatOps F⦄ where
  pub record IsQueue (s : Shreduler F V) (qs : List Ptr) : Type 0 where
    pub chain : Chain s.ticks null s.list qs
    pub apart : Distinct qs
    pub valid : All (λ q. q ≢ erased) qs
    pub order : DueOrder s.ticks qs
    pub running : s.curr ∉ qs

  -- A tick that waits nowhere and whose shred is not being erased.
  pub record IsDetached (s : Shreduler F V) (qs : List Ptr) (tk : Ptr) : Type 0 where
    pub some_tk : tk ≢ null
    pub valid : tk ≢ erased
    pub out : tk ∉ qs
    pub no_prev : (s.ticks tk).prev ≡ null
    pub no_next : (s.ticks tk).next ≡ null

  set_wake_time-links :
      (h : Ticks F V) (tk : Ptr) (w : F) (a : Ptr) → SameLinks (set_wake_time h tk w) h a
  unfolding write
  set_wake_time-links h tk w a = ground arith

  set_wake_time-body :
      (h : Ticks F V) (tk : Ptr) (w : F) (a : Ptr) → SameBody (set_wake_time h tk w) h a
  unfolding write
  set_wake_time-body h tk w a = ground arith

  set_wake_time_self : (h : Ticks F V) (tk : Ptr) (w : F) → (set_wake_time h tk w tk).wake_time ≡ w
  unfolding write
  set_wake_time_self h tk w = ground arith

  set_wake_time_ne :
      (h : Ticks F V) (tk a : Ptr) (w : F)
      → a ≢ tk
      → (set_wake_time h tk w a).wake_time ≡ (h a).wake_time
  unfolding write
  set_wake_time_ne h tk a w ne = ground arith

  same_in_set :
      (h : Ticks F V) (tk : Ptr) (w : F) (qs : List Ptr)
      → tk ∉ qs
      → SameTimesIn qs h (set_wake_time h tk w)
  same_in_set h tk w [] out = tt
  same_in_set h tk w (q ∷ qs) out =
      (set_wake_time_ne h tk q w (ground arith), same_in_set h tk w qs (ground arith))

  pub same_in_all : (h g : Ticks F V) (qs : List Ptr) → SameTimes h g → SameTimesIn qs h g
  same_in_all h g [] same = tt
  same_in_all h g (q ∷ qs) same = (same q, same_in_all h g qs same)

  shredule_-enqueue :
      (fuel : ℕ) (s : Shreduler F V) (tk : Ptr) (w : F) (r : Ticks F V × Ptr)
      → (s.ticks tk).prev ≡ null
      → enqueue fuel (set_wake_time s.ticks tk w) s.list tk w ≡ some r
      → shredule_ fuel s tk w
        ≡ some (record s { ticks = r.0; list = r.1; curr = if tk == s.curr then null else s.curr })
  unfolding shredule_
  shredule_-enqueue fuel s tk w r free runs = ground (arith, free, runs)

  module _ (laws : FloatLaws o) where
    -- `_shredule` on a waiting queue: the tick goes behind every tick that is due no later, before
    -- the others, and its wake-up time alone changes; every tick keeps its shred, parent, children and
    -- id; the invariant is kept, `curr` is cleared if it was that tick, and of the other fields of the
    -- shreduler only the first tick changes.
    pub shredule_-IsQueue :
        (fuel : ℕ) (s : Shreduler F V) (tk : Ptr) (w : F) (qs : List Ptr)
        → length qs < fuel
        → IsQueue s qs
        → IsDetached s qs tk
        → (s' : Shreduler F V) × (shredule_ fuel s tk w ≡ some s')
          × IsQueue s' (insert_due s.ticks w tk qs)
          × ((s'.ticks tk).wake_time ≡ w)
          × ((a : Ptr) → a ≢ tk → (s'.ticks a).wake_time ≡ (s.ticks a).wake_time)
          × ((a : Ptr) → SameBody s'.ticks s.ticks a)
          × (s' ≡ record s {
            ticks = s'.ticks;
            list = s'.list;
            curr = if tk == s.curr then null else s.curr;
          })
    shredule_-IsQueue fuel s tk w qs enough is free =
        let h = set_wake_time s.ticks tk w in
        let same = same_in_set s.ticks tk w qs free.out in
        let c =
          frame h s.ticks null s.list qs (λ a i. set_wake_time-links s.ticks tk w a) is.chain in
        let (no_prev, no_next) = set_wake_time-links s.ticks tk w tk in
        let (r, runs, chain, times, bodies) =
          enqueue-Chain fuel h s.list tk w qs enough free.some_tk free.out is.apart
            (no_prev ∙ free.no_prev) (no_next ∙ free.no_next) c in
        let to_h = insert_due-same s.ticks h w tk qs same in
        let now = set_wake_time_self s.ticks tk w in
        (
          record s { ticks = r.0; list = r.1; curr = if tk == s.curr then null else s.curr },
          shredule_-enqueue fuel s tk w r free.no_prev runs,
          record {
            chain = rw (← to_h) chain;
            apart = Distinct-insert_due s.ticks w tk qs free.out is.apart;
            valid = All-insert_due (λ q. q ≢ erased) s.ticks w tk qs free.valid is.valid;
            order = rw (← to_h) (
                DueOrder-same h r.0 (insert_due h w tk qs) (same_in_all h r.0 _ times) (
                  DueOrder-insert_due laws h w tk qs now
                    (DueOrder-same s.ticks h qs same is.order)));
            running =
                has-insert_due s.ticks w tk (if tk == s.curr then null else s.curr) qs
                ∙ not_running tk s.curr qs free.some_tk
                    (null-not-mem s.ticks null s.list qs is.chain) is.running;
          },
          times tk ∙ now,
          λ a ne. times a ∙ set_wake_time_ne s.ticks tk a w ne,
          λ a.
              let (self, child, parent, xid) = bodies a in
              let (self', child', parent', xid') = set_wake_time-body s.ticks tk w a in
              (self ∙ self', child ∙ child', parent ∙ parent', xid ∙ xid'),
          refl,
        )
