-- ===== src/Shreduler/Bury.antt =====
-- `shreduler_remove` of src/vm/shreduler.c for good: a shred is erased.
use gwion.Prelude.{
  ℕ, suc, ◌≡◌, refl, ◌≢◌, true, List, none, some, arith, ◌==◌, ◌∈◌, if◌then◌else◌, ◌∙◌, erase,
  not-mem-erase_self,
}
use mathlib.Core.Option
use gwion.Float.{FloatOps}
use gwion.Vector.{VectorOps}
use gwion.Shreduler.{Ptr, null, erased, Ticks, Shreduler, write, set_prev, tk_remove, shredule_}
use gwion.Shreduler.Chain.{SameLinks}
use gwion.Shreduler.Queue.{IsQueue}
use gwion.Shreduler.Remove.{tk_remove-IsQueue}
use gwion.Shreduler.Erase.{Hooks, shreduler_remove, shreduler_erase}
use gwion.Shreduler.Detach.{IsQueue-outside}

module _ {F V : Type 0} ⦃o : FloatOps F⦄ where
  module _ ⦃vo : VectorOps V⦄ (hooks : Hooks F V) where
    -- The heap once the parent of `tk` has forgotten its child `out`.
    forget : Ticks F V → (tk out : Ptr) → Ticks F V
    forget h tk out =
        let parent = (h tk).parent in
        if parent == null
        then h
        else write h parent
            (record (h parent) { child = Option.map (λ v. vo.rem2 v out) (h parent).child })

    abbrev bury : Ticks F V → (tk out : Ptr) → Ticks F V
    bury h tk out = set_prev (forget h tk out) tk erased

    bury-same :
        (h : Ticks F V) (tk out a : Ptr)
        → a ≢ tk
        → SameLinks (bury h tk out) h a × ((bury h tk out a).wake_time ≡ (h a).wake_time)
    unfolding forget write
    bury-same h tk out a ne = ground arith

    bury-erased : (h : Ticks F V) (tk out : Ptr) → (bury h tk out tk).prev ≡ erased
    unfolding write
    bury-erased h tk out = ground arith

    -- What is left to do for `out` once its tick is marked.
    ended : Shreduler F V → Ptr → Shreduler F V
    ended s out =
        let u = hooks.unwind out s in record u { active_shreds = vo.rem2 u.active_shreds out }

    erase_childless :
        (depth : ℕ) (s : Shreduler F V) (tk out : Ptr)
        → (s.ticks tk).child ≡ none
        → (s.ticks tk).self ≡ out
        → shreduler_erase hooks (suc depth) s tk
          ≡ some (hooks.release out (ended (record s { ticks = set_prev s.ticks tk erased }) out))
    unfolding shreduler_erase ended
    erase_childless depth s tk out childless self = ground (arith, childless, self)

    forget-childless :
        (h : Ticks F V) (tk out : Ptr) → (h tk).child ≡ none → (forget h tk out tk).child ≡ none
    unfolding forget write
    forget-childless h tk out childless = ground (arith, childless)

    forget-self : (h : Ticks F V) (tk out : Ptr) → (forget h tk out tk).self ≡ (h tk).self
    unfolding forget write
    forget-self h tk out = ground arith

    remove_buried :
        (depth : ℕ) (s s1 : Shreduler F V) (out : Ptr)
        → tk_remove s (s.tick out) ≡ some s1
        → (s1.ticks (s.tick out)).child ≡ none
        → (s1.ticks (s.tick out)).self ≡ out
        → shreduler_remove hooks (suc depth) s out true
          ≡ some
              (hooks.release out (ended (record s1 { ticks = bury s1.ticks (s.tick out) out }) out))
    unfolding shreduler_remove forget
    remove_buried depth s s1 out e childless self =
        rw (e, shreduler_remove)
          (erase_childless depth (record s1 { ticks = forget s1.ticks (s.tick out) out })
            (s.tick out) out (forget-childless s1.ticks (s.tick out) out childless)
            (forget-self s1.ticks (s.tick out) out ∙ self))

    -- A waiting shred with no children that is erased: its tick leaves the queue and is marked, so that
    -- scheduling it changes nothing while the shred is unwound; then the shred is taken from the
    -- active ones, and released last.
    pub shreduler_remove-erased :
        (depth : ℕ) (s : Shreduler F V) (out : Ptr) (qs : List Ptr)
        → IsQueue s qs
        → s.tick out ∈ qs
        → (s.ticks (s.tick out)).child ≡ none
        → (s.ticks (s.tick out)).self ≡ out
        → (s' : Shreduler F V) × (last : Shreduler F V) × (shreduler_remove hooks
              (suc depth)
              s
              out
              true
            ≡ some (hooks.release out last))
          × (last ≡ record (hooks.unwind out s') {
            active_shreds = vo.rem2 (hooks.unwind out s').active_shreds out;
          })
          × IsQueue s' (erase (s.tick out) qs)
          × (s'.active_shreds ≡ s.active_shreds)
          × ((fuel : ℕ) (w : F) → shredule_ fuel s' (s.tick out) w ≡ some s')
    unfolding shredule_ ended
    shreduler_remove-erased depth s out qs is i childless self =
        let tk = s.tick out in
        let (s1, runs, is1, same_curr, body, _, active, _) = tk_remove-IsQueue s tk qs is i in
        let gone = not-mem-erase_self tk qs is.apart in
        (
          record s1 { ticks = bury s1.ticks tk out },
          ended (record s1 { ticks = bury s1.ticks tk out }) out,
          remove_buried depth s s1 out runs ((body tk).0.1 ∙ childless) ((body tk).0.0 ∙ self),
          refl,
          IsQueue-outside s1 (bury s1.ticks tk out) s1.curr s1.active_shreds (erase tk qs)
              (λ a i'. bury-same s1.ticks tk out a (ground (arith, gone))) is1.running is1,
          active,
          λ fuel w. rw (bury-erased s1.ticks tk out),
        )
