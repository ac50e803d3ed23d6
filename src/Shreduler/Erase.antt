-- ===== src/Shreduler/Erase.antt =====
-- src/vm/shreduler.c: `shreduler_remove`, with the erasure of a shred and of its children.
use mathlib.Core.Option
use gwion.Prelude.{ℕ, zero, suc, Bool, Option, none, some, ◌==◌, if◌then◌else◌}
use gwion.Vector.{VectorOps}
use gwion.Shreduler.{Ptr, null, erased, Shreduler, write, set_prev, set_next, tk_remove}

-- The calls that leave this file while a shred is erased: the unwinding of its frames, if it has
-- any, and the release of its object.
pub record Hooks (F V : Type 0) : Type 0 where
  pub unwind : Ptr → Shreduler F V → Shreduler F V
  pub release : Ptr → Shreduler F V → Shreduler F V

module _ {F V : Type 0} ⦃vo : VectorOps V⦄ (hooks : Hooks F V) where
  child :
      (Shreduler F V → Ptr → Option (Shreduler F V))
      → Shreduler F V
      → V
      → ℕ
      → Option (Shreduler F V)
  child erase_tick s v zero = some s
  child erase_tick s v (suc i) =
      let tk = s.tick (vo.at v i) in
      elim (tk_remove s tk) [
        | none ↦ none
        | some s1 ↦ elim (erase_tick s1 tk) [ none ↦ none | some s2 ↦ child erase_tick s2 v i ]
      ]

  -- The fuel bounds the depth of the tree of children.
  unfoldable pub shreduler_erase : ℕ → Shreduler F V → Ptr → Option (Shreduler F V)
  unfolding child
  shreduler_erase zero s tk = none
  shreduler_erase (suc depth) s tk =
      let shred = (s.ticks tk).self in
      let orphaned : Option (Shreduler F V) = elim (s.ticks tk).child [
        | none ↦ some s
        | some v ↦ child (shreduler_erase depth) s v (vo.size v)
      ] in
      elim orphaned [
        | none ↦ none
        | some s1 ↦
            let s2 = hooks.unwind shred (record s1 { ticks = set_prev s1.ticks tk erased }) in
            some
              (hooks.release shred (record s2 { active_shreds = vo.rem2 s2.active_shreds shred }))
      ]

  unfoldable pub shreduler_remove :
      ℕ → Shreduler F V → (out : Ptr) → (erase : Bool) → Option (Shreduler F V)
  shreduler_remove depth s out erase =
      let tk = s.tick out in
      elim (tk_remove s tk) [
        | none ↦ none
        | some s1 ↦
            let parent = (s1.ticks tk).parent in
            let h =
              if parent == null
              then s1.ticks
              else write s1.ticks parent (record (s1.ticks parent) {
                child = Option.map (λ v. vo.rem2 v out) (s1.ticks parent).child;
              }) in
            if erase
            then shreduler_erase depth (record s1 { ticks = h }) tk
            else some (record s1 { ticks = set_next (set_prev s1.ticks tk null) tk null })
      ]
