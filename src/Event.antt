-- ===== src/Event.antt =====
-- src/lib/event.c: the shreds that wait for an event, in the order in which they came. The event is its
-- vector; the number that EventWait leaves on the register stack and the reference counts are left out.
pub mod Wake
mod Tests
use gwion.Prelude.{ℕ, zero, suc, ◌+◌, Bool, false, Option, none, some, ◌==◌, if◌then◌else◌}
use gwion.Float.{FloatOps}
use gwion.Vector.{VectorOps}
use gwion.Shreduler.{Ptr, Shreduler, Shreduled, queued, negative_wake_up_time, shredule}
use gwion.Shreduler.Erase.{Hooks, shreduler_remove}

module _ {F V : Type 0} ⦃vo : VectorOps V⦄ (hooks : Hooks F V) where
  unfoldable pub event_wait :
      ℕ → Shreduler F V → (event : V) → (shred : Ptr) → Option (Shreduler F V × V)
  event_wait depth s event shred = elim (shreduler_remove hooks depth s shred false) [
    | none ↦ none
    | some s1 ↦ some (s1, vo.add event shred)
  ]

  -- A reference to the shred is given up once it is scheduled.
  abbrev pub released : Ptr → Shreduled F V → Shreduled F V
  released shred (queued (some s)) = queued (some (hooks.release shred s))
  released shred (queued none) = queued none
  released shred negative_wake_up_time = negative_wake_up_time

  module _ ⦃o : FloatOps F⦄ where
    unfoldable pub event_signal : ℕ → Shreduler F V → (event : V) → Shreduled F V × V
    event_signal fuel s event =
        if vo.size event == 0
        then (queued (some s), event)
        else (let sh = vo.front event in
            (released sh (shredule fuel s sh o.epsilon), vo.rem event 0))

    -- The shreds from an index on. A shred whose wake-up time is refused is handed to `handle` of
    -- src/vm/vm.c, which is an argument, and released like the others.
    wake_from :
        (refuse : Ptr → Shreduler F V → Shreduler F V)
        → ℕ
        → V
        → (i count : ℕ) → Shreduler F V
        → Option (Shreduler F V)
    wake_from refuse fuel event i zero s = some s
    wake_from refuse fuel event i (suc count) s =
        let sh = vo.at event i in
        elim (shredule fuel s sh o.epsilon) [
          | queued (some s1) ↦ wake_from refuse fuel event (i + 1) count (hooks.release sh s1)
          | queued none ↦ none
          | negative_wake_up_time ↦
              wake_from refuse fuel event (i + 1) count (hooks.release sh (refuse sh s))
        ]

    unfoldable pub broadcast :
        (refuse : Ptr → Shreduler F V → Shreduler F V)
        → ℕ
        → Shreduler F V
        → (event : V) → Option (Shreduler F V) × V
    unfolding wake_from
    broadcast refuse fuel s event =
        (wake_from refuse fuel event 0 (vo.size event) s, vo.clear event)
