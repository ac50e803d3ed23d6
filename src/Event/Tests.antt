-- ===== src/Event/Tests.antt =====
-- The theorems on events at the small queue of the shreduler's tests.
use gwion.Prelude.{ℕ, ◌≡◌, refl, List, [], ◌∷◌, some, arith}
use gwion.Float.{ticks_ops, ticks_laws}
use gwion.Vector.{list_ops, list_laws, list_queue_laws}
use gwion.Shreduler.{Shreduler, null, queued}
use gwion.Shreduler.Insert.{insert_due}
use gwion.Shreduler.Queue.{IsQueue, IsDetached}
use gwion.Shreduler.Tests.{state, ticks, state-IsQueue, three-IsDetached, quiet}
use gwion.Event.{event_wait, event_signal, broadcast}
use gwion.Event.Wake.{event_wait-IsQueue, event_signal-IsQueue}

event_wait-IsQueue_example :
    (s' : Shreduler ℕ (List ℕ)) × (event' : List ℕ) × (event_wait quiet 4 (state 6 3) (104 ∷ []) 103
      ≡ some (s', event'))
    × (event' ≡ 104 ∷ 103 ∷ [])
    × IsQueue s' (1 ∷ 2 ∷ [])
    × IsDetached s' (1 ∷ 2 ∷ []) 3
    × (s'.curr ≡ null)
event_wait-IsQueue_example =
    event_wait-IsQueue list_laws quiet 4 (state 6 3) (104 ∷ []) 103 (1 ∷ 2 ∷ []) (state-IsQueue 6)
      (three-IsDetached 6) refl

event_signal-IsQueue_example :
    (s' : Shreduler ℕ (List ℕ)) × (event' : List ℕ) × (event_signal quiet 4
        (state 6 3)
        (103 ∷ 101 ∷ [])
      ≡ (queued (some s'), event'))
    × (event' ≡ 101 ∷ [])
    × IsQueue s' (insert_due ticks 6 3 (1 ∷ 2 ∷ []))
event_signal-IsQueue_example =
    event_signal-IsQueue list_laws quiet ticks_laws list_queue_laws refl 4 (state 6 3)
      (103 ∷ 101 ∷ []) 103 (101 ∷ []) (1 ∷ 2 ∷ []) refl (omega arith) (state-IsQueue 6)
      (three-IsDetached 6)

-- A broadcast that wakes nobody.
nobody : broadcast quiet (λ sh s. s) 4 (state 6 3) [] ≡ (some (state 6 3), [])
unfolding broadcast
nobody = refl
