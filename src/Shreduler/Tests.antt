-- ===== src/Shreduler/Tests.antt =====
-- Runs of the shreduler on a small queue, and its theorems at that queue: times are counted in a
-- fixed unit, and vectors are lists.
use gwion.Prelude.{
  ℕ, ◌≡◌, refl, true, false, List, [], ◌∷◌, ◌++◌, none, some, arith, ◌==◌, if◌then◌else◌, erase,
  ◌≢◌,
}
use gwion.Float.{ticks_ops, ticks_laws}
use gwion.Vector.{list_ops, list_laws}
use gwion.Shreduler.{
  Ptr, null, Tick, Ticks, Shreduler, tk_remove, shredule_, queued, negative_wake_up_time,
  shredule_time, shredule, shreduler_get, shreduler_add,
}
use gwion.Shreduler.Insert.{insert_due}
use gwion.Shreduler.Queue.{IsQueue, IsDetached, shredule_-IsQueue}
use gwion.Shreduler.Get.{shreduler_get-IsQueue}
use gwion.Shreduler.Chain.{SameBody}
use gwion.Shreduler.Remove.{tk_remove-IsQueue}
use gwion.Shreduler.Erase.{Hooks, shreduler_remove}
use gwion.Shreduler.Detach.{shreduler_remove-IsDetached}
use gwion.Shreduler.Bury.{shreduler_remove-erased}
use gwion.Shreduler.Add.{shredule-IsQueue, shreduler_add-IsQueue}

abbrev tick_at : (self prev next wake_time : ℕ) → Tick ℕ (List ℕ)
tick_at self prev next wake_time = record {
  self = self;
  prev = prev;
  next = next;
  parent = null;
  child = none;
  xid = self;
  wake_time = wake_time;
}

-- Ticks 1 and 2 wait, tick 3 does not.
abbrev pub ticks : Ticks ℕ (List ℕ)
ticks a =
    if a == 1
    then tick_at 101 null 2 5
    else if a == 2
    then tick_at 102 1 null 9
    else tick_at 103 null null 0

abbrev tick_of : Ptr → Ptr
tick_of shred = if shred == 101 then 1 else if shred == 102 then 2 else 3

abbrev pub state : ℕ → Ptr → Shreduler ℕ (List ℕ)
state pos curr = record {
  pos = pos;
  is_running = true;
  list = 1;
  curr = curr;
  active_shreds = 101 ∷ 102 ∷ 103 ∷ [];
  shred_ids = 3;
  loop = false;
  ticks = ticks;
  tick = tick_of;
}

pub state-IsQueue : (pos : ℕ) → IsQueue (state pos 3) (1 ∷ 2 ∷ [])
state-IsQueue pos = record {
  chain = (refl, omega arith, refl, (refl, omega arith, refl, refl));
  apart = (refl, (refl, tt));
  valid = (omega arith, (omega arith, tt));
  order = ((refl, tt), (tt, tt));
  running = refl;
}

pub three-IsDetached : (pos : ℕ) → IsDetached (state pos 3) (1 ∷ 2 ∷ []) 3
three-IsDetached pos = record {
  some_tk = omega arith;
  valid = omega arith;
  out = refl;
  no_prev = refl;
  no_next = refl;
}

-- Erasing a shred touches nothing else.
abbrev pub quiet : Hooks ℕ (List ℕ)
quiet = record { unwind = λ shred s. s; release = λ shred s. s }

shredule_-IsQueue_example :
    (s' : Shreduler ℕ (List ℕ)) × (shredule_ 4 (state 0 3) 3 5 ≡ some s')
    × IsQueue s' (insert_due ticks 5 3 (1 ∷ 2 ∷ []))
    × ((s'.ticks 3).wake_time ≡ 5)
    × ((a : Ptr) → a ≢ 3 → (s'.ticks a).wake_time ≡ (ticks a).wake_time)
    × ((a : Ptr) → SameBody s'.ticks ticks a)
    × (s' ≡ record (state 0 3) { ticks = s'.ticks; list = s'.list; curr = null })
shredule_-IsQueue_example =
    shredule_-IsQueue ticks_laws 4 (state 0 3) 3 5 (1 ∷ 2 ∷ []) (omega arith) (state-IsQueue 0)
      (three-IsDetached 0)

-- A tick goes behind those that are due at the same time.
due_behind_equals : insert_due ticks 5 3 (1 ∷ 2 ∷ []) ≡ 1 ∷ 3 ∷ 2 ∷ []
unfolding insert_due
due_behind_equals = refl

shredule-IsQueue_example :
    (s' : Shreduler ℕ (List ℕ)) × (shredule 4 (state 6 3) 103 2 ≡ queued (some s'))
    × IsQueue s' (insert_due ticks 8 3 (1 ∷ 2 ∷ []))
    × ((s'.ticks 3).wake_time ≡ 8)
shredule-IsQueue_example =
    shredule-IsQueue ticks_laws 4 (state 6 3) 103 2 (1 ∷ 2 ∷ []) (omega arith) (state-IsQueue 6)
      (three-IsDetached 6) refl

past_is_refused : shredule_time 4 (state 6 3) 103 2 ≡ negative_wake_up_time
unfolding shredule_time
past_is_refused = refl

shreduler_get-IsQueue_example :
    ((shreduler_get (state 5 3)).0 ≡ 101)
    × IsQueue (shreduler_get (state 5 3)).1 (2 ∷ [])
    × IsDetached (shreduler_get (state 5 3)).1 (2 ∷ []) 1
    × ((shreduler_get (state 5 3)).1.curr ≡ 1)
    × ((shreduler_get (state 5 3)).1.is_running ≡ true)
shreduler_get-IsQueue_example = shreduler_get-IsQueue (state 5 3) 1 (2 ∷ []) (state-IsQueue 5) refl

none_is_due : shreduler_get (state 4 3) ≡ (null, state 4 3)
unfolding shreduler_get
none_is_due = refl

tk_remove-IsQueue_example :
    (s' : Shreduler ℕ (List ℕ)) × (tk_remove (state 0 3) 2 ≡ some s')
    × IsQueue s' (erase 2 (1 ∷ 2 ∷ []))
    × (s'.curr ≡ 3)
    × ((a : Ptr) → SameBody s'.ticks ticks a × ((s'.ticks a).wake_time ≡ (ticks a).wake_time))
    × (s'.tick ≡ tick_of)
    × (s'.active_shreds ≡ 101 ∷ 102 ∷ 103 ∷ [])
    × (s' ≡ record (state 0 3) { ticks = s'.ticks; list = s'.list })
tk_remove-IsQueue_example = tk_remove-IsQueue (state 0 3) 2 (1 ∷ 2 ∷ []) (state-IsQueue 0) refl

shreduler_remove-IsDetached_example :
    (s' : Shreduler ℕ (List ℕ)) × (shreduler_remove quiet 1 (state 0 3) 101 false ≡ some s')
    × IsQueue s' (erase 1 (1 ∷ 2 ∷ []))
    × IsDetached s' (erase 1 (1 ∷ 2 ∷ [])) 1
shreduler_remove-IsDetached_example =
    shreduler_remove-IsDetached quiet 1 (state 0 3) 101 (1 ∷ 2 ∷ []) (state-IsQueue 0) refl
      (omega arith) (omega arith)

shreduler_remove-erased_example :
    (s' : Shreduler ℕ (List ℕ)) × (last : Shreduler ℕ (List ℕ)) × (shreduler_remove quiet 1
        (state 0 3)
        102
        true
      ≡ some last)
    × (last ≡ record s' { active_shreds = list_ops.rem2 s'.active_shreds 102 })
    × IsQueue s' (erase 2 (1 ∷ 2 ∷ []))
    × (s'.active_shreds ≡ 101 ∷ 102 ∷ 103 ∷ [])
    × ((fuel : ℕ) (w : ℕ) → shredule_ fuel s' 2 w ≡ some s')
shreduler_remove-erased_example =
    shreduler_remove-erased quiet 0 (state 0 3) 102 (1 ∷ 2 ∷ []) (state-IsQueue 0) refl refl refl

shreduler_add-IsQueue_example :
    (s' : Shreduler ℕ (List ℕ)) × (shreduler_add 4 (state 7 3) 4 104 ≡ some s')
    × IsQueue s' (insert_due ticks 0 4 (1 ∷ 2 ∷ []))
    × ((s'.ticks 4).wake_time ≡ 0)
    × (s'.tick 104 ≡ 4)
    × (s'.shred_ids ≡ 4)
    × ((s'.ticks 4).xid ≡ 4)
    × ((s'.ticks 4).self ≡ 104)
    × (s'.active_shreds ≡ (101 ∷ 102 ∷ 103 ∷ []) ++ 104 ∷ [])
shreduler_add-IsQueue_example =
    shreduler_add-IsQueue ticks_laws list_laws 4 (state 7 3) 4 104 (1 ∷ 2 ∷ []) (omega arith)
      (state-IsQueue 7) refl (omega arith) (omega arith)
