-- ===== src/Shreduler.antt =====
-- src/vm/shreduler.c: the queue of shreds, ordered by wake-up time. The ticks are nodes of a doubly
-- linked list at addresses of an explicit heap. `none` is a read through the pointer -1, or a
-- list walk that runs out of its fuel. The mutex is not modelled: each function is one atomic step.
pub mod Chain
pub mod Insert
pub mod Order
pub mod Queue
pub mod Get
pub mod Erase
pub mod Detach
pub mod Bury
pub mod Add
pub mod Tests
pub mod Remove
use gwion.Prelude.{
  ℕ, zero, suc, ◌+◌, ◌-◌, ◌%◌, ◌^◌, Bool, true, false, ◌&&◌, Option, none, some, ◌==◌,
  if◌then◌else◌,
}
use gwion.Float.{FloatOps}
use gwion.Vector.{VectorOps}
use mathlib.Core.Bool.{not}

abbrev pub Ptr : Type 0
Ptr = ℕ

abbrev pub null : Ptr
null = 0

-- `(struct ShredTick_*)-1`, which marks the tick of a shred that is being erased.
abbrev pub erased : Ptr
erased = 2 ^ 64 - 1

pub record Tick (F V : Type 0) : Type 0 where
  pub self : Ptr
  pub prev : Ptr
  pub next : Ptr
  pub parent : Ptr
  pub child : Option V
  pub xid : ℕ
  pub wake_time : F

abbrev pub Ticks : Type 0 → Type 0 → Type 0
Ticks F V = Ptr → Tick F V

-- The shreduler, the driver's `pos` and `is_running`, the ticks, and each shred's `tick` field.
pub record Shreduler (F V : Type 0) : Type 0 where
  pub pos : ℕ
  pub is_running : Bool
  pub list : Ptr
  pub curr : Ptr
  pub active_shreds : V
  pub shred_ids : ℕ
  pub loop : Bool
  pub ticks : Ticks F V
  pub tick : Ptr → Ptr

-- What `shredule_time` does: `handle` is called instead of scheduling, or the tick is queued.
pub data Shreduled (F V : Type 0) : Type 0 where
  queued : Option (Shreduler F V) → Shreduled F V
  negative_wake_up_time : Shreduled F V

module _ {F V : Type 0} where
  unfoldable pub write : Ticks F V → Ptr → Tick F V → Ticks F V
  write h p t a = if a == p then t else h a

  abbrev pub set_prev : Ticks F V → Ptr → Ptr → Ticks F V
  set_prev h p q = write h p (record (h p) { prev = q })

  abbrev pub set_next : Ticks F V → Ptr → Ptr → Ticks F V
  set_next h p q = write h p (record (h p) { next = q })

  abbrev pub set_wake_time : Ticks F V → Ptr → F → Ticks F V
  set_wake_time h p w = write h p (record (h p) { wake_time = w })

  pub shreduler_set_loop : Shreduler F V → Bool → Shreduler F V
  shreduler_set_loop s loop = record s { loop = loop }

  -- `tk_remove`: the neighbours are joined; the removed tick keeps its own links.
  unlink : Ticks F V → Ptr → Ticks F V
  unlink h tk =
      let h1 = if (h tk).prev == null then h else set_next h (h tk).prev (h tk).next in
      if (h1 tk).next == null then h1 else set_prev h1 (h1 tk).next (h1 tk).prev

  unfoldable pub tk_remove : Shreduler F V → Ptr → Option (Shreduler F V)
  unfolding unlink
  tk_remove s tk =
      if (s.ticks tk).prev == erased
      then none
      else some (record s {
        curr = if tk == s.curr then null else s.curr;
        list = if tk == s.curr then s.list else if tk == s.list then (s.ticks tk).next else s.list;
        ticks = unlink s.ticks tk;
      })

  unfoldable pub link_front : Ticks F V → Ptr → Ptr → Ticks F V
  link_front h tk list = set_prev (set_next h tk list) list tk

  unfoldable pub link_after : Ticks F V → Ptr → Ptr → Ticks F V
  link_after h tk prev =
      let h1 = set_next h tk (h prev).next in
      let h2 = if (h1 tk).next == null then h1 else set_prev h1 (h1 prev).next tk in
      set_next (set_prev h2 tk prev) prev tk

  module _ ⦃o : FloatOps F⦄ where
    -- The `do … while` of `_shredule`: the last tick that is due no later than `wake_time`, null
    -- if the first one already is due later.
    unfoldable pub last_due : Ticks F V → F → ℕ → (prev curr : Ptr) → Option Ptr
    last_due h w zero prev curr = none
    last_due h w (suc fuel) prev curr =
        let rest = last_due h w fuel curr (h curr).next in
        if curr == null then some prev else if o.lt w (h curr).wake_time then some prev else rest

    -- The new heap and the new head of the list.
    unfoldable pub enqueue : ℕ → Ticks F V → Ptr → Ptr → F → Option (Ticks F V × Ptr)
    unfolding last_due link_front link_after
    enqueue fuel h list tk w =
        if list == null then some (h, tk) else elim (last_due h w fuel null list) [
          | none ↦ none
          | some prev ↦
              if prev == null
              then some (link_front h tk list, tk)
              else some (link_after h tk prev, list)
        ]

    unfoldable pub shredule_ : ℕ → Shreduler F V → Ptr → F → Option (Shreduler F V)
    shredule_ fuel s tk w =
        if (s.ticks tk).prev == erased
        then some s
        else elim (enqueue fuel (set_wake_time s.ticks tk w) s.list tk w) [
          | none ↦ none
          | some (h, list) ↦
              some
                (record s { ticks = h; list = list; curr = if tk == s.curr then null else s.curr })
        ]

    unfoldable pub shredule_time : ℕ → Shreduler F V → (shred : Ptr) → F → Shreduled F V
    shredule_time fuel s shred w =
        if o.lt w (o.of_uint s.pos)
        then negative_wake_up_time
        else queued (shredule_ fuel s (s.tick shred) w)

    unfoldable pub shredule : ℕ → Shreduler F V → (shred : Ptr) → F → Shreduled F V
    unfolding shredule_time
    shredule fuel s shred w = shredule_time fuel s shred (o.add w (o.of_uint s.pos))

    -- The shred to run, null if none is due. The driver stops with the last shred.
    unfoldable pub shreduler_get : ⦃vo : VectorOps V⦄ → Shreduler F V → Ptr × Shreduler F V
    shreduler_get ⦃vo⦄ s =
        if not (s.list == null)
          && o.le (s.ticks s.list).wake_time (o.add (o.of_uint s.pos) o.epsilon)
        then (let tk = s.list in
            let rest = (s.ticks tk).next in
            let h = if rest == null then s.ticks else set_prev s.ticks rest null in
            (
              (s.ticks tk).self,
              record s { list = rest; ticks = set_prev (set_next h tk null) tk null; curr = tk },
            ))
        else (
          null,
          record s {
            is_running =
                if not s.loop && (vo.size s.active_shreds == 0) then false else s.is_running;
          },
        )

    -- `fresh` is what the memory pool returns; the tick comes zeroed.
    unfoldable pub shreduler_ini : Shreduler F V → (fresh shred : Ptr) → Shreduler F V
    shreduler_ini s fresh shred = record s {
      ticks = write s.ticks fresh (record {
        self = shred;
        prev = null;
        next = null;
        parent = null;
        child = none;
        xid = 0;
        wake_time = o.of_uint 0;
      });
      tick = λ a. if a == shred then fresh else s.tick a;
    }

    unfoldable pub shreduler_add :
        ⦃vo : VectorOps V⦄ → ℕ → Shreduler F V → (fresh shred : Ptr) → Option (Shreduler F V)
    unfolding shreduler_ini
    shreduler_add ⦃vo⦄ fuel s fresh shred =
        let s1 = shreduler_ini s fresh shred in
        let ids = (s1.shred_ids + 1) % 2 ^ 64 in
        let s2 = record s1 {
          shred_ids = ids;
          ticks = write s1.ticks fresh (record (s1.ticks fresh) { xid = ids });
          active_shreds = vo.add s1.active_shreds shred;
        } in
        shredule_ fuel s2 fresh o.epsilon
