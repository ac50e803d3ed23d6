-- ===== src/Dict.antt =====
-- src/lib/dict.c: the dictionary, an open-addressing hash table, as its instructions and the loops that
-- `_opem_dict_access` and `emit_dict_iter` make of them. The hash function and the operator `?=` of the
-- keys are arguments; reference counts are left out. A loop takes fuel and is `none` without enough of it.
pub mod Probe
pub mod Set
pub mod Kept
pub mod Ends
pub mod Grow
pub mod Literal
mod Tests
use Prim.Native.Nat.{bit_xor}
use mathlib.Core.Bool.{not}
use gwion.Prelude.{
  ℕ, zero, suc, ◌+◌, ◌-◌, ◌*◌, ◌%◌, ◌/◌, ◌^◌, Bool, true, false, ◌&&◌, ◌||◌, Option, none, some,
  ◌==◌, ltb, leb, if◌then◌else◌,
}
use gwion.Word.{word_mod, shift_down}

-- `HState` with the key and the value of the bucket.
pub record Slot (K E : Type 0) : Type 0 where
  pub set : Bool
  pub deleted : Bool
  pub key : K
  pub value : E

pub record HMap (K E : Type 0) : Type 0 where
  pub slots : ℕ → Slot K E
  pub capacity : ℕ
  pub count : ℕ

abbrev pub hmap_min_cap : ℕ
hmap_min_cap = 32

-- `mfun_int_h`: the shifts are those of signed words.
unfoldable pub int_hash : ℕ → ℕ
int_hash x =
    let y = bit_xor x (shift_down x 30) * 0xbf58476d1ce4e5b9 % word_mod in
    let z = bit_xor y (shift_down y 27) * 0x94d049bb133111eb % word_mod in
    bit_xor z (shift_down z 31)

-- What the search for a key that is read ends with: the first deleted bucket, and the bucket of the key.
abbrev pub Found : Type 0
Found = Option (Option ℕ × ℕ)

abbrev pub compared : (found : Bool) → (tombstone : Option ℕ) (b : ℕ) → Option Found → Option Found
compared found tombstone b rest = if found then some (some (tombstone, b)) else rest

module _ {K E : Type 0} where
  abbrev pub write_slot : (ℕ → Slot K E) → ℕ → Slot K E → ℕ → Slot K E
  write_slot h b t a = if a == b then t else h a

  abbrev pub put_slot : HMap K E → ℕ → Slot K E → HMap K E
  put_slot d b t = record d { slots = write_slot d.slots b t }

  -- `hmap_grow`: more than three quarters would be used.
  pub hmap_grow : HMap K E → Bool
  hmap_grow d = ltb (3 * d.capacity) (4 * (d.count + 1))

  -- `hmap_iter_set_ini` bounds the hash, or the next bucket.
  unfoldable pub hmap_iter_set_ini : HMap K E → ℕ → ℕ
  hmap_iter_set_ini d h = if leb d.capacity h then h % d.capacity else h

  -- A bucket that is not in use, for `hmap_iter_set`.
  abbrev pub is_free : Slot K E → Bool
  is_free t = not t.set || t.deleted

  -- `hmap_iter_set` at a free bucket: the key is written there.
  unfoldable pub hmap_iter_set : HMap K E → K → ℕ → HMap K E
  hmap_iter_set d k b =
      record (put_slot d b (record (d.slots b) { set = true; deleted = false; key = k })) {
        count = d.count + 1;
      }

  unfoldable pub hmap_addr : HMap K E → ℕ → HMap K E
  hmap_addr d b = put_slot d b (record (d.slots b) { set = true; deleted = false })

  -- An assignment through the address that an access leaves.
  unfoldable pub assign : HMap K E → ℕ → E → HMap K E
  assign d b v = put_slot d b (record (d.slots b) { value = v })

  module _ (key_eq : K → K → Bool) where
    -- The access to a key that is assigned to: the bucket for it.
    unfoldable pub dict_access : ℕ → HMap K E → K → (h : ℕ) → Option (HMap K E × ℕ)
    unfolding hmap_iter_set hmap_addr
    dict_access zero d k h = none
    dict_access (suc fuel) d k h =
        let b = hmap_iter_set_ini d h in
        let rest = dict_access fuel d k (b + 1) in
        if is_free (d.slots b)
        then some (hmap_iter_set d k b, b)
        else if key_eq (d.slots b).key k
        then some (hmap_addr d b, b)
        else rest

    -- `hmap_iter` and the comparison: the first deleted bucket is remembered, and the bucket behind it is
    -- compared. `some none` is the effect InvalidMapAccess.
    unfoldable pub dict_iter : ℕ → HMap K E → K → (tombstone : Option ℕ) → (h : ℕ) → Option Found
    dict_iter zero d k tombstone h = none
    dict_iter (suc fuel) d k tombstone h =
        let b = h % d.capacity in
        let here = dict_iter fuel d k tombstone (b + 1) in
        let passed = dict_iter fuel d k (some b) (b + 2) in
        let plain = compared (key_eq (d.slots b).key k) tombstone b here in
        if not (d.slots b).set
        then some none
        else if (d.slots b).deleted
        then elim tombstone [
          | none ↦ compared (key_eq (d.slots (b + 1)).key k) (some b) (b + 1) passed
          | some t ↦ plain
        ]
        else plain

  -- `hmap_val`: the value at the bucket; the entry moves to the tombstone if there is one.
  unfoldable pub hmap_val : HMap K E → (tombstone : Option ℕ) → ℕ → E × HMap K E
  hmap_val d none b = ((d.slots b).value, d)
  hmap_val d (some t) b =
      let moved = put_slot d t (d.slots b) in
      ((d.slots b).value, put_slot moved b (record (moved.slots b) { deleted = true }))

  unfoldable pub hmap_remove : HMap K E → ℕ → E × HMap K E
  hmap_remove d b = (
    (d.slots b).value,
    record (put_slot d b (record (d.slots b) { deleted = true })) { count = d.count - 1 },
  )

  -- `hmap_find`: an old entry is put into the first bucket that was never used. The bucket is compared with
  -- the capacity only after it was passed.
  unfoldable pub hmap_find : ℕ → HMap K E → Slot K E → (b : ℕ) → Option (HMap K E)
  hmap_find zero d t b = none
  hmap_find (suc fuel) d t b =
      let next = if ltb d.capacity (b + 1) then 0 else b + 1 in
      let rest = hmap_find fuel d t next in
      if not (d.slots b).set then some (record (put_slot d b t) { count = d.count + 1 }) else rest

  module _ (hash : K → ℕ) where
    -- `hmap_grow_dec` and `hmap_find`: the old buckets from the last to the first.
    unfoldable pub regrow : ℕ → (old : ℕ → Slot K E) → (idx : ℕ) → HMap K E → Option (HMap K E)
    regrow fuel old zero d = some d
    regrow fuel old (suc idx) d =
        let skipped = regrow fuel old idx d in
        if is_free (old idx)
        then skipped
        else elim (hmap_find fuel d (old idx) (hash (old idx).key % d.capacity)) [
          | none ↦ none
          | some d1 ↦ regrow fuel old idx d1
        ]

    -- `hmap_grow_init` starts with twice the buckets, all of them `fresh`.
    unfoldable pub dict_grow : ℕ → (fresh : Slot K E) → HMap K E → Option (HMap K E)
    unfolding regrow
    dict_grow fuel fresh d =
        regrow fuel d.slots d.capacity
          (record { slots = λ b. fresh; capacity = d.capacity * 2; count = 0 })

    -- `d[k] = v`.
    unfoldable pub dict_set :
        (key_eq : K → K → Bool) → ℕ → (fresh : Slot K E) → HMap K E → K → E → Option (HMap K E)
    dict_set key_eq fuel fresh d k v =
        elim (if hmap_grow d then dict_grow fuel fresh d else some d) [
          | none ↦ none
          | some d1 ↦ elim (dict_access key_eq fuel d1 k (hash k)) [
            | none ↦ none
            | some (d2, b) ↦ some (assign d2 b v)
          ]
        ]

    -- `d[k]`; `some none` is InvalidMapAccess.
    unfoldable pub dict_get :
        (key_eq : K → K → Bool) → ℕ → HMap K E → K → Option (Option (E × HMap K E))
    dict_get key_eq fuel d k = elim (dict_iter key_eq fuel d k none (hash k)) [
      | none ↦ none
      | some none ↦ some none
      | some (some (t, b)) ↦ some (some (hmap_val d t b))
    ]

    -- `k ~~ d`.
    unfoldable pub dict_remove :
        (key_eq : K → K → Bool) → ℕ → HMap K E → K → Option (Option (E × HMap K E))
    dict_remove key_eq fuel d k = elim (dict_iter key_eq fuel d k none (hash k)) [
      | none ↦ none
      | some none ↦ some none
      | some (some (t, b)) ↦ some (some (hmap_remove d b))
    ]
