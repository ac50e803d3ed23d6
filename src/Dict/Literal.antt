-- ===== src/Dict/Literal.antt =====
-- Making a dictionary of a literal, an empty one, and releasing what one holds (src/lib/dict.c). The
-- buckets that are released are listed in order.
use gwion.Prelude.{
  ℕ, zero, suc, ◌+◌, ◌%◌, true, Option, none, some, leb, if◌then◌else◌, List, [], ◌∷◌,
}
use gwion.Dict.{Slot, HMap, hmap_min_cap, is_free, put_slot}

module _ {K E : Type 0} where
  -- The walk of `dict_lit_ctor`: the first bucket that was never used.
  unfoldable pub lit_place : ℕ → HMap K E → K → E → (hash : ℕ) → Option (HMap K E)
  lit_place zero d k v hash = none
  lit_place (suc fuel) d k v hash =
      let next = if leb d.capacity (hash + 1) then 0 else hash + 1 in
      let rest = lit_place fuel d k v next in
      if (d.slots hash).set
      then rest
      else some (put_slot d hash (record (d.slots hash) { set = true; key = k; value = v }))

  -- The pairs of the literal with the hashes of their keys.
  unfoldable pub lit_all : ℕ → HMap K E → List (K × E × ℕ) → Option (HMap K E)
  unfolding lit_place
  lit_all fuel d [] = some d
  lit_all fuel d ((k, v, hash) ∷ pairs) = elim (lit_place fuel d k v (hash % d.capacity)) [
    | none ↦ none
    | some d1 ↦ lit_all fuel d1 pairs
  ]

  unfoldable pub dict_lit_ctor : ℕ → HMap K E → List (K × E × ℕ) → (count : ℕ) → Option (HMap K E)
  dict_lit_ctor fuel d pairs count = elim (lit_all fuel d pairs) [
    | none ↦ none
    | some d1 ↦ some (record d1 { count = count })
  ]

  -- `dict_ctor`: the memory comes zeroed.
  unfoldable pub dict_ctor : (fresh : Slot K E) → HMap K E
  dict_ctor fresh = record { slots = λ b. fresh; capacity = hmap_min_cap; count = 0 }

  -- `dict_clear_dtor` counts down before it looks at the bucket in front. A capacity is at least one.
  unfoldable pub clear_places : HMap K E → (i : ℕ) → List ℕ
  clear_places d zero = []
  clear_places d (suc zero) = []
  clear_places d (suc (suc i)) =
      let rest = clear_places d (suc i) in if is_free (d.slots i) then rest else i ∷ rest
