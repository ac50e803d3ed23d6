-- ===== src/Dict/Grow.antt =====
-- Growing a dictionary ends, and so does writing a key (src/lib/dict.c).
use gwion.Prelude.{ℕ, zero, suc, ◌+◌, ◌*◌, ◌<◌, ◌≤◌, ◌≡◌, ◌⊎◌, Bool, true, some, if◌then◌else◌}
use gwion.Dict.{Slot, HMap, is_free, put_slot, hmap_find, regrow, dict_grow, hmap_grow}

module _ {K E : Type 0} where
  -- How many of the first `n` buckets were used.
  used : (ℕ → Slot K E) → ℕ → ℕ
  used h zero = 0
  used h (suc n) = (if (h n).set then 1 else 0) + used h n

  -- The entry is put into some bucket.
  abbrev Put : ℕ → HMap K E → Slot K E → ℕ → Type 0
  Put fuel d t b =
      (c : ℕ) × (hmap_find fuel d t b ≡ some (record (put_slot d c t) { count = d.count + 1 }))

  module _ (hash : K → ℕ) (old : ℕ → Slot K E) where
    abbrev Regrown : ℕ → ℕ → HMap K E → Type 0
    Regrown fuel idx d =
        (d' : HMap K E) × (regrow hash fuel old idx d ≡ some d')
        × (d'.capacity ≡ d.capacity)
        × (used d'.slots (suc d.capacity) ≤ used d.slots (suc d.capacity) + idx)

module _ {K E : Type 0} (key_eq : K → K → Bool) (hash : K → ℕ) (k : K) where
  -- The dictionary is about to grow, or it has a free bucket.
  abbrev pub HasRoom : HMap K E → Type 0
  HasRoom d = (hmap_grow d ≡ true) ⊎ ((f : ℕ) × (f < d.capacity) × (is_free (d.slots f) ≡ true))

  abbrev Ready : ℕ → Slot K E → HMap K E → Type 0
  Ready fuel fresh d =
      (d0 : HMap K E) × ((if hmap_grow d then dict_grow hash fuel fresh d else some d) ≡ some d0)
      × (0 < d0.capacity)
      × (d0.capacity ≤ 2 * d.capacity)
      × ((f : ℕ) × (f < d0.capacity) × (is_free (d0.slots f) ≡ true))
