-- ===== src/Memoize/Tests.antt =====
-- A ring of two calls that is full, and the theorem at it.
use gwion.Prelude.{ℕ, ◌<◌, ◌≡◌, ◌≢◌, refl, List, [], ◌∷◌, some, arith}
use gwion.Vector.{list_ops, list_laws}
use gwion.Memoize.{Memoize, Entries, memoize_store, memoize_ini_at, get_data}
use gwion.Memoize.Ring.{IsRing, memoize_store-IsRing}

abbrev full_ring : Memoize (List ℕ)
full_ring = record { v = 10 ∷ 20 ∷ []; arg_sz = 8; ret_sz = 8; limit = 2; curr = 3 }

abbrev empty_data : Entries
empty_data a = record { args = []; ret = [] }

full_ring-IsRing : IsRing list_laws full_ring
full_ring-IsRing = record { some_limit = omega arith; bounded = omega arith }

-- The fourth call of a full ring of two takes the second place.
second_place : get_data 30 full_ring ≡ some (20, record full_ring { curr = 4 })
unfolding get_data
second_place = refl

memoize_store-IsRing_example :
    (m' : Memoize (List ℕ)) × (entries' : Entries) × (i : ℕ) × (slot : ℕ) × (memoize_store 30
        full_ring empty_data
        (7 ∷ [])
        (49 ∷ [])
      ≡ some (m', entries'))
    × IsRing list_laws m'
    × (i < list_ops.size m'.v)
    × (memoize_ini_at m' entries' i ≡ some (7 ∷ []))
    × (list_ops.at m'.v i ≡ slot)
    × (entries' slot ≡ record { args = 7 ∷ []; ret = 49 ∷ [] })
    × ((a : ℕ) → a ≢ slot → entries' a ≡ empty_data a)
memoize_store-IsRing_example =
    memoize_store-IsRing list_laws 30 full_ring empty_data (7 ∷ []) (49 ∷ []) full_ring-IsRing
