-- ===== src/Dict/Tests.antt =====
-- A dictionary with four buckets whose keys 2 and 6 collide, and the theorems at it (src/lib/dict.c).
use mathlib.Core.Bool.{not}
use gwion.Prelude.{◌*◌, [], ◌∷◌, ℕ, ◌≡◌, ◌≢◌, refl, Bool, false, Option, none, some, arith, ◌==◌}
use gwion.Dict.{
  Slot, HMap, dict_set, dict_get, dict_iter, dict_remove, dict_grow, dict_access, regrow, hmap_find,
  hmap_iter_set_ini, hmap_iter_set, assign, hmap_val, hmap_remove, hmap_grow, int_hash,
}
use gwion.Dict.Literal.{lit_place, lit_all, dict_lit_ctor, clear_places}
use gwion.Dict.Kept.{dict_get-other}
use gwion.Dict.Ends.{dict_access-total}

abbrev fresh : Slot ℕ ℕ
fresh = record { set = false; deleted = false; key = 0; value = 0 }

abbrev four : HMap ℕ ℕ
four = record { slots = λ a. fresh; capacity = 4; count = 0 }

abbrev eq_key : ℕ → ℕ → Bool
eq_key a b = a == b

abbrev own_hash : ℕ → ℕ
own_hash k = k

-- The key 6 is in the bucket 2.
abbrev with_six : HMap ℕ ℕ
with_six = assign (hmap_iter_set four 6 2) 2 60

abbrev with_both : HMap ℕ ℕ
with_both = assign (hmap_iter_set with_six 2 3) 3 20

set_six : dict_set own_hash eq_key 9 fresh four 6 60 ≡ some with_six
unfolding dict_set dict_access hmap_grow hmap_iter_set_ini hmap_iter_set assign
set_six = refl

set_two : dict_set own_hash eq_key 9 fresh with_six 2 20 ≡ some with_both
unfolding dict_set dict_access hmap_grow hmap_iter_set_ini hmap_iter_set assign
set_two = refl

-- After the key 6 was removed, the bucket behind its own is compared, and the key 2 moves into the one that
-- was left.
abbrev without_six : HMap ℕ ℕ
without_six = (hmap_remove with_both 2).1

remove_six : dict_remove own_hash eq_key 9 with_both 6 ≡ some (some (60, without_six))
unfolding dict_remove dict_iter hmap_remove hmap_iter_set assign
remove_six = refl

abbrev moved_two : HMap ℕ ℕ
moved_two = (hmap_val without_six (some 2) 3).1

get_two : dict_get own_hash eq_key 9 without_six 2 ≡ some (some (20, moved_two))
unfolding dict_get dict_iter hmap_val hmap_remove hmap_iter_set assign
get_two = refl

-- A key that is not in the dictionary raises InvalidMapAccess.
get_missing : dict_get own_hash eq_key 9 with_both 1 ≡ some none
unfolding dict_get dict_iter hmap_val hmap_remove hmap_iter_set assign
get_missing = refl

hash_one : int_hash 1 ≡ 6350654354804651301
unfolding int_hash gwion.Word.shift_down
hash_one = refl

-- Three of four buckets are in use: the next key makes the dictionary grow.
abbrev nearly_full : HMap ℕ ℕ
nearly_full = record {
  slots = λ b. record { set = not (b == 3); deleted = false; key = b; value = 10 * b };
  capacity = 4;
  count = 3;
}

six_found : dict_iter eq_key 9 with_six 6 none 6 ≡ some (some (none, 2))
unfolding dict_iter hmap_iter_set assign
six_found = refl

roomy : hmap_grow with_six ≡ false
unfolding hmap_grow hmap_iter_set assign
roomy = refl

dict_get-other_example : dict_get own_hash eq_key 9 with_both 6 ≡ some (some (60, with_both))
unfolding assign
dict_get-other_example =
    dict_get-other eq_key own_hash 9 fresh with_six with_both 6 2 20 2 refl (λ x e. ground arith)
      roomy six_found set_two

dict_access-total_example : dict_access eq_key 8 with_six 2 2 ≢ none
unfolding assign hmap_iter_set
dict_access-total_example =
    dict_access-total eq_key 2 8 with_six 2 3 (omega arith) refl (omega arith)

abbrev pair_of : Option (HMap ℕ ℕ) → ℕ → Option (ℕ × ℕ)
pair_of made b = elim made [ none ↦ none | some d ↦ some ((d.slots b).key, (d.slots b).value) ]

abbrev literal : Option (HMap ℕ ℕ)
literal = dict_lit_ctor 9 four ((7, 70, 7) ∷ (3, 30, 3) ∷ []) 2

-- Of two colliding keys in the last bucket of a literal the second goes to the first bucket.
literal_last : pair_of literal 3 ≡ some (7, 70)
unfolding dict_lit_ctor lit_all lit_place
literal_last = refl

literal_wraps : pair_of literal 0 ≡ some (3, 30)
unfolding dict_lit_ctor lit_all lit_place
literal_wraps = refl

-- The last bucket is in use and is not released.
clear_all_but_last : clear_places with_both 4 ≡ 2 ∷ []
unfolding clear_places hmap_iter_set assign
clear_all_but_last = refl

-- Growing puts the old buckets into twice as many.
grown_six : pair_of (dict_grow own_hash 9 fresh with_both) 6 ≡ some (6, 60)
unfolding dict_grow regrow hmap_find hmap_iter_set assign
grown_six = refl
