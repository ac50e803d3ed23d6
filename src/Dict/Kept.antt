-- ===== src/Dict/Kept.antt =====
-- What writing a key does to the other keys of a dictionary (src/lib/dict.c).
use mathlib.Core.Path.{subst}
use mathlib.Core.Bool.{not}
use mathlib.Core.Option.{some-injective, none-ne-some, some-ne-none}
use gwion.Prelude.{
  ℕ, zero, suc, ◌+◌, ◌%◌, ◌≡◌, ◌≢◌, ◌⊎◌, inl, inr, refl, sym, ap, ◌∙◌, Bool, true, false, ◌==◌,
  ◌||◌, Option, none, some, if◌then◌else◌, arith, Bool-cases,
}
use gwion.Dict.{
  Slot, HMap, Found, is_free, dict_iter, compared, assign, hmap_grow, dict_set, dict_get,
}
use gwion.Dict.Probe.{Placed, dict_access-Placed}
use gwion.Dict.Set.{assign-Placed, iter_hit, iter_miss, set_lem, found_lem}

-- A search that has passed a deleted bucket says so.
compared_marked :
    (found : Bool) (t b w : ℕ) (rest : Option Found)
    → rest ≢ some (some (none, w))
    → compared found (some t) b rest ≢ some (some (none, w))
compared_marked true t b w rest other e = some-ne-none t (
    ap {A = Option ℕ × ℕ} (λ r. r.0)
      (some-injective (some t, b) (none, w) (some-injective (some (some t, b)) (some (none, w)) e)))
compared_marked false t b w rest other e = other e

module _ {K E : Type 0} (key_eq : K → K → Bool) (j : K) where
  marked_lem :
      (fuel : ℕ) (d : HMap K E) (t h w : ℕ)
      → dict_iter key_eq fuel d j (some t) h ≢ some (some (none, w))
  unfolding dict_iter
  marked_lem zero d t h w e = none-ne-some (some (none, w)) e
  marked_lem (suc fuel) d t h w e =
      let c = h % d.capacity in
      go (d.slots c).set (d.slots c).deleted
        (compared (key_eq (d.slots c).key j) (some t) c
          (dict_iter key_eq fuel d j (some t) (c + 1)))
        (compared_marked (key_eq (d.slots c).key j) t c w
          (dict_iter key_eq fuel d j (some t) (c + 1)) (marked_lem fuel d t (c + 1) w))
        e
    where
      go :
          (is_set deleted : Bool) (plain : Option Found)
          → plain ≢ some (some (none, w))
          → (if not is_set then some none else if deleted then plain else plain)
            ≢ some (some (none, w))
      go true true plain other e = other e
      go true false plain other e = other e
      go false deleted plain other e =
          none-ne-some (none, w) (some-injective none (some (none, w)) e)

  -- A search that has passed no deleted bucket ended here or goes on behind a bucket that is in use for
  -- another key.
  pub iter_cases :
      (fuel : ℕ) (d : HMap K E) (h w : ℕ)
      → dict_iter key_eq (suc fuel) d j none h ≡ some (some (none, w))
      → ((d.slots (h % d.capacity)).set ≡ true)
        × ((d.slots (h % d.capacity)).deleted ≡ false)
        × (((key_eq (d.slots (h % d.capacity)).key j ≡ true) × (h % d.capacity ≡ w))
            ⊎ ((key_eq (d.slots (h % d.capacity)).key j ≡ false)
                × (dict_iter key_eq fuel d j none (h % d.capacity + 1) ≡ some (some (none, w)))))
  unfolding dict_iter
  iter_cases fuel d h w e =
      let c = h % d.capacity in
      go (d.slots c).set (d.slots c).deleted (key_eq (d.slots c).key j)
        (dict_iter key_eq fuel d j none (c + 1)) c
        (compared (key_eq (d.slots (c + 1)).key j) (some c) (c + 1)
          (dict_iter key_eq fuel d j (some c) (c + 2)))
        (compared_marked (key_eq (d.slots (c + 1)).key j) c (c + 1) w
          (dict_iter key_eq fuel d j (some c) (c + 2)) (marked_lem fuel d c (c + 2) w))
        e
    where
      go :
          (is_set deleted found : Bool) (rest : Option Found) (c : ℕ) (marked : Option Found)
          → marked ≢ some (some (none, w))
          → (if not is_set
              then some none
              else if deleted
              then marked
              else compared found none c rest)
            ≡ some (some (none, w))
          → (is_set ≡ true)
            × (deleted ≡ false)
            × (((found ≡ true) × (c ≡ w)) ⊎ ((found ≡ false) × (rest ≡ some (some (none, w)))))
      go true true found rest c marked never e = absurd (never e)
      go true false true rest c marked never e = (
        refl,
        refl,
        inl (
          refl,
          ap {A = Option ℕ × ℕ} (λ r. r.1)
              (some-injective (none, c) (none, w)
                (some-injective (some (none, c)) (some (none, w)) e)),
        ),
      )
      go true false false rest c marked never e = (refl, refl, inr (refl, e))
      go false deleted found rest c marked never e =
          absurd (none-ne-some (none, w) (some-injective none (some (none, w)) e))

same_place : (a b : ℕ) → (a == b) ≡ true → a ≡ b
same_place a b e = ground arith

other_place : (a b : ℕ) → (a == b) ≡ false → a ≢ b
other_place a b e same = ground arith

used_for :
    (is_set deleted : Bool) → is_set ≡ true → deleted ≡ false → (not is_set || deleted) ≡ false
used_for is_set deleted s d = rw (s, d) refl

module _ {K E : Type 0} (key_eq : K → K → Bool) (j k : K) where
  -- A bucket in use keeps its state and key when another key is placed.
  slot_kept :
      {d d2 : HMap K E} {b : ℕ} (c : ℕ)
      → Placed key_eq k d d2 b
      → (d.slots c).set ≡ true
      → (d.slots c).deleted ≡ false
      → ((d2.slots c).set ≡ true)
        × ((d2.slots c).deleted ≡ false)
        × ((d2.slots c).key ≡ (d.slots c).key)
  slot_kept {d} {d2} {b} c p s u = elim (Bool-cases (c == b)) [
    | inl at ↦
        let at : c ≡ b = same_place c b at in
        (
          ap (λ a. (d2.slots a).set) at ∙ p.is_set,
          ap (λ a. (d2.slots a).deleted) at ∙ p.not_deleted,
          ap (λ a. (d2.slots a).key) at
              ∙ p.kept (
                  ap (λ a. is_free (d.slots a)) (sym at)
                  ∙ used_for (d.slots c).set (d.slots c).deleted s u)
              ∙ ap (λ a. (d.slots a).key) (sym at),
        )
    | inr off ↦
        let same = p.others c (λ e. other_place c b off e) in
        (ap (λ t. t.set) same ∙ s, ap (λ t. t.deleted) same ∙ u, ap (λ t. t.key) same)
  ]

  -- The bucket of a key stays its bucket when another key is placed, and its value stays.
  pub still_lem :
      (fuel : ℕ) (d d2 : HMap K E) (h b w : ℕ)
      → ((x : K) → key_eq x j ≡ true → key_eq x k ≡ false)
      → Placed key_eq k d d2 b
      → dict_iter key_eq fuel d j none h ≡ some (some (none, w))
      → (dict_iter key_eq fuel d2 j none h ≡ some (some (none, w))) × (d2.slots w ≡ d.slots w)
  unfolding dict_iter
  still_lem zero d d2 h b w distinct p e = absurd (none-ne-some (some (none, w)) e)
  still_lem (suc fuel) d d2 h b w distinct p e =
      let c = h % d.capacity in
      let (s, u, step) = iter_cases key_eq j fuel d h w e in
      let same : h % d2.capacity ≡ c = ap (λ m. h % m) p.same_capacity in
      let (s2, u2, key2) = slot_kept c p s u in
      elim step [
        | inl (found, at) ↦ (
          iter_hit key_eq j fuel d2 h (ap (λ a. (d2.slots a).set) same ∙ s2)
                (ap (λ a. (d2.slots a).deleted) same ∙ u2)
                (ap (λ a. key_eq (d2.slots a).key j) same ∙ ap (λ x. key_eq x j) key2 ∙ found)
              ∙ ap {B = Option Found} (λ a. some (some (none, a))) (same ∙ at),
          subst (λ a. d2.slots a ≡ d.slots a) at
              (p.others c (λ here. hit_apart d d2 b c distinct p s u found here)),
        )
        | inr (other, rest) ↦
            let (later, value) = still_lem fuel d d2 (c + 1) b w distinct p rest in
            (
              iter_miss key_eq j fuel d2 h (ap (λ a. (d2.slots a).set) same ∙ s2)
                    (ap (λ a. (d2.slots a).deleted) same ∙ u2)
                    (ap (λ a. key_eq (d2.slots a).key j) same ∙ ap (λ x. key_eq x j) key2 ∙ other)
                  ∙ ap (λ a. dict_iter key_eq fuel d2 j none (a + 1)) same
                  ∙ later,
              value,
            )
      ]
    where
      hit_apart :
          (d d2 : HMap K E) (b c : ℕ)
          → ((x : K) → key_eq x j ≡ true → key_eq x k ≡ false)
          → Placed key_eq k d d2 b
          → (d.slots c).set ≡ true
          → (d.slots c).deleted ≡ false
          → key_eq (d.slots c).key j ≡ true
          → c ≢ b
      hit_apart d d2 b c distinct p s u found here =
          let used = used_for (d.slots c).set (d.slots c).deleted s u in
          let other = distinct (d.slots c).key found in
          elim p.open_to [ inl free ↦ absurd (cc) | inr taken ↦ absurd (cc) ]

-- Setting a key in a dictionary that need not grow leaves every other key that is found before a deleted
-- bucket, with its value, provided that no key is `?=` to both and that `?=` holds of the key set and itself.
pub dict_get-other :
    {K E : Type 0} (key_eq : K → K → Bool) (hash : K → ℕ) (fuel : ℕ) (fresh : Slot K E)
    (d d2 : HMap K E) (j k : K) (v : E) (w : ℕ)
    → key_eq k k ≡ true
    → ((x : K) → key_eq x j ≡ true → key_eq x k ≡ false)
    → hmap_grow d ≡ false
    → dict_iter key_eq fuel d j none (hash j) ≡ some (some (none, w))
    → dict_set hash key_eq fuel fresh d k v ≡ some d2
    → dict_get hash key_eq fuel d2 j ≡ some (some ((d.slots w).value, d2))
unfolding assign
dict_get-other {K} {E} key_eq hash fuel fresh d d2 j k v w same distinct room found e =
    let (d0, d1, b, grown, access, assigned) = set_lem key_eq hash k fuel fresh d d2 v e in
    let start : d0 ≡ d = some-injective d0 d (sym grown ∙ rw room refl) in
    let p : Placed key_eq k d (assign d1 b v) b =
      subst (λ m. Placed key_eq k m (assign d1 b v) b) start
        (assign-Placed key_eq k v
          (dict_access-Placed key_eq k same fuel d0 d1 (hash k) b access)) in
    let p : Placed key_eq k d d2 b = subst (λ m. Placed key_eq k d m b) assigned p in
    let (still, value) = still_lem key_eq j k fuel d d2 (hash j) b w distinct p found in
    found_lem key_eq hash j fuel w d2 still
    ∙ ap {B = Option (Option (E × HMap K E))} (λ t. some (some (t.value, d2))) value
