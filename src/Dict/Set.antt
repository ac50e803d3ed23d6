-- ===== src/Dict/Set.antt =====
-- Writing a key into a dictionary and reading it back (src/lib/dict.c).
use mathlib.Core.Path.{subst}
use mathlib.Core.Bool.{not}
use mathlib.Core.Option.{some-injective, none-ne-some}
use gwion.Prelude.{
  ℕ, zero, suc, ◌+◌, ◌%◌, ◌≡◌, ◌≢◌, ◌⊎◌, inl, inr, refl, sym, ap, ◌∙◌, Bool, true, false, ◌||◌,
  Option, none, some, if◌then◌else◌,
}
use gwion.Dict.{
  Slot, HMap, Found, is_free, hmap_iter_set_ini, hmap_iter_set, hmap_addr, dict_access, dict_iter,
  assign, hmap_val, hmap_grow, dict_grow, dict_set, dict_get,
}
use gwion.Dict.Probe.{Placed, put_same, put_other, ini_lem, dict_access-Placed}

module _ {K E : Type 0} (key_eq : K → K → Bool) (k : K) where
  -- An assignment through the address keeps the bucket placed.
  pub assign-Placed :
      {d d1 : HMap K E} {b : ℕ} (v : E)
      → Placed key_eq k d d1 b
      → Placed key_eq k d (assign d1 b v) b
  unfolding assign
  assign-Placed {d} {d1} {b} v p = record {
    open_to = p.open_to;
    others = λ a ne. put_other d1 b _ a ne ∙ p.others a ne;
    is_set = ap (λ t. t.set) (put_same d1 b _) ∙ p.is_set;
    not_deleted = ap (λ t. t.deleted) (put_same d1 b _) ∙ p.not_deleted;
    same_key = ap (λ t. key_eq t.key k) (put_same d1 b _) ∙ p.same_key;
    kept = λ used. ap (λ t. t.key) (put_same d1 b _) ∙ p.kept used;
    same_capacity = p.same_capacity;
  }

  -- Reading at a bucket that is in use and holds the key ends there; at one that holds another key it goes on.
  pub iter_hit :
      (fuel : ℕ) (d : HMap K E) (h : ℕ)
      → (d.slots (h % d.capacity)).set ≡ true
      → (d.slots (h % d.capacity)).deleted ≡ false
      → key_eq (d.slots (h % d.capacity)).key k ≡ true
      → dict_iter key_eq (suc fuel) d k none h ≡ some (some (none, h % d.capacity))
  unfolding dict_iter
  iter_hit fuel d h is_set not_deleted same = rw (is_set, not_deleted, same) refl

  pub iter_miss :
      (fuel : ℕ) (d : HMap K E) (h : ℕ)
      → (d.slots (h % d.capacity)).set ≡ true
      → (d.slots (h % d.capacity)).deleted ≡ false
      → key_eq (d.slots (h % d.capacity)).key k ≡ false
      → dict_iter key_eq (suc fuel) d k none h ≡ dict_iter key_eq fuel d k none (h % d.capacity + 1)
  unfolding dict_iter
  iter_miss fuel d h is_set not_deleted other = rw (is_set, not_deleted, other) refl

-- A bucket that is not free is set and not deleted.
pub used_lem :
    {K E : Type 0} (t : Slot K E) → is_free t ≡ false → (t.set ≡ true) × (t.deleted ≡ false)
used_lem t e = go t.set t.deleted e
  where
    go :
        (is_set deleted : Bool)
        → (not is_set || deleted) ≡ false
        → (is_set ≡ true) × (deleted ≡ false)
    go true true e = (refl, e)
    go true false e = (refl, refl)
    go false deleted e = absurd (cc)

module _ {K E : Type 0} (key_eq : K → K → Bool) (k : K) where
  access_cases :
      (free found : Bool) (d d1 here there : HMap K E) (c b : ℕ) (rest : Option (HMap K E × ℕ))
      → ◌≡◌ {A = Option (HMap K E × ℕ)}
          (if free then some (here, c) else if found then some (there, c) else rest)
          (some (d1, b))
      → (c ≡ b) ⊎ ((free ≡ false) × (found ≡ false) × (rest ≡ some (d1, b)))
  access_cases true found d d1 here there c b rest e =
      inl (ap {A = HMap K E × ℕ} (λ r. r.1) (some-injective (here, c) (d1, b) e))
  access_cases false true d d1 here there c b rest e =
      inl (ap {A = HMap K E × ℕ} (λ r. r.1) (some-injective (there, c) (d1, b) e))
  access_cases false false d d1 here there c b rest e = inr (refl, refl, e)

  -- An access ends at its bucket, or it goes on behind one that is in use for another key.
  access_step :
      (fuel : ℕ) (d d1 : HMap K E) (h b : ℕ)
      → dict_access key_eq (suc fuel) d k h ≡ some (d1, b)
      → (hmap_iter_set_ini d h ≡ b)
        ⊎ ((is_free (d.slots (hmap_iter_set_ini d h)) ≡ false)
            × (key_eq (d.slots (hmap_iter_set_ini d h)).key k ≡ false)
            × (dict_access key_eq fuel d k (hmap_iter_set_ini d h + 1) ≡ some (d1, b)))
  unfolding dict_access
  access_step fuel d d1 h b e =
      let c = hmap_iter_set_ini d h in
      access_cases (is_free (d.slots c)) (key_eq (d.slots c).key k) d d1 (hmap_iter_set d k c)
        (hmap_addr d c) c b (dict_access key_eq fuel d k (c + 1)) e

  -- The bucket placed is not one that is in use for another key.
  apart :
      {d d2 : HMap K E} {b : ℕ} (c : ℕ)
      → Placed key_eq k d d2 b
      → is_free (d.slots c) ≡ false
      → key_eq (d.slots c).key k ≡ false
      → c ≢ b
  apart {d} c p used other same = elim p.open_to [
    | inl free ↦ absurd (cc)
    | inr found ↦ absurd (cc)
  ]

  -- Reading the key walks over the buckets that the access walked over.
  walk_lem :
      (fuel : ℕ) (d d1 d2 : HMap K E) (h b : ℕ)
      → d.capacity ≢ 0
      → Placed key_eq k d d2 b
      → dict_access key_eq fuel d k h ≡ some (d1, b)
      → dict_iter key_eq fuel d2 k none h ≡ some (some (none, b))
  unfolding dict_access
  walk_lem zero d d1 d2 h b some_cap p e = absurd (none-ne-some (d1, b) e)
  walk_lem (suc fuel) d d1 d2 h b some_cap p e =
      let c = h % d2.capacity in
      let same : hmap_iter_set_ini d h ≡ c =
        ini_lem d h some_cap ∙ ap (λ m. h % m) (sym p.same_capacity) in
      elim (access_step fuel d d1 h b e) [
        | inl here ↦
            let at_b : c ≡ b = sym same ∙ here in
            iter_hit key_eq k fuel d2 h (ap (λ a. (d2.slots a).set) at_b ∙ p.is_set)
              (ap (λ a. (d2.slots a).deleted) at_b ∙ p.not_deleted)
              (ap (λ a. key_eq (d2.slots a).key k) at_b ∙ p.same_key)
            ∙ ap {B = Option Found} (λ a. some (some (none, a))) at_b
        | inr (used, other, further) ↦
            let used : is_free (d.slots c) ≡ false =
              subst (λ a. is_free (d.slots a) ≡ false) same used in
            let other : key_eq (d.slots c).key k ≡ false =
              subst (λ a. key_eq (d.slots a).key k ≡ false) same other in
            let kept : d2.slots c ≡ d.slots c = p.others c (apart c p used other) in
            let slot = used_lem (d.slots c) used in
            iter_miss key_eq k fuel d2 h (ap (λ t. t.set) kept ∙ slot.0)
              (ap (λ t. t.deleted) kept ∙ slot.1) (ap (λ t. key_eq t.key k) kept ∙ other)
            ∙ walk_lem fuel d d1 d2 (c + 1) b some_cap p
                (subst (λ a. dict_access key_eq fuel d k (a + 1) ≡ some (d1, b)) same further)
      ]

module _ {K E : Type 0} (key_eq : K → K → Bool) (hash : K → ℕ) (k : K) where
  -- A set comes out of an access to the dictionary, grown or not, and an assignment.
  pub set_lem :
      (fuel : ℕ) (fresh : Slot K E) (d d2 : HMap K E) (v : E)
      → dict_set hash key_eq fuel fresh d k v ≡ some d2
      → (d0 : HMap K E) × (d1 : HMap K E) × (b : ℕ) × ((if hmap_grow d
            then dict_grow hash fuel fresh d
            else some d)
          ≡ some d0)
        × (dict_access key_eq fuel d0 k (hash k) ≡ some (d1, b))
        × (assign d1 b v ≡ d2)
  unfolding dict_set
  set_lem fuel fresh d d2 v e =
      grown (if hmap_grow d then dict_grow hash fuel fresh d else some d) refl e
    where
      placed :
          (d0 : HMap K E) (a : Option (HMap K E × ℕ))
          → ◌≡◌ {A = Option (HMap K E)}
              (elim a [ none ↦ none | some (d1, b) ↦ some (assign d1 b v) ])
              (some d2)
          → (d1 : HMap K E) × (b : ℕ) × (a ≡ some (d1, b)) × (assign d1 b v ≡ d2)
      placed d0 none e = absurd (none-ne-some d2 e)
      placed d0 (some (d1, b)) e = (d1, b, refl, some-injective (assign d1 b v) d2 e)

      grown :
          (g : Option (HMap K E))
          → (if hmap_grow d then dict_grow hash fuel fresh d else some d) ≡ g
          → ◌≡◌ {A = Option (HMap K E)}
              (elim g [
                | none ↦ none
                | some d1 ↦ elim (dict_access key_eq fuel d1 k (hash k)) [
                  | none ↦ none
                  | some (d2, b) ↦ some (assign d2 b v)
                ]
              ])
              (some d2)
          → (d0 : HMap K E) × (d1 : HMap K E) × (b : ℕ) × ((if hmap_grow d
                then dict_grow hash fuel fresh d
                else some d)
              ≡ some d0)
            × (dict_access key_eq fuel d0 k (hash k) ≡ some (d1, b))
            × (assign d1 b v ≡ d2)
      grown none g e = absurd (none-ne-some d2 e)
      grown (some d0) g e =
          let (d1, b, access, assigned) = placed d0 (dict_access key_eq fuel d0 k (hash k)) e in
          (d0, d1, b, g, access, assigned)

  -- A key that is found before any deleted bucket is read where it is.
  pub found_lem :
      (fuel b : ℕ) (d : HMap K E)
      → dict_iter key_eq fuel d k none (hash k) ≡ some (some (none, b))
      → dict_get hash key_eq fuel d k ≡ some (some ((d.slots b).value, d))
  unfolding dict_get hmap_val
  found_lem fuel b d e = rw (dict_get, e) refl

  -- A key that was set, whether the dictionary had to grow for it or not, is read back with the value that
  -- was assigned, and reading it leaves the dictionary as it is, provided that `?=` holds of the key and
  -- itself and the dictionary has buckets.
  pub dict_get-dict_set :
      key_eq k k ≡ true
      → (fuel : ℕ) (fresh : Slot K E) (d d2 : HMap K E) (v : E) → d2.capacity ≢ 0
      → dict_set hash key_eq fuel fresh d k v ≡ some d2
      → dict_get hash key_eq fuel d2 k ≡ some (some (v, d2))
  unfolding assign
  dict_get-dict_set same fuel fresh d d2 v some_cap e =
      let (d0, d1, b, grown, access, assigned) = set_lem fuel fresh d d2 v e in
      let p =
        assign-Placed key_eq k v (dict_access-Placed key_eq k same fuel d0 d1 (hash k) b access) in
      let found : dict_iter key_eq fuel (assign d1 b v) k none (hash k) ≡ some (some (none, b)) =
        walk_lem key_eq k fuel d0 d1 (assign d1 b v) (hash k) b
          (λ z. some_cap (ap (λ m. m.capacity) (sym assigned) ∙ p.same_capacity ∙ z)) p access in
      subst (λ m. dict_get hash key_eq fuel m k ≡ some (some (v, m))) assigned
        (found_lem fuel b (assign d1 b v) found
          ∙ (ap {B = Option (Option (E × HMap K E))} (λ t. some (some (t.value, assign d1 b v)))
              (put_same d1 b _)))
