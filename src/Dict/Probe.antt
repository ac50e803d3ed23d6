-- ===== src/Dict/Probe.antt =====
-- The walks over the buckets of a dictionary (src/lib/dict.c): one that writes a key, one that reads it.
use mathlib.Core.Path.{subst}
use mathlib.Core.Option.{some-injective, none-ne-some}
use native.Mathlib.Nat.{mod-eq_of_lt}
use gwion.Prelude.{
  leb→lt, ℕ, zero, suc, ◌+◌, ◌%◌, ◌≡◌, ◌≢◌, ◌⊎◌, inl, inr, refl, sym, ap, ◌∙◌, Bool, true, false,
  Option, some, leb, if◌then◌else◌, Bool-cases, ne→==, ==-refl,
}
use gwion.Dict.{
  Slot, HMap, is_free, put_slot, hmap_iter_set_ini, hmap_iter_set, hmap_addr, dict_access,
}

-- Below the capacity, or wrapped around it once, a bucket is a remainder.
pub ini_lem :
    {K E : Type 0} (d : HMap K E) (h : ℕ) → d.capacity ≢ 0 → hmap_iter_set_ini d h ≡ h % d.capacity
unfolding hmap_iter_set_ini
ini_lem d h some_cap = elim (Bool-cases (leb d.capacity h)) [
  | inl over ↦ rw over refl
  | inr under ↦ rw under (sym (mod-eq_of_lt (leb→lt d.capacity h under)))
]

-- The bucket that an access leaves holds the key, and the key that was in it if it was in use; every other
-- bucket is as before.
pub record Placed {K E : Type 0} (key_eq : K → K → Bool) (k : K) (d d' : HMap K E) (b : ℕ)
    : Type 0 where
  pub open_to : (is_free (d.slots b) ≡ true) ⊎ (key_eq (d.slots b).key k ≡ true)
  pub others : (a : ℕ) → a ≢ b → d'.slots a ≡ d.slots a
  pub is_set : (d'.slots b).set ≡ true
  pub not_deleted : (d'.slots b).deleted ≡ false
  pub same_key : key_eq (d'.slots b).key k ≡ true
  pub kept : is_free (d.slots b) ≡ false → (d'.slots b).key ≡ (d.slots b).key
  pub same_capacity : d'.capacity ≡ d.capacity

module _ {K E : Type 0} where
  pub put_same : (d : HMap K E) (b : ℕ) (t : Slot K E) → (put_slot d b t).slots b ≡ t
  put_same d b t = rw (==-refl b) refl

  pub put_other :
      (d : HMap K E) (b : ℕ) (t : Slot K E) (a : ℕ) → a ≢ b → (put_slot d b t).slots a ≡ d.slots a
  put_other d b t a ne = rw (ne→== a b ne) refl

module _ {K E : Type 0} (key_eq : K → K → Bool) (k : K) (same : key_eq k k ≡ true) where
  set_Placed :
      (d : HMap K E) (c : ℕ)
      → is_free (d.slots c) ≡ true
      → Placed key_eq k d (hmap_iter_set d k c) c
  unfolding hmap_iter_set
  set_Placed d c free = record {
    open_to = inl free;
    others = λ a ne. put_other d c _ a ne;
    is_set = ap (λ t. t.set) (put_same d c _);
    not_deleted = ap (λ t. t.deleted) (put_same d c _);
    same_key = ap (λ t. key_eq t.key k) (put_same d c _) ∙ same;
    kept = λ used. absurd (cc);
    same_capacity = refl;
  }

  addr_Placed :
      (d : HMap K E) (c : ℕ) → key_eq (d.slots c).key k ≡ true → Placed key_eq k d (hmap_addr d c) c
  unfolding hmap_addr
  addr_Placed d c found = record {
    open_to = inr found;
    others = λ a ne. put_other d c _ a ne;
    is_set = ap (λ t. t.set) (put_same d c _);
    not_deleted = ap (λ t. t.deleted) (put_same d c _);
    same_key = ap (λ t. key_eq t.key k) (put_same d c _) ∙ found;
    kept = λ used. ap (λ t. t.key) (put_same d c _);
    same_capacity = refl;
  }

  moved_Placed :
      {d d1 d2 : HMap K E} {b c : ℕ}
      → Placed key_eq k d d1 c
      → ◌≡◌ {A = Option (HMap K E × ℕ)} (some (d1, c)) (some (d2, b))
      → Placed key_eq k d d2 b
  moved_Placed {d} {d1} {d2} {b} {c} placed e =
      subst {A = HMap K E × ℕ} (λ r. Placed key_eq k d r.0 r.1) (some-injective (d1, c) (d2, b) e)
        placed

  step_Placed :
      (free found : Bool) (d d' : HMap K E) (c b : ℕ) (rest : Option (HMap K E × ℕ))
      → is_free (d.slots c) ≡ free
      → key_eq (d.slots c).key k ≡ found
      → (if free
          then some (hmap_iter_set d k c, c)
          else if found
          then some (hmap_addr d c, c)
          else rest)
        ≡ some (d', b)
      → (rest ≡ some (d', b) → Placed key_eq k d d' b)
      → Placed key_eq k d d' b
  step_Placed true found d d' c b rest free_e found_e e further =
      moved_Placed (set_Placed d c free_e) e
  step_Placed false true d d' c b rest free_e found_e e further =
      moved_Placed (addr_Placed d c found_e) e
  step_Placed false false d d' c b rest free_e found_e e further = further e

  pub dict_access-Placed :
      (fuel : ℕ) (d d' : HMap K E) (h b : ℕ)
      → dict_access key_eq fuel d k h ≡ some (d', b)
      → Placed key_eq k d d' b
  unfolding dict_access
  dict_access-Placed zero d d' h b e = absurd (none-ne-some (d', b) e)
  dict_access-Placed (suc fuel) d d' h b e =
      let c = hmap_iter_set_ini d h in
      step_Placed _ _ d d' c b (dict_access key_eq fuel d k (c + 1)) refl refl e
        (dict_access-Placed fuel d d' (c + 1) b)
