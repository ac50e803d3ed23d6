-- ===== src/Dict/Ends.antt =====
-- When writing a key into a dictionary ends (src/lib/dict.c).
use mathlib.Core.Option.{some-ne-none}
use native.Mathlib.Nat.{mod-lt, mod-eq_of_lt, mod-add-mod, add-mod_right}
use gwion.Prelude.{
  ℕ, zero, suc, ◌+◌, ◌*◌, ◌-◌, ◌%◌, ◌<◌, ◌≤◌, ◌≡◌, ◌≢◌, refl, sym, ap, ◌∙◌, Bool, true, false,
  Option, none, some, if◌then◌else◌, arith,
}
use gwion.Dict.{HMap, is_free, hmap_iter_set_ini, hmap_iter_set, hmap_addr, dict_access}
use gwion.Dict.Probe.{ini_lem}

-- An access ends before the fuel does if there is a free bucket.
module _ {K E : Type 0} (key_eq : K → K → Bool) (k : K) where
  free_ends :
      (fuel : ℕ) (d : HMap K E) (h : ℕ)
      → is_free (d.slots (hmap_iter_set_ini d h)) ≡ true
      → dict_access key_eq (suc fuel) d k h ≢ none
  unfolding dict_access
  free_ends fuel d h free e =
      some-ne-none (hmap_iter_set d k (hmap_iter_set_ini d h), hmap_iter_set_ini d h)
        (sym (rw (dict_access, free) refl) ∙ e)

  -- It ends if it ends from the next bucket.
  later_ends :
      (fuel : ℕ) (d : HMap K E) (h : ℕ)
      → dict_access key_eq fuel d k (hmap_iter_set_ini d h + 1) ≢ none
      → dict_access key_eq (suc fuel) d k h ≢ none
  unfolding dict_access
  later_ends fuel d h further =
      let c = hmap_iter_set_ini d h in
      go (hmap_iter_set d k c, c) (hmap_addr d c, c) (is_free (d.slots c))
        (key_eq (d.slots c).key k) (dict_access key_eq fuel d k (c + 1)) further
    where
      go :
          {X : Type 0} (x y : X) (free found : Bool) (rest : Option X)
          → rest ≢ none
          → (if free then some x else if found then some y else rest) ≢ none
      go x y true found rest further e = some-ne-none x e
      go x y false true rest further e = some-ne-none y e
      go x y false false rest further e = further e

  -- `n` buckets ahead of the hash, around the table, there is a free one.
  ahead_lem :
      (fuel n : ℕ) (d : HMap K E) (h : ℕ)
      → d.capacity ≢ 0
      → is_free (d.slots ((h + n) % d.capacity)) ≡ true
      → n < fuel
      → dict_access key_eq fuel d k h ≢ none
  ahead_lem zero n d h some_cap free below e = absurd (omega arith)
  ahead_lem (suc fuel) zero d h some_cap free below e =
      free_ends fuel d h
        (ap (λ a. is_free (d.slots a))
            (ini_lem d h some_cap ∙ ap (λ a. a % d.capacity) (omega arith))
          ∙ free)
        e
  ahead_lem (suc fuel) (suc n) d h some_cap free below e =
      later_ends fuel d h
        (ahead_lem fuel n d (hmap_iter_set_ini d h + 1) some_cap
          (ap (λ a. is_free (d.slots a))
              (ap (λ a. (a + 1 + n) % d.capacity) (ini_lem d h some_cap)
                ∙ ap (λ a. a % d.capacity) (omega arith)
                ∙ mod-add-mod h d.capacity (suc n))
            ∙ free)
          (omega arith))
        e

  -- The access for a key ends, whatever its hash, as soon as one bucket is free, with fuel for two rounds of
  -- the table.
  pub dict_access-total :
      (fuel : ℕ) (d : HMap K E) (h f : ℕ)
      → f < d.capacity
      → is_free (d.slots f) ≡ true
      → 2 * d.capacity ≤ fuel
      → dict_access key_eq fuel d k h ≢ none
  dict_access-total fuel d h f below free enough =
      let cap : d.capacity ≢ 0 = λ z. omega (arith, below, z) in
      let wrapped = mod-lt h {m = d.capacity} (omega (arith, below)) in
      ahead_lem fuel (f + (d.capacity - h % d.capacity)) d h cap
        (ap (λ a. is_free (d.slots a))
            (sym (mod-add-mod h d.capacity (f + (d.capacity - h % d.capacity)))
              ∙ ap (λ a. a % d.capacity) (omega (arith, wrapped))
              ∙ add-mod_right f d.capacity
              ∙ mod-eq_of_lt below)
          ∙ free)
        (omega (arith, wrapped, below, enough))
