-- ===== src/Array/Build.antt =====
-- `map`, which sets the elements of an array made before, and `count` (src/lib/array.c).
use mathlib.Core.Option.{some-injective, none-ne-some}
use gwion.Prelude.{
  ℕ, zero, suc, ◌+◌, ◌%◌, ◌^◌, ◌<◌, ◌≤◌, ◌≡◌, refl, sym, ap, ◌∙◌, Bool, some, List, [], ◌∷◌, ◌++◌,
  length, get_elem?, set, take, drop, if◌then◌else◌, arith, Bool-cases, inl, inr,
}
use gwion.Word.{word_mod}
use gwion.Array.{MVectorOps, vm_vector_map, vm_vector_count}
use gwion.Array.Spec
use gwion.Array.Loops.{rounds_to, run_method_lem}
use gwion.Array.Elements.{MVectorLaws, elem_at, in_order}

length-map : {E R : Type 0} (f : E → R) (xs : List E) → length (Spec.map f xs) ≡ length xs
unfolding Spec.map
length-map f [] = refl
length-map f (x ∷ xs) = ap suc (length-map f xs)

get_elem?-map :
    {E R : Type 0} (f : E → R) (xs : List E) (i : ℕ) (x : E)
    → get_elem? xs i ≡ some x
    → get_elem? (Spec.map f xs) i ≡ some (f x)
unfolding Spec.map
get_elem?-map f [] i x e = absurd (none-ne-some x e)
get_elem?-map f (y ∷ xs) zero x e = ap (λ z. some (f z)) (some-injective y x e)
get_elem?-map f (y ∷ xs) (suc i) x e = get_elem?-map f xs i x e

-- What a list is when the elements before `n` are those of `ys`.
set_next :
    {R : Type 0} (ys zs : List R) (n : ℕ) (y : R)
    → get_elem? ys n ≡ some y
    → n < length zs
    → set (take n ys ++ drop n zs) n y ≡ take (suc n) ys ++ drop (suc n) zs
set_next [] zs n y e below = absurd (none-ne-some y e)
set_next (x ∷ ys) [] n y e below = absurd (omega (arith, below))
set_next (x ∷ ys) (z ∷ zs) zero y e below = ap (λ w. w ∷ zs) (sym (some-injective x y e))
set_next (x ∷ ys) (z ∷ zs) (suc n) y e below =
    ap (λ l. x ∷ l) (set_next ys zs n y e (omega (arith, below)))

length-set_next :
    {R : Type 0} (ys zs : List R) (n : ℕ)
    → length ys ≡ length zs
    → length (take n ys ++ drop n zs) ≡ length zs
length-set_next ys zs zero e = refl
length-set_next [] [] (suc n) e = refl
length-set_next [] (z ∷ zs) (suc n) e = absurd (omega (arith, e))
length-set_next (y ∷ ys) [] (suc n) e = absurd (omega (arith, e))
length-set_next (y ∷ ys) (z ∷ zs) (suc n) e = ap suc (length-set_next ys zs n (omega (arith, e)))

whole_set :
    {R : Type 0} (ys zs : List R)
    → length ys ≡ length zs
    → take (length ys) ys ++ drop (length ys) zs ≡ ys
whole_set [] [] e = refl
whole_set [] (z ∷ zs) e = absurd (omega (arith, e))
whole_set (y ∷ ys) [] e = absurd (omega (arith, e))
whole_set (y ∷ ys) (z ∷ zs) e = ap (λ l. y ∷ l) (whole_set ys zs (omega (arith, e)))

module _ {V E : Type 0} (mv : MVectorOps V E) (laws : MVectorLaws mv) (self : V) (f : E → E) where
  new_items : List E
  new_items = Spec.map f (laws.items self)

  made : V
  made = mv.init (mv.size self)

  map_rounds :
      (n : ℕ)
      → n ≤ length (laws.items self)
      → laws.items (rounds_to (λ index ret. mv.set ret index (f (mv.get self index))) n made)
        ≡ take n new_items ++ drop n (laws.items made)
  unfolding rounds_to made new_items
  map_rounds zero below = refl
  map_rounds (suc n) below =
      let step = λ (index : ℕ) (ret : V). mv.set ret index (f (mv.get self index)) in
      let before = map_rounds n (omega (arith, below)) in
      let (x, e) = elem_at (laws.items self) n (omega (arith, below)) in
      let long = made_length in
      let same = length-map f (laws.items self) in
      let kept : length (laws.items (rounds_to step n made)) ≡ length (laws.items made) =
        ap length before
        ∙ length-set_next new_items (laws.items made) n (omega (arith, same, long)) in
      ap (λ y. laws.items (mv.set (rounds_to step n made) n (f y))) (laws.get_lem self n x e)
      ∙ laws.items-set (rounds_to step n made) n (f x) (omega (arith, kept, long, below))
      ∙ ap (λ l. set l n (f x)) before
      ∙ set_next new_items (laws.items made) n (f x) (get_elem?-map f (laws.items self) n x e)
          (omega (arith, long, below))
    where
      made_length : length (laws.items made) ≡ length (laws.items self)
      made_length = laws.length-init (mv.size self) ∙ laws.size_lem self

  pub map_lem :
      (fuel : ℕ)
      → mv.size self < 2 ^ 16
      → mv.size self ≤ fuel
      → (out : V) × (vm_vector_map mv f fuel self ≡ some out)
        × (laws.items out ≡ Spec.map f (laws.items self))
  unfolding vm_vector_map made new_items Spec.map
  map_lem fuel small enough =
      let step = λ (index : ℕ) (ret : V). mv.set ret index (f (mv.get self index)) in
      let long = laws.length-init (mv.size self) ∙ laws.size_lem self in
      let same = length-map f (laws.items self) in
      (
        rounds_to step (mv.size self) made,
        run_method_lem step (mv.size self) fuel made small enough,
        ap (λ n. laws.items (rounds_to step n made)) (laws.size_lem self)
            ∙ map_rounds (length (laws.items self)) (omega arith)
            ∙ ap (λ n. take n new_items ++ drop n (laws.items made)) (sym same)
            ∙ whole_set new_items (laws.items made) (same ∙ sym long),
      )

count_rounds :
    {E : Type 0} (f : E → Bool) (xs : List E) (n : ℕ)
    → n + length xs < 2 ^ 16
    → Spec.foldl (λ x k. if f x then (k + 1) % word_mod else k) n xs ≡ n + length (Spec.filter f xs)
unfolding Spec.foldl Spec.filter
count_rounds f [] n small = omega arith
count_rounds f (x ∷ xs) n small = elim (Bool-cases (f x)) [
  | inl counted ↦
      let next : (n + 1) % word_mod ≡ suc n = omega (arith, small) in
      rw (counted, next)
        (let rest = count_rounds f xs (suc n) (omega (arith, small)) in rest ∙ omega arith)
  | inr left_out ↦ rw left_out (count_rounds f xs n (omega (arith, small)))
]

module _ {V E : Type 0} (mv : MVectorOps V E) (laws : MVectorLaws mv) (fuel : ℕ) (self : V)
    (small : mv.size self < 2 ^ 16) (enough : mv.size self ≤ fuel) where
  pub count_lem :
      (f : E → Bool)
      → vm_vector_count mv f fuel self ≡ some (length (Spec.filter f (laws.items self)))
  unfolding vm_vector_count
  count_lem f =
      let long = laws.size_lem self in
      in_order mv laws fuel self small enough
        (λ index n. if f (mv.get self index) then (n + 1) % word_mod else n)
        (λ x n. if f x then (n + 1) % word_mod else n) 0
        (λ i x b e. ap (λ y. if f y then (b + 1) % word_mod else b) (laws.get_lem self i x e))
      ∙ ap some (
          let whole : 0 + length (Spec.filter f (laws.items self))
              ≡ length (Spec.filter f (laws.items self)) =
            omega arith in
          count_rounds f (laws.items self) 0 (omega (arith, long, small)) ∙ whole)
