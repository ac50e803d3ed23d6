-- ===== src/Array/Elements.antt =====
-- The methods of arrays that call a function for each element, against functions on lists (src/lib/array.c).
use mathlib.Core.Option.{some-injective, none-ne-some}
use mathlib.Core.List.{append-nil}
use gwion.Prelude.{
  ℕ, zero, suc, ◌-◌, ◌^◌, ◌<◌, ◌≤◌, ◌≡◌, refl, sym, ap, ◌∙◌, some, List, [], ◌∷◌, ◌++◌, length,
  get_elem?, set, take, drop, arith, take_all, drop_all,
}
use gwion.Array.{MVectorOps, run_method, vm_vector_foldl, vm_vector_foldr}
use gwion.Array.Spec
use gwion.Array.Loops.{rounds_to, run_method_lem}

-- The vector of elements holds a list; reading in bounds is reading the list.
pub record MVectorLaws {V E : Type 0} (mv : MVectorOps V E) : Type 0 where
  pub items : V → List E
  pub size_lem : (v : V) → mv.size v ≡ length (items v)
  pub get_lem : (v : V) (i : ℕ) (x : E) → get_elem? (items v) i ≡ some x → mv.get v i ≡ x
  pub items-init_zero : items (mv.init 0) ≡ []
  pub length-init : (n : ℕ) → length (items (mv.init n)) ≡ n
  pub items-set :
      (v : V) (i : ℕ) (x : E) → i < length (items v) → items (mv.set v i x) ≡ set (items v) i x
  pub items-add : (v : V) (x : E) → items (mv.add v x) ≡ items v ++ x ∷ []

pub elem_at :
    {E : Type 0} (xs : List E) (i : ℕ) → i < length xs → (x : E) × (get_elem? xs i ≡ some x)
elem_at [] i below = absurd (omega (arith, below))
elem_at (x ∷ xs) zero below = (x, refl)
elem_at (x ∷ xs) (suc i) below = elem_at xs i (omega (arith, below))

take_next :
    {E : Type 0} (xs : List E) (n : ℕ) (x : E)
    → get_elem? xs n ≡ some x
    → take (suc n) xs ≡ take n xs ++ x ∷ []
take_next [] n x e = absurd (none-ne-some x e)
take_next (y ∷ xs) zero x e = ap (λ z. z ∷ []) (some-injective y x e)
take_next (y ∷ xs) (suc n) x e = ap (λ l. y ∷ l) (take_next xs n x e)

drop_next :
    {E : Type 0} (xs : List E) (n : ℕ) (x : E)
    → get_elem? xs n ≡ some x
    → drop n xs ≡ x ∷ drop (suc n) xs
drop_next [] n x e = absurd (none-ne-some x e)
drop_next (y ∷ xs) zero x e = ap (λ z. z ∷ xs) (some-injective y x e)
drop_next (y ∷ xs) (suc n) x e = drop_next xs n x e

foldl_snoc :
    {E A : Type 0} (g : E → A → A) (a : A) (xs : List E) (x : E)
    → Spec.foldl g a (xs ++ x ∷ []) ≡ g x (Spec.foldl g a xs)
unfolding Spec.foldl
foldl_snoc g a [] x = refl
foldl_snoc g a (y ∷ xs) x = foldl_snoc g (g y a) xs x

-- Rounds that read the elements in order are a fold.
rounds_foldl :
    {E A : Type 0} (step : ℕ → A → A) (g : E → A → A) (xs : List E) (a : A)
    → ((i : ℕ) (x : E) (b : A) → get_elem? xs i ≡ some x → step i b ≡ g x b)
    → (n : ℕ) → n ≤ length xs
    → rounds_to step n a ≡ Spec.foldl g a (take n xs)
unfolding rounds_to Spec.foldl
rounds_foldl step g xs a reads zero below = refl
rounds_foldl step g xs a reads (suc n) below =
    let (x, e) = elem_at xs n (omega (arith, below)) in
    ap (step n) (rounds_foldl step g xs a reads n (omega (arith, below)))
    ∙ reads n x (Spec.foldl g a (take n xs)) e
    ∙ sym (ap (Spec.foldl g a) (take_next xs n x e) ∙ foldl_snoc g a (take n xs) x)

-- Rounds that read them from the last on.
rounds_foldr :
    {E A : Type 0} (step : ℕ → A → A) (g : E → A → A) (xs : List E) (a : A)
    → ((i : ℕ) (x : E) (b : A)
        → i < length xs
        → get_elem? xs (length xs - i - 1) ≡ some x
        → step i b ≡ g x b)
    → (n : ℕ) → n ≤ length xs
    → rounds_to step n a ≡ Spec.foldr g a (drop (length xs - n) xs)
unfolding rounds_to Spec.foldr
rounds_foldr step g xs a reads zero below =
    let whole : length xs - 0 ≡ length xs = omega arith in
    sym (ap (Spec.foldr g a) (ap (λ n. drop n xs) whole ∙ drop_all xs))
rounds_foldr step g xs a reads (suc n) below =
    let k : length xs - n - 1 ≡ length xs - suc n = omega arith in
    let next : suc (length xs - n - 1) ≡ length xs - n = omega (arith, below) in
    let (x, e) = elem_at xs (length xs - n - 1) (omega (arith, below)) in
    ap (step n) (rounds_foldr step g xs a reads n (omega (arith, below)))
    ∙ reads n x (Spec.foldr g a (drop (length xs - n) xs)) (omega (arith, below)) e
    ∙ sym (
        ap (Spec.foldr g a) (
          ap (λ m. drop m xs) (sym k)
          ∙ drop_next xs (length xs - n - 1) x e
          ∙ ap (λ m. x ∷ drop m xs) next))

-- A fold in order that builds a vector builds a list.
pub fold-built :
    {E R F : Type 0} (mw : MVectorOps R F) (laws_w : MVectorLaws mw) (g : E → R → R)
    (h : List E → List F)
    → ((x : E) (r : R) (xs : List E) → laws_w.items (g x r) ++ h xs ≡ laws_w.items r ++ h (x ∷ xs))
    → h [] ≡ []
    → (xs : List E) (r : R) → laws_w.items (Spec.foldl g r xs) ≡ laws_w.items r ++ h xs
unfolding Spec.foldl
fold-built mw laws_w g h one none_left [] r =
    sym (ap (λ l. laws_w.items r ++ l) none_left ∙ append-nil (laws_w.items r))
fold-built mw laws_w g h one none_left (x ∷ xs) r =
    fold-built mw laws_w g h one none_left xs (g x r) ∙ one x r xs

module _ {V E : Type 0} (mv : MVectorOps V E) (laws : MVectorLaws mv) (fuel : ℕ) (self : V)
    (small : mv.size self < 2 ^ 16) (enough : mv.size self ≤ fuel) where
  pub in_order :
      {A : Type 0} (step : ℕ → A → A) (g : E → A → A) (a : A)
      → ((i : ℕ) (x : E) (b : A) → get_elem? (laws.items self) i ≡ some x → step i b ≡ g x b)
      → run_method step (mv.size self) fuel a ≡ some (Spec.foldl g a (laws.items self))
  in_order step g a reads =
      let long = laws.size_lem self in
      run_method_lem step (mv.size self) fuel a small enough
      ∙ ap some (
          ap (λ n. rounds_to step n a) long
          ∙ rounds_foldl step g (laws.items self) a reads (length (laws.items self)) (omega arith)
          ∙ ap (Spec.foldl g a) (take_all (laws.items self)))

  pub foldl_lem :
      (f : E → E → E) (a : E)
      → vm_vector_foldl mv f fuel self a ≡ some (Spec.foldl f a (laws.items self))
  unfolding vm_vector_foldl
  foldl_lem f a =
      in_order (λ index b. f (mv.get self index) b) f a
        (λ i x b e. ap (λ y. f y b) (laws.get_lem self i x e))

  pub foldr_lem :
      (f : E → E → E) (a : E)
      → vm_vector_foldr mv f fuel self a ≡ some (Spec.foldr f a (laws.items self))
  unfolding vm_vector_foldr
  foldr_lem f a =
      let long = laws.size_lem self in
      let step = λ (index : ℕ) (b : E). f (mv.get self (mv.size self - index - 1)) b in
      let zero_left : length (laws.items self) - length (laws.items self) ≡ 0 = omega arith in
      run_method_lem step (mv.size self) fuel a small enough
      ∙ ap some (
          ap (λ n. rounds_to step n a) long
          ∙ rounds_foldr step f (laws.items self) a
              (λ i x b below e.
                ap (λ y. f y b)
                  (ap (λ n. mv.get self (n - i - 1)) long
                    ∙ laws.get_lem self (length (laws.items self) - i - 1) x e))
              (length (laws.items self)) (omega arith)
          ∙ ap (λ n. Spec.foldr f a (drop n (laws.items self))) zero_left)
