-- ===== src/Prelude/Lists.antt =====
-- Lists measured and indexed by native numbers, under the library's names, and lists of
-- addresses with a Boolean membership test.
use Prim.Native.Nat.{ℕ, zero, suc, ◌+◌}
use mathlib.Core.Path.{◌≡◌, refl}
use mathlib.Core.Bool.{Bool, true, false, ◌||◌}
use mathlib.Core.List.{List, [], ◌∷◌, ◌++◌}
use mathlib.Core.Option.{Option, none, some}
use native.Mathlib.Omega.{arith}
use mathlib.Core.Logic.{inl, inr}
use gwion.Prelude.Tests.{Bool-cases, ◌==◌, if◌then◌else◌}

module _ {ℓ} {A : Type ℓ} where
  abbrev pub length : List A → ℕ
  length [] = 0
  length (x ∷ xs) = suc (length xs)

  abbrev pub get_elem? : List A → ℕ → Option A
  get_elem? [] i = none
  get_elem? (x ∷ xs) zero = some x
  get_elem? (x ∷ xs) (suc i) = get_elem? xs i

  abbrev pub get_or : List A → ℕ → A → A
  get_or [] i d = d
  get_or (x ∷ xs) zero d = x
  get_or (x ∷ xs) (suc i) d = get_or xs i d

  -- A write out of bounds changes nothing.
  abbrev pub set : List A → ℕ → A → List A
  set [] i v = []
  set (x ∷ xs) zero v = v ∷ xs
  set (x ∷ xs) (suc i) v = x ∷ set xs i v

  abbrev pub take : ℕ → List A → List A
  take zero xs = []
  take (suc n) [] = []
  take (suc n) (x ∷ xs) = x ∷ take n xs

  abbrev pub drop : ℕ → List A → List A
  drop zero xs = xs
  drop (suc n) [] = []
  drop (suc n) (x ∷ xs) = drop n xs

  pub length-append : (xs ys : List A) → length (xs ++ ys) ≡ length xs + length ys
  length-append [] ys = omega arith
  length-append (x ∷ xs) ys = omega (arith, length-append xs ys)

abbrev pub has : ℕ → List ℕ → Bool
has a [] = false
has a (x ∷ xs) = (a == x) || has a xs

infix 40 ◌∈◌ ◌∉◌
abbrev pub ◌∈◌ : ℕ → List ℕ → Type 0
a ∈ xs = has a xs ≡ true

abbrev pub ◌∉◌ : ℕ → List ℕ → Type 0
a ∉ xs = has a xs ≡ false

abbrev pub All {ℓ κ} : {A : Type ℓ} → (A → Type κ) → List A → Type κ
All P [] = Unit
All P (x ∷ xs) = P x × All P xs

-- No address occurs twice.
abbrev pub Distinct : List ℕ → Type 0
Distinct [] = Unit
Distinct (x ∷ xs) = (x ∉ xs) × Distinct xs

-- The list without the first occurrence of a value.
unfoldable pub erase : ℕ → List ℕ → List ℕ
erase x [] = []
erase x (y ∷ ys) = if x == y then ys else y ∷ erase x ys

pub erase_of_not_mem : (x : ℕ) (ys : List ℕ) → x ∉ ys → erase x ys ≡ ys
unfolding erase
erase_of_not_mem x [] out = refl
erase_of_not_mem x (y ∷ ys) out = ground (arith, erase_of_not_mem x ys)

pub not-mem-erase : (a x : ℕ) (ys : List ℕ) → a ∉ ys → a ∉ erase x ys
unfolding erase
not-mem-erase a x [] out = refl
not-mem-erase a x (y ∷ ys) out = ground (arith, not-mem-erase a x ys)

pub not-mem-erase_self : (x : ℕ) (ys : List ℕ) → Distinct ys → x ∉ erase x ys
unfolding erase
not-mem-erase_self x [] d = refl
not-mem-erase_self x (y ∷ ys) d = ground (arith, not-mem-erase_self x ys)

pub Distinct-erase : (x : ℕ) (ys : List ℕ) → Distinct ys → Distinct (erase x ys)
unfolding erase
Distinct-erase x [] d = tt
Distinct-erase x (y ∷ ys) d = elim (Bool-cases (x == y)) [
  | inl here ↦ rw here d.1
  | inr there ↦ rw there (not-mem-erase y x ys d.0, Distinct-erase x ys d.1)
]

pub All-erase {κ} : (P : ℕ → Type κ) (x : ℕ) (ys : List ℕ) → All P ys → All P (erase x ys)
unfolding erase
All-erase P x [] d = tt
All-erase P x (y ∷ ys) d = elim (Bool-cases (x == y)) [
  | inl here ↦ rw here d.1
  | inr there ↦ rw there (d.0, All-erase P x ys d.1)
]
