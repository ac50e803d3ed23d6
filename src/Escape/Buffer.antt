-- ===== src/Escape/Buffer.antt =====
-- A buffer that is read at one position and written behind it.
use Prim.Native.Nat.add
use native.Mathlib.Nat.{add-zero}
use gwion.Prelude.{
  ℕ, zero, suc, ◌+◌, ◌<◌, ◌≡◌, refl, List, [], ◌∷◌, ◌++◌, arith, get_elem?, set, length, ap, ◌∙◌,
  take, drop,
}

module _ {ℓ} {A : Type ℓ} where
  pub get_elem?-drop : (xs : List A) (i k : ℕ) → get_elem? xs (i + k) ≡ get_elem? (drop i xs) k
  get_elem?-drop [] zero k = refl
  get_elem?-drop [] (suc i) k = refl
  get_elem?-drop (x ∷ xs) zero k = rw add.zero
  get_elem?-drop (x ∷ xs) (suc i) k = rw add.suc (get_elem?-drop xs i k)

  pub drop-set : (xs : List A) (i j : ℕ) (v : A) → i < j → drop j (set xs i v) ≡ drop j xs
  drop-set [] i j v h = refl
  drop-set (x ∷ xs) i zero v h = elim h [ ]
  drop-set (x ∷ xs) zero (suc j) v h = refl
  drop-set (x ∷ xs) (suc i) (suc j) v h = drop-set xs i j v (omega arith)

  pub take-set :
      (xs : List A) (i : ℕ) (v : A)
      → i < length xs
      → take (suc i) (set xs i v) ≡ take i xs ++ v ∷ []
  take-set [] i v h = elim h [ ]
  take-set (x ∷ xs) zero v h = refl
  take-set (x ∷ xs) (suc i) v h = ap (λ ys. x ∷ ys) (take-set xs i v (omega arith))

  -- What stands `k` places behind the reading position.
  pub ahead : (xs ys : List A) (i k : ℕ) → drop i xs ≡ ys → get_elem? xs (i + k) ≡ get_elem? ys k
  ahead xs ys i k e = get_elem?-drop xs i k ∙ ap (λ zs. get_elem? zs k) e

  pub here : (xs ys : List A) (i : ℕ) → drop i xs ≡ ys → get_elem? xs i ≡ get_elem? ys 0
  here xs ys i e = rw add-zero at (ahead xs ys i 0 e)

  pub length-drop-pos : (xs ys : List A) (y : A) (i : ℕ) → drop i xs ≡ y ∷ ys → i < length xs
  length-drop-pos [] ys y zero e = absurd (omega (arith, ap length e))
  length-drop-pos [] ys y (suc i) e = absurd (omega (arith, ap length e))
  length-drop-pos (x ∷ xs) ys y zero e = omega arith
  length-drop-pos (x ∷ xs) ys y (suc i) e = omega (arith, length-drop-pos xs ys y i e)
