-- ===== src/Prelude/Parts.antt =====
-- Lemmas on the parts of lists that `take` and `drop` give.
use Prim.Native.Nat.{ℕ, zero, suc, ◌+◌, ◌-◌, ◌≤◌}
use Prim.Native.Nat.add
use mathlib.Core.Path.{◌≡◌, refl, sym, ap, ◌∙◌}
use mathlib.Core.List.{List, [], ◌∷◌, ◌++◌}
use native.Mathlib.Omega.{arith}
use gwion.Prelude.Lists.{length, set, take, drop}

module _ {ℓ} {A : Type ℓ} where
  pub length-set : (xs : List A) (i : ℕ) (v : A) → length (set xs i v) ≡ length xs
  length-set [] i v = refl
  length-set (x ∷ xs) zero v = refl
  length-set (x ∷ xs) (suc i) v = ap suc (length-set xs i v)

  pub length-take : (n : ℕ) (xs : List A) → n ≤ length xs → length (take n xs) ≡ n
  length-take zero xs below = refl
  length-take (suc n) [] below = absurd (omega (arith, below))
  length-take (suc n) (x ∷ xs) below = ap suc (length-take n xs (omega (arith, below)))

  pub length-drop : (n : ℕ) (xs : List A) → length (drop n xs) ≡ length xs - n
  length-drop zero xs = omega arith
  length-drop (suc n) [] = omega arith
  length-drop (suc n) (x ∷ xs) = let rest = length-drop n xs in rest ∙ omega arith

  pub drop_nil : (n : ℕ) → drop {A = A} n [] ≡ []
  drop_nil zero = refl
  drop_nil (suc n) = refl

  pub drop-drop : (xs : List A) (i j : ℕ) → drop (i + j) xs ≡ drop j (drop i xs)
  drop-drop [] zero j = rw add.zero
  drop-drop [] (suc i) j = rw add.suc (sym (drop_nil j))
  drop-drop (x ∷ xs) zero j = rw add.zero
  drop-drop (x ∷ xs) (suc i) j = rw add.suc (drop-drop xs i j)

  pub drop_all : (xs : List A) → drop (length xs) xs ≡ []
  drop_all [] = refl
  drop_all (x ∷ xs) = drop_all xs

  pub take_all : (xs : List A) → take (length xs) xs ≡ xs
  take_all [] = refl
  take_all (x ∷ xs) = ap (λ l. x ∷ l) (take_all xs)

  pub take_rest : (n : ℕ) (xs : List A) → take (length xs - n) (drop n xs) ≡ drop n xs
  take_rest n xs = ap (λ m. take m (drop n xs)) (sym (length-drop n xs)) ∙ take_all (drop n xs)

  pub split : (n : ℕ) (xs : List A) → xs ≡ take n xs ++ drop n xs
  split zero xs = refl
  split (suc n) [] = refl
  split (suc n) (x ∷ xs) = ap (λ l. x ∷ l) (split n xs)
