-- ===== src/Array/Spec.antt =====
-- What the methods of arrays are to do, on lists.
use gwion.Prelude.{ℕ, ◌+◌, ◌%◌, ltb, Bool, Option, none, some, List, [], ◌∷◌, if◌then◌else◌}

unfoldable pub filter : {E : Type 0} → (E → Bool) → List E → List E
filter f [] = []
filter f (x ∷ xs) = if f x then x ∷ filter f xs else filter f xs

unfoldable pub compact : {E R : Type 0} → (E → Option R) → List E → List R
compact f [] = []
compact f (x ∷ xs) = elim (f x) [ none ↦ compact f xs | some y ↦ y ∷ compact f xs ]

unfoldable pub map : {E R : Type 0} → (E → R) → List E → List R
map f [] = []
map f (x ∷ xs) = f x ∷ map f xs

unfoldable pub foldl : {E A : Type 0} → (E → A → A) → A → List E → A
foldl f a [] = a
foldl f a (x ∷ xs) = foldl f (f x a) xs

unfoldable pub foldr : {E A : Type 0} → (E → A → A) → A → List E → A
foldr f a [] = a
foldr f a (x ∷ xs) = f x (foldr f a xs)

-- The end of a slice: a signed number, counted from the size when it is negative.
unfoldable pub end_of : (size stop : ℕ) → ℕ
end_of size stop =
    if ltb stop 9223372036854775808 then stop else (size + stop) % 18446744073709551616
