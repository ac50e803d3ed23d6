-- ===== src/Ugen/Wiring.antt =====
-- How often one unit generator feeds another, on both of its ends (src/lib/ugen.c).
use gwion.Prelude.{
  ℕ, ◌+◌, ◌-◌, ◌%◌, ◌^◌, ◌≡◌, inl, inr, refl, sym, ap, ◌∙◌, Bool, true, false, List, [], ◌∷◌, ◌++◌,
  ◌==◌, if◌then◌else◌, arith, Bool-cases, ==→eq, erase,
}
use gwion.Vector.{VectorOps, VectorLaws}
use gwion.Ugen.{UGen, UGens, set_ugen, onnect, func_from, func_to, sized}

-- `vector_rem2` takes out the first entry that is equal.
pub record RemoveLaws {V : Type 0} (o : VectorOps V) (laws : VectorLaws o) : Type 0 where
  pub items-remove : (v : V) (x : ℕ) → laws.items (o.rem2 v x) ≡ erase x (laws.items v)

unfoldable pub times : ℕ → List ℕ → ℕ
times x [] = 0
times x (y ∷ ys) = if y == x then times x ys + 1 else times x ys

abbrev pub one_if : Bool → ℕ
one_if b = if b then 1 else 0

-- A function that changes how often its second argument occurs, and nothing else.
abbrev pub Shifts : {V : Type 0} {o : VectorOps V} → VectorLaws o → (V → ℕ → V) → (ℕ → ℕ) → Type 0
Shifts {V} laws func e =
    (v : V) (x y : ℕ)
    → times x (laws.items (func v y))
      ≡ (if x == y then e (times x (laws.items v)) else times x (laws.items v))

times-append :
    (x y : ℕ) (ys : List ℕ)
    → times x (ys ++ y ∷ []) ≡ (if x == y then times x ys + 1 else times x ys)
unfolding times
times-append x y [] = ground arith
times-append x y (z ∷ ys) = ground (arith, times-append x y ys)

times-erase :
    (x y : ℕ) (ys : List ℕ) → times x (erase y ys) ≡ (if x == y then times x ys - 1 else times x ys)
unfolding times erase
times-erase x y [] = ground arith
times-erase x y (z ∷ ys) = ground (arith, times-erase x y ys)

pub add-Shifts :
    {V : Type 0} {o : VectorOps V} (laws : VectorLaws o) → Shifts laws o.add (λ n. n + 1)
add-Shifts laws v x y = ap (times x) (laws.items-add v y) ∙ times-append x y (laws.items v)

pub rem2-Shifts :
    {V : Type 0} {o : VectorOps V} (laws : VectorLaws o)
    → RemoveLaws o laws
    → Shifts laws o.rem2 (λ n. n - 1)
rem2-Shifts laws remove v x y =
    ap (times x) (remove.items-remove v y) ∙ times-erase x y (laws.items v)

-- A field that is kept by the new value is kept everywhere.
pub set_kept :
    {V X : Type 0} (p : UGen V → X) (g : UGens V) (u : ℕ) (x : UGen V) (a : ℕ)
    → p x ≡ p (g u)
    → p (set_ugen g u x a) ≡ p (g a)
set_kept p g u x a same = elim (Bool-cases (a == u)) [
  | inl at ↦ rw at (same ∙ ap (λ b. p (g b)) (sym (==→eq a u at)))
  | inr off ↦ rw off refl
]

module _ {V : Type 0} (vo : VectorOps V) (func : V → ℕ → V) (g : UGens V) (lhs rhs : ℕ) where
  abbrev g1 : UGens V
  g1 = set_ugen g rhs (func_from vo func g lhs rhs)

  abbrev g2 : UGens V
  g2 = set_ugen g1 lhs (func_to vo func g1 lhs rhs)

  -- What is neither a vector nor the size is kept.
  pub onnect_kept :
      {X : Type 0} (p : UGen V → X)
      → ((u : UGen V) (v : V) → p (record u { from = v }) ≡ p u)
      → ((u : UGen V) (v : V) → p (record u { to = v }) ≡ p u)
      → ((u : UGen V) (n : ℕ) → p (record u { size = n }) ≡ p u)
      → (a : ℕ) → p (onnect vo func g lhs rhs a) ≡ p (g a)
  unfolding onnect
  onnect_kept p from to size a =
      set_kept p g2 rhs (sized vo g2 rhs) a (size (g2 rhs) (vo.size (g2 rhs).from % 2 ^ 16))
      ∙ set_kept p g1 lhs (func_to vo func g1 lhs rhs) a (to (g1 lhs) (func (g1 lhs).to rhs))
      ∙ set_kept p g rhs (func_from vo func g lhs rhs) a (from (g rhs) (func (g rhs).from lhs))

  pub from_lem :
      (a : ℕ)
      → (onnect vo func g lhs rhs a).from ≡ (if a == rhs then func (g rhs).from lhs else (g a).from)
  unfolding onnect
  from_lem a =
      set_kept (λ u. u.from) g2 rhs (sized vo g2 rhs) a refl
      ∙ set_kept (λ u. u.from) g1 lhs (func_to vo func g1 lhs rhs) a refl
      ∙ pushed (a == rhs)
    where
      pushed :
          (b : Bool)
          → (if b then func_from vo func g lhs rhs else g a).from
            ≡ (if b then func (g rhs).from lhs else (g a).from)
      pushed true = refl
      pushed false = refl

  pub to_lem :
      (a : ℕ)
      → (onnect vo func g lhs rhs a).to ≡ (if a == lhs then func (g lhs).to rhs else (g a).to)
  unfolding onnect
  to_lem a =
      set_kept (λ u. u.to) g2 rhs (sized vo g2 rhs) a refl
      ∙ pushed (a == lhs) (g1 lhs) (g1 a)
          (set_kept (λ u. u.to) g rhs (func_from vo func g lhs rhs) lhs refl)
          (set_kept (λ u. u.to) g rhs (func_from vo func g lhs rhs) a refl)
    where
      pushed :
          (b : Bool) (x y : UGen V)
          → x.to ≡ (g lhs).to
          → y.to ≡ (g a).to
          → (if b then record x { to = func x.to rhs } else y).to
            ≡ (if b then func (g lhs).to rhs else (g a).to)
      pushed true x y same_x same_y = ap (λ v. func v rhs) same_x
      pushed false x y same_x same_y = same_y

  pub size_lem :
      (a : ℕ)
      → (onnect vo func g lhs rhs a).size
        ≡ (if a == rhs then vo.size (onnect vo func g lhs rhs a).from % 2 ^ 16 else (g a).size)
  unfolding onnect
  size_lem a =
      pick (a == rhs) (sized vo g2 rhs) (g2 a) (vo.size (onnect vo func g lhs rhs a).from % 2 ^ 16)
        (g a).size
        (λ at.
          ap (λ b. vo.size (g2 b).from % 2 ^ 16) (sym (==→eq a rhs at))
          ∙ ap (λ v. vo.size v % 2 ^ 16)
              (sym (set_kept (λ u. u.from) g2 rhs (sized vo g2 rhs) a refl)))
        (set_kept (λ u. u.size) g1 lhs (func_to vo func g1 lhs rhs) a refl
          ∙ set_kept (λ u. u.size) g rhs (func_from vo func g lhs rhs) a refl)
    where
      pick :
          (b : Bool) (x y : UGen V) (m n : ℕ)
          → (b ≡ true → x.size ≡ m)
          → y.size ≡ n
          → (if b then x else y).size ≡ (if b then m else n)
      pick true x y m n when_true when_false = when_true refl
      pick false x y m n when_true when_false = when_false
