-- ===== src/Vector.antt =====
-- `Vector` is a growable array of words from the `util` submodule, which the repository does not
-- contain: its operations are an interface, and the laws are what the callers rely on.
use gwion.Prelude.{
  ◌-◌, ℕ, ◌≡◌, refl, List, [], ◌∷◌, ◌++◌, length, get_or, Distinct, erase, take, drop, ap, ◌+◌,
}

pub record VectorOps (V : Type 0) : Type 0 where
  pub init : V
  pub size : V → ℕ
  pub at : V → ℕ → ℕ
  pub add : V → ℕ → V
  pub rem2 : V → ℕ → V
  pub front : V → ℕ
  pub rem : V → ℕ → V
  pub clear : V → V
  pub pop : V → V

-- `rem2` takes a value out; its law speaks of vectors with distinct entries.
pub record VectorLaws {V : Type 0} (o : VectorOps V) : Type 0 where
  pub items : V → List ℕ
  pub items-init : items o.init ≡ []
  pub size_lem : (v : V) → o.size v ≡ length (items v)
  pub at_lem : (v : V) (i : ℕ) → o.at v i ≡ get_or (items v) i 0
  pub items-add : (v : V) (x : ℕ) → items (o.add v x) ≡ items v ++ x ∷ []
  pub items-rem2 : (v : V) (x : ℕ) → Distinct (items v) → items (o.rem2 v x) ≡ erase x (items v)

-- The laws of a vector that is used as a queue.
pub record QueueLaws {V : Type 0} (o : VectorOps V) (laws : VectorLaws o) : Type 0 where
  pub front_lem : (v : V) (x : ℕ) (xs : List ℕ) → laws.items v ≡ x ∷ xs → o.front v ≡ x
  pub items-rem :
      (v : V) (x : ℕ) (xs : List ℕ) → laws.items v ≡ x ∷ xs → laws.items (o.rem v 0) ≡ xs
  pub items-clear : (v : V) → laws.items (o.clear v) ≡ []

-- A value of the interface: a list.
instance abbrev pub list_ops : VectorOps (List ℕ)
list_ops = record {
  init = [];
  size = length;
  at = λ v i. get_or v i 0;
  add = λ v x. v ++ x ∷ [];
  rem2 = λ v x. erase x v;
  front = λ v. get_or v 0 0;
  rem = λ v i. take i v ++ drop (i + 1) v;
  clear = λ v. [];
  pop = λ v. take (length v - 1) v;
}

abbrev pub list_laws : VectorLaws list_ops
list_laws = record {
  items = λ v. v;
  items-init = refl;
  size_lem = λ v. refl;
  at_lem = λ v i. refl;
  items-add = λ v x. refl;
  items-rem2 = λ v x d. refl;
}

abbrev pub list_queue_laws : QueueLaws list_ops list_laws
list_queue_laws = record {
  front_lem = λ v x xs e. ap (λ w. get_or w 0 0) e;
  items-rem = λ v x xs e. ap (λ w. drop 1 w) e;
  items-clear = λ v. refl;
}
