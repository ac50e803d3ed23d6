-- ===== src/Array/Cells.antt =====
-- Vectors of words with their cells: an implementation of the interface of element vectors.
use gwion.Prelude.{
  ℕ, zero, suc, ◌+◌, ◌-◌, ◌<◌, ◌≤◌, ◌≡◌, refl, sym, ap, ◌∙◌, true, false, some, List, [], ◌∷◌, ◌++◌,
  length, get_elem?, set, ◌==◌, ltb, leb, ◌&&◌, if◌then◌else◌, arith, inl, inr,
}
use mathlib.Core.Option.{some-injective, none-ne-some}
use gwion.Array.{MVectorOps}
use gwion.Array.Elements.{MVectorLaws}
use gwion.Array.Concat.{MVectorCells}

-- A vector of words with its cells: `data i` is the cell `i`.
pub record Cells : Type 0 where
  pub len : ℕ
  pub room : ℕ
  pub data_at : ℕ → ℕ

abbrev pub items_from : (ℕ → ℕ) → ℕ → ℕ → List ℕ
items_from cell i zero = []
items_from cell i (suc n) = cell i ∷ items_from cell (suc i) n

abbrev pub cells_ops : MVectorOps Cells ℕ
cells_ops = record {
  init = λ n. record { len = n; room = n; data_at = λ i. 0 };
  size = λ v. v.len;
  cap = λ v. v.room;
  get = λ v i. v.data_at i;
  set = λ v i x. record {
    len = v.len;
    room = v.room;
    data_at = λ k. if k == i then x else v.data_at k;
  };
  add = λ v x. record {
    len = suc v.len;
    room = suc v.room;
    data_at = λ k. if k == v.len then x else v.data_at k;
  };
  add_front = λ v x. record {
    len = suc v.len;
    room = suc v.room;
    data_at = λ k. if k == 0 then x else v.data_at (k - 1);
  };
  insert = λ v i x. record {
    len = suc v.len;
    room = suc v.room;
    data_at = λ k. if ltb k i then v.data_at k else if k == i then x else v.data_at (k - 1);
  };
  rem = λ v i. record {
    len = v.len - 1;
    room = v.room;
    data_at = λ k. if ltb k i then v.data_at k else v.data_at (suc k);
  };
  set_size = λ v n. record { len = n; room = v.room; data_at = λ k. v.data_at k };
  set_cap = λ v n. record { len = v.len; room = n; data_at = λ k. v.data_at k };
  copy = λ d at s from n. record {
    len = d.len;
    room = d.room;
    data_at = λ k. if leb at k && ltb k (at + n) then s.data_at (from + k - at) else d.data_at k;
  };
}

abbrev pub cells_items : Cells → List ℕ
cells_items v = items_from v.data_at 0 v.len

pub length-items_from : (cell : ℕ → ℕ) (i n : ℕ) → length (items_from cell i n) ≡ n
length-items_from cell i zero = refl
length-items_from cell i (suc n) = ap suc (length-items_from cell (suc i) n)

pub get_elem?-items_from :
    (cell : ℕ → ℕ) (i n k x : ℕ) → get_elem? (items_from cell i n) k ≡ some x → cell (i + k) ≡ x
get_elem?-items_from cell i zero k x e = absurd (none-ne-some x e)
get_elem?-items_from cell i (suc n) zero x e =
    let here : i + 0 ≡ i = omega arith in ap cell here ∙ some-injective (cell i) x e
get_elem?-items_from cell i (suc n) (suc k) x e =
    let there : i + suc k ≡ suc i + k = omega arith in
    ap cell there ∙ get_elem?-items_from cell (suc i) n k x e

pub items_from-same :
    (cell other : ℕ → ℕ) (i n : ℕ)
    → ((k : ℕ) → i ≤ k → k < i + n → cell k ≡ other k)
    → items_from cell i n ≡ items_from other i n
items_from-same cell other i zero same = refl
items_from-same cell other i (suc n) same =
    ap (λ x. x ∷ items_from cell (suc i) n) (same i (omega arith) (omega arith))
    ∙ ap (λ l. other i ∷ l)
        (items_from-same cell other (suc i) n
          (λ k from to. same k (omega (arith, from)) (omega (arith, to))))

unfoldable pub changed : (ℕ → ℕ) → ℕ → ℕ → ℕ → ℕ
changed cell at x k = if k == at then x else cell k

pub items_from-set :
    (cell : ℕ → ℕ) (i n j x : ℕ)
    → j < n
    → items_from (changed cell (i + j) x) i n ≡ set (items_from cell i n) j x
unfolding changed
items_from-set cell i zero j x below = absurd (omega (arith, below))
items_from-set cell i (suc n) zero x below =
    let here : (i == i + 0) ≡ true = ground arith in
    rw here (
      ap (λ l. x ∷ l)
        (items_from-same (changed cell (i + 0) x) cell (suc i) n
          (λ k from to. let other : (k == i + 0) ≡ false = ground (arith, from) in rw other refl)))
items_from-set cell i (suc n) (suc j) x below =
    let other : (i == suc i + j) ≡ false = ground arith in
    let there : i + suc j ≡ suc i + j = omega arith in
    ap (λ m. items_from (changed cell m x) i (suc n)) there
    ∙ rw other (ap (λ l. cell i ∷ l) (items_from-set cell (suc i) n j x (omega (arith, below))))

pub items_from-add :
    (cell : ℕ → ℕ) (i n : ℕ) → items_from cell i (suc n) ≡ items_from cell i n ++ cell (i + n) ∷ []
items_from-add cell i zero = let here : i + 0 ≡ i = omega arith in ap (λ k. cell k ∷ []) (sym here)
items_from-add cell i (suc n) =
    let there : suc i + n ≡ i + suc n = omega arith in
    ap (λ l. cell i ∷ l)
      (items_from-add cell (suc i) n ∙ ap (λ k. items_from cell (suc i) n ++ cell k ∷ []) there)

unfoldable pub cells-laws : MVectorLaws cells_ops
unfolding changed
cells-laws = record {
  items = cells_items;
  size_lem = λ v. sym (length-items_from v.data_at 0 v.len);
  get_lem = λ v i x e.
      let here : 0 + i ≡ i = omega arith in
      sym (ap v.data_at here) ∙ get_elem?-items_from v.data_at 0 v.len i x e;
  items-init_zero = refl;
  length-init = λ n. length-items_from (λ i. 0) 0 n;
  items-set = λ v i x below.
      let here : 0 + i ≡ i = omega arith in
      let whole = length-items_from v.data_at 0 v.len in
      ap (λ j. items_from (changed v.data_at j x) 0 v.len) (sym here)
      ∙ items_from-set v.data_at 0 v.len i x (omega (arith, below, whole));
  items-add = λ v x.
      let here : (0 + v.len == v.len) ≡ true = ground arith in
      items_from-add (changed v.data_at v.len x) 0 v.len
      ∙ rw here (
          ap (λ l. l ++ x ∷ [])
            (items_from-same (changed v.data_at v.len x) v.data_at 0 v.len (λ k from to.
              let other : (k == v.len) ≡ false = ground (arith, to) in rw other refl)));
}

pub cells-copies : MVectorCells cells_ops
cells-copies = record {
  size-set_size = λ v n. refl;
  cap-set_size = λ v n. refl;
  get-set_size = λ v n i. refl;
  size-set_cap = λ v n. refl;
  cap-set_cap = λ v n. refl;
  get-set_cap = λ v n i below more. refl;
  size-copy = λ d at s from n. refl;
  get-copy_in = λ d at s from n i fits below.
      let inside : (leb at (at + i) && ltb (at + i) (at + n)) ≡ true = ground (arith, below) in
      let place : from + (at + i) - at ≡ from + i = omega arith in rw (inside, place) refl;
  get-copy_out = λ d at s from n i fits out.
      let outside : (leb at i && ltb i (at + n)) ≡ false = elim out [
        | inl before ↦ ground (arith, before)
        | inr after ↦ ground (arith, after)
      ] in
      rw outside refl;
}
