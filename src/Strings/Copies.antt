-- ===== src/Strings/Copies.antt =====
-- Filling a buffer with parts of strings (src/lib/string.c).
use mathlib.Core.List.{append_assoc}
use mathlib.Core.Path.{subst}
use gwion.Prelude.{
  Option, none, ℕ, zero, suc, ◌+◌, ◌<◌, ◌≤◌, ◌≡◌, ◌≢◌, refl, sym, ap, ◌∙◌, true, some, List, [],
  ◌∷◌, ◌++◌, length, get_or, set, take, drop, length-append, ltb, leb, arith, lt→ltb, All, ne→==,
  split, length-take, length-drop,
}
use gwion.Strings.{Text, value, c_string, buffer, copy_chars, set_char, new_string}

-- A string has no zero in it.
abbrev pub IsText : List ℕ → Type 0
IsText = All (λ x. x ≢ 0)

pub drop_next : (xs : List ℕ) (n : ℕ) → n < length xs → drop n xs ≡ get_or xs n 0 ∷ drop (suc n) xs
drop_next [] n below = absurd (omega (arith, below))
drop_next (x ∷ xs) zero below = refl
drop_next (x ∷ xs) (suc n) below = drop_next xs n (omega (arith, below))

set-append : (pre rest : List ℕ) (x y : ℕ) → set (pre ++ x ∷ rest) (length pre) y ≡ pre ++ y ∷ rest
set-append [] rest x y = refl
set-append (z ∷ pre) rest x y = ap (λ l. z ∷ l) (set-append pre rest x y)

copy_lem :
    (n from : ℕ) (str pre old rest : List ℕ)
    → length old ≡ n
    → from + n ≤ length str
    → copy_chars n from (length pre) str (pre ++ (old ++ rest))
      ≡ some (pre ++ (take n (drop from str) ++ rest))
unfolding copy_chars
copy_lem zero from str pre [] rest long within = refl
copy_lem zero from str pre (x ∷ old) rest long within = absurd (omega (arith, long))
copy_lem (suc n) from str pre [] rest long within = absurd (omega (arith, long))
copy_lem (suc n) from str pre (x ∷ old) rest long within =
    let y = get_or str from 0 in
    let whole = length-append pre (x ∷ (old ++ rest)) in
    let read : leb from (length str) ≡ true = ground (arith, within) in
    let room : ltb (length pre) (length (pre ++ x ∷ (old ++ rest))) ≡ true =
      lt→ltb (length pre) (length (pre ++ x ∷ (old ++ rest))) (omega (arith, whole)) in
    let from_next : from + 1 ≡ suc from = omega arith in
    let at_next : length pre + 1 ≡ length (pre ++ y ∷ []) =
      let l = length-append pre (y ∷ []) in omega (arith, l) in
    let moved : set (pre ++ x ∷ (old ++ rest)) (length pre) y ≡ (pre ++ y ∷ []) ++ (old ++ rest) =
      set-append pre (old ++ rest) x y ∙ sym (append_assoc pre (y ∷ []) (old ++ rest)) in
    let taken : y ∷ take n (drop (suc from) str) ≡ take (suc n) (drop from str) =
      sym (ap (take (suc n)) (drop_next str from (omega (arith, within)))) in
    rw (read, room, from_next, at_next, moved)
      (copy_lem n (suc from) str (pre ++ y ∷ []) old rest (omega (arith, long))
          (omega (arith, within))
        ∙ ap some (
            append_assoc pre (y ∷ []) (take n (drop (suc from) str) ++ rest)
            ∙ ap (λ l. pre ++ (l ++ rest)) taken))

-- The buffer starts with `t`, then there are `n` cells, then `tail`.
pub record Filled (c t : List ℕ) (n : ℕ) (tail : List ℕ) : Type 0 where
  pub cells : List ℕ
  pub whole : c ≡ t ++ (cells ++ tail)
  pub many : length cells ≡ n

pub Filled-copy_chars :
    (n k m from at : ℕ) (str c t tail : List ℕ)
    → Filled c t m tail
    → m ≡ n + k
    → length t ≡ at
    → from + n ≤ length str
    → (c1 : List ℕ) × (copy_chars n from at str c ≡ some c1)
      × Filled c1 (t ++ take n (drop from str)) k tail
Filled-copy_chars n k m from at str c t tail filled room place within =
    let many = filled.many in
    let parts = split n filled.cells in
    let long = length-take n filled.cells (omega (arith, many, room)) in
    let left = length-drop n filled.cells in
    let rest = drop n filled.cells ++ tail in
    (
      t ++ (take n (drop from str) ++ rest),
      ap (λ a. copy_chars n from a str c) (sym place)
          ∙ ap (copy_chars n from (length t) str) (
              filled.whole
              ∙ ap (λ l. t ++ (l ++ tail)) parts
              ∙ ap (λ l. t ++ l) (append_assoc (take n filled.cells) (drop n filled.cells) tail))
          ∙ copy_lem n from str t (take n filled.cells) rest long within,
      record {
        cells = drop n filled.cells;
        whole = sym (append_assoc t (take n (drop from str)) rest);
        many = left ∙ omega (arith, many, room);
      },
    )

length-buffer : (fresh : ℕ → ℕ) (n : ℕ) → length (buffer fresh n) ≡ n
unfolding buffer
length-buffer fresh zero = refl
length-buffer fresh (suc n) = ap suc (length-buffer fresh n)

one_left : (xs : List ℕ) → length xs ≡ 1 → (x : ℕ) × (xs ≡ x ∷ [])
one_left [] e = absurd (omega (arith, e))
one_left (x ∷ []) e = (x, refl)
one_left (x ∷ y ∷ xs) e = absurd (omega (arith, e))

-- An array of `n + 1` characters, of which the last is for the terminator.
pub Filled-buffer : (fresh : ℕ → ℕ) (n : ℕ) → (x : ℕ) × Filled (buffer fresh (n + 1)) [] n (x ∷ [])
Filled-buffer fresh n =
    let c = buffer fresh (n + 1) in
    let long = length-buffer fresh (n + 1) in
    let parts = split n c in
    let first = length-take n c (omega (arith, long)) in
    let left = length-drop n c in
    let (x, last) = one_left (drop n c) (omega (arith, long, left)) in
    (x, record { cells = take n c; whole = parts ∙ ap (λ l. take n c ++ l) last; many = first })

pub Filled-set_char :
    (c t : List ℕ) (n at x : ℕ)
    → Filled c t n (x ∷ [])
    → length t + n ≡ at
    → (c1 : List ℕ) × (set_char at 0 c ≡ some c1) × Filled c1 t n (0 ∷ [])
unfolding set_char
Filled-set_char c t n at x filled place =
    let many = filled.many in
    let shape : c ≡ (t ++ filled.cells) ++ x ∷ [] =
      filled.whole ∙ sym (append_assoc t filled.cells (x ∷ [])) in
    let start = length-append t filled.cells in
    let end : at ≡ length (t ++ filled.cells) = omega (arith, start, many, place) in
    let whole = ap length shape ∙ length-append (t ++ filled.cells) (x ∷ []) in
    let room : ltb at (length c) ≡ true = lt→ltb at (length c) (omega (arith, whole, end)) in
    (
      (t ++ filled.cells) ++ 0 ∷ [],
      rw room (
          ap some (
            ap (λ l. set l at 0) shape
            ∙ ap (λ m. set ((t ++ filled.cells) ++ x ∷ []) m 0) end
            ∙ set-append (t ++ filled.cells) [] x 0)),
      record { cells = filled.cells; whole = append_assoc t filled.cells (0 ∷ []); many = many },
    )

c_string-append : (t rest : List ℕ) → IsText t → c_string (t ++ 0 ∷ rest) ≡ some t
unfolding c_string
c_string-append [] rest text = refl
c_string-append (x ∷ t) rest (nonzero, text) =
    rw (ne→== x 0 nonzero, c_string-append t rest text) refl

-- A buffer with its terminator is a string.
whole_string : (c t : List ℕ) → Filled c t 0 (0 ∷ []) → IsText t → new_string c ≡ some (value t)
unfolding new_string
whole_string c t filled text =
    elim filled.cells
        as (λ cs. c ≡ t ++ (cs ++ 0 ∷ []) → length cs ≡ 0 → new_string c ≡ some (value t)) [
          | [] ↦ λ shape none_left.
              ap new_string shape
              ∙ ap
                  (λ (l : Option (List ℕ)). elim l as (λ _. Option Text) [
                    | none ↦ none
                    | some u ↦ some (value u)
                  ])
                  (c_string-append t [] text)
          | x ∷ cs ↦ λ shape some_left. absurd (omega (arith, some_left))
        ]
      filled.whole filled.many

pub Filled-new_string :
    (c t text : List ℕ)
    → Filled c t 0 (0 ∷ [])
    → t ≡ text
    → IsText text
    → new_string c ≡ some (value text)
Filled-new_string c t text filled same nonzero =
    whole_string c text (subst (λ l. Filled c l 0 (0 ∷ [])) same filled) nonzero
