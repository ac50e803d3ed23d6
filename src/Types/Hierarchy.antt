-- ===== src/Types/Hierarchy.antt =====
-- What `isa` decides on types whose parents lead to a root, and what order it is.
use mathlib.Core.Path.{subst}
use gwion.Prelude.{
  ℕ, zero, suc, ◌≤◌, ◌<◌, ◌≡◌, ◌≢◌, refl, sym, ◌∙◌, ap, ◌⊎◌, inl, inr, Bool, true, false, List, [],
  ◌∷◌, some, arith, length, has, ◌∈◌, ◌==◌, if◌then◌else◌, Bool-cases, ==→eq,
}
use gwion.Types.{Types, null, isa, find_common_anc, choose}

-- A type and its ancestors, up to the root.
abbrev pub Line : Types → ℕ → List ℕ → Type 0
Line h t [] = t ≡ null
Line h t (x ∷ xs) = (t ≡ x) × (t ≢ null) × Line h (h t).parent xs

-- On a type that is not null and whose parents lead to a root, with fuel for all of them, `isa` tells
-- whether the other type stands on that line.
pub isa-has :
    (fuel : ℕ) (h : Types) (xs : List ℕ) (var parent : ℕ)
    → Line h var xs
    → var ≢ null
    → length xs ≤ fuel
    → isa fuel h var parent ≡ some (has parent xs)
unfolding isa
isa-has fuel h [] var parent line some_type enough = absurd (some_type line)
isa-has zero h (x ∷ xs) var parent line some_type enough = absurd (omega (arith, enough))
isa-has (suc fuel) h (x ∷ []) var parent (here, live, up) some_type enough = grind arith
isa-has (suc fuel) h (x ∷ y ∷ ys) var parent (here, live, up) some_type enough =
    let later = isa-has fuel h (y ∷ ys) (h var).parent parent up up.1 (omega (arith, enough)) in
    grind arith

-- The line of an ancestor is the rest of the line.
ancestor-Line :
    (h : Types) (xs : List ℕ) (a b : ℕ)
    → Line h a xs
    → b ∈ xs
    → (ys : List ℕ) × Line h b ys
      × (b ≢ null)
      × ((b ≡ a) ⊎ (length ys < length xs))
      × (length ys ≤ length xs)
      × ((c : ℕ) → c ∈ ys → c ∈ xs)
ancestor-Line h [] a b line found = absurd (ground arith)
ancestor-Line h (x ∷ xs) a b (here, live, up) found = elim (Bool-cases (b == x)) [
  | inl e ↦
      let same : b ≡ a = ==→eq b x e ∙ sym here in
      (
        x ∷ xs,
        subst (λ t. Line h t (x ∷ xs)) (sym same) (here, live, up),
        (λ z. live (sym same ∙ z)),
        inl same,
        omega arith,
        λ c k. k,
      )
  | inr ne ↦
      let (ys, line, live', shorter, no_longer, within) =
        ancestor-Line h xs (h a).parent b up (ground arith) in
      (
        ys,
        line,
        live',
        inr (omega (arith, no_longer)),
        omega (arith, no_longer),
        λ c k. (let k' = within c k in ground arith),
      )
]

Line-length :
    (h : Types) (t : ℕ) (xs ys : List ℕ) → Line h t xs → Line h t ys → length xs ≡ length ys
Line-length h t [] [] l k = refl
Line-length h t [] (y ∷ ys) l (here, live, up) = absurd (live l)
Line-length h t (x ∷ xs) [] (here, live, up) k = absurd (live k)
Line-length h t (x ∷ xs) (y ∷ ys) (_, _, up) (_, _, up') =
    ap suc (Line-length h (h t).parent xs ys up up')

isa→mem :
    (fuel : ℕ) (h : Types) (xs : List ℕ) (a b : ℕ)
    → Line h a xs
    → a ≢ null
    → length xs ≤ fuel
    → isa fuel h a b ≡ some true
    → b ∈ xs
isa→mem fuel h xs a b line live enough e = cc (isa-has fuel h xs a b line live enough, e)

mem→isa :
    (fuel : ℕ) (h : Types) (xs : List ℕ) (a b : ℕ)
    → Line h a xs
    → a ≢ null
    → length xs ≤ fuel
    → b ∈ xs
    → isa fuel h a b ≡ some true
mem→isa fuel h xs a b line live enough e = isa-has fuel h xs a b line live enough ∙ ap some e

-- If a type is a second one, and that is a third one, it is the third one: for a type that is not null
-- and whose parents lead to a root, with fuel for all of them.
isa_trans :
    (fuel : ℕ) (h : Types) (xs : List ℕ) (a b c : ℕ)
    → Line h a xs
    → a ≢ null
    → length xs ≤ fuel
    → isa fuel h a b ≡ some true
    → isa fuel h b c ≡ some true
    → isa fuel h a c ≡ some true
isa_trans fuel h xs a b c line live enough e k =
    let found = isa→mem fuel h xs a b line live enough e in
    let (ys, line', live', _, no_longer, within) = ancestor-Line h xs a b line found in
    let found' = isa→mem fuel h ys b c line' live' (omega (arith, no_longer, enough)) k in
    mem→isa fuel h xs a c line live enough (within c found')

-- Two types that are each other are the same.
isa_antisymm :
    (fuel : ℕ) (h : Types) (xs : List ℕ) (a b : ℕ)
    → Line h a xs
    → a ≢ null
    → length xs ≤ fuel
    → isa fuel h a b ≡ some true
    → isa fuel h b a ≡ some true
    → a ≡ b
isa_antisymm fuel h xs a b line live enough e k =
    let found = isa→mem fuel h xs a b line live enough e in
    let (ys, line', live', shorter, no_longer, _) = ancestor-Line h xs a b line found in
    let found' = isa→mem fuel h ys b a line' live' (omega (arith, no_longer, enough)) k in
    let (zs, line'', _, _, no_longer', _) = ancestor-Line h ys b a line' found' in
    elim shorter [
      | inl same ↦ sym same
      | inr less ↦ absurd (omega (arith, less, no_longer', Line-length h a xs zs line line''))
    ]

choose_comm :
    (p q : Bool) (lhs rhs : ℕ)
    → (p ≡ true → q ≡ true → lhs ≡ rhs)
    → (choose (some p) rhs (choose (some q) lhs (some null))
        ≡ choose (some q) lhs (choose (some p) rhs (some null)))
      × (choose (some p) rhs (choose (some q) lhs (some null))
          ≡ some (if p then rhs else if q then lhs else null))
choose_comm true true lhs rhs same = (ap some (sym (same refl refl)), refl)
choose_comm true false lhs rhs same = (refl, refl)
choose_comm false true lhs rhs same = (refl, refl)
choose_comm false false lhs rhs same = (refl, refl)

-- The common ancestor does not depend on the order of the two types. It is the right one if that stands
-- on the line of the left one, else the left one if that stands on the line of the right one, else
-- null: for types that are not null and whose parents lead to a root, with fuel for all of them.
find_common_anc_comm :
    (fuel : ℕ) (h : Types) (xs ys : List ℕ) (lhs rhs : ℕ)
    → Line h lhs xs
    → Line h rhs ys
    → lhs ≢ null
    → rhs ≢ null
    → length xs ≤ fuel
    → length ys ≤ fuel
    → (find_common_anc fuel h lhs rhs ≡ find_common_anc fuel h rhs lhs)
      × (find_common_anc fuel h lhs rhs
          ≡ some (if has rhs xs then rhs else if has lhs ys then lhs else null))
unfolding find_common_anc
find_common_anc_comm fuel h xs ys lhs rhs line line' live live' enough enough' =
    let up = isa-has fuel h xs lhs rhs line live enough in
    let down = isa-has fuel h ys rhs lhs line' live' enough' in
    rw (up, down)
      (choose_comm (has rhs xs) (has lhs ys) lhs rhs (λ p q.
        isa_antisymm fuel h xs lhs rhs line live enough (up ∙ ap some p) (down ∙ ap some q)))
