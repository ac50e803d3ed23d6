-- ===== src/Types.antt =====
-- src/env/type.c: the hierarchy of types. Types are addresses, and each names its parent, or null.
-- A walk to the root takes fuel and is `none` without enough of it.
pub mod Hierarchy
mod Tests
use gwion.Prelude.{ℕ, zero, suc, ◌+◌, Bool, true, false, Option, none, some, ◌==◌, if◌then◌else◌}

abbrev pub null : ℕ
null = 0

pub record TypeInfo : Type 0 where
  pub parent : ℕ
  pub base_type : ℕ
  pub array_depth : ℕ

abbrev pub Types : Type 0
Types = ℕ → TypeInfo

unfoldable pub isa : ℕ → Types → (var parent : ℕ) → Option Bool
isa zero h var parent = none
isa (suc fuel) h var parent =
    let rest = isa fuel h (h var).parent parent in
    if var == parent then some true else if (h var).parent == null then some false else rest

abbrev pub choose : Option Bool → ℕ → Option ℕ → Option ℕ
choose none t other = none
choose (some b) t other = if b then some t else other

unfoldable pub find_common_anc : ℕ → Types → (lhs rhs : ℕ) → Option ℕ
unfolding isa
find_common_anc fuel h lhs rhs =
    choose (isa fuel h lhs rhs) rhs (choose (isa fuel h rhs lhs) lhs (some null))

-- The dimensions of an array, and of the arrays that it is made of or inherits from.
unfoldable pub get_depth : ℕ → Types → ℕ → Option ℕ
get_depth zero h t = none
get_depth (suc fuel) h t =
    let next = if (h t).array_depth == 0 then (h t).parent else (h t).base_type in
    let rest = get_depth fuel h next in
    if next == null
    then some (h t).array_depth
    else elim rest [ none ↦ none | some depth ↦ some ((h t).array_depth + depth) ]
