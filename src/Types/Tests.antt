-- ===== src/Types/Tests.antt =====
-- Four types, one the root, and the theorems at them.
use gwion.Prelude.{◌≡◌, refl, true, [], ◌∷◌, some, arith, if◌then◌else◌, ◌==◌}
use gwion.Types.{Types, isa, find_common_anc, get_depth}
use gwion.Types.Hierarchy.{Line, isa-has}

-- 1 is the root, 2 and 4 extend it, 3 extends 2; 5 is an array of arrays of 3.
abbrev types : Types
types t = record {
  parent =
      if t == 2 then 1 else if t == 3 then 2 else if t == 4 then 1 else if t == 5 then 1 else 0;
  base_type = if t == 5 then 3 else 0;
  array_depth = if t == 5 then 2 else 0;
}

depth_of_array : get_depth 9 types 5 ≡ some 2
unfolding get_depth
depth_of_array = refl

siblings : find_common_anc 9 types 3 4 ≡ some 0
unfolding find_common_anc isa
siblings = refl

line_of_three : Line types 3 (3 ∷ 2 ∷ 1 ∷ [])
line_of_three = (
  refl,
  (λ e. omega (arith, e)),
  (refl, (λ e. omega (arith, e)), (refl, (λ e. omega (arith, e)), refl)),
)

isa-has_example : isa 3 types 3 1 ≡ some true
isa-has_example =
    isa-has 3 types (3 ∷ 2 ∷ 1 ∷ []) 3 1 line_of_three (λ e. omega (arith, e)) (omega arith)
