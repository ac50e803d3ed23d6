-- ===== src/Array/Tests.antt =====
-- The theorems on arrays at concrete arrays, and the operations run on them (src/lib/array.c).
use gwion.Prelude.{
  ℕ, ◌+◌, ◌-◌, ◌<◌, ◌≡◌, refl, Bool, Option, none, some, [], ◌∷◌, length, ◌==◌, leb, if◌then◌else◌,
  arith, ◌⊎◌,
}
use gwion.Word.{int_lt}
use gwion.Array.{
  value, array_out_of_bounds, out_of_bounds_array_slice, vm_vector_rem, vm_vector_insert, slice_end,
  slice_rounds, bounds, run_rounds, concat_room, array_slice, array_concat_left, array_concat_right,
  vm_vector_map, vm_vector_compactmap, vm_vector_filter, vm_vector_count, vm_vector_foldl,
  vm_vector_foldr,
}
use gwion.Array.Spec
use gwion.Array.Contract.{array_methods_lem, array_methods-never, array_slice_lem}
use gwion.Array.Bounds.{InBounds, OutOfBounds, IsSlice}
use gwion.Array.Concat.{array_concat_left_lem}
use gwion.Array.Cells.{Cells, items_from, cells_ops, cells_items, cells-laws, cells-copies}

abbrev numbers : Cells
numbers = record {
  len = 4;
  room = 5;
  data_at = λ k. if k == 0 then 7 else if k == 1 then 2 else if k == 2 then 9 else 4;
}

abbrev large_enough : ℕ → Bool
large_enough x = leb 5 x

abbrev summed_one : ℕ → ℕ
summed_one x = x + 1

abbrev halved : ℕ → Option ℕ
halved x = if large_enough x then some (x - 5) else none

-- The methods of a small array.
filter_test :
    (elim (vm_vector_filter cells_ops large_enough 4 numbers) [
      | none ↦ []
      | some v ↦ cells_items v
    ])
    ≡ 7 ∷ 9 ∷ []
unfolding vm_vector_filter run_rounds
filter_test = refl

slice_down_test :
    (elim (array_slice cells_ops 5 numbers 3 1) [
      | none ↦ []
      | some a ↦ elim a [
        | value v ↦ cells_items v
        | array_out_of_bounds ↦ []
        | out_of_bounds_array_slice ↦ []
      ]
    ])
    ≡ 4 ∷ 9 ∷ []
unfolding array_slice slice_rounds slice_end bounds int_lt
slice_down_test = refl

-- The whole array cannot be a slice.
slice_whole_test : array_slice cells_ops 5 numbers 0 4 ≡ some out_of_bounds_array_slice
unfolding array_slice slice_rounds slice_end bounds int_lt
slice_whole_test = refl

insert_test : cells_items (vm_vector_insert cells_ops numbers 1 6) ≡ 7 ∷ 6 ∷ 2 ∷ 9 ∷ 4 ∷ []
unfolding vm_vector_insert
insert_test = refl

rem_test : cells_items (vm_vector_rem cells_ops numbers 1) ≡ 7 ∷ 9 ∷ 4 ∷ []
unfolding vm_vector_rem
rem_test = refl

-- Two elements before two others: the last of those is not moved far enough.
concat_right_test :
    items_from
      (array_concat_right cells_ops
        (record { len = 2; room = 9; data_at = λ k. k })
        numbers).data_at
      0
      6
    ≡ 7 ∷ 2 ∷ 9 ∷ 4 ∷ 4 ∷ 0 ∷ []
unfolding array_concat_right concat_room
concat_right_test = refl

abbrev summed : ℕ → ℕ → ℕ
summed x y = x + y

array_methods_lem_example :
    ((out : Cells) × (vm_vector_map cells_ops summed_one 4 numbers ≡ some out)
      × (cells_items out ≡ Spec.map summed_one (cells_items numbers)))
    × ((out : Cells) × (vm_vector_compactmap cells_ops cells_ops halved 4 numbers ≡ some out)
        × (cells_items out ≡ Spec.compact halved (cells_items numbers)))
    × ((out : Cells) × (vm_vector_filter cells_ops large_enough 4 numbers ≡ some out)
        × (cells_items out ≡ Spec.filter large_enough (cells_items numbers)))
    × (vm_vector_count cells_ops large_enough 4 numbers
        ≡ some (length (Spec.filter large_enough (cells_items numbers))))
    × (vm_vector_foldl cells_ops summed 4 numbers 1
        ≡ some (Spec.foldl summed 1 (cells_items numbers)))
    × (vm_vector_foldr cells_ops summed 4 numbers 1
        ≡ some (Spec.foldr summed 1 (cells_items numbers)))
unfolding cells-laws
array_methods_lem_example =
    array_methods_lem cells_ops cells-laws cells_ops cells-laws numbers 4 summed_one halved
      large_enough summed 1 (omega arith) (omega arith)

abbrev too_many : Cells
too_many = record { len = 65536; room = 65536; data_at = λ k. k }

array_methods-never_example :
    (vm_vector_map cells_ops summed_one 70000 too_many ≡ none)
    × (vm_vector_compactmap cells_ops cells_ops halved 70000 too_many ≡ none)
    × (vm_vector_filter cells_ops large_enough 70000 too_many ≡ none)
    × (vm_vector_count cells_ops large_enough 70000 too_many ≡ none)
    × (vm_vector_foldl cells_ops summed 70000 too_many 1 ≡ none)
    × (vm_vector_foldr cells_ops summed 70000 too_many 1 ≡ none)
array_methods-never_example =
    array_methods-never cells_ops cells_ops too_many 70000 summed_one halved large_enough summed 1
      (omega arith)

array_slice_lem_example :
    (InBounds cells_ops cells-laws numbers 3
      × InBounds cells_ops cells-laws numbers (Spec.end_of 4 1)
      × ((out : Cells) × (array_slice cells_ops 5 numbers 3 1 ≡ some (value out))
          × IsSlice cells_ops cells-laws numbers 3 (Spec.end_of 4 1) out))
    ⊎ ((OutOfBounds cells_ops cells-laws numbers 3
          ⊎ OutOfBounds cells_ops cells-laws numbers (Spec.end_of 4 1))
        × (array_slice cells_ops 5 numbers 3 1 ≡ some out_of_bounds_array_slice))
unfolding cells-laws
array_slice_lem_example =
    array_slice_lem cells_ops cells-laws 5 numbers 3 1 (omega arith) (omega arith)

array_concat_left_lem_example :
    (cells_ops.size (array_concat_left cells_ops numbers numbers) ≡ 8)
    × ((i : ℕ)
        → i < 4
        → cells_ops.get (array_concat_left cells_ops numbers numbers) i ≡ numbers.data_at i)
    × (cells_ops.get (array_concat_left cells_ops numbers numbers) 4 ≡ 7)
    × ((i : ℕ)
        → 4 < i
        → i < 5
        → cells_ops.get (array_concat_left cells_ops numbers numbers) i ≡ numbers.data_at i)
array_concat_left_lem_example =
    array_concat_left_lem cells_ops cells-copies numbers numbers (omega arith) (omega arith)
      (omega arith)
