-- ===== src/Array/Contract.antt =====
-- The methods of arrays together, and a slice (src/lib/array.c).
use mathlib.Core.Path.{subst}
use gwion.Prelude.{
  arith, ℕ, ◌^◌, ◌<◌, ◌≤◌, ◌≡◌, Bool, Option, none, some, length, ◌⊎◌, inl, inr, refl,
}
use gwion.Array.{
  MVectorOps, value, out_of_bounds_array_slice, slice_end, array_slice, vm_vector_map,
  vm_vector_compactmap, vm_vector_filter, vm_vector_count, vm_vector_foldl, vm_vector_foldr,
}
use gwion.Array.Spec
use gwion.Array.Loops.{run_method_never}
use gwion.Array.Elements.{MVectorLaws, foldl_lem, foldr_lem}
use gwion.Array.Methods.{filter_lem, compactmap_lem}
use gwion.Array.Build.{map_lem, count_lem}
use gwion.Array.Bounds.{InBounds, OutOfBounds, IsSlice, bounds-cases, array_slice-IsSlice}

module _ {V E W R : Type 0} (mv : MVectorOps V E) (laws : MVectorLaws mv)
    (mw : MVectorOps W R) where
  -- For an array with fewer than 2^16 elements, a function that is called for each element and rounds enough, `map`
  -- and `compactmap` give an array that holds the images of the elements in order, for `map` as far as they have
  -- the size of an element, for `compactmap` those that are some; `filter` gives an array that holds the elements that pass, in order; `count` gives how many pass; and
  -- `foldl` and `foldr` fold the elements from the first and from the last on into an accumulator of an element's
  -- size.
  pub array_methods_lem :
      (laws_w : MVectorLaws mw) (self : V) (fuel : ℕ) (f : E → E) (g : E → Option R) (p : E → Bool)
      (h : E → E → E) (acc : E)
      → mv.size self < 2 ^ 16
      → mv.size self ≤ fuel
      → ((out : V) × (vm_vector_map mv f fuel self ≡ some out)
          × (laws.items out ≡ Spec.map f (laws.items self)))
        × ((out : W) × (vm_vector_compactmap mv mw g fuel self ≡ some out)
            × (laws_w.items out ≡ Spec.compact g (laws.items self)))
        × ((out : V) × (vm_vector_filter mv p fuel self ≡ some out)
            × (laws.items out ≡ Spec.filter p (laws.items self)))
        × (vm_vector_count mv p fuel self ≡ some (length (Spec.filter p (laws.items self))))
        × (vm_vector_foldl mv h fuel self acc ≡ some (Spec.foldl h acc (laws.items self)))
        × (vm_vector_foldr mv h fuel self acc ≡ some (Spec.foldr h acc (laws.items self)))
  array_methods_lem laws_w self fuel f g p h acc small enough = (
    map_lem mv laws self f fuel small enough,
    compactmap_lem mv laws mw laws_w fuel self small enough g,
    filter_lem mv laws fuel self small enough p,
    count_lem mv laws fuel self small enough p,
    foldl_lem mv laws fuel self small enough h acc,
    foldr_lem mv laws fuel self small enough h acc,
  )

module _ {V E W R : Type 0} (mv : MVectorOps V E) (mw : MVectorOps W R) where
  -- On an array with 2^16 elements or more, none of the methods that call a function for each element ends in any
  -- number of rounds.
  pub array_methods-never :
      (self : V) (fuel : ℕ) (f : E → E) (g : E → Option R) (p : E → Bool) (h : E → E → E) (acc : E)
      → 2 ^ 16 ≤ mv.size self
      → (vm_vector_map mv f fuel self ≡ none)
        × (vm_vector_compactmap mv mw g fuel self ≡ none)
        × (vm_vector_filter mv p fuel self ≡ none)
        × (vm_vector_count mv p fuel self ≡ none)
        × (vm_vector_foldl mv h fuel self acc ≡ none)
        × (vm_vector_foldr mv h fuel self acc ≡ none)
  unfolding vm_vector_map vm_vector_compactmap vm_vector_filter vm_vector_count vm_vector_foldl
      vm_vector_foldr
  array_methods-never self fuel f g p h acc large = (
    run_method_never _ (mv.size self) fuel _ large,
    run_method_never _ (mv.size self) fuel _ large,
    run_method_never _ (mv.size self) fuel _ large,
    run_method_never _ (mv.size self) fuel _ large,
    run_method_never _ (mv.size self) fuel _ large,
    run_method_never _ (mv.size self) fuel _ large,
  )

module _ {V E : Type 0} (mv : MVectorOps V E) (laws : MVectorLaws mv) where
  slice_end_lem :
      (array : V) (stop : ℕ)
      → slice_end mv array stop ≡ Spec.end_of (length (laws.items array)) stop
  unfolding slice_end Spec.end_of
  slice_end_lem array stop = ground (arith, laws.size_lem array)

  -- What a slice from `start` to `end` is.
  abbrev Sliced : (fuel : ℕ) (array : V) (start stop end : ℕ) → Type 0
  Sliced fuel array start stop end =
      (InBounds mv laws array start
        × InBounds mv laws array end
        × ((out : V) × (array_slice mv fuel array start stop ≡ some (value out))
            × IsSlice mv laws array start end out))
      ⊎ ((OutOfBounds mv laws array start ⊎ OutOfBounds mv laws array end)
          × (array_slice mv fuel array start stop ≡ some out_of_bounds_array_slice))

  array_slice-Sliced :
      (fuel : ℕ) (array : V) (start stop : ℕ)
      → length (laws.items array) < 2 ^ 63
      → length (laws.items array) < fuel
      → Sliced fuel array start stop (slice_end mv array stop)
  unfolding array_slice
  array_slice-Sliced fuel array start stop small enough =
      let end = slice_end mv array stop in
      elim (bounds-cases mv laws array start) [
        | inr (start_no, start_out) ↦ inr (inl start_out, rw start_no refl)
        | inl (start_yes, start_in) ↦ elim (bounds-cases mv laws array end) [
          | inr (end_no, end_out) ↦ inr (inr end_out, rw (start_yes, end_no) refl)
          | inl (end_yes, end_in) ↦ inl (
            start_in,
            end_in,
            array_slice-IsSlice mv laws array start end small start_in end_in fuel stop refl enough
                start_yes end_yes,
          )
        ]
      ]

  -- For an array with fewer than 2^63 elements, where an end below 0 counts from the array's size: when both bounds
  -- are positive and below the size, a slice is the elements from the start to the end, the end excluded, in reverse
  -- when the end is before the start; otherwise, with 0 as a bound too, it is an exception.
  pub array_slice_lem :
      (fuel : ℕ) (array : V) (start stop : ℕ)
      → length (laws.items array) < 2 ^ 63
      → length (laws.items array) < fuel
      → Sliced fuel array start stop (Spec.end_of (length (laws.items array)) stop)
  array_slice_lem fuel array start stop small enough =
      subst (Sliced fuel array start stop) (slice_end_lem array stop)
        (array_slice-Sliced fuel array start stop small enough)
