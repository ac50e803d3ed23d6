-- ===== src/Array.antt =====
-- src/lib/array.c: arrays at run time, with `arrayaccess` of src/vm/vm.c. `M_Vector` is the element vector of
-- the util submodule, so its operations, and what the code does by its macros, are an interface. Objects that
-- are released or referred to are left out. An index is a word.
pub mod Loops
pub mod Spec
pub mod Elements
pub mod Methods
pub mod Build
pub mod Slice
pub mod Bounds
pub mod Contract
pub mod Concat
pub mod Cells
pub mod Tests
use gwion.Prelude.{
  ℕ, zero, suc, ◌+◌, ◌-◌, ◌*◌, ◌%◌, ◌^◌, Bool, true, false, ◌&&◌, ◌||◌, Option, none, some, List,
  [], ◌∷◌, ◌==◌, ltb, leb, if◌then◌else◌,
}
use gwion.Word.{word_mod, is_negative, int_lt}

-- `copy d at s from n` is a `memmove` of `n` elements; `set_size` and `set_cap` change the header alone.
pub record MVectorOps (V E : Type 0) : Type 0 where
  pub init : ℕ → V
  pub size : V → ℕ
  pub cap : V → ℕ
  pub get : V → ℕ → E
  pub set : V → ℕ → E → V
  pub add : V → E → V
  pub add_front : V → E → V
  pub insert : V → ℕ → E → V
  pub rem : V → ℕ → V
  pub set_size : V → ℕ → V
  pub set_cap : V → ℕ → V
  pub copy : V → (at : ℕ) → V → (from n : ℕ) → V

pub data Access (A : Type 0) : Type 0 where
  value : A → Access A
  array_out_of_bounds out_of_bounds_array_slice : Access A

module _ {V E : Type 0} (mv : MVectorOps V E) where
  -- `arrayaccess`, for a value.
  unfoldable pub array_access : V → (idx : ℕ) → Access E
  array_access array idx =
      if is_negative idx || leb (mv.size array) idx
      then array_out_of_bounds
      else value (mv.get array idx)

  unfoldable pub vm_vector_rem : V → (index : ℕ) → V
  vm_vector_rem v index = if is_negative index || leb (mv.size v) index then v else mv.rem v index

  unfoldable pub vm_vector_insert : V → (index : ℕ) → E → V
  vm_vector_insert v index x =
      if is_negative index || ltb (mv.size v) index then v else mv.insert v index x

  -- The room that both concatenations make.
  unfoldable pub concat_room : V → V → V
  concat_room base more =
      let size = mv.size base + mv.size more in
      let longer = mv.set_size base size in
      if leb (mv.cap longer) size then mv.set_cap longer (mv.cap longer + mv.cap more) else longer

  -- `ArrayConcatLeft`: the size of one element is copied.
  unfoldable pub array_concat_left : V → V → V
  array_concat_left base more = mv.copy (concat_room base more) (mv.size base) more 0 1

  unfoldable pub array_concat_right : V → V → V
  array_concat_right base more =
      let len = mv.size base in
      let room = concat_room base more in
      mv.copy (mv.copy room (mv.size more + len - 1) room 0 len) 0 more 0 (mv.size more)

  abbrev pub array_append : V → E → V
  array_append = mv.add

  abbrev pub array_append_front : V → E → V
  array_append_front = mv.add_front

  -- `bounds`; CHECK_B returns false where its argument is.
  unfoldable pub bounds : V → (i : ℕ) → Bool
  bounds v i = if i == 0 then false else ltb i (mv.size v)

  -- The loop of `ArraySlice`: `op` is 1 or -1. The fuel bounds the rounds.
  unfoldable pub slice_rounds : (fuel : ℕ) → V → (i stop op j : ℕ) → V → Option V
  slice_rounds zero array i stop op j out = none
  slice_rounds (suc fuel) array i stop op j out =
      let rest =
        slice_rounds fuel array ((i + op) % word_mod) stop op (j + 1)
          (mv.set out j (mv.get array i)) in
      if i == stop then some out else rest

  unfoldable pub slice_end : V → ℕ → ℕ
  slice_end array stop = if is_negative stop then (mv.size array + stop) % word_mod else stop

  unfoldable pub array_slice : (fuel : ℕ) → V → (start stop : ℕ) → Option (Access V)
  array_slice fuel array start stop0 =
      let stop = slice_end array stop0 in
      let up = int_lt start stop in
      let sz =
        if up then (stop + word_mod - start) % word_mod else (start + word_mod - stop) % word_mod in
      if bounds array start && bounds array stop
      then elim (slice_rounds fuel array start stop (if up then 1 else word_mod - 1) 0
          (mv.init sz)) [ none ↦ none | some out ↦ some (value out) ]
      else some out_of_bounds_array_slice

-- The rounds of a method that calls a function for each element, from `index` on: `step` is what the `_run_end`
-- of the method does in a round. `FunctionalFrame` has half-words.
unfoldable pub run_rounds :
    {A : Type 0} (step : ℕ → A → A) (size : ℕ) → (fuel : ℕ) → (index : ℕ) → A → Option A
run_rounds step size zero index a = none
run_rounds step size (suc fuel) index a =
    let next = (index + 1) % 2 ^ 16 in
    let rest = run_rounds step size fuel next (step index a) in
    if next == size then some (step index a) else rest

-- An empty array has no rounds.
abbrev pub run_method : {A : Type 0} (step : ℕ → A → A) (size : ℕ) → (fuel : ℕ) → A → Option A
run_method step size fuel a = if size == 0 then some a else run_rounds step size fuel 0 a

-- The methods; `f` is what the function that is called returns.
module _ {V E : Type 0} (mv : MVectorOps V E) where
  -- The result has the array's own type, so `f` gives as many bytes as an element has, of what the function
  -- returns.
  unfoldable pub vm_vector_map : (f : E → E) (fuel : ℕ) → V → Option V
  vm_vector_map f fuel self =
      run_method (λ index ret. mv.set ret index (f (mv.get self index))) (mv.size self) fuel
        (mv.init (mv.size self))

  unfoldable pub vm_vector_compactmap :
      {W R : Type 0} (mw : MVectorOps W R) (f : E → Option R) (fuel : ℕ) → V → Option W
  vm_vector_compactmap mw f fuel self =
      run_method (λ index ret. elim (f (mv.get self index)) [ none ↦ ret | some x ↦ mw.add ret x ])
        (mv.size self) fuel (mw.init 0)

  unfoldable pub vm_vector_filter : (f : E → Bool) (fuel : ℕ) → V → Option V
  vm_vector_filter f fuel self =
      run_method
        (λ index ret. if f (mv.get self index) then mv.add ret (mv.get self index) else ret)
        (mv.size self) fuel (mv.init 0)

  unfoldable pub vm_vector_count : (f : E → Bool) (fuel : ℕ) → V → Option ℕ
  vm_vector_count f fuel self =
      run_method (λ index n. if f (mv.get self index) then (n + 1) % word_mod else n) (mv.size self)
        fuel 0

  -- A round copies as many bytes of the accumulator as an element has: the model has accumulators of that size
  -- only.
  unfoldable pub vm_vector_foldl : (f : E → E → E) (fuel : ℕ) → V → E → Option E
  vm_vector_foldl f fuel self acc =
      run_method (λ index a. f (mv.get self index) a) (mv.size self) fuel acc

  unfoldable pub vm_vector_foldr : (f : E → E → E) (fuel : ℕ) → V → E → Option E
  vm_vector_foldr f fuel self acc =
      run_method (λ index a. f (mv.get self (mv.size self - index - 1)) a) (mv.size self) fuel acc

  -- `new`: the function gets the index.
  unfoldable pub vm_vector_new : (f : ℕ → E) (fuel : ℕ) → V → Option V
  vm_vector_new f fuel self =
      run_method (λ index v. mv.set v index (f index)) (mv.size self) fuel self
