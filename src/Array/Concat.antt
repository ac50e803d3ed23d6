-- ===== src/Array/Concat.antt =====
-- `ArrayConcatLeft` (src/lib/array.c).
use gwion.Prelude.{
  ℕ, ◌+◌, ◌<◌, ◌≤◌, ◌≡◌, sym, ap, ◌∙◌, arith, Bool-cases, ◌⊎◌, inl, inr, leb, leb→lt,
}
use gwion.Array.{MVectorOps, concat_room, array_concat_left}

-- The cells of a vector, of which there are as many as its capacity: `memmove`, and `realloc` to more cells.
pub record MVectorCells {V E : Type 0} (mv : MVectorOps V E) : Type 0 where
  pub size-set_size : (v : V) (n : ℕ) → mv.size (mv.set_size v n) ≡ n
  pub cap-set_size : (v : V) (n : ℕ) → mv.cap (mv.set_size v n) ≡ mv.cap v
  pub get-set_size : (v : V) (n i : ℕ) → mv.get (mv.set_size v n) i ≡ mv.get v i
  pub size-set_cap : (v : V) (n : ℕ) → mv.size (mv.set_cap v n) ≡ mv.size v
  pub cap-set_cap : (v : V) (n : ℕ) → mv.cap (mv.set_cap v n) ≡ n
  pub get-set_cap :
      (v : V) (n i : ℕ) → i < mv.cap v → mv.cap v ≤ n → mv.get (mv.set_cap v n) i ≡ mv.get v i
  pub size-copy :
      (d : V) (at : ℕ) (s : V) (from n : ℕ) → mv.size (mv.copy d at s from n) ≡ mv.size d
  pub get-copy_in :
      (d : V) (at : ℕ) (s : V) (from n i : ℕ)
      → at + n ≤ mv.cap d
      → i < n
      → mv.get (mv.copy d at s from n) (at + i) ≡ mv.get s (from + i)
  pub get-copy_out :
      (d : V) (at : ℕ) (s : V) (from n i : ℕ)
      → at + n ≤ mv.cap d
      → (i < at) ⊎ (at + n ≤ i)
      → mv.get (mv.copy d at s from n) i ≡ mv.get d i

module _ {V E : Type 0} (mv : MVectorOps V E) (cells : MVectorCells mv) (base more : V)
    (base_fits : mv.size base ≤ mv.cap base) (more_fits : mv.size more ≤ mv.cap more) where
  longer : V
  longer = mv.set_size base (mv.size base + mv.size more)

  room_lem :
      (mv.size (concat_room mv base more) ≡ mv.size base + mv.size more)
      × (mv.size base + mv.size more ≤ mv.cap (concat_room mv base more))
      × ((i : ℕ) → i < mv.cap base → mv.get (concat_room mv base more) i ≡ mv.get base i)
  unfolding concat_room longer
  room_lem =
      let whole = cells.size-set_size base (mv.size base + mv.size more) in
      let same = cells.cap-set_size base (mv.size base + mv.size more) in
      elim (Bool-cases (leb (mv.cap longer) (mv.size base + mv.size more))) [
        | inl full ↦
            let grown = cells.cap-set_cap longer (mv.cap longer + mv.cap more) in
            rw full (
              cells.size-set_cap longer (mv.cap longer + mv.cap more) ∙ whole,
              omega (arith, grown, same, base_fits, more_fits),
              λ i below.
                  cells.get-set_cap longer (mv.cap longer + mv.cap more) i
                    (omega (arith, below, same)) (omega arith)
                  ∙ cells.get-set_size base (mv.size base + mv.size more) i,
            )
        | inr spare ↦
            let less = leb→lt (mv.cap longer) (mv.size base + mv.size more) spare in
            rw spare (
              whole,
              omega (arith, less),
              λ i below. cells.get-set_size base (mv.size base + mv.size more) i,
            )
      ]

  -- For two arrays within their capacities, the second not empty, concatenation gives the first array the size of
  -- both and keeps its elements; the first element of the second follows, and the cells after it, those within the
  -- first array's capacity, hold what they held before.
  pub array_concat_left_lem :
      0 < mv.size more
      → (mv.size (array_concat_left mv base more) ≡ mv.size base + mv.size more)
        × ((i : ℕ) → i < mv.size base → mv.get (array_concat_left mv base more) i ≡ mv.get base i)
        × (mv.get (array_concat_left mv base more) (mv.size base) ≡ mv.get more 0)
        × ((i : ℕ)
            → mv.size base < i
            → i < mv.cap base
            → mv.get (array_concat_left mv base more) i ≡ mv.get base i)
  unfolding array_concat_left
  array_concat_left_lem some_more =
      let (whole, fits, same) = room_lem in
      let end : mv.size base + 0 ≡ mv.size base = omega arith in
      let copied : mv.size base + 1 ≤ mv.cap (concat_room mv base more) =
        omega (arith, fits, some_more) in
      (
        cells.size-copy (concat_room mv base more) (mv.size base) more 0 1 ∙ whole,
        λ i below.
            cells.get-copy_out (concat_room mv base more) (mv.size base) more 0 1 i copied
              (inl below)
            ∙ same i (omega (arith, below, base_fits)),
        sym (ap (mv.get (array_concat_left mv base more)) end)
            ∙ cells.get-copy_in (concat_room mv base more) (mv.size base) more 0 1 0 copied
                (omega arith),
        λ i above below.
            cells.get-copy_out (concat_room mv base more) (mv.size base) more 0 1 i copied
              (inr (omega (arith, above)))
            ∙ same i below,
      )
