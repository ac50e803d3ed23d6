-- ===== src/Strings/Undo.antt =====
-- `insert` and `erase` together, and slices (src/lib/string.c).
use mathlib.Core.List.{append_assoc}
use gwion.Prelude.{
  ℕ, zero, suc, ◌+◌, ◌-◌, ◌%◌, ◌^◌, ◌<◌, ◌≤◌, ◌≡◌, refl, sym, ap, ◌∙◌, true, false, none, some,
  List, [], ◌∷◌, ◌++◌, length, get_or, set, take, drop, length-append, ◌==◌, ltb, leb, ◌&&◌,
  if◌then◌else◌, arith, lt→ltb, length-take, length-drop, split,
}
use gwion.Word.{word_mod}
use gwion.Strings.{
  value, buffer, copy_chars, string_insert, string_erase, bounds, slice_end, slice_chars,
  string_slice,
}
use gwion.Strings.Copies.{
  IsText, Filled-copy_chars, Filled-buffer, Filled-set_char, Filled-new_string,
}
use gwion.Strings.Parts.{take-IsText, drop-IsText, append-IsText, not_negative}
use gwion.Strings.Edit.{insert_lem, erase_lem}

take-append : (xs ys : List ℕ) → take (length xs) (xs ++ ys) ≡ xs
take-append [] ys = refl
take-append (x ∷ xs) ys = ap (λ l. x ∷ l) (take-append xs ys)

drop-append : (xs ys : List ℕ) → drop (length xs) (xs ++ ys) ≡ ys
drop-append [] ys = refl
drop-append (x ∷ xs) ys = drop-append xs ys

module _ (fresh : ℕ → ℕ) where
  -- For a string and an insertion without zeros, together shorter than 2^63, where something is inserted at a place
  -- up to the end: inserting gives a string longer by the insertion, and erasing as many characters at that place gives
  -- the first string back.
  pub string_erase-string_insert :
      (str : List ℕ) (index : ℕ) (insert : List ℕ)
      → IsText str
      → IsText insert
      → length str + length insert < 2 ^ 63
      → 0 < length insert
      → index ≤ length str
      → (t : List ℕ) × (string_insert fresh str index insert ≡ some (value t))
        × (length t ≡ length str + length insert)
        × (string_erase fresh t index (length insert) ≡ some (value str))
  string_erase-string_insert str index insert text text' small some_insert within =
      let p = take index str in
      let q = drop index str in
      let t = p ++ insert ++ q in
      let whole = split index str in
      let long = length-take index str within in
      let left = length-drop index str in
      let front : length (p ++ insert) ≡ index + length insert =
        let l = length-append p insert in omega (arith, l, long) in
      let all : length t ≡ length str + length insert =
        let l = length-append (p ++ insert) q in omega (arith, l, front, left, within) in
      let nonzero =
        append-IsText (p ++ insert) q (append-IsText p insert (take-IsText index str text) text')
          (drop-IsText index str text) in
      let taken : take index t ≡ p =
        ap (λ n. take n t) (sym long)
        ∙ ap (take (length p)) (append_assoc p insert q)
        ∙ take-append p (insert ++ q) in
      let dropped : drop (index + length insert) t ≡ q =
        ap (λ n. drop n t) (sym front) ∙ drop-append (p ++ insert) q in
      (
        t,
        insert_lem fresh str index insert text text' (omega (arith, small)) within,
        all,
        erase_lem fresh t index (length insert) nonzero (omega (arith, all, small))
              (omega (arith, all, within, some_insert)) (omega (arith, all, within))
            ∙ ap (λ l. some (value (l ++ drop (index + length insert) t))) taken
            ∙ ap (λ l. some (value (p ++ l))) dropped
            ∙ ap (λ l. some (value l)) (sym whole),
      )

  slice_chars_up :
      (n i j : ℕ) (str c : List ℕ)
      → i + n < word_mod
      → slice_chars n i 1 j str c ≡ copy_chars n i j str c
  unfolding slice_chars copy_chars
  slice_chars_up zero i j str c small = refl
  slice_chars_up (suc n) i j str c small =
      let next : (i + 1) % word_mod ≡ i + 1 = omega (arith, small) in
      let rest =
        slice_chars_up n (i + 1) (j + 1) str (set c j (get_or str i 0)) (omega (arith, small)) in
      rw next (ap (λ r. if leb i (length str) && ltb j (length c) then r else none) rest)

  -- For a string shorter than 2^63 with no zero in it, a slice from a positive index to a greater one below the length holds
  -- the characters from the one to the other, both of them in it.
  string_slice_lem :
      (str : List ℕ) (start end : ℕ)
      → IsText str
      → length str < 2 ^ 63
      → 0 < start
      → start < end
      → end < length str
      → string_slice fresh str start end ≡ some (value (take (end - start + 1) (drop start str)))
  unfolding string_slice bounds slice_end
  string_slice_lem str start end text small positive less below =
      let n = end - start + 1 in
      let end_positive = not_negative end (omega (arith, below, small)) in
      let up = lt→ltb start end less in
      let start_zero : (start == 0) ≡ false = ground (arith, positive) in
      let end_zero : (end == 0) ≡ false = ground (arith, positive, less) in
      let start_in : leb start (length str) ≡ true = ground (arith, less, below) in
      let end_in : leb end (length str) ≡ true = ground (arith, below) in
      let long =
        length-take n (drop start str)
          (let l = length-drop start str in omega (arith, l, less, below)) in
      let (x, filled) = Filled-buffer fresh n in
      let (c1, e1, filled1) =
        Filled-copy_chars n 0 n start 0 str (buffer fresh (n + 1)) [] (x ∷ []) filled (omega arith)
          refl (omega (arith, less, below)) in
      let (c2, e2, filled2) =
        Filled-set_char c1 (take n (drop start str)) 0 n x filled1 (omega (arith, long)) in
      let same =
        slice_chars_up n start 0 str (buffer fresh (n + 1)) (omega (arith, less, below, small)) in
      rw (end_positive, start_zero, end_zero, start_in, end_in, up, same ∙ e1, e2)
        (Filled-new_string c2 (take n (drop start str)) (take n (drop start str)) filled2 refl
          (take-IsText n (drop start str) (drop-IsText start str text)))
