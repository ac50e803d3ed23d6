-- ===== src/Strings/Edit.antt =====
-- `insert`, `replace` and `erase` (src/lib/string.c).
use gwion.Prelude.{
  le→ltb, lt→leb, ℕ, zero, suc, ◌+◌, ◌-◌, ◌^◌, ◌<◌, ◌≤◌, ◌≡◌, refl, ap, ◌∙◌, Bool, true, false,
  none, some, List, [], ◌∷◌, ◌++◌, length, get_or, set, take, drop, length-append, ltb, leb,
  if◌then◌else◌, arith, Bool-cases, inl, inr, leb→le, length-take, length-drop, take_all, take_rest,
}
use gwion.Word.{is_negative}
use gwion.Strings.{
  value, buffer, copy_chars, string_insert, string_replace, string_erase, erase_chars,
}
use gwion.Strings.Parts.{take-IsText, drop-IsText, append-IsText, not_negative}
use gwion.Strings.Copies.{
  IsText, Filled-copy_chars, Filled-buffer, Filled-set_char, Filled-new_string,
}

module _ (fresh : ℕ → ℕ) (str : List ℕ) where
  pub insert_lem :
      (index : ℕ) (insert : List ℕ)
      → IsText str
      → IsText insert
      → length str < 2 ^ 63
      → index ≤ length str
      → string_insert fresh str index insert
        ≡ some (value (take index str ++ insert ++ drop index str))
  unfolding string_insert
  insert_lem index insert text text' small within =
      let len = length str in
      let lin = length insert in
      let long = length-take index str within in
      let (x, filled) = Filled-buffer fresh (len + lin) in
      let (c1, e1, filled1) =
        Filled-copy_chars index (lin + (len - index)) (len + lin) 0 0 str
          (buffer fresh (len + lin + 1)) [] (x ∷ []) filled (omega (arith, within)) refl
          (omega (arith, within)) in
      let (c2, e2, filled2) =
        Filled-copy_chars lin (len - index) (lin + (len - index)) 0 index insert c1 (take index str)
          (x ∷ []) filled1 refl long (omega arith) in
      let t2 = take index str ++ take lin insert in
      let long2 : length t2 ≡ index + lin =
        let whole = length-append (take index str) (take lin insert) in
        let same = ap length (take_all insert) in omega (arith, whole, long, same) in
      let (c3, e3, filled3) =
        Filled-copy_chars (len - index) 0 (len - index) index (index + lin) str c2 t2 (x ∷ [])
          filled2 (omega arith) long2 (omega (arith, within)) in
      let t3 = t2 ++ take (len - index) (drop index str) in
      let long3 : length t3 + 0 ≡ len + lin =
        let whole = length-append t2 (take (len - index) (drop index str)) in
        let last = ap length (take_rest index str) ∙ length-drop index str in
        omega (arith, whole, last, long2, within) in
      let (c4, e4, filled4) = Filled-set_char c3 t3 0 (len + lin) x filled3 long3 in
      let done : t3 ≡ take index str ++ insert ++ drop index str =
        ap (λ l. take index str ++ l ++ take (len - index) (drop index str)) (take_all insert)
        ∙ ap (λ l. take index str ++ insert ++ l) (take_rest index str) in
      let nonzero =
        append-IsText (take index str ++ insert) (drop index str)
          (append-IsText (take index str) insert (take-IsText index str text) text')
          (drop-IsText index str text) in
      let positive : is_negative index ≡ false =
        not_negative index (omega (arith, within, small)) in
      rw (positive, e1, e2, e3, e4)
        (Filled-new_string c4 t3 (take index str ++ insert ++ drop index str) filled4 done nonzero)

  -- Reading past the terminator.
  copy_outside :
      (n from at : ℕ) (c : List ℕ)
      → length str + 1 < from + n
      → from ≤ length str + 1
      → copy_chars n from at str c ≡ none
  unfolding copy_chars
  copy_outside zero from at c above below = absurd (omega (arith, above, below))
  copy_outside (suc n) from at c above below = elim (Bool-cases (leb from (length str))) [
    | inr outside ↦ rw outside refl
    | inl inside ↦
        let within = leb→le from (length str) inside in
        rw
          (
            inside,
            copy_outside n (from + 1) (at + 1) (set c at (get_or str from 0)) (omega (arith, above))
                (omega (arith, within)),
          )
          (if_same (ltb at (length c)) none)
  ]
    where
      if_same : {A : Type 0} (b : Bool) (x : A) → (if b then x else x) ≡ x
      if_same true x = refl
      if_same false x = refl

  insert_outside :
      (index : ℕ) (insert : List ℕ)
      → length str + 1 < index
      → string_insert fresh str index insert ≡ none
  unfolding string_insert
  insert_outside index insert above = elim (Bool-cases (is_negative index)) [
    | inl negative ↦ rw negative refl
    | inr positive ↦
        rw
          (
            positive,
            copy_outside index 0 0 (buffer fresh (length str + length insert + 1))
                (omega (arith, above)) (omega arith),
          )
          refl
  ]

  erase_chars_lem :
      (start rem : ℕ)
      → IsText str
      → start + rem ≤ length str
      → erase_chars fresh str (length str - rem + 1) start (start + rem)
        ≡ some (value (take start str ++ drop (start + rem) str))
  unfolding erase_chars
  erase_chars_lem start rem text within =
      let len = length str in
      let size = len - rem in
      let behind = start + rem in
      let last_place : size + 1 - 1 ≡ size = omega arith in
      let long = length-take start str (omega (arith, within)) in
      let (x, empty) = Filled-buffer fresh size in
      let (c0, e0, filled) =
        Filled-set_char (buffer fresh (size + 1)) [] size size x empty (omega arith) in
      let (c1, e1, filled1) =
        Filled-copy_chars start (len - behind) size 0 0 str c0 [] (0 ∷ []) filled
          (omega (arith, within)) refl (omega (arith, within)) in
      let (c2, e2, filled2) =
        Filled-copy_chars (len - behind) 0 (len - behind) behind start str c1 (take start str)
          (0 ∷ []) filled1 (omega arith) long (omega (arith, within)) in
      let done = ap (λ l. take start str ++ l) (take_rest behind str) in
      let nonzero =
        append-IsText (take start str) (drop behind str) (take-IsText start str text)
          (drop-IsText behind str text) in
      rw (last_place, e0, e1, e2)
        (Filled-new_string c2 (take start str ++ take (len - behind) (drop behind str))
          (take start str ++ drop behind str) filled2 done nonzero)

  pub erase_lem :
      (start rem : ℕ)
      → IsText str
      → length str < 2 ^ 63
      → start < length str
      → start + rem ≤ length str
      → string_erase fresh str start rem ≡ some (value (take start str ++ drop (start + rem) str))
  unfolding string_erase
  erase_lem start rem text small below within =
      let start_positive = not_negative start (omega (arith, below, small)) in
      let rem_positive = not_negative rem (omega (arith, within, small)) in
      let start_in = lt→leb start (length str) below in
      let rem_in = le→ltb rem (length str) (omega (arith, within)) in
      rw (start_positive, start_positive, start_in, rem_positive, rem_in)
        (erase_chars_lem start rem text within)

  replace_lem :
      (index : ℕ) (insert : List ℕ)
      → IsText str
      → IsText insert
      → index < length str
      → length str + length insert < 2 ^ 63
      → string_replace fresh str index insert ≡ some (value (take index str ++ insert))
  unfolding string_replace
  replace_lem index insert text text' below small =
      let lin = length insert in
      let long = length-take index str (omega (arith, below)) in
      let (x, filled) = Filled-buffer fresh (index + lin) in
      let (c1, e1, filled1) =
        Filled-copy_chars index lin (index + lin) 0 0 str (buffer fresh (index + lin + 1)) []
          (x ∷ []) filled refl refl (omega (arith, below)) in
      let (c2, e2, filled2) =
        Filled-copy_chars lin 0 lin 0 index insert c1 (take index str) (x ∷ []) filled1
          (omega arith) long (omega arith) in
      let t2 = take index str ++ take lin insert in
      let long2 : length t2 + 0 ≡ index + lin =
        let whole = length-append (take index str) (take lin insert) in
        let same = ap length (take_all insert) in omega (arith, whole, long, same) in
      let (c3, e3, filled3) = Filled-set_char c2 t2 0 (index + lin) x filled2 long2 in
      let nonzero = append-IsText (take index str) insert (take-IsText index str text) text' in
      let inside : leb (length str) index ≡ false = ground (arith, below) in
      let positive = not_negative index (omega (arith, below, small)) in
      let no_overflow = not_negative (index + lin + 1) (omega (arith, below, small)) in
      rw (inside, positive, no_overflow, e1, e2, e3)
        (Filled-new_string c3 t2 (take index str ++ insert) filled3
          (ap (λ l. take index str ++ l) (take_all insert)) nonzero)
