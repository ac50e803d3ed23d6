-- ===== src/Strings.antt =====
-- src/lib/string.c: the methods of strings. A string is the list of its characters before the terminating
-- zero. A method fills a buffer on the stack, whose characters are those of `fresh` at first, and makes a string of
-- it. `none` stands for a read or a write outside of a string or a buffer, which C leaves undefined.
pub mod Copies
pub mod Parts
pub mod Edit
pub mod Spaces
pub mod Trim
pub mod Undo
mod Case
mod Tests
use gwion.Prelude.{
  ℕ, zero, suc, ◌+◌, ◌-◌, ◌%◌, ◌^◌, Bool, true, false, ◌&&◌, ◌||◌, Option, none, some, List, [],
  ◌∷◌, ◌++◌, ◌==◌, ltb, leb, if◌then◌else◌, length, get_or, set, drop,
}
use gwion.Word.{word_mod, is_negative}

pub data Text : Type 0 where
  value : List ℕ → Text
  out_of_bounds_string_slice invalid_string_trim_request invalid_string_replace
        invalid_string_erase :
      Text

infixl 5 ◌>>=◌
abbrev pub ◌>>=◌ {ℓ κ} : {A : Type ℓ} {B : Type κ} → Option A → (A → Option B) → Option B
none >>= f = none
some x >>= f = f x

-- The characters up to the first zero; without one, C reads outside the buffer.
unfoldable pub c_string : List ℕ → Option (List ℕ)
c_string [] = none
c_string (x ∷ xs) =
    let rest = c_string xs in
    if x == 0 then some [] else elim rest [ none ↦ none | some t ↦ some (x ∷ t) ]

unfoldable pub buffer : (ℕ → ℕ) → ℕ → List ℕ
buffer fresh zero = []
buffer fresh (suc n) = fresh n ∷ buffer fresh n

-- `n` rounds of `c[at++] = str[from++]`; the terminator can be read.
unfoldable pub copy_chars : (n from at : ℕ) → (str c : List ℕ) → Option (List ℕ)
copy_chars zero from at str c = some c
copy_chars (suc n) from at str c =
    let rest = copy_chars n (from + 1) (at + 1) str (set c at (get_or str from 0)) in
    if leb from (length str) && ltb at (length c) then rest else none

unfoldable pub set_char : (at x : ℕ) → List ℕ → Option (List ℕ)
set_char at x c = if ltb at (length c) then some (set c at x) else none

unfoldable pub new_string : List ℕ → Option Text
new_string c = elim (c_string c) [ none ↦ none | some t ↦ some (value t) ]

-- A negative index writes before the buffer, or reads before the string.
unfoldable pub string_insert :
    (fresh : ℕ → ℕ) → (str : List ℕ) → (index : ℕ) → (insert : List ℕ) → Option Text
string_insert fresh str index insert =
    let len = length str in
    let len_insert = length insert in
    let made = (do
      c1 ← copy_chars index 0 0 str (buffer fresh (len + len_insert + 1))
      c2 ← copy_chars len_insert 0 index insert c1
      c3 ← copy_chars (len - index) index (index + len_insert) str c2
      c ← set_char (len + len_insert) 0 c3
      new_string c) in
    if is_negative index then none else made

-- What stands behind the place is left out.
unfoldable pub string_replace :
    (fresh : ℕ → ℕ) → (str : List ℕ) → (index : ℕ) → (insert : List ℕ) → Option Text
string_replace fresh str index insert =
    let len_insert = length insert in
    let made = (do
      c1 ← copy_chars index 0 0 str (buffer fresh (index + len_insert + 1))
      c2 ← copy_chars len_insert 0 index insert c1
      c ← set_char (index + len_insert) 0 c2
      new_string c) in
    if leb (length str) index || is_negative index || is_negative (index + len_insert + 1)
    then some invalid_string_replace
    else made

-- The buffer has `size` characters; the characters from `behind` on move to `start`.
unfoldable pub erase_chars :
    (fresh : ℕ → ℕ) → (str : List ℕ) → (size start behind : ℕ) → Option Text
erase_chars fresh str size start behind = do
  c0 ← set_char (size - 1) 0 (buffer fresh size)
  c1 ← copy_chars start 0 0 str c0
  c ← copy_chars (length str - behind) behind start str c1
  new_string c

-- A negative start is subtracted from the length; a negative `rem` repeats what stands before the start.
unfoldable pub string_erase : (fresh : ℕ → ℕ) → (str : List ℕ) → (start rem : ℕ) → Option Text
string_erase fresh str start0 rem =
    let len = length str in
    let start = if is_negative start0 then len + (word_mod - start0) else start0 in
    if is_negative start
    then none
    else if leb len start
    then some invalid_string_erase
    else if is_negative rem
    then (if ltb start (word_mod - rem)
        then none
        else erase_chars fresh str (len + (word_mod - rem) + 1) start (start - (word_mod - rem)))
    else if ltb len rem
    then some invalid_string_erase
    else erase_chars fresh str (len - rem + 1) start (start + rem)

unfoldable pub leading : List ℕ → ℕ
leading [] = 0
leading (x ∷ xs) = if x == 32 then leading xs + 1 else 0

-- The spaces before `i`, from the last on.
unfoldable pub trailing : (i : ℕ) → List ℕ → ℕ
trailing zero str = 0
trailing (suc i) str = if get_or str i 0 == 32 then trailing i str + 1 else 0

unfoldable pub string_ltrim : List ℕ → Option Text
unfolding leading
string_ltrim str = new_string (drop (leading str) str ++ 0 ∷ [])

unfoldable pub string_trim : (fresh : ℕ → ℕ) → List ℕ → Option Text
unfolding leading trailing
string_trim fresh str =
    let len = length str in
    let start = leading str in
    let end = trailing len str in
    let made = (do
      c1 ← copy_chars (len - end - start) start 0 str (buffer fresh (len - start - end + 1))
      c ← set_char (len - start - end) 0 c1
      new_string c) in
    if leb len (start + end) then some invalid_string_trim_request else made

-- An empty string is returned itself; the loop of one with spaces only reads before it.
unfoldable pub string_rtrim : (fresh : ℕ → ℕ) → List ℕ → Option Text
unfolding trailing
string_rtrim fresh str =
    let kept = length str - trailing (length str) str in
    let made = (do
      c1 ← copy_chars kept 0 0 str (buffer fresh (kept + 1))
      c ← set_char kept 0 c1
      new_string c) in
    if length str == 0 then some (value str) else if kept == 0 then none else made

abbrev pub upper_char : ℕ → ℕ
upper_char c = if leb 97 c && leb c 122 then c - 32 else c

abbrev pub lower_char : ℕ → ℕ
lower_char c = if leb 65 c && leb c 90 then c + 32 else c

unfoldable pub string_upper : List ℕ → List ℕ
string_upper [] = []
string_upper (x ∷ xs) = upper_char x ∷ string_upper xs

unfoldable pub string_lower : List ℕ → List ℕ
string_lower [] = []
string_lower (x ∷ xs) = lower_char x ∷ string_lower xs

-- `bounds`; CHECK_B returns false where its argument is.
unfoldable pub bounds : List ℕ → ℕ → Bool
bounds str i = if i == 0 then false else leb i (length str)

-- The rounds of a slice: `op` is 1 or -1; the terminator can be read.
unfoldable pub slice_chars : (n i op j : ℕ) → (str c : List ℕ) → Option (List ℕ)
slice_chars zero i op j str c = some c
slice_chars (suc n) i op j str c =
    let rest = slice_chars n ((i + op) % word_mod) op (j + 1) str (set c j (get_or str i 0)) in
    if leb i (length str) && ltb j (length c) then rest else none

unfoldable pub slice_end : List ℕ → ℕ → ℕ
slice_end str end = if is_negative end then (length str + end + word_mod - 1) % word_mod else end

-- Of the two ends, both are part of the slice. One too large for the stack is not considered.
unfoldable pub string_slice : (fresh : ℕ → ℕ) → List ℕ → (start end : ℕ) → Option Text
string_slice fresh str start end0 =
    let end = slice_end str end0 in
    let sz = if ltb start end then end - start + 1 else start - end + 1 in
    let made = (do
      c1 ←
          slice_chars sz start (if ltb start end then 1 else word_mod - 1) 0 str
            (buffer fresh (sz + 1))
      c ← set_char sz 0 c1
      new_string c) in
    if bounds str start && bounds str end then made else some out_of_bounds_string_slice
