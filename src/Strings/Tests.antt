-- ===== src/Strings/Tests.antt =====
-- The theorems on strings at concrete strings, and the methods run on them (src/lib/string.c).
use gwion.Prelude.{ℕ, ◌+◌, ◌≡◌, refl, none, some, List, [], ◌∷◌, length, arith, ◌⊎◌}
use gwion.Strings.{
  value, invalid_string_trim_request, invalid_string_erase, c_string, buffer, copy_chars, set_char,
  new_string, string_insert, string_replace, string_erase, leading, trailing, string_rtrim,
  string_ltrim, string_trim, bounds, slice_chars, slice_end, string_slice,
}
use gwion.Strings.Trim.{IsTrimmed, string_trim_lem}
use gwion.Strings.Spaces.{blanks}
use gwion.Strings.Undo.{string_erase-string_insert}

abbrev stack : ℕ → ℕ
stack n = n + 7

-- " ab "
abbrev spaced : List ℕ
spaced = 32 ∷ 97 ∷ 98 ∷ 32 ∷ []

replace_test : string_replace stack spaced 1 (99 ∷ []) ≡ some (value (32 ∷ 99 ∷ []))
unfolding string_replace copy_chars set_char new_string c_string buffer
replace_test = refl

-- A negative start does not count from the end.
erase_test : string_erase stack spaced (18446744073709551614) 1 ≡ some invalid_string_erase
unfolding string_erase
erase_test = refl

-- One character behind the end, the terminator hides the insertion.
insert_test : string_insert stack spaced 5 (99 ∷ 100 ∷ []) ≡ some (value spaced)
unfolding string_insert copy_chars set_char new_string c_string buffer
insert_test = refl

ltrim_test : string_ltrim spaced ≡ some (value (97 ∷ 98 ∷ 32 ∷ []))
unfolding string_ltrim leading new_string c_string
ltrim_test = refl

rtrim_test : string_rtrim stack (32 ∷ 32 ∷ []) ≡ none
unfolding string_rtrim trailing
rtrim_test = refl

slice_test : string_slice stack spaced 3 1 ≡ some (value (32 ∷ 98 ∷ 97 ∷ []))
unfolding string_slice slice_chars slice_end bounds set_char new_string c_string buffer
slice_test = refl

string_trim_lem_example :
    ((core : List ℕ) × IsTrimmed spaced core × (string_trim stack spaced ≡ some (value core)))
    ⊎ ((spaced ≡ blanks (length spaced))
        × (string_trim stack spaced ≡ some invalid_string_trim_request))
string_trim_lem_example =
    string_trim_lem stack spaced (omega arith, (omega arith, (omega arith, (omega arith, tt))))

string_erase-string_insert_example :
    (t : List ℕ) × (string_insert stack spaced 2 (99 ∷ []) ≡ some (value t))
    × (length t ≡ length spaced + 1)
    × (string_erase stack t 2 (1) ≡ some (value spaced))
string_erase-string_insert_example =
    string_erase-string_insert stack spaced 2 (99 ∷ [])
      (omega arith, (omega arith, (omega arith, (omega arith, tt)))) (omega arith, tt) (omega arith)
      (omega arith) (omega arith)
