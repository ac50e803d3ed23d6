-- ===== src/Escape.antt =====
-- src/emit/escape.c: the escape sequences of a string literal are decoded in place. The buffer is a
-- list of bytes, `rd` stands for `str_lit` and `wr` for `str`. A read outside the buffer is a fault.
pub mod Buffer
pub mod Pieces
pub mod Decode
pub mod Ends
mod Tests
use mathlib.Core.Bool.{not}
use gwion.Prelude.{
  ℕ, zero, suc, ◌+◌, ◌-◌, ◌*◌, ◌%◌, Bool, true, false, ◌&&◌, ◌||◌, Option, none, some, List, [],
  ◌∷◌, leb, ltb, ◌==◌, if◌then◌else◌, get_elem?, set, length,
}

abbrev pub backslash : ℕ
backslash = 92

-- `escape_table`: 0 where the table has no entry.
unfoldable pub escape_table : ℕ → ℕ
escape_table c =
    if c == 48
    then 48
    else if c == 39
    then 39
    else if c == 34
    then 34
    else if c == 92
    then 92
    else if c == 97
    then 7
    else if c == 98
    then 8
    else if c == 102
    then 12
    else if c == 110
    then 10
    else if c == 114
    then 13
    else if c == 116
    then 9
    else if c == 118
    then 11
    else 0

-- `get_escape` tests its output pointer, not the output, so it never reports an error. A byte
-- from 128 on is a negative `char`, and indexes the table from outside: none.
unfoldable pub get_escape : ℕ → Option ℕ
get_escape c = if ltb c 128 then some (escape_table c) else none

abbrev pub is_octal : ℕ → Bool
is_octal c = leb 48 c && leb c 55

-- The bytes that the code takes for hexadecimal digits: those from '0' to 'F'.
abbrev pub is_hex : ℕ → Bool
is_hex c = leb 48 c && leb c 70

abbrev pub is_hex_mark : ℕ → Bool
is_hex_mark c = (c == 120) || (c == 88) || (c == 117) || (c == 85)

abbrev pub octal_value : ℕ → ℕ → ℕ → ℕ
octal_value c c2 c3 = ((c - 48) * 64 + (c2 - 48) * 8 + (c3 - 48)) % 256

abbrev pub hex_value : ℕ → ℕ → ℕ
hex_value c1 c3 = ((c1 - 48) * 16 + (c3 - 48)) % 256

-- One round of the loop: the terminator, an error message, a read outside, or the next position.
pub data Round : Type 0 where
  stop : Round
  malformed : Round
  fault : Round
  next : List ℕ → (rd wr : ℕ) → Round

unfoldable pub octal_at : List ℕ → (rd wr c c2 : ℕ) → Round
octal_at buf rd wr c c2 = elim (get_elem? buf (rd + 3)) [
  | none ↦ fault
  | some c3 ↦
      if is_octal c2 && is_octal c3
      then next (set buf wr (octal_value c c2 c3)) (rd + 4) (wr + 1)
      else malformed
]

unfoldable pub hex_at : List ℕ → (rd wr : ℕ) → Round
hex_at buf rd wr = elim (get_elem? buf (rd + 2)) [
  | none ↦ fault
  | some c1 ↦ elim (get_elem? buf (rd + 3)) [
    | none ↦ fault
    | some c3 ↦
        if is_hex c1 && is_hex c3
        then next (set buf wr (hex_value c1 c3)) (rd + 4) (wr + 1)
        else malformed
  ]
]

unfoldable pub escape_at : List ℕ → (rd wr c c2 : ℕ) → Round
escape_at buf rd wr c c2 =
    if is_octal c
    then (if (c == 48) && not (is_octal c2)
        then next (set buf wr 0) (rd + 2) (wr + 1)
        else octal_at buf rd wr c c2)
    else if is_hex_mark c
    then hex_at buf rd wr
    else elim (get_escape c) [ none ↦ fault | some out ↦ next (set buf wr out) (rd + 2) (wr + 1) ]

unfoldable pub round : List ℕ → (rd wr : ℕ) → Round
round buf rd wr = elim (get_elem? buf rd) [
  | none ↦ fault
  | some c0 ↦
      if c0 == 0
      then stop
      else if c0 == backslash
      then (elim (get_elem? buf (rd + 1)) [
        | none ↦ fault
        | some c ↦ elim (get_elem? buf (rd + 2)) [
          | none ↦ fault
          | some c2 ↦ escape_at buf rd wr c c2
        ]
      ])
      else next (set buf wr c0) (rd + 1) (wr + 1)
]

pub data Escaped : Type 0 where
  done : List ℕ → Escaped
  error : Escaped
  invalid_read : Escaped
  out_of_fuel : Escaped

unfoldable pub escape_loop : ℕ → List ℕ → (rd wr : ℕ) → Escaped
escape_loop zero buf rd wr = out_of_fuel
escape_loop (suc fuel) buf rd wr = elim (round buf rd wr) [
  | stop ↦ done (set buf wr 0)
  | malformed ↦ error
  | fault ↦ invalid_read
  | next buf' rd' wr' ↦ escape_loop fuel buf' rd' wr'
]

-- Every round moves on in the buffer, so its length bounds the rounds.
unfoldable pub escape_str : List ℕ → Escaped
escape_str buf = escape_loop (length buf + 1) buf 0 0

-- A character literal.
unfoldable pub str2char : (c0 c1 : ℕ) → Option ℕ
unfolding get_escape
str2char c0 c1 = if c0 == backslash then get_escape c1 else some c0
