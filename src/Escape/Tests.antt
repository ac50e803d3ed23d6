-- ===== src/Escape/Tests.antt =====
-- Literals decoded by `escape_str`, and its theorems at them.
use mathlib.Core.List.{map}
use mathlib.Core.Option.{none-ne-some}
use gwion.Prelude.{
  ℕ, suc, ◌+◌, ◌≡◌, refl, inl, inr, sym, ◌⊎◌, List, [], ◌∷◌, ◌++◌, some, arith, length, take,
}
use gwion.Escape.{
  backslash, escape_table, get_escape, round, escape_at, octal_at, hex_at, done, error,
  invalid_read, escape_loop, escape_str, str2char,
}
use gwion.Escape.Pieces.{Piece, plain, nul, octal, hex, simple, meaning}
use gwion.Escape.Decode.{text, WellFormed, escape_str-pieces}
use gwion.Escape.Ends.{escape_str-ends}

-- a\n\101\x41\0z
abbrev sample : List Piece
sample =
    plain b'a' ∷ simple b'n' ∷ octal b'1' b'0' b'1' ∷ hex b'x' b'4' b'1' ∷ nul ∷ plain b'z' ∷ []

sample-WellFormed : WellFormed sample
sample-WellFormed = (
  (omega arith, omega arith),
  tt,
  (
    λ e. none-ne-some 10 (sym e),
    tt,
    (
      ((omega arith, omega arith), (omega arith, omega arith), (omega arith, omega arith)),
      tt,
      (
        (inl refl, (omega arith, omega arith), (omega arith, omega arith)),
        tt,
        (tt, inr (omega arith), ((omega arith, omega arith), tt, tt)),
      ),
    ),
  ),
)

escape_str-pieces_example :
    (buf : List ℕ) × (escape_str (text sample ++ 0 ∷ []) ≡ done buf)
    × (take (suc (length sample)) buf ≡ map meaning sample ++ 0 ∷ [])
    × (length buf ≡ length (text sample) + 1)
escape_str-pieces_example = escape_str-pieces sample sample-WellFormed

sample_bytes : map meaning sample ≡ b'a' ∷ 10 ∷ b'A' ∷ b'A' ∷ 0 ∷ b'z' ∷ []
sample_bytes = refl

malformed_octal : escape_str (backslash ∷ b'1' ∷ b'8' ∷ b'0' ∷ 0 ∷ []) ≡ error
unfolding escape_str escape_loop round escape_at octal_at
malformed_octal = refl

escape_str-ends_example :
    (escape_str (backslash ∷ b'q' ∷ 0 ∷ []) ≡ error)
    ⊎ (escape_str (backslash ∷ b'q' ∷ 0 ∷ []) ≡ invalid_read)
    ⊎ ((out : List ℕ) × (escape_str (backslash ∷ b'q' ∷ 0 ∷ []) ≡ done out) × (length out ≡ 3))
escape_str-ends_example = escape_str-ends (backslash ∷ b'q' ∷ 0 ∷ [])

-- `\\q` is not in the table: it is decoded to a terminator.
unknown_escape : escape_str (backslash ∷ b'q' ∷ 0 ∷ []) ≡ done (0 ∷ 0 ∷ 0 ∷ [])
unfolding escape_str escape_loop round escape_at octal_at hex_at get_escape escape_table
unknown_escape = refl

-- `\\xFF` is decoded to 118.
letters_are_no_digits :
    escape_str (backslash ∷ b'x' ∷ b'F' ∷ b'F' ∷ 0 ∷ []) ≡ done (118 ∷ 0 ∷ b'F' ∷ b'F' ∷ 0 ∷ [])
unfolding escape_str escape_loop round escape_at octal_at hex_at get_escape escape_table
letters_are_no_digits = refl

newline_char : str2char backslash b'n' ≡ some 10
unfolding str2char get_escape escape_table
newline_char = refl
