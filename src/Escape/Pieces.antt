-- ===== src/Escape/Pieces.antt =====
-- String literals as sequences of well-formed pieces: what is written, and the byte that it means.
use gwion.Prelude.{
  ◌⊎◌, ◌≤◌, ◌-◌, ◌*◌, ◌%◌, ◌==◌, ltb, if◌then◌else◌, Option, none, some, ℕ, ◌+◌, ◌<◌, ◌≡◌, ◌≢◌,
  true, false, List, [], ◌∷◌, ◌++◌, arith, set, length, drop,
}
use gwion.Escape.{
  backslash, escape_table, get_escape, is_octal, is_hex_mark, octal_value, hex_value, next,
  octal_at, hex_at, escape_at, round,
}
use gwion.Escape.Buffer.{ahead, here}

pub data Piece : Type 0 where
  plain : ℕ → Piece
  nul : Piece
  octal : (c c2 c3 : ℕ) → Piece
  hex : (mark c1 c3 : ℕ) → Piece
  simple : ℕ → Piece

abbrev pub written : Piece → List ℕ
written (plain c) = c ∷ []
written nul = backslash ∷ 48 ∷ []
written (octal c c2 c3) = backslash ∷ c ∷ c2 ∷ c3 ∷ []
written (hex mark c1 c3) = backslash ∷ mark ∷ c1 ∷ c3 ∷ []
written (simple c) = backslash ∷ c ∷ []

-- The characters that stand for a byte behind a backslash, with that byte: the quotes and the backslash for
-- themselves, then a, b, f, n, r, t and v.
abbrev named : List (ℕ × ℕ)
named =
    (39, 39)
    ∷ (34, 34)
    ∷ (92, 92)
    ∷ (97, 7)
    ∷ (98, 8)
    ∷ (102, 12)
    ∷ (110, 10)
    ∷ (114, 13)
    ∷ (116, 9)
    ∷ (118, 11)
    ∷ []

abbrev byte_of : List (ℕ × ℕ) → ℕ → Option ℕ
byte_of [] c = none
byte_of ((x, b) ∷ table) c = if c == x then some b else byte_of table c

abbrev or_zero : Option ℕ → ℕ
or_zero none = 0
or_zero (some b) = b

abbrev pub OctalDigit : ℕ → Type 0
OctalDigit c = (48 ≤ c) × (c ≤ 55)

abbrev pub DecimalDigit : ℕ → Type 0
DecimalDigit c = (48 ≤ c) × (c ≤ 57)

-- A hexadecimal escape has decimal digits here, since the code gives letters another value.
abbrev pub IsPiece : Piece → Type 0
IsPiece (plain c) = (c ≢ 0) × (c ≢ backslash)
IsPiece nul = Unit
IsPiece (octal c c2 c3) = OctalDigit c × OctalDigit c2 × OctalDigit c3
IsPiece (hex mark c1 c3) =
    ((mark ≡ 120) ⊎ (mark ≡ 88) ⊎ (mark ≡ 117) ⊎ (mark ≡ 85)) × DecimalDigit c1 × DecimalDigit c3
IsPiece (simple c) = byte_of named c ≢ none

-- What may stand behind a piece: `\0` is read as an octal escape before an octal digit.
abbrev pub Follows : Piece → ℕ → Type 0
Follows nul r = (r < 48) ⊎ (55 < r)
Follows _ r = Unit

abbrev pub meaning : Piece → ℕ
meaning (plain c) = c
meaning nul = 0
meaning (octal c c2 c3) = (8 * (8 * (c - 48) + (c2 - 48)) + (c3 - 48)) % 256
meaning (hex mark c1 c3) = 16 * (c1 - 48) + (c3 - 48)
meaning (simple c) = or_zero (byte_of named c)

-- A round decodes one piece.
abbrev Decodes : Piece → Type 0
Decodes p =
    (buf : List ℕ) (rd wr r : ℕ) (rest : List ℕ)
    → drop rd buf ≡ written p ++ r ∷ rest
    → Follows p r
    → round buf rd wr ≡ next (set buf wr (meaning p)) (rd + length (written p)) (wr + 1)

plain-Decodes : (c : ℕ) → IsPiece (plain c) → Decodes (plain c)
unfolding round
plain-Decodes c p buf rd wr r rest e f = ground (arith, here buf _ rd e)

nul-Decodes : Decodes nul
unfolding round escape_at
nul-Decodes buf rd wr r rest e f =
    ground (arith, here buf _ rd e, ahead buf _ rd 1 e, ahead buf _ rd 2 e)

octal-value :
    (c c2 c3 : ℕ) → octal_value c c2 c3 ≡ (8 * (8 * (c - 48) + (c2 - 48)) + (c3 - 48)) % 256
octal-value c c2 c3 = omega arith

octal-Decodes : (c c2 c3 : ℕ) → IsPiece (octal c c2 c3) → Decodes (octal c c2 c3)
unfolding round escape_at octal_at
octal-Decodes c c2 c3 p buf rd wr r rest e f = ground (
  arith,
  here buf _ rd e,
  ahead buf _ rd 1 e,
  ahead buf _ rd 2 e,
  ahead buf _ rd 3 e,
  octal-value c c2 c3,
)

hex-value :
    (c1 c3 : ℕ) → DecimalDigit c1 → DecimalDigit c3 → hex_value c1 c3 ≡ 16 * (c1 - 48) + (c3 - 48)
hex-value c1 c3 d1 d3 = omega arith

hex_mark-cases :
    (mark : ℕ)
    → (mark ≡ 120) ⊎ (mark ≡ 88) ⊎ (mark ≡ 117) ⊎ (mark ≡ 85)
    → (is_hex_mark mark ≡ true) × (is_octal mark ≡ false)
hex_mark-cases mark m = ground arith

hex-Decodes : (mark c1 c3 : ℕ) → IsPiece (hex mark c1 c3) → Decodes (hex mark c1 c3)
unfolding round escape_at hex_at
hex-Decodes mark c1 c3 p buf rd wr r rest e f =
    let (is_mark, no_octal) = hex_mark-cases mark p.0 in
    ground (
      arith,
      here buf _ rd e,
      ahead buf _ rd 1 e,
      ahead buf _ rd 2 e,
      ahead buf _ rd 3 e,
      is_mark,
      no_octal,
      hex-value c1 c3 p.1 p.2,
    )

escape_table-named :
    (c : ℕ)
    → byte_of named c ≢ none
    → (escape_table c ≡ or_zero (byte_of named c))
      × (c < 128)
      × (is_octal c ≡ false)
      × (is_hex_mark c ≡ false)
unfolding escape_table
escape_table-named c known = ground arith

simple-Decodes : (c : ℕ) → IsPiece (simple c) → Decodes (simple c)
unfolding round escape_at get_escape
simple-Decodes c p buf rd wr r rest e f =
    let (value, small, no_octal, no_mark) = escape_table-named c p in
    let low : ltb c 128 ≡ true = ground (arith, small) in
    rw (← value) (
      ground
        (arith, here buf _ rd e, ahead buf _ rd 1 e, ahead buf _ rd 2 e, low, no_octal, no_mark))

pub round-piece : (p : Piece) → IsPiece p → Decodes p
round-piece (plain c) p = plain-Decodes c p
round-piece nul p = nul-Decodes
round-piece (octal c c2 c3) p = octal-Decodes c c2 c3 p
round-piece (hex mark c1 c3) p = hex-Decodes mark c1 c3 p
round-piece (simple c) p = simple-Decodes c p
