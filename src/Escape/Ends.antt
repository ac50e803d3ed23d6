-- ===== src/Escape/Ends.antt =====
-- How `escape_str` of src/emit/escape.c ends on any buffer.
use gwion.Prelude.{
  ℕ, zero, suc, ◌+◌, ◌<◌, ◌≤◌, ◌≡◌, refl, ◌⊎◌, inl, inr, List, [], ◌∷◌, none, arith, get_elem?, set,
  length, length-set,
}
use gwion.Escape.{
  done, escape_table, get_escape, round, next, stop, malformed, fault, Round, Escaped, error,
  invalid_read, escape_loop, escape_str, escape_at, octal_at, hex_at,
}
use gwion.Escape.Decode.{escape_loop-next}

bound {ℓ} : {A : Type ℓ} (xs : List A) (i : ℕ) → (get_elem? xs i ≡ none) ⊎ (i < length xs)
bound [] i = inl refl
bound (x ∷ xs) zero = inr (omega arith)
bound (x ∷ xs) (suc i) = elim (bound xs i) [ inl e ↦ inl e | inr h ↦ inr (omega arith) ]

-- A round that goes on moves on, stays inside, and keeps the buffer's length.
abbrev Advances : (buf : List ℕ) (rd : ℕ) → Round → Type 0
Advances buf rd r =
    (buf' : List ℕ) (rd' wr' : ℕ)
    → r ≡ next buf' rd' wr'
    → (rd < rd') × (rd' ≤ length buf) × (length buf' ≡ length buf)

octal_at-Advances : (buf : List ℕ) (rd wr c c2 : ℕ) → Advances buf rd (octal_at buf rd wr c c2)
unfolding octal_at
octal_at-Advances buf rd wr c c2 buf' rd' wr' e = grind (arith, bound, length-set)

hex_at-Advances : (buf : List ℕ) (rd wr : ℕ) → Advances buf rd (hex_at buf rd wr)
unfolding hex_at
hex_at-Advances buf rd wr buf' rd' wr' e = grind (arith, bound, length-set)

escape_at-Advances :
    (buf : List ℕ) (rd wr c c2 : ℕ)
    → rd + 2 < length buf
    → Advances buf rd (escape_at buf rd wr c c2)
unfolding escape_at get_escape
escape_at-Advances buf rd wr c c2 inside buf' rd' wr' e = ground (
  arith,
  octal_at-Advances buf rd wr c c2 buf' rd' wr',
  hex_at-Advances buf rd wr buf' rd' wr',
  length-set buf wr 0,
  length-set buf wr (escape_table c),
)

round-Advances : (buf : List ℕ) (rd wr : ℕ) → Advances buf rd (round buf rd wr)
unfolding round
round-Advances buf rd wr buf' rd' wr' e = grind (arith, bound, length-set, escape_at-Advances)

-- An error is reported, or the loop has read outside the buffer, or a buffer of `n` bytes is decoded.
abbrev Settled : ℕ → Escaped → Type 0
Settled n o =
    (o ≡ error) ⊎ (o ≡ invalid_read) ⊎ ((out : List ℕ) × (o ≡ done out) × (length out ≡ n))

abbrev Ends : ℕ → Type 0
Ends fuel =
    (buf : List ℕ) (rd wr : ℕ)
    → rd ≤ length buf
    → length buf < fuel + rd
    → Settled (length buf) (escape_loop fuel buf rd wr)

escape_loop-Ends : (fuel : ℕ) → Ends fuel
unfolding escape_loop
escape_loop-Ends zero buf rd wr inside enough = absurd (omega arith)
escape_loop-Ends (suc fuel) buf rd wr inside enough =
    go (escape_loop-Ends fuel) (round buf rd wr) refl
  where
    go :
        Ends fuel
        → (r : Round) → round buf rd wr ≡ r
        → Settled (length buf) (escape_loop (suc fuel) buf rd wr)
    go ih stop e = inr (inr (set buf wr 0, rw (e, escape_loop) refl, length-set buf wr 0))
    go ih malformed e = inl (rw (e, escape_loop) refl)
    go ih fault e = inr (inl (rw (e, escape_loop) refl))
    go ih (next buf' rd' wr') e =
        let (on, within, same) = round-Advances buf rd wr buf' rd' wr' e in
        rw (escape_loop-next fuel buf buf' rd wr rd' wr' e, ← same)
          (ih buf' rd' wr' (omega arith) (omega arith))

-- On every buffer, in rounds no more than its bytes and one, the loop decodes the buffer, which keeps its
-- length, or reports an error, or has read outside the buffer.
pub escape_str-ends : (buf : List ℕ) → Settled (length buf) (escape_str buf)
unfolding escape_str
escape_str-ends buf = escape_loop-Ends (length buf + 1) buf 0 0 (omega arith) (omega arith)
