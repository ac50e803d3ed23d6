-- ===== src/Strings/Trim.antt =====
-- `trim` (src/lib/string.c).
use mathlib.Core.List.{append-nil}
use gwion.Prelude.{
  ℕ, zero, suc, ◌+◌, ◌-◌, ◌<◌, ◌≤◌, ◌≡◌, ◌≢◌, refl, sym, ap, ◌∙◌, true, false, some, List, [], ◌∷◌,
  ◌++◌, length, get_or, take, drop, leb, arith, Bool-cases, ◌⊎◌, inl, inr, leb→le, leb→lt,
  length-take, length-drop, split, drop-drop, drop_all,
}
use gwion.Strings.{value, invalid_string_trim_request, buffer, leading, trailing, string_trim}
use gwion.Strings.Copies.{
  IsText, Filled-copy_chars, Filled-buffer, Filled-set_char, Filled-new_string,
}
use gwion.Strings.Parts.{take-IsText, drop-IsText}
use gwion.Strings.Spaces.{blanks, leading_lem, trailing_stop, trailing_last, trailing_lem}

-- A string without the spaces around it, of which something is left.
unfoldable pub IsTrimmed : (str core : List ℕ) → Type 0
IsTrimmed str core =
    (a : ℕ) × (b : ℕ) × (str ≡ blanks a ++ (core ++ blanks b))
    × (get_or core 0 32 ≢ 32)
    × (get_or core (length core - 1) 32 ≢ 32)

get_or-part :
    (m s i d e : ℕ) (xs : List ℕ)
    → i < m
    → s + m ≤ length xs
    → get_or (take m (drop s xs)) i d ≡ get_or xs (s + i) e
get_or-part zero s i d e xs below within = absurd (omega (arith, below))
get_or-part (suc m) s i d e [] below within = absurd (omega (arith, within))
get_or-part (suc m) zero zero d e (x ∷ xs) below within =
    let here : 0 + 0 ≡ 0 = omega arith in ap (λ k. get_or (x ∷ xs) k e) (sym here)
get_or-part (suc m) zero (suc i) d e (x ∷ xs) below within =
    let there : 0 + suc i ≡ suc (0 + i) = omega arith in
    get_or-part m 0 i d e xs (omega (arith, below)) (omega (arith, within))
    ∙ ap (λ k. get_or (x ∷ xs) k e) (sym there)
get_or-part (suc m) (suc s) i d e (x ∷ xs) below within =
    let there : suc s + i ≡ suc (s + i) = omega arith in
    get_or-part (suc m) s i d e xs below (omega (arith, within))
    ∙ ap (λ k. get_or (x ∷ xs) k e) (sym there)

drop-end : (xs : List ℕ) → drop (length xs) xs ≡ blanks (length xs - length xs)
unfolding blanks
drop-end xs =
    let none_left : length xs - length xs ≡ 0 = omega arith in
    drop_all xs ∙ ap blanks (sym none_left)

-- What is left of a string that is not blank.
core_of : List ℕ → List ℕ
core_of str = take (length str - trailing (length str) str - leading str) (drop (leading str) str)

core_of-IsTrimmed :
    (str : List ℕ)
    → leading str < length str
    → (leading str + trailing (length str) str < length str) × IsTrimmed str (core_of str)
unfolding IsTrimmed core_of
core_of-IsTrimmed str some_left =
    let len = length str in
    let a = leading str in
    let b = trailing len str in
    let m = len - b - a in
    let (within, whole, stop) = leading_lem str in
    let room = trailing_stop len a str some_left (stop some_left) in
    let long = length-take m (drop a str) (let l = length-drop a str in omega (arith, l)) in
    let parts = split m (drop a str) in
    let place : a + m ≡ len - b = omega (arith, room) in
    let none_left : len - len ≡ 0 = omega arith in
    let count : len - (len - b) ≡ b = omega (arith, room) in
    let behind : drop (len - b) str ≡ blanks b =
      trailing_lem len str (omega arith) (drop-end str) ∙ ap blanks count in
    let first : a + 0 ≡ a = omega arith in
    let last : a + (length (core_of str) - 1) ≡ len - b - 1 = omega (arith, long, room) in
    (
      omega (arith, room),
      (
        a,
        b,
        whole
            ∙ ap (λ l. blanks a ++ l)
                (parts
                  ∙ ap (λ l. core_of str ++ l)
                      (sym (drop-drop str a m) ∙ ap (λ k. drop k str) place ∙ behind)),
        λ e. stop some_left (
            ap (λ k. get_or str k 0) (sym first)
            ∙ sym (get_or-part m a 0 32 0 str (omega (arith, room)) (omega (arith, room)))
            ∙ e),
        λ e. trailing_last len str (omega (arith, room)) (
            ap (λ k. get_or str k 0) (sym last)
            ∙ sym (
                get_or-part m a (length (core_of str) - 1) 32 0 str (omega (arith, room, long))
                  (omega (arith, room)))
            ∙ e),
      ),
    )

module _ (fresh : ℕ → ℕ) (str : List ℕ) where
  -- The result of `trim` is the string without the spaces around it, which starts and ends with another
  -- character; for a string of spaces only, the empty one too, it is an exception.
  pub string_trim_lem :
      IsText str
      → ((core : List ℕ) × IsTrimmed str core × (string_trim fresh str ≡ some (value core)))
        ⊎ ((str ≡ blanks (length str)) × (string_trim fresh str ≡ some invalid_string_trim_request))
  unfolding string_trim core_of
  string_trim_lem text = elim (Bool-cases (leb (length str) (leading str))) [
    | inl blank ↦
        let (within, whole, stop) = leading_lem str in
        let most = leb→le (length str) (leading str) blank in
        let all : leading str ≡ length str = omega (arith, within, most) in
        let nothing : leb (length str) (leading str + trailing (length str) str) ≡ true =
          ground (arith, most) in
        inr (
          whole
              ∙ ap (λ n. blanks n ++ drop n str) all
              ∙ ap (λ l. blanks (length str) ++ l) (drop_all str)
              ∙ append-nil (blanks (length str)),
          rw nothing refl,
        )
    | inr more ↦
        let len = length str in
        let a = leading str in
        let b = trailing len str in
        let some_left = leb→lt len a more in
        let (room, trimmed) = core_of-IsTrimmed str some_left in
        let something : leb len (a + b) ≡ false = ground (arith, room) in
        let m = len - b - a in
        let same : len - a - b ≡ m = omega arith in
        let long = length-take m (drop a str) (let l = length-drop a str in omega (arith, l)) in
        let (x, filled) = Filled-buffer fresh m in
        let (c1, e1, filled1) =
          Filled-copy_chars m 0 m a 0 str (buffer fresh (m + 1)) [] (x ∷ []) filled (omega arith)
            refl (omega (arith, room)) in
        let (c2, e2, filled2) =
          Filled-set_char c1 (core_of str) 0 m x filled1 (omega (arith, long)) in
        inl (
          core_of str,
          trimmed,
          rw (something, same, e1, e2)
              (Filled-new_string c2 (core_of str) (core_of str) filled2 refl
                (take-IsText m (drop a str) (drop-IsText a str text))),
        )
  ]
