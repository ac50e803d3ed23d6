-- ===== src/Strings/Spaces.antt =====
-- The spaces at the start and at the end of a string (src/lib/string.c).
use mathlib.Core.Path.{subst}
use gwion.Prelude.{
  ℕ, zero, suc, ◌+◌, ◌-◌, ◌<◌, ◌≤◌, ◌≡◌, ◌≢◌, refl, sym, ap, ◌∙◌, List, [], ◌∷◌, ◌++◌, length,
  get_or, drop, ◌==◌, arith, Bool-cases, inl, inr, ==→eq, ==→ne,
}
use gwion.Strings.{leading, trailing}
use gwion.Strings.Copies.{drop_next}

unfoldable pub blanks : ℕ → List ℕ
blanks zero = []
blanks (suc n) = 32 ∷ blanks n

pub leading_lem :
    (str : List ℕ)
    → (leading str ≤ length str)
      × (str ≡ blanks (leading str) ++ drop (leading str) str)
      × (leading str < length str → get_or str (leading str) 0 ≢ 32)
unfolding leading blanks
leading_lem [] = (omega arith, refl, λ below. absurd (omega (arith, below)))
leading_lem (x ∷ xs) = elim (Bool-cases (x == 32)) [
  | inl blank ↦
      let (within, whole, stop) = leading_lem xs in
      let next : leading xs + 1 ≡ suc (leading xs) = omega arith in
      rw (blank, next)
        (
          omega (arith, within),
          ap (λ c. c ∷ xs) (==→eq x 32 blank) ∙ ap (λ l. 32 ∷ l) whole,
          λ below. stop (omega (arith, below)),
        )
  | inr other ↦ rw other (omega arith, refl, λ below. ==→ne x 32 other)
]

pub trailing_stop : (n p : ℕ) (str : List ℕ) → p < n → get_or str p 0 ≢ 32 → trailing n str + p < n
unfolding trailing
trailing_stop zero p str below stop = absurd (omega (arith, below))
trailing_stop (suc n) p str below stop = elim (Bool-cases (get_or str n 0 == 32)) [
  | inr other ↦ rw other (omega (arith, below))
  | inl blank ↦ rw blank (elim (Bool-cases (p == n)) [
    | inl same ↦
        absurd (stop (ap (λ i. get_or str i 0) (==→eq p n same) ∙ ==→eq (get_or str n 0) 32 blank))
    | inr before ↦
        let ne = ==→ne p n before in
        let rest = trailing_stop n p str (omega (arith, below, ne)) stop in omega (arith, rest)
  ])
]

pub trailing_last :
    (n : ℕ) (str : List ℕ) → trailing n str < n → get_or str (n - trailing n str - 1) 0 ≢ 32
unfolding trailing
trailing_last zero str = λ below. absurd (omega (arith, below))
trailing_last (suc n) str = elim (Bool-cases (get_or str n 0 == 32)) [
  | inr other ↦ rw other (λ below.
      let last : suc n - 0 - 1 ≡ n = omega arith in
      subst (λ i. get_or str i 0 ≢ 32) (sym last) (==→ne (get_or str n 0) 32 other))
  | inl blank ↦ rw blank (λ below.
      let last : suc n - (trailing n str + 1) - 1 ≡ n - trailing n str - 1 = omega arith in
      subst (λ i. get_or str i 0 ≢ 32) (sym last) (trailing_last n str (omega (arith, below))))
]

-- The characters behind are blank.
pub trailing_lem :
    (n : ℕ) (str : List ℕ)
    → n ≤ length str
    → drop n str ≡ blanks (length str - n)
    → drop (n - trailing n str) str ≡ blanks (length str - (n - trailing n str))
unfolding trailing blanks
trailing_lem zero str within behind = behind
trailing_lem (suc n) str within behind = elim (Bool-cases (get_or str n 0 == 32)) [
  | inr other ↦ let all : suc n - 0 ≡ suc n = omega arith in rw (other, all) behind
  | inl blank ↦
      let less : suc n - (trailing n str + 1) ≡ n - trailing n str = omega arith in
      let longer : suc (length str - suc n) ≡ length str - n = omega (arith, within) in
      rw (blank, less)
        (trailing_lem n str (omega (arith, within)) (
          drop_next str n (omega (arith, within))
          ∙ ap (λ c. c ∷ drop (suc n) str) (==→eq (get_or str n 0) 32 blank)
          ∙ ap (λ l. 32 ∷ l) behind
          ∙ ap blanks longer))
]
