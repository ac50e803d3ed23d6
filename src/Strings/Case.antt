-- ===== src/Strings/Case.antt =====
-- `upper` and `lower` (src/lib/string.c).
use gwion.Prelude.{ℕ, ◌≡◌, refl, ap, ◌∙◌, List, [], ◌∷◌, arith}
use gwion.Strings.{upper_char, lower_char, string_upper, string_lower}

lower_char-upper_char : (x : ℕ) → lower_char (upper_char x) ≡ lower_char x
lower_char-upper_char x = ground arith

upper_char-lower_char : (x : ℕ) → upper_char (lower_char x) ≡ upper_char x
upper_char-lower_char x = ground arith

string_lower-string_upper : (str : List ℕ) → string_lower (string_upper str) ≡ string_lower str
unfolding string_lower string_upper
string_lower-string_upper [] = refl
string_lower-string_upper (x ∷ xs) =
    ap (λ c. c ∷ string_lower (string_upper xs)) (lower_char-upper_char x)
    ∙ ap (λ l. lower_char x ∷ l) (string_lower-string_upper xs)

string_upper-string_lower : (str : List ℕ) → string_upper (string_lower str) ≡ string_upper str
unfolding string_lower string_upper
string_upper-string_lower [] = refl
string_upper-string_lower (x ∷ xs) =
    ap (λ c. c ∷ string_upper (string_lower xs)) (upper_char-lower_char x)
    ∙ ap (λ l. upper_char x ∷ l) (string_upper-string_lower xs)
