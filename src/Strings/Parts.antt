-- ===== src/Strings/Parts.antt =====
-- Parts of strings.
use gwion.Prelude.{ℕ, zero, suc, ◌^◌, ◌<◌, ◌≡◌, false, List, [], ◌∷◌, ◌++◌, take, drop, arith}
use gwion.Word.{is_negative}
use gwion.Strings.Copies.{IsText}

pub take-IsText : (n : ℕ) (xs : List ℕ) → IsText xs → IsText (take n xs)
take-IsText zero xs text = tt
take-IsText (suc n) [] text = tt
take-IsText (suc n) (x ∷ xs) (some_char, text) = (some_char, take-IsText n xs text)

pub drop-IsText : (n : ℕ) (xs : List ℕ) → IsText xs → IsText (drop n xs)
drop-IsText zero xs text = text
drop-IsText (suc n) [] text = tt
drop-IsText (suc n) (x ∷ xs) (some_char, text) = drop-IsText n xs text

pub append-IsText : (xs ys : List ℕ) → IsText xs → IsText ys → IsText (xs ++ ys)
append-IsText [] ys text text' = text'
append-IsText (x ∷ xs) ys (some_char, text) text' = (some_char, append-IsText xs ys text text')

pub not_negative : (n : ℕ) → n < 2 ^ 63 → is_negative n ≡ false
not_negative n small = ground (arith, small)
