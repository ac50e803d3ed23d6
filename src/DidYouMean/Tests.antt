-- ===== src/DidYouMean/Tests.antt =====
-- Names compared by `wagner_fisher`, and its theorems at them.
use mathlib.Core.Bool.{not}
use gwion.Prelude.{
  ℕ, ◌≡◌, ◌↔◌, refl, true, false, List, [], ◌∷◌, arith, if◌then◌else◌, ltb, length, ◌||◌,
}
use gwion.DidYouMean.{
  Table, put, init_column, init_row, cell, fill_column, fill, wagner_fisher, Entry, did_you_mean,
  defined_here, ressembles, search_parents, did_you_mean_nspc, max_name_len,
}
use gwion.DidYouMean.Resembles.{Resembles, wagner_fisher-Resembles}
use gwion.DidYouMean.Suggest.{places, some_hit, all_of, did_you_mean_nspc-places}

abbrev zeroes : Table
zeroes i j = 0

-- "spork" and "sporl".
abbrev spork : List ℕ
spork = b's' ∷ b'p' ∷ b'o' ∷ b'r' ∷ b'k' ∷ []

abbrev sporl : List ℕ
sporl = b's' ∷ b'p' ∷ b'o' ∷ b'r' ∷ b'l' ∷ []

abbrev spork_loop : List ℕ
spork_loop = b's' ∷ b'p' ∷ b'o' ∷ b'r' ∷ b'k' ∷ b's' ∷ []

wagner_fisher-Resembles_example : (wagner_fisher spork sporl zeroes ≡ true) ↔ Resembles spork sporl
wagner_fisher-Resembles_example =
    wagner_fisher-Resembles spork sporl zeroes (omega arith) (omega arith)

one_letter_off : wagner_fisher spork sporl zeroes ≡ true
unfolding wagner_fisher fill fill_column cell put init_row init_column
one_letter_off = refl

abbrev scopes : List (List Entry)
scopes =
    (record { name = spork; shown = false } ∷ record { name = spork_loop; shown = true } ∷ [])
    ∷ (record { name = sporl; shown = true } ∷ [])
    ∷ []

did_you_mean_nspc-places_example : did_you_mean_nspc zeroes sporl scopes ≡ (
    if ltb max_name_len (length sporl) || not (some_hit zeroes sporl (all_of zeroes sporl scopes))
    then []
    else did_you_mean ∷ places zeroes sporl (all_of zeroes sporl scopes))
did_you_mean_nspc-places_example = did_you_mean_nspc-places zeroes sporl scopes

two_similar :
    did_you_mean_nspc zeroes sporl scopes
    ≡ did_you_mean ∷ defined_here (record { name = sporl; shown = true }) ∷ []
unfolding did_you_mean_nspc search_parents ressembles wagner_fisher fill fill_column cell put
    init_row init_column
two_similar = refl
