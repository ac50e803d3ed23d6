-- ===== src/Ugen/Restore.antt =====
-- Connecting and disconnecting whole unit generators, with their channels (src/lib/ugen.c).
use mathlib.Core.Path.{subst}
use gwion.Prelude.{
  sym, some, ◌<◌, ne→==, ℕ, ◌+◌, ◌-◌, ◌%◌, ◌≡◌, refl, ap, ◌∙◌, Bool, List, ltb, if◌then◌else◌,
  arith, get_or,
}
use gwion.Vector.{VectorOps, VectorLaws}
use gwion.Ugen.{UGen, UGens, do_rounds, do_, ugen_connect, ugen_disconnect}
use gwion.Ugen.Wiring.{RemoveLaws, Shifts, add-Shifts, rem2-Shifts}
use gwion.Ugen.Connect.{
  feeds, IsWired, repeat, repeat_up, repeat_down, hits, rounds_kept, rounds-IsWired, rounds_feeds,
}

-- What `_do_` reads of a UGen.
record Shape : Type 0 where
  multi : Bool
  channel : List ℕ
  n_in : ℕ
  n_out : ℕ

abbrev shape : {V : Type 0} → UGen V → Shape
shape u = record { multi = u.multi; channel = u.channel; n_in = u.n_in; n_out = u.n_out }

abbrev left : Shape → ℕ
left x = if x.multi then x.n_out else 1

abbrev right : Shape → ℕ
right y = if y.multi then y.n_in else 1

abbrev rounds_of : Shape → Shape → ℕ
rounds_of x y = if ltb (right y) (left x) then left x else right y

abbrev chan : Shape → (u i : ℕ) → ℕ
chan x u i = if x.multi then get_or x.channel i 0 else u

-- The rounds of `_do_` in which `l` and `r` are paired.
abbrev meets : (x y : Shape) (a b l r : ℕ) → ℕ
meets x y a b l r =
    hits (λ j. chan x a (j % left x)) (λ j. chan y b (j % right y)) l r (rounds_of x y) 0

-- The left side has an output, and the right one an input.
abbrev pub HasChannels : {V : Type 0} → UGens V → (lhs rhs : ℕ) → Type 0
HasChannels g lhs rhs = (0 < left (shape (g lhs))) × (0 < right (shape (g rhs)))

module _ {V : Type 0} (vo : VectorOps V) (func : V → ℕ → V) where
  -- What the rounds leave.
  joined : UGens V → (a b : ℕ) → UGens V
  joined g a b =
      let x = shape (g a) in
      let y = shape (g b) in do_rounds vo func g a b (left x) (right y) (rounds_of x y) 0

  do_-joined : (g : UGens V) (a b : ℕ) → HasChannels g a b → do_ vo func g a b ≡ some (joined g a b)
  unfolding do_ joined
  do_-joined g a b (some_left, some_right) =
      let r = ne→== (right (shape (g b))) 0 (λ e. omega (arith, some_right, e)) in
      let l = ne→== (left (shape (g a))) 0 (λ e. omega (arith, some_left, e)) in rw (r, l) refl

  shape-joined : (g : UGens V) (a b u : ℕ) → shape (joined g a b u) ≡ shape (g u)
  unfolding joined
  shape-joined g a b u =
      rounds_kept vo func shape (λ x v. refl) (λ x v. refl) (λ x n. refl) g a b (left (shape (g a)))
        (right (shape (g b))) (rounds_of (shape (g a)) (shape (g b))) 0 u

  module _ (laws : VectorLaws vo) (e : ℕ → ℕ) (shifts : Shifts laws func e) where
    feeds-joined :
        (g : UGens V) (a b l r : ℕ)
        → feeds laws (joined g a b) l r
          ≡ repeat e (meets (shape (g a)) (shape (g b)) a b l r) (feeds laws g l r)
    unfolding joined
    feeds-joined g a b l r =
        let x = shape (g a) in
        let y = shape (g b) in
        rounds_feeds vo func laws e shifts g a b (left x) (right y) (rounds_of x y) 0 l r
          (λ j. chan x a (j % left x)) (λ j. chan y b (j % right y)) (λ j. refl) (λ j. refl)

    joined-IsWired : (g : UGens V) (a b : ℕ) → IsWired laws g → IsWired laws (joined g a b)
    unfolding joined
    joined-IsWired g a b wired =
        rounds-IsWired vo func laws e shifts g a b (left (shape (g a))) (right (shape (g b)))
          (rounds_of (shape (g a)) (shape (g b))) 0 wired

module _ {V : Type 0} (vo : VectorOps V) (laws : VectorLaws vo) (remove : RemoveLaws vo laws) where
  -- Connecting and disconnecting two UGens, of which the left one has an output and the right one an input,
  -- channel by channel, keeps every UGen wired: a UGen is among the sources of another as often as that one is
  -- among its targets, and the size is the number of sources modulo 2^16.
  pub connect-IsWired :
      (g : UGens V) (lhs rhs : ℕ)
      → HasChannels g lhs rhs
      → IsWired laws g
      → (g1 : UGens V) × (g2 : UGens V) × (ugen_connect vo g lhs rhs ≡ some g1)
        × IsWired laws g1
        × (ugen_disconnect vo g lhs rhs ≡ some g2)
        × IsWired laws g2
  unfolding ugen_connect ugen_disconnect
  connect-IsWired g lhs rhs some_channels wired = (
    joined vo vo.add g lhs rhs,
    joined vo vo.rem2 g lhs rhs,
    do_-joined vo vo.add g lhs rhs some_channels,
    joined-IsWired vo vo.add laws (λ n. n + 1) (add-Shifts laws) g lhs rhs wired,
    do_-joined vo vo.rem2 g lhs rhs some_channels,
    joined-IsWired vo vo.rem2 laws (λ n. n - 1) (rem2-Shifts laws remove) g lhs rhs wired,
  )

  restored :
      (g : UGens V) (lhs rhs l r : ℕ)
      → feeds laws (joined vo vo.rem2 (joined vo vo.add g lhs rhs) lhs rhs) l r ≡ feeds laws g l r
  restored g lhs rhs l r =
      let made = joined vo vo.add g lhs rhs in
      let n = meets (shape (g lhs)) (shape (g rhs)) lhs rhs l r in
      feeds-joined vo vo.rem2 laws (λ m. m - 1) (rem2-Shifts laws remove) made lhs rhs l r
      ∙ ap (λ x. repeat (λ m. m - 1) (meets x (shape (made rhs)) lhs rhs l r) (feeds laws made l r))
          (shape-joined vo vo.add g lhs rhs lhs)
      ∙ ap (λ y. repeat (λ m. m - 1) (meets (shape (g lhs)) y lhs rhs l r) (feeds laws made l r))
          (shape-joined vo vo.add g lhs rhs rhs)
      ∙ repeat_down n (feeds laws made l r)
      ∙ ap (λ f. f - n)
          (feeds-joined vo vo.add laws (λ m. m + 1) (add-Shifts laws) g lhs rhs l r
            ∙ repeat_up n (feeds laws g l r))
      ∙ omega arith

  -- Disconnecting two UGens that were just connected, of which the left one has an output and the right one an
  -- input, leaves every UGen among the sources of every other as often as it was.
  pub ugen_disconnect-ugen_connect :
      (g : UGens V) (lhs rhs : ℕ)
      → HasChannels g lhs rhs
      → (g1 : UGens V) × (g2 : UGens V) × (ugen_connect vo g lhs rhs ≡ some g1)
        × (ugen_disconnect vo g1 lhs rhs ≡ some g2)
        × ((l r : ℕ) → feeds laws g2 l r ≡ feeds laws g l r)
  unfolding ugen_connect ugen_disconnect
  ugen_disconnect-ugen_connect g lhs rhs (some_left, some_right) =
      let made = joined vo vo.add g lhs rhs in
      (
        made,
        joined vo vo.rem2 made lhs rhs,
        do_-joined vo vo.add g lhs rhs (some_left, some_right),
        do_-joined vo vo.rem2 made lhs rhs (
          subst (λ x. 0 < left x) (sym (shape-joined vo vo.add g lhs rhs lhs)) some_left,
          subst (λ y. 0 < right y) (sym (shape-joined vo vo.add g lhs rhs rhs)) some_right,
        ),
        λ l r. restored g lhs rhs l r,
      )
