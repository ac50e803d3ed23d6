-- ===== src/Ugen/Connect.antt =====
-- What connecting and disconnecting do to how often a unit generator feeds another (src/lib/ugen.c).
use gwion.Prelude.{
  ℕ, zero, suc, ◌+◌, ◌-◌, ◌%◌, ◌^◌, ◌≡◌, inl, inr, refl, sym, ap, ◌∙◌, Bool, true, false, ◌&&◌,
  ◌==◌, if◌then◌else◌, arith, Bool-cases, ==→eq, get_or, length,
}
use gwion.Vector.{VectorOps, VectorLaws}
use gwion.Ugen.{UGen, UGens, channel_of, onnect, do_rounds}
use gwion.Ugen.Wiring.{times, Shifts, onnect_kept, from_lem, to_lem, size_lem}

module _ {V : Type 0} {vo : VectorOps V} (laws : VectorLaws vo) where
  -- How often `lhs` feeds `rhs`, as `rhs` has it and as `lhs` has it.
  unfoldable pub feeds : UGens V → (lhs rhs : ℕ) → ℕ
  feeds g lhs rhs = times lhs (laws.items (g rhs).from)

  unfoldable pub fed : UGens V → (lhs rhs : ℕ) → ℕ
  fed g lhs rhs = times rhs (laws.items (g lhs).to)

  -- Both ends agree, and the size is that of `from`.
  pub record IsWired (g : UGens V) : Type 0 where
    pub ends : (lhs rhs : ℕ) → feeds g lhs rhs ≡ fed g lhs rhs
    pub sizes : (u : ℕ) → (g u).size ≡ length (laws.items (g u).from) % 2 ^ 16

  abbrev shifted : (e : ℕ → ℕ) → Bool → ℕ → ℕ
  shifted e hit n = if hit then e n else n

  module _ (func : V → ℕ → V) (e : ℕ → ℕ) (shifts : Shifts laws func e) where
    feeds_lem :
        (g : UGens V) (a b l r : ℕ)
        → feeds (onnect vo func g a b) l r ≡ shifted e (l == a && r == b) (feeds g l r)
    unfolding feeds
    feeds_lem g a b l r =
        ap (λ v. times l (laws.items v)) (from_lem vo func g a b r) ∙ elim (Bool-cases (r == b)) [
          | inl at ↦ rw at (
              shifts (g b).from l a ∙ elim (Bool-cases (l == a)) [
                | inl on ↦
                    rw on (ap (λ c. e (times l (laws.items (g c).from))) (sym (==→eq r b at)))
                | inr off ↦ rw off (ap (λ c. times l (laws.items (g c).from)) (sym (==→eq r b at)))
              ])
          | inr off ↦
              rw off (elim (Bool-cases (l == a)) [ inl on ↦ rw on refl | inr past ↦ rw past refl ])
        ]

    fed_lem :
        (g : UGens V) (a b l r : ℕ)
        → fed (onnect vo func g a b) l r ≡ shifted e (l == a && r == b) (fed g l r)
    unfolding fed
    fed_lem g a b l r =
        ap (λ v. times r (laws.items v)) (to_lem vo func g a b l) ∙ elim (Bool-cases (l == a)) [
          | inl at ↦ rw at (
              shifts (g a).to r b
              ∙ ap
                  (λ c.
                    if r == b
                    then e (times r (laws.items (g c).to))
                    else times r (laws.items (g c).to))
                  (sym (==→eq l a at)))
          | inr off ↦ rw off refl
        ]

    onnect-IsWired : (g : UGens V) (a b : ℕ) → IsWired g → IsWired (onnect vo func g a b)
    onnect-IsWired g a b wired = record {
      ends = λ l r.
          feeds_lem g a b l r
          ∙ ap (shifted e (l == a && r == b)) (wired.ends l r)
          ∙ sym (fed_lem g a b l r);
      sizes = λ u. size_lem vo func g a b u ∙ elim (Bool-cases (u == b)) [
        | inl at ↦ rw at (ap (λ n. n % 2 ^ 16) (laws.size_lem (onnect vo func g a b u).from))
        | inr off ↦ rw off (
            wired.sizes u
            ∙ ap (λ v. length (laws.items v) % 2 ^ 16)
                (sym (from_lem vo func g a b u ∙ rw off refl)))
      ];
    }

pub repeat : (ℕ → ℕ) → ℕ → ℕ → ℕ
repeat e zero x = x
repeat e (suc n) x = repeat e n (e x)

pub repeat_up : (n x : ℕ) → repeat (λ m. m + 1) n x ≡ x + n
unfolding repeat
repeat_up zero x = omega arith
repeat_up (suc n) x = repeat_up n (x + 1) ∙ omega arith

pub repeat_down : (n x : ℕ) → repeat (λ m. m - 1) n x ≡ x - n
unfolding repeat
repeat_down zero x = omega arith
repeat_down (suc n) x = repeat_down n (x - 1) ∙ omega arith

-- The rounds in which the channels `l` and `r` are paired.
pub hits : (ca cb : ℕ → ℕ) (l r : ℕ) → (rounds i : ℕ) → ℕ
hits ca cb l r zero i = zero
hits ca cb l r (suc rounds) i =
    let rest = hits ca cb l r rounds (i + 1) in if l == ca i && r == cb i then suc rest else rest

module _ {V : Type 0} (vo : VectorOps V) (func : V → ℕ → V) where
  -- Connecting keeps the channels.
  kept_channel :
      (g : UGens V) (a b u i : ℕ) → channel_of (onnect vo func g a b) u i ≡ channel_of g u i
  kept_channel g a b u i =
      ap (λ m. if m then get_or (onnect vo func g a b u).channel i 0 else u)
        (onnect_kept vo func g a b (λ x. x.multi) (λ x v. refl) (λ x v. refl) (λ x n. refl) u)
      ∙ ap (λ c. if (g u).multi then get_or c i 0 else u)
          (onnect_kept vo func g a b (λ x. x.channel) (λ x v. refl) (λ x v. refl) (λ x n. refl) u)

  -- What is neither a vector nor the size is kept through the rounds.
  pub rounds_kept :
      {X : Type 0} (p : UGen V → X)
      → ((u : UGen V) (v : V) → p (record u { from = v }) ≡ p u)
      → ((u : UGen V) (v : V) → p (record u { to = v }) ≡ p u)
      → ((u : UGen V) (n : ℕ) → p (record u { size = n }) ≡ p u)
      → (g : UGens V) (a b l_max r_max rounds i u : ℕ)
      → p (do_rounds vo func g a b l_max r_max rounds i u) ≡ p (g u)
  unfolding do_rounds
  rounds_kept p from to size g a b l_max r_max zero i u = refl
  rounds_kept p from to size g a b l_max r_max (suc rounds) i u =
      let x = channel_of g a (i % l_max) in
      let y = channel_of g b (i % r_max) in
      rounds_kept p from to size (onnect vo func g x y) a b l_max r_max rounds (i + 1) u
      ∙ onnect_kept vo func g x y p from to size u

  module _ (laws : VectorLaws vo) (e : ℕ → ℕ) (shifts : Shifts laws func e) where
    pub rounds-IsWired :
        (g : UGens V) (a b l_max r_max rounds i : ℕ)
        → IsWired laws g
        → IsWired laws (do_rounds vo func g a b l_max r_max rounds i)
    unfolding do_rounds
    rounds-IsWired g a b l_max r_max zero i wired = wired
    rounds-IsWired g a b l_max r_max (suc rounds) i wired =
        rounds-IsWired (onnect vo func g (channel_of g a (i % l_max)) (channel_of g b (i % r_max)))
          a b l_max r_max rounds (i + 1)
          (onnect-IsWired laws func e shifts g (channel_of g a (i % l_max))
            (channel_of g b (i % r_max)) wired)

    pub rounds_feeds :
        (g : UGens V) (a b l_max r_max rounds i l r : ℕ) (ca cb : ℕ → ℕ)
        → ((j : ℕ) → channel_of g a (j % l_max) ≡ ca j)
        → ((j : ℕ) → channel_of g b (j % r_max) ≡ cb j)
        → feeds laws (do_rounds vo func g a b l_max r_max rounds i) l r
          ≡ repeat e (hits ca cb l r rounds i) (feeds laws g l r)
    unfolding do_rounds hits repeat
    rounds_feeds g a b l_max r_max zero i l r ca cb at_a at_b = refl
    rounds_feeds g a b l_max r_max (suc rounds) i l r ca cb at_a at_b =
        let x = channel_of g a (i % l_max) in
        let y = channel_of g b (i % r_max) in
        rounds_feeds (onnect vo func g x y) a b l_max r_max rounds (i + 1) l r ca cb
          (λ j. kept_channel g x y a (j % l_max) ∙ at_a j)
          (λ j. kept_channel g x y b (j % r_max) ∙ at_b j)
        ∙ ap (repeat e (hits ca cb l r rounds (i + 1))) (
            feeds_lem laws func e shifts g x y l r
            ∙ ap (λ c. shifted laws e (l == c && r == y) (feeds laws g l r)) (at_a i)
            ∙ ap (λ c. shifted laws e (l == ca i && r == c) (feeds laws g l r)) (at_b i))
        ∙ once (l == ca i && r == cb i) (hits ca cb l r rounds (i + 1)) (feeds laws g l r)
      where
        once :
            (hit : Bool) (n x : ℕ)
            → repeat e n (if hit then e x else x) ≡ repeat e (if hit then suc n else n) x
        once true n x = refl
        once false n x = refl
