-- ===== src/Ugen/Ends.antt =====
-- Computing a sample ends, also where unit generators feed each other in a circle (src/lib/ugen.c).
use gwion.Prelude.{
  ℕ, zero, suc, ◌+◌, ◌≤◌, ◌<◌, ◌≡◌, inl, inr, refl, ap, ◌∙◌, Bool, true, false, ◌==◌, if◌then◌else◌,
  arith, Bool-cases, ==→eq,
}
use gwion.Ugen.{UGens, ComputeFunc}
use gwion.Ugen.Wiring.{set_kept}
use ComputeFunc.{chan}
use gwion.Ugen.Compute.{set_in, set_done}

abbrev pub is_chan : ComputeFunc → Bool
is_chan chan = true
is_chan _ = false

module _ {V : Type 0} where
  -- What is done stays so, and the functions that UGens are computed by stay.
  pub record Grows (g g' : UGens V) : Type 0 where
    pub done : (a : ℕ) → (g a).done ≡ true → (g' a).done ≡ true
    pub compute : (a : ℕ) → (g' a).compute ≡ (g a).compute
    pub ref : (a : ℕ) → (g' a).ref ≡ (g a).ref

  pub Grows-refl : (g : UGens V) → Grows g g
  Grows-refl g = record { done = λ a d. d; compute = λ a. refl; ref = λ a. refl }

  pub Grows-trans : {g h k : UGens V} → Grows g h → Grows h k → Grows g k
  Grows-trans p q = record {
    done = λ a d. q.done a (p.done a d);
    compute = λ a. q.compute a ∙ p.compute a;
    ref = λ a. q.ref a ∙ p.ref a;
  }

  pub Grows-set_in : (g : UGens V) (u x : ℕ) → Grows g (set_in g u x)
  Grows-set_in g u x = record {
    done = λ a d. set_kept (λ t. t.done) g u (record (g u) { in_value = x }) a refl ∙ d;
    compute = λ a. set_kept (λ t. t.compute) g u (record (g u) { in_value = x }) a refl;
    ref = λ a. set_kept (λ t. t.ref) g u (record (g u) { in_value = x }) a refl;
  }

  pub Grows-set_done : (g : UGens V) (u : ℕ) → Grows g (set_done g u true)
  Grows-set_done g u = record {
    done = λ a d. elim (Bool-cases (a == u)) [ inl at ↦ rw at refl | inr off ↦ rw off d ];
    compute = λ a. set_kept (λ t. t.compute) g u (record (g u) { done = true }) a refl;
    ref = λ a. set_kept (λ t. t.ref) g u (record (g u) { done = true }) a refl;
  }

  -- The UGens below `n` that are not done.
  pub undone : ℕ → UGens V → ℕ
  undone zero g = 0
  undone (suc n) g = if (g n).done then undone n g else undone n g + 1

  pub undone_le : (n : ℕ) {g g' : UGens V} → Grows g g' → undone n g' ≤ undone n g
  unfolding undone
  undone_le zero p = omega arith
  undone_le (suc n) {g} {g'} p =
      let rest = undone_le n p in
      elim (Bool-cases (g n).done) [
        | inl d ↦ rw (d, p.done n d) rest
        | inr d ↦ rw d (elim (Bool-cases (g' n).done) [
          | inl d' ↦ rw d' (omega (arith, rest))
          | inr d' ↦ rw d' (omega (arith, rest))
        ])
      ]

  pub undone_mark :
      (n u : ℕ) (g : UGens V)
      → u < n
      → (g u).done ≡ false
      → undone n (set_done g u true) + 1 ≤ undone n g
  unfolding undone
  undone_mark zero u g below not_done = absurd (omega (arith, below))
  undone_mark (suc n) u g below not_done = elim (Bool-cases (n == u)) [
    | inl at ↦
        let here : (g n).done ≡ false = ap (λ a. (g a).done) (==→eq n u at) ∙ not_done in
        let rest = undone_le n (Grows-set_done g u) in rw (at, here) (omega (arith, rest))
    | inr off ↦
        let rest = undone_mark n u g (ground (arith, below, off)) not_done in
        elim (Bool-cases (g n).done) [
          | inl d ↦ rw (off, d) rest
          | inr d ↦ rw (off, d) (omega (arith, rest))
        ]
  ]

pub undone_bound : {V : Type 0} (n : ℕ) (g : UGens V) → undone n g ≤ n
unfolding undone
undone_bound zero g = omega arith
undone_bound (suc n) g =
    let rest = undone_bound n g in
    elim (Bool-cases (g n).done) [
      | inl d ↦ rw d (omega (arith, rest))
      | inr d ↦ rw d (omega (arith, rest))
    ]
