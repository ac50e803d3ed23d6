-- ===== src/Ugen/Sample.antt =====
-- Computing a unit generator has a result (src/lib/ugen.c).
use mathlib.Core.Path.{subst}
use gwion.Prelude.{
  ℕ, zero, suc, ◌+◌, ◌*◌, ◌≤◌, ◌<◌, ◌≡◌, inl, inr, refl, sym, Bool, true, false, if◌then◌else◌,
  arith, Bool-cases, ltb, ltb→lt, ltb→le,
}
use gwion.Vector.{VectorOps}
use gwion.FloatVm.{FloatBits}
use gwion.Ugen.{UGens, ComputeFunc}
use ComputeFunc.{mono, gen_mono, gen_multi, gen_mono_trig, gen_multi_trig, chan}
use gwion.Ugen.Compute.{compute, compute_by, set_done}
use gwion.Ugen.Ends.{is_chan, Grows, Grows-refl, Grows-set_done, undone, undone_mark, undone_bound}
use gwion.Ugen.Total.{IsPatch, Ends, Ends-from, compute_by-Ends}

chan_lem : (f : ComputeFunc) → is_chan f ≡ true → f ≡ chan
chan_lem chan e = refl
chan_lem mono e = absurd (cc)
chan_lem gen_mono e = absurd (cc)
chan_lem gen_multi e = absurd (cc)
chan_lem gen_mono_trig e = absurd (cc)
chan_lem gen_multi_trig e = absurd (cc)

abbrev weight : {V : Type 0} (n : ℕ) → UGens V → ℕ → ℕ
weight n g u = 2 * undone n g + (if is_chan (g u).compute then 1 else 0)

-- A UGen that is not done is one of those below the bound.
below_lem : {V : Type 0} {n : ℕ} {g : UGens V} (u : ℕ) → IsPatch n g → (g u).done ≡ false → u < n
below_lem {n = n} {g} u patch not_done = elim (Bool-cases (ltb u n)) [
  | inl below ↦ ltb→lt u n below
  | inr past ↦ let done = patch.bounded u (ltb→le u n past) in absurd (cc)
]

module _ {V : Type 0} (vo : VectorOps V) (bits : FloatBits) (tick : UGens V → ℕ → UGens V)
    (tick-Grows : (g : UGens V) (u : ℕ) → Grows g (tick g u)) (n : ℕ) where
  weight-Ends :
      (fuel : ℕ) (g : UGens V) (u : ℕ)
      → IsPatch n g
      → (g u).done ≡ false
      → weight n g u ≤ fuel
      → Ends (compute vo bits tick fuel g u) g
  unfolding compute compute_by
  weight-Ends zero g u patch not_done enough =
      let mark = undone_mark n u g (below_lem u patch not_done) not_done in
      absurd (omega (arith, mark, enough))
  weight-Ends (suc fuel) g u patch not_done enough =
      let mark = undone_mark n u g (below_lem u patch not_done) not_done in
      elim (Bool-cases (is_chan (g u).compute)) [
        | inl c ↦
            subst (λ f. Ends (compute_by vo bits tick (compute vo bits tick fuel) f g u) g)
              (sym (chan_lem (g u).compute c))
              (elim (Bool-cases (g (g u).ref).done) [
                | inl d ↦ rw d (g, refl, Grows-refl g)
                | inr d ↦ rw d (
                    weight-Ends fuel g (g u).ref patch d (
                      subst (λ b. 2 * undone n g + (if b then 1 else 0) ≤ fuel)
                        (sym (patch.refs u c))
                        (owner (
                          subst (λ b. 2 * undone n g + (if b then 1 else 0) ≤ suc fuel) c enough))))
              ])
        | inr c ↦ Ends-from (Grows-set_done g u) (
            compute_by-Ends vo bits tick tick-Grows n (compute vo bits tick fuel) fuel
              (λ h v fine d small.
                weight-Ends fuel h v fine d (small_weight (is_chan (h v).compute) h small))
              (g u).compute g u c patch
              (lighter mark
                (subst (λ b. 2 * undone n g + (if b then 1 else 0) ≤ suc fuel) c enough)))
      ]
    where
      small_weight :
          (b : Bool) (h : UGens V)
          → 2 * undone n h + 1 ≤ fuel
          → 2 * undone n h + (if b then 1 else 0) ≤ fuel
      small_weight true h small = small
      small_weight false h small = omega (arith, small)

      lighter :
          undone n (set_done g u true) + 1 ≤ undone n g
          → 2 * undone n g + 0 ≤ suc fuel
          → 2 * undone n (set_done g u true) + 1 ≤ fuel
      lighter mark enough = omega (arith, mark, enough)

      owner : 2 * undone n g + 1 ≤ suc fuel → 2 * undone n g + 0 ≤ fuel
      owner enough = omega (arith, enough)

  -- Computing a UGen that is not done has a result, and what was done stays done, also where UGens feed each
  -- other in a circle, with fuel above twice the number of UGens, provided that what a plug-in does undoes
  -- nothing and keeps the functions that UGens are computed by, and that a channel belongs to a UGen that is
  -- not a channel.
  pub compute-Ends :
      (fuel : ℕ) (g : UGens V) (u : ℕ)
      → IsPatch n g
      → (g u).done ≡ false
      → 2 * n + 1 ≤ fuel
      → Ends (compute vo bits tick fuel g u) g
  compute-Ends fuel g u patch not_done enough =
      let bound = undone_bound n g in
      weight-Ends fuel g u patch not_done (lighten (is_chan (g u).compute) bound)
    where
      lighten : (b : Bool) → undone n g ≤ n → 2 * undone n g + (if b then 1 else 0) ≤ fuel
      lighten true bound = omega (arith, bound, enough)
      lighten false bound = omega (arith, bound, enough)
