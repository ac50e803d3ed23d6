-- ===== src/Ugen/Total.antt =====
-- Computing a sample ends (src/lib/ugen.c): each step of it does.
use mathlib.Core.Path.{subst}
use mathlib.Core.Option.{some-injective, none-ne-some}
use gwion.Prelude.{
  ℕ, zero, suc, ◌+◌, ◌-◌, ◌*◌, ◌≤◌, ◌≡◌, inl, inr, refl, sym, ap, ◌∙◌, Bool, true, false, Option,
  none, some, ◌==◌, if◌then◌else◌, arith, Bool-cases, get_or,
}
use gwion.Vector.{VectorOps}
use gwion.FloatVm.{FloatBits}
use gwion.Ugen.{UGens, ComputeFunc}
use ComputeFunc.{mono, gen_mono, gen_multi, gen_mono_trig, gen_multi_trig, chan}
use gwion.Ugen.Compute.{
  dispatch, set_in, set_done, compute_once, compute_from, compute_mono, compute_channels,
  compute_multi, with_tick, compute_by,
}
use gwion.Ugen.Ends.{
  is_chan, Grows, Grows-refl, Grows-trans, Grows-set_in, Grows-set_done, undone, undone_le,
}

-- The UGens are below `n`, those from there on count as done, and a channel belongs to a UGen that is none.
pub record IsPatch {V : Type 0} (n : ℕ) (g : UGens V) : Type 0 where
  pub bounded : (a : ℕ) → n ≤ a → (g a).done ≡ true
  pub refs : (a : ℕ) → is_chan (g a).compute ≡ true → is_chan (g (g a).ref).compute ≡ false

IsPatch-Grows : {V : Type 0} {n : ℕ} {g g' : UGens V} → Grows g g' → IsPatch n g → IsPatch n g'
IsPatch-Grows {g = g} {g'} p patch = record {
  bounded = λ a below. p.done a (patch.bounded a below);
  refs = λ a c.
      ap is_chan (p.compute (g' a).ref)
      ∙ ap (λ b. is_chan (g b).compute) (p.ref a)
      ∙ patch.refs a (ap is_chan (sym (p.compute a)) ∙ c);
}

-- The computation has a result, and what was done stays done.
abbrev pub Ends : {V : Type 0} → Option (UGens V) → UGens V → Type 0
Ends {V} r g = (g' : UGens V) × (r ≡ some g') × Grows g g'

module _ {V : Type 0} where
  pub Ends-from : {r : Option (UGens V)} {g h : UGens V} → Grows g h → Ends r h → Ends r g
  Ends-from p (g', e, q) = (g', e, Grows-trans p q)

  -- One computation after another.
  Ends-then :
      (r : Option (UGens V)) (f : UGens V → Option (UGens V)) (g : UGens V)
      → Ends r g
      → ((g1 : UGens V) → Grows g g1 → Ends (f g1) g1)
      → Ends (elim r [ none ↦ none | some g1 ↦ f g1 ]) g
  Ends-then r f g (g1, e, p) further =
      let (g2, e2, q) = further g1 p in
      (
        g2,
        ap {A = Option (UGens V)} {B = Option (UGens V)}
              (λ x. elim x [ none ↦ none | some g1 ↦ f g1 ]) e
            ∙ e2,
        Grows-trans p q,
      )

  module _ (vo : VectorOps V) (bits : FloatBits) (tick : UGens V → ℕ → UGens V)
      (tick-Grows : (g : UGens V) (u : ℕ) → Grows g (tick g u)) (n : ℕ) where
    module _ (rec : UGens V → ℕ → Option (UGens V)) (limit : ℕ)
        (rec-Ends : (g : UGens V) (v : ℕ)
          → IsPatch n g
          → (g v).done ≡ false
          → 2 * undone n g + 1 ≤ limit
          → Ends (rec g v) g) where
      pub compute_once-Ends :
          (g : UGens V) (v : ℕ)
          → IsPatch n g
          → 2 * undone n g + 1 ≤ limit
          → Ends (compute_once vo bits tick rec g v) g
      compute_once-Ends g v patch enough = elim (Bool-cases (g v).done) [
        | inl d ↦ rw d (g, refl, Grows-refl g)
        | inr d ↦ rw d (rec-Ends g v patch d enough)
      ]

      compute_from-Ends :
          (g : UGens V) (u k i : ℕ)
          → IsPatch n g
          → 2 * undone n g + 1 ≤ limit
          → Ends (compute_from vo bits tick rec g u k i) g
      unfolding compute_from
      compute_from-Ends g u zero i patch enough = (g, refl, Grows-refl g)
      compute_from-Ends g u (suc k) i patch enough =
          let w = vo.at (g u).from i in
          Ends-then (compute_once vo bits tick rec g w)
            (λ g1.
              compute_from vo bits tick rec
                (set_in g1 u (dispatch vo bits tick (g1 u).op (g1 u).in_value (g1 w).out)) u k
                (i + 1))
            g (compute_once-Ends g w patch enough)
            (λ g1 p.
              let q =
                Grows-set_in g1 u (dispatch vo bits tick (g1 u).op (g1 u).in_value (g1 w).out) in
              let fewer = undone_le n (Grows-trans p q) in
              Ends-from q (
                compute_from-Ends
                  (set_in g1 u (dispatch vo bits tick (g1 u).op (g1 u).in_value (g1 w).out)) u k
                  (i + 1) (IsPatch-Grows (Grows-trans p q) patch) (omega (arith, fewer, enough))))

      compute_mono-Ends :
          (g : UGens V) (u : ℕ)
          → IsPatch n g
          → 2 * undone n (set_done g u true) + 1 ≤ limit
          → Ends (compute_mono vo bits tick rec g u) (set_done g u true)
      unfolding compute_mono
      compute_mono-Ends g0 u patch enough =
          let g = set_done g0 u true in
          let p0 = Grows-set_done g0 u in
          let v = vo.front (g u).from in
          pick ((g u).size == 0) (some g)
            (elim (compute_once vo bits tick rec g v) [
              | none ↦ none
              | some g1 ↦
                  compute_from vo bits tick rec (set_in g1 u (g1 v).out) u ((g u).size - 1) 1
            ])
            g (g, refl, Grows-refl g)
            (Ends-then (compute_once vo bits tick rec g v)
              (λ g1. compute_from vo bits tick rec (set_in g1 u (g1 v).out) u ((g u).size - 1) 1) g
              (compute_once-Ends g v (IsPatch-Grows p0 patch) enough)
              (λ g1 p.
                let q = Grows-set_in g1 u (g1 v).out in
                let fewer = undone_le n (Grows-trans p q) in
                Ends-from q (
                  compute_from-Ends (set_in g1 u (g1 v).out) u ((g u).size - 1) 1
                    (IsPatch-Grows (Grows-trans (Grows-trans p0 p) q) patch)
                    (omega (arith, fewer, enough)))))
        where
          pick :
              (b : Bool) (x y : Option (UGens V)) (g : UGens V)
              → Ends x g
              → Ends y g
              → Ends (if b then x else y) g
          pick true x y g ends_x ends_y = ends_x
          pick false x y g ends_x ends_y = ends_y

      compute_channels-Ends :
          (g : UGens V) (u k i : ℕ)
          → IsPatch n g
          → 2 * undone n g + 1 ≤ limit
          → Ends (compute_channels vo bits tick rec g u k i) g
      unfolding compute_channels
      compute_channels-Ends g u zero i patch enough = (g, refl, Grows-refl g)
      compute_channels-Ends g u (suc k) i patch enough =
          let c = get_or (g u).channel i 0 in
          let marked = undone_le n (Grows-set_done g c) in
          Ends-then (compute_mono vo bits tick rec g c)
            (λ g1. compute_channels vo bits tick rec g1 u k (i + 1)) g
            (Ends-from (Grows-set_done g c)
              (compute_mono-Ends g c patch (omega (arith, marked, enough))))
            (λ g1 p.
              let fewer = undone_le n p in
              compute_channels-Ends g1 u k (i + 1) (IsPatch-Grows p patch)
                (omega (arith, fewer, enough)))

      compute_multi-Ends :
          (g : UGens V) (u : ℕ)
          → IsPatch n g
          → 2 * undone n (set_done g u true) + 1 ≤ limit
          → Ends (compute_multi vo bits tick rec g u) (set_done g u true)
      unfolding compute_multi
      compute_multi-Ends g u patch enough =
          compute_channels-Ends (set_done g u true) u
            (if (g u).n_chan == 0 then 1 else (g u).n_chan) 0
            (IsPatch-Grows (Grows-set_done g u) patch) enough

      with_tick-Ends :
          (trigs : Bool) (u : ℕ) (r : Option (UGens V)) (g : UGens V)
          → IsPatch n g
          → 2 * undone n g + 1 ≤ limit
          → Ends r g
          → Ends (with_tick vo bits tick rec trigs u r) g
      unfolding with_tick
      with_tick-Ends trigs u none g patch enough (g1, e, p) = absurd (none-ne-some g1 e)
      with_tick-Ends false u (some h) g patch enough (g1, e, p) =
          let p = subst (Grows g) (sym (some-injective h g1 e)) p in
          (tick h u, refl, Grows-trans p (tick-Grows h u))
      with_tick-Ends true u (some h) g patch enough (g1, e, p) =
          let p = subst (Grows g) (sym (some-injective h g1 e)) p in
          Ends-from p (trig-Ends (h u).trig h (IsPatch-Grows p patch) (undone_le n p))
        where
          trig-Ends :
              (trig : Option ℕ) (h : UGens V)
              → IsPatch n h
              → undone n h ≤ undone n g
              → Ends
                  (elim trig [
                    | none ↦ some (tick h u)
                    | some t ↦ elim (compute_mono vo bits tick rec h t) [
                      | none ↦ none
                      | some g1 ↦ some (tick g1 u)
                    ]
                  ])
                  h
          trig-Ends none h patch fewer = (tick h u, refl, tick-Grows h u)
          trig-Ends (some t) h patch fewer =
              let marked = undone_le n (Grows-set_done h t) in
              Ends-then (compute_mono vo bits tick rec h t) (λ g1. some (tick g1 u)) h
                (Ends-from (Grows-set_done h t)
                  (compute_mono-Ends h t patch (omega (arith, marked, fewer, enough))))
                (λ g1 p. (tick g1 u, refl, tick-Grows g1 u))

      pub compute_by-Ends :
          (f : ComputeFunc) (g : UGens V) (u : ℕ)
          → is_chan f ≡ false
          → IsPatch n g
          → 2 * undone n (set_done g u true) + 1 ≤ limit
          → Ends (compute_by vo bits tick rec f g u) (set_done g u true)
      unfolding compute_by
      compute_by-Ends mono g u plain patch enough = compute_mono-Ends g u patch enough
      compute_by-Ends gen_mono g u plain patch enough =
          with_tick-Ends false u (compute_mono vo bits tick rec g u) (set_done g u true)
            (IsPatch-Grows (Grows-set_done g u) patch) enough (compute_mono-Ends g u patch enough)
      compute_by-Ends gen_multi g u plain patch enough =
          with_tick-Ends false u (compute_multi vo bits tick rec g u) (set_done g u true)
            (IsPatch-Grows (Grows-set_done g u) patch) enough (compute_multi-Ends g u patch enough)
      compute_by-Ends gen_mono_trig g u plain patch enough =
          with_tick-Ends true u (compute_mono vo bits tick rec g u) (set_done g u true)
            (IsPatch-Grows (Grows-set_done g u) patch) enough (compute_mono-Ends g u patch enough)
      compute_by-Ends gen_multi_trig g u plain patch enough =
          with_tick-Ends true u (compute_multi vo bits tick rec g u) (set_done g u true)
            (IsPatch-Grows (Grows-set_done g u) patch) enough (compute_multi-Ends g u patch enough)
      compute_by-Ends chan g u plain patch enough = absurd (cc)
