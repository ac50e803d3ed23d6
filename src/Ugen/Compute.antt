-- ===== src/Ugen/Compute.antt =====
-- src/lib/ugen.c: computing a sample; compute_audio of src/vm/vm.c. The fuel bounds the chain of unit
-- generators that wait for one another; `none` is only for want of it.
use gwion.Prelude.{
  ℕ, zero, suc, ◌+◌, ◌-◌, Bool, true, false, Option, none, some, ◌==◌, if◌then◌else◌, get_or,
}
use gwion.Vector.{VectorOps}
use gwion.FloatVm.{FloatBits}
use gwion.Ugen.{UGens, ComputeFunc, set_ugen}
use ComputeFunc.{mono, gen_mono, gen_multi, gen_mono_trig, gen_multi_trig, chan}

module _ {V : Type 0} where
  abbrev pub set_in : UGens V → ℕ → ℕ → UGens V
  set_in g u x = set_ugen g u (record (g u) { in_value = x })

  abbrev pub set_done : UGens V → ℕ → Bool → UGens V
  set_done g u b = set_ugen g u (record (g u) { done = b })

module _ {V : Type 0} (vo : VectorOps V) (bits : FloatBits) (tick : UGens V → ℕ → UGens V) where
  -- The cases of `dispatch`: `mul` and `div` both multiply.
  unfoldable pub dispatch : (op a b : ℕ) → ℕ
  dispatch zero a b = bits.add a b
  dispatch (suc zero) a b = bits.sub a b
  dispatch (suc (suc op)) a b = bits.mul a b

  module _ (compute : UGens V → ℕ → Option (UGens V)) where
    -- `COMPUTE`.
    abbrev pub compute_once : UGens V → ℕ → Option (UGens V)
    compute_once g v = if (g v).done then some g else compute g v

    -- The rest of the loop over `from`: `n` entries from `i` on.
    unfoldable pub compute_from : UGens V → (u : ℕ) → (n i : ℕ) → Option (UGens V)
    compute_from g u zero i = some g
    compute_from g u (suc n) i =
        let w = vo.at (g u).from i in
        elim (compute_once g w) [
          | none ↦ none
          | some g1 ↦
              compute_from (set_in g1 u (dispatch (g1 u).op (g1 u).in_value (g1 w).out)) u n (i + 1)
        ]

    unfoldable pub compute_mono : UGens V → ℕ → Option (UGens V)
    unfolding compute_from
    compute_mono g0 u =
        let g = set_done g0 u true in
        let size = (g u).size in
        let v = vo.front (g u).from in
        if size == 0 then some g else elim (compute_once g v) [
          | none ↦ none
          | some g1 ↦ compute_from (set_in g1 u (g1 v).out) u (size - 1) 1
        ]

    -- The rest of the loop over the channels.
    unfoldable pub compute_channels : UGens V → (u : ℕ) → (n i : ℕ) → Option (UGens V)
    unfolding compute_mono
    compute_channels g u zero i = some g
    compute_channels g u (suc n) i = elim (compute_mono g (get_or (g u).channel i 0)) [
      | none ↦ none
      | some g1 ↦ compute_channels g1 u n (i + 1)
    ]

    -- `do … while (++i < n_chan)`.
    unfoldable pub compute_multi : UGens V → ℕ → Option (UGens V)
    unfolding compute_channels
    compute_multi g u =
        let n = (g u).n_chan in compute_channels (set_done g u true) u (if n == 0 then 1 else n) 0

    -- `describe_compute`: the trigger is computed first, then the plug-in ticks. `ugen_gen` makes the trigger
    -- of every UGen that is computed with one.
    unfoldable pub with_tick : (trigs : Bool) → ℕ → Option (UGens V) → Option (UGens V)
    unfolding compute_mono
    with_tick trigs u none = none
    with_tick false u (some g) = some (tick g u)
    with_tick true u (some g) = elim (g u).trig [
      | none ↦ some (tick g u)
      | some trig ↦ elim (compute_mono g trig) [ none ↦ none | some g1 ↦ some (tick g1 u) ]
    ]

    unfoldable pub compute_by : ComputeFunc → UGens V → ℕ → Option (UGens V)
    unfolding compute_mono compute_multi with_tick
    compute_by mono g u = compute_mono g u
    compute_by gen_mono g u = with_tick false u (compute_mono g u)
    compute_by gen_multi g u = with_tick false u (compute_multi g u)
    compute_by gen_mono_trig g u = with_tick true u (compute_mono g u)
    compute_by gen_multi_trig g u = with_tick true u (compute_multi g u)
    compute_by chan g u = compute_once g (g u).ref

  unfoldable pub compute : ℕ → UGens V → ℕ → Option (UGens V)
  unfolding compute_by
  compute zero g u = none
  compute (suc fuel) g u = compute_by (compute fuel) (g u).compute g u

  -- The channels of `compute_audio`, from the last.
  unfoldable pub undo_channels : UGens V → (u j : ℕ) → UGens V
  undo_channels g u zero = g
  undo_channels g u (suc j) = undo_channels (set_done g (get_or (g u).channel j 0) false) u j

  unfoldable pub undo_all : UGens V → (v : V) → (i : ℕ) → UGens V
  unfolding undo_channels
  undo_all g v zero = g
  undo_all g v (suc i) =
      let u = vo.at v i in
      let g1 = set_done g u false in
      undo_all (if (g1 u).multi then undo_channels g1 u (g1 u).n_chan else g1) v i

  -- `v` is the vector of the VM, whose first UGen is the blackhole.
  unfoldable pub compute_audio : ℕ → UGens V → (v : V) → Option (UGens V)
  unfolding undo_all compute
  compute_audio fuel g v = compute fuel (undo_all g v (vo.size v)) (vo.at v 0)
