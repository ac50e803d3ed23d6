-- ===== src/Ugen/Instructions.antt =====
-- src/lib/ugen.c: the instructions that connect unit generators and arrays of them, taking them apart, their
-- channels and operators. An instruction gets the objects that it pops.
use gwion.Prelude.{
  ℕ, zero, suc, ◌+◌, ◌-◌, ◌%◌, ◌^◌, Bool, false, ◌&&◌, Option, none, some, ◌==◌, if◌then◌else◌, ltb,
  leb, List, [], ◌∷◌, get_or,
}
use gwion.Vector.{VectorOps}
use gwion.Ugen.{UGen, UGens, ComputeFunc, set_ugen, do_}
use ComputeFunc.{gen_mono}

pub data UgenResult (A : Type 0) : Type 0 where
  next : A → UgenResult A
  non_trigger_exception invalid_channel_request failed_assertion : UgenResult A

module _ {V : Type 0} (vo : VectorOps V) where
  module _ (func : V → ℕ → V) where
    abbrev pub connected : Option (UGens V) → UgenResult (UGens V)
    connected none = failed_assertion
    connected (some g) = next g

    -- `UgenConnect` and `UgenDisconnect`, `TrigConnect` and `TrigDisconnect`.
    unfoldable pub ugen_instr : UGens V → (lhs rhs : ℕ) → UgenResult (UGens V)
    ugen_instr g lhs rhs = connected (do_ vo func g lhs rhs)

    unfoldable pub trig_instr : UGens V → (lhs rhs : ℕ) → UgenResult (UGens V)
    trig_instr g lhs rhs = elim (g rhs).trig [
      | none ↦ non_trigger_exception
      | some trig ↦ connected (do_ vo func g lhs trig)
    ]

    -- One pair of `UgenAA`; a null object is passed over.
    abbrev pub do_objects : UGens V → Option ℕ → Option ℕ → Option (UGens V)
    do_objects g none rhs = some g
    do_objects g (some lhs) none = some g
    do_objects g (some lhs) (some rhs) = do_ vo func g lhs rhs

    -- `UgenAA`, as far as the shorter array.
    unfoldable pub ugen_aa : UGens V → List (Option ℕ) → List (Option ℕ) → UgenResult (UGens V)
    ugen_aa g [] rhs = next g
    ugen_aa g (lhs ∷ lhss) [] = next g
    ugen_aa g (lhs ∷ lhss) (rhs ∷ rhss) = elim (do_objects g lhs rhs) [
      | none ↦ failed_assertion
      | some g1 ↦ ugen_aa g1 lhss rhss
    ]

    unfoldable pub ugen_ua : UGens V → (lhs : ℕ) → List (Option ℕ) → UgenResult (UGens V)
    ugen_ua g lhs [] = next g
    ugen_ua g lhs (rhs ∷ rhss) = elim (do_objects g (some lhs) rhs) [
      | none ↦ failed_assertion
      | some g1 ↦ ugen_ua g1 lhs rhss
    ]

    unfoldable pub ugen_au : UGens V → List (Option ℕ) → (rhs : ℕ) → UgenResult (UGens V)
    ugen_au g [] rhs = next g
    ugen_au g (lhs ∷ lhss) rhs = elim (do_objects g lhs (some rhs)) [
      | none ↦ failed_assertion
      | some g1 ↦ ugen_au g1 lhss rhs
    ]

    -- `TrigAU` looks for the trigger in each round, so that an empty array raises nothing.
    unfoldable pub trig_au : UGens V → List (Option ℕ) → (rhs : ℕ) → UgenResult (UGens V)
    trig_au g [] rhs = next g
    trig_au g (lhs ∷ lhss) rhs = elim (g rhs).trig [
      | none ↦ non_trigger_exception
      | some trig ↦ elim (do_objects g lhs (some trig)) [
        | none ↦ failed_assertion
        | some g1 ↦ trig_au g1 lhss rhs
      ]
    ]

  -- `release_from` and `release_to`, from the last entry to the first: `i` entries are left.
  unfoldable pub release_from : UGens V → (ug : ℕ) → (i : ℕ) → UGens V
  release_from g ug zero = g
  release_from g ug (suc i) =
      let u = vo.at (g ug).from i in
      release_from (set_ugen g u (record (g u) { to = vo.rem2 (g u).to ug })) ug i

  unfoldable pub release_to : UGens V → (ug : ℕ) → (i : ℕ) → UGens V
  release_to g ug zero = g
  release_to g ug (suc i) =
      let u = vo.at (g ug).to i in
      release_to
        (set_ugen g u
          (record (g u) { from = vo.rem2 (g u).from ug; size = ((g u).size + 65535) % 2 ^ 16 }))
        ug i

  unfoldable pub release_mono : UGens V → (ug : ℕ) → UGens V
  unfolding release_from release_to
  release_mono g ug =
      let g1 = release_to g ug (vo.size (g ug).to) in release_from g1 ug (vo.size (g1 ug).from)

  -- `new_UGen`: the memory comes zeroed.
  unfoldable pub new_ugen : UGen V
  new_ugen = record {
    compute = gen_mono;
    from = vo.init;
    to = vo.init;
    size = 0;
    channel = [];
    n_in = 0;
    n_out = 0;
    n_chan = 0;
    trig = none;
    ref = 0;
    in_value = 0;
    out = 0;
    op = 0;
    multi = false;
    done = false;
  }

module _ {V : Type 0} where
  -- `ugen_channel`: the channel number is signed, `i >= 0` is a test of its sign. The
  -- count of channels of a UGen that is not `multi` is whatever the other arm of the union has there.
  unfoldable pub ugen_channel : UGens V → (o : ℕ) → (negative : Bool) → (i : ℕ) → UgenResult ℕ
  ugen_channel g o negative i =
      if (if (g o).multi then false else if negative then false else i == 0)
      then next o
      else if (if negative then false else ltb i (g o).n_chan)
      then next (get_or (g o).channel i 0)
      else invalid_channel_request

  unfoldable pub ugen_get_op : UGens V → ℕ → ℕ
  ugen_get_op g o = (g o).op + 1

  -- The channels of `set_op`.
  unfoldable pub set_ops : UGens V → (u f i : ℕ) → UGens V
  set_ops g u f zero = g
  set_ops g u f (suc i) =
      let c = get_or (g u).channel i 0 in set_ops (set_ugen g c (record (g c) { op = f })) u f i

  unfoldable pub set_op : UGens V → (u f : ℕ) → UGens V
  set_op g u f =
      let g1 = if (g u).multi then set_ops g u f (g u).n_chan else g in
      set_ugen g1 u (record (g1 u) { op = f })

  unfoldable pub ugen_set_op : UGens V → (o i : ℕ) → UGens V × ℕ
  ugen_set_op g o i =
      let g1 = if leb 1 i && leb i 4 then set_op g o (i - 1) else g in (g1, (g1 o).op + 1)
