-- ===== src/Ugen.antt =====
-- src/lib/ugen.c: unit generators, how they are connected, and how a sample is computed. A `UGen` pointer
-- is its number in a table. `tick` is the code of a plug-in, so it is an argument; the null object in an
-- array is `none`.
pub mod Wiring
mod Tests
pub mod Connect
pub mod Sample
pub mod Total
pub mod Ends
pub mod Compute
pub mod Instructions
pub mod Restore
use gwion.Prelude.{
  ℕ, zero, suc, ◌+◌, ◌-◌, ◌%◌, ◌^◌, Bool, true, false, ◌||◌, Option, none, some, ◌==◌,
  if◌then◌else◌, ltb, List, get_or,
}
use gwion.Vector.{VectorOps}

-- `compute`: the function that a UGen is computed by. `mono` alone is the one of a trigger.
pub data ComputeFunc : Type 0 where
  mono gen_mono gen_multi gen_mono_trig gen_multi_trig chan : ComputeFunc

-- Both arms of the unions: `from`, `to` and `size` are of `net`, `channel` and the counts are of `multi`;
-- `trig` is of `gen`, next to `ref`.
pub record UGen (V : Type 0) : Type 0 where
  pub compute : ComputeFunc
  pub from : V
  pub to : V
  pub size : ℕ
  pub channel : List ℕ
  pub n_in : ℕ
  pub n_out : ℕ
  pub n_chan : ℕ
  pub trig : Option ℕ
  pub ref : ℕ
  pub in_value : ℕ
  pub out : ℕ
  pub op : ℕ
  pub multi : Bool
  pub done : Bool

abbrev pub UGens : Type 0 → Type 0
UGens V = ℕ → UGen V

module _ {V : Type 0} where
  abbrev pub set_ugen : UGens V → ℕ → UGen V → UGens V
  set_ugen g u x a = if a == u then x else g a

  -- A channel, or the UGen itself if it is not `multi`.
  abbrev pub channel_of : UGens V → ℕ → (i : ℕ) → ℕ
  channel_of g u i = if (g u).multi then get_or (g u).channel i 0 else u

  module _ (vo : VectorOps V) where
    -- `describe_connect`: `func` on the two vectors, and the size.
    abbrev pub func_from : (func : V → ℕ → V) → UGens V → (lhs rhs : ℕ) → UGen V
    func_from func g lhs rhs = record (g rhs) { from = func (g rhs).from lhs }

    abbrev pub func_to : (func : V → ℕ → V) → UGens V → (lhs rhs : ℕ) → UGen V
    func_to func g lhs rhs = record (g lhs) { to = func (g lhs).to rhs }

    abbrev pub sized : UGens V → (rhs : ℕ) → UGen V
    sized g rhs = record (g rhs) { size = vo.size (g rhs).from % 2 ^ 16 }

    unfoldable pub onnect : (func : V → ℕ → V) → UGens V → (lhs rhs : ℕ) → UGens V
    onnect func g lhs rhs =
        let g1 = set_ugen g rhs (func_from func g lhs rhs) in
        let g2 = set_ugen g1 lhs (func_to func g1 lhs rhs) in set_ugen g2 rhs (sized g2 rhs)

    -- The rounds of `_do_` that are left: channel with channel, around the shorter side.
    unfoldable pub do_rounds :
        (func : V → ℕ → V) → UGens V → (lhs rhs l_max r_max : ℕ) → (rounds i : ℕ) → UGens V
    unfolding onnect
    do_rounds func g lhs rhs l_max r_max zero i = g
    do_rounds func g lhs rhs l_max r_max (suc rounds) i =
        do_rounds func (onnect func g (channel_of g lhs (i % l_max)) (channel_of g rhs (i % r_max)))
          lhs rhs l_max r_max rounds (i + 1)

    -- `none` is the assertion that the right side has an input, or the remainder by no output, which is
    -- undefined. So `do … while (++i < max)` makes `max` rounds.
    unfoldable pub do_ : (func : V → ℕ → V) → UGens V → (lhs rhs : ℕ) → Option (UGens V)
    do_ func g lhs rhs =
        let l_max = if (g lhs).multi then (g lhs).n_out else 1 in
        let r_max = if (g rhs).multi then (g rhs).n_in else 1 in
        let max = if ltb r_max l_max then l_max else r_max in
        if (r_max == 0) || (l_max == 0)
        then none
        else some (do_rounds func g lhs rhs l_max r_max max 0)

    unfoldable pub ugen_connect : UGens V → (lhs rhs : ℕ) → Option (UGens V)
    ugen_connect = do_ vo.add

    unfoldable pub ugen_disconnect : UGens V → (lhs rhs : ℕ) → Option (UGens V)
    ugen_disconnect = do_ vo.rem2
