-- ===== src/Ugen/Tests.antt =====
-- A stereo unit generator on one of a single channel, two that feed each other, and the theorems at them
-- (src/lib/ugen.c).
use mathlib.Core.Option
use gwion.Prelude.{
  erase, ℕ, ◌+◌, ◌-◌, ◌*◌, ◌≡◌, refl, ◌∙◌, false, Option, none, some, List, [], ◌∷◌, arith, ◌==◌,
  leb, ltb, if◌then◌else◌,
}
use gwion.Word.{word}
use gwion.Vector.{list_ops, list_laws}
use gwion.FloatVm.{FloatBits}
use gwion.Ugen.{
  UGen, UGens, ComputeFunc, set_ugen, onnect, do_rounds, do_, ugen_connect, ugen_disconnect,
}
use ComputeFunc.{gen_mono, gen_multi, chan}
use gwion.Ugen.Instructions.{
  new_ugen, set_op, set_ops, ugen_set_op, ugen_channel, UgenResult, release_mono, release_from,
  release_to, trig_instr,
}
use UgenResult.{non_trigger_exception, invalid_channel_request}
use gwion.Ugen.Compute.{
  compute, compute_by, compute_mono, compute_multi, compute_from, compute_channels, with_tick,
  dispatch,
}
use gwion.Ugen.Wiring.{RemoveLaws, set_kept, times}
use gwion.Ugen.Connect.{feeds, fed, IsWired}
use gwion.Ugen.Restore.{connect-IsWired, ugen_disconnect-ugen_connect}
use gwion.Ugen.Ends.{Grows}
use gwion.Ugen.Total.{IsPatch, Ends}
use gwion.Ugen.Sample.{compute-Ends}

abbrev plain : UGen (List ℕ)
plain = record {
  compute = gen_mono;
  from = [];
  to = [];
  size = 0;
  channel = [];
  n_in = 0;
  n_out = 0;
  n_chan = 0;
  trig = none;
  ref = 0;
  in_value = 0;
  out = 0;
  op = 0;
  multi = false;
  done = false;
}

is_new : new_ugen list_ops ≡ plain
unfolding new_ugen
is_new = refl

-- 1 is stereo, its channels are 2 and 3; there is nothing from 4 on.
abbrev desk : UGens (List ℕ)
desk u = record plain {
  compute =
      if u == 1 then gen_multi else if u == 2 then chan else if u == 3 then chan else gen_mono;
  channel = if u == 1 then 2 ∷ 3 ∷ [] else [];
  n_in = 2;
  n_out = 2;
  n_chan = 2;
  multi = u == 1;
  ref = 1;
  done = leb 4 u;
}

list_removes : RemoveLaws list_ops list_laws
list_removes = record { items-remove = λ v x. refl }

both_channels :
    Option.map (λ (g : UGens (List ℕ)). (g 0).from) (ugen_connect list_ops desk 1 0)
    ≡ some (2 ∷ 3 ∷ [])
unfolding ugen_connect do_ do_rounds onnect
both_channels = refl

desk-IsWired : IsWired list_laws desk
unfolding feeds fed times
desk-IsWired = record { ends = λ l r. refl; sizes = λ u. refl }

connect-IsWired_example :
    (g1 : UGens (List ℕ)) × (g2 : UGens (List ℕ)) × (ugen_connect list_ops desk 1 0 ≡ some g1)
    × IsWired list_laws g1
    × (ugen_disconnect list_ops desk 1 0 ≡ some g2)
    × IsWired list_laws g2
connect-IsWired_example =
    connect-IsWired list_ops list_laws list_removes desk 1 0 (omega arith, omega arith) desk-IsWired

ugen_disconnect-ugen_connect_example :
    (g1 : UGens (List ℕ)) × (g2 : UGens (List ℕ)) × (ugen_connect list_ops desk 1 0 ≡ some g1)
    × (ugen_disconnect list_ops g1 1 0 ≡ some g2)
    × ((l r : ℕ) → feeds list_laws g2 l r ≡ feeds list_laws desk l r)
ugen_disconnect-ugen_connect_example =
    ugen_disconnect-ugen_connect list_ops list_laws list_removes desk 1 0 (omega arith, omega arith)

-- The operators of the channels follow.
set_op_channels : (ugen_set_op desk 1 3).0 3 ≡ record (desk 3) { op = 2 }
unfolding ugen_set_op set_op set_ops
set_op_channels = refl

no_fourth_channel : ugen_channel desk 1 false 4 ≡ invalid_channel_request
unfolding ugen_channel
no_fourth_channel = refl

no_trigger : trig_instr list_ops list_ops.add desk 1 0 ≡ non_trigger_exception
unfolding trig_instr
no_trigger = refl

-- Taken apart, a UGen is nobody's source.
released : (release_mono list_ops (onnect list_ops list_ops.add desk 3 0) 3 0).from ≡ []
unfolding release_mono release_from release_to onnect erase
released = refl

abbrev whole : FloatBits
whole = record {
  add = ◌+◌;
  sub = ◌-◌;
  mul = ◌*◌;
  div = ◌*◌;
  neg = λ a. a;
  is_zero = λ a. a == 0;
  eq = ◌==◌;
  lt = ltb;
  le = leb;
  of_int = λ a. a;
  to_int = word;
}

-- A plug-in that adds one to its input.
abbrev plus_one : UGens (List ℕ) → ℕ → UGens (List ℕ)
plus_one g u = set_ugen g u (record (g u) { out = (g u).in_value + 1 })

plus_one-Grows : (g : UGens (List ℕ)) (u : ℕ) → Grows g (plus_one g u)
plus_one-Grows g u = record {
  done = λ a d. set_kept (λ t. t.done) g u (record (g u) { out = (g u).in_value + 1 }) a refl ∙ d;
  compute = λ a. set_kept (λ t. t.compute) g u (record (g u) { out = (g u).in_value + 1 }) a refl;
  ref = λ a. set_kept (λ t. t.ref) g u (record (g u) { out = (g u).in_value + 1 }) a refl;
}

-- The stereo UGen feeds 0, which feeds its first channel.
abbrev circle : UGens (List ℕ)
circle u = record (desk u) {
  from = if u == 0 then 2 ∷ 3 ∷ [] else if u == 2 then 0 ∷ [] else [];
  size = if u == 0 then 2 else if u == 2 then 1 else 0;
}

circle_out : Option (UGens (List ℕ)) → ℕ
circle_out none = 0
circle_out (some g) = (g 0).out

circle_computed : circle_out (compute list_ops whole plus_one 9 circle 0) ≡ 1
unfolding circle_out compute compute_by compute_mono compute_multi compute_from compute_channels
    with_tick dispatch
circle_computed = refl

circle-IsPatch : IsPatch 4 circle
circle-IsPatch = record { bounded = λ a below. ground (arith, below); refs = λ a c. refl }

compute-Ends_example : Ends (compute list_ops whole plus_one 9 circle 0) circle
compute-Ends_example =
    compute-Ends list_ops whole plus_one plus_one-Grows 4 9 circle 0 circle-IsPatch refl
      (omega arith)
