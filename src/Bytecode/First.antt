-- ===== src/Bytecode/First.antt =====
-- The first loop of `tobytecode` on code without unrolled loops (src/vm/vm_code.c).
use mathlib.Core.Path.{subst}
use gwion.Prelude.{
  ℕ, zero, suc, ◌+◌, ◌-◌, ◌<◌, ◌≤◌, ◌≡◌, inl, inr, refl, sym, ap, Bool, true, false, [], ltb, arith,
  Bool-cases, ltb→lt, ltb→le,
}
use gwion.Bytecode.{
  Opcode, Code, Slot, Pass, is_reg_move, join_member, store_instr, store_move, end_unroll,
  first_pass,
}
use Opcode.{reg_move, reg_push_mem, vm_in}
use gwion.Bytecode.Noops.{noops}
use gwion.Bytecode.Round.{Round, is_vm_in, store_instr-Round}
use gwion.Bytecode.Taken.{join-Round, store_move-Round, store_move_bound}
use gwion.Bytecode.Passed.{Good, Passed, next-Good, end-Passed, step-Passed}

module _ (fuel size i : ℕ) (c : Code) (st : Pass) (below : i ≤ size) (g : Good c i st)
    (rec : (i1 : ℕ) (st1 : Pass)
      → i < i1
      → i1 ≤ size
      → Good c i1 st1
      → Passed c size i1 st1 (first_pass fuel size i1 st1)) where
  round_then :
      (i1 : ℕ) (st1 : Pass)
      → i1 ≤ size
      → Round st st1 i i1
      → Passed c size i st (first_pass fuel size i1 st1)
  round_then i1 st1 to r =
      step-Passed c size i i1 st st1 (first_pass fuel size i1 st1) g r
        (rec i1 st1 r.forward to (next-Good r g))

  plain_then : i < size → Passed c size i st (first_pass fuel size (i + 1) (store_instr i st))
  plain_then room =
      let e : suc i ≡ i + 1 = omega arith in
      subst (λ n. Passed c size i st (first_pass fuel size n (store_instr i st))) e
        (round_then (suc i) (store_instr i st) (omega (arith, room)) (store_instr-Round st i))

  by_opcode :
      (op : Opcode)
      → (st.code i).opcode ≡ op
      → i < size
      → Passed c size i st (elim op [
        | reg_move ↦
            first_pass fuel size
              (i + (store_move (size - (i + 1)) i st).1 + 1)
              (store_move (size - (i + 1)) i st).0
        | reg_push_mem ↦
            first_pass fuel size
              (i + 1)
              (store_instr i (record st { code = join_member i st.code }))
        | vm_in ↦ first_pass fuel size (i + 1) (end_unroll i st)
        | _ ↦ first_pass fuel size (i + 1) (store_instr i st)
      ])
  by_opcode reg_move e room =
      let bound = store_move_bound st (size - (i + 1)) i in
      round_then (i + (store_move (size - (i + 1)) i st).1 + 1) (store_move (size - (i + 1)) i st).0
        (omega (arith, room, bound)) (store_move-Round st (size - (i + 1)) i (ap is_reg_move e))
  by_opcode reg_push_mem e room =
      let st1 = store_instr i (record st { code = join_member i st.code }) in
      let next : suc i ≡ i + 1 = omega arith in
      subst (λ n. Passed c size i st (first_pass fuel size n st1)) next
        (round_then (suc i) st1 (omega (arith, room)) (join-Round st i))
  by_opcode vm_in e room =
      let never = g.no_vm_in i (omega arith) in let is = ap is_vm_in e in absurd (cc)
  by_opcode _ e room = plain_then room

pub first_pass-Passed :
    (fuel size i : ℕ) (c : Code) (st : Pass)
    → i ≤ size
    → size - i ≤ fuel
    → Good c i st
    → Passed c size i st (first_pass fuel size i st)
unfolding first_pass
first_pass-Passed zero size i c st below enough g =
    end-Passed c size i st (omega (arith, below, enough)) below g
first_pass-Passed (suc fuel) size i c st below enough g =
    let next = λ (b : Bool). elim b as (λ b. Pass) [
      | false ↦ st
      | true ↦ elim (st.code i).opcode [
        | reg_move ↦
            first_pass fuel size (i + (store_move (size - (i + 1)) i st).1 + 1)
              (store_move (size - (i + 1)) i st).0
        | reg_push_mem ↦
            first_pass fuel size (i + 1)
              (store_instr i (record st { code = join_member i st.code }))
        | vm_in ↦ first_pass fuel size (i + 1) (end_unroll i st)
        | _ ↦ first_pass fuel size (i + 1) (store_instr i st)
      ]
    ] in
    elim (Bool-cases (ltb i size)) [
      | inr over ↦
          subst (λ b. Passed c size i st (next b)) (sym over)
            (end-Passed c size i st (ltb→le i size over) below g)
      | inl room ↦
          subst (λ b. Passed c size i st (next b)) (sym room)
            (by_opcode fuel size i c st below g
              (λ i1 st1 above to good.
                first_pass-Passed fuel size i1 c st1 to (omega (arith, above, enough)) good)
              (st.code i).opcode refl (ltb→lt i size room))
    ]

-- From the start.
pub first_pass_lem :
    (size : ℕ) (c : Code) (bytes : ℕ → Slot)
    → ((p : ℕ) → is_vm_in (c p).opcode ≡ false)
    → Passed c size 0
        (record { code = c; nop = []; bytes = bytes })
        (first_pass size size 0 (record { code = c; nop = []; bytes = bytes }))
unfolding noops
first_pass_lem size c bytes no_vm_in =
    first_pass-Passed size size 0 c (record { code = c; nop = []; bytes = bytes }) (omega arith)
      (omega arith)
      (record {
        before = tt;
        count = refl;
        moves_only = λ p above h. h;
        no_vm_in = λ p above. no_vm_in p;
      })
