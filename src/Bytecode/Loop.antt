-- ===== src/Bytecode/Loop.antt =====
-- The whole first loop (src/vm/vm_code.c).
use mathlib.Core.Path.{subst}
use gwion.Prelude.{
  ℕ, zero, suc, ◌+◌, ◌-◌, ◌<◌, ◌≤◌, ◌≡◌, inl, inr, refl, sym, ap, ◌∙◌, Bool, true, false, ltb,
  arith, Bool-cases, ltb→lt, ltb→le,
}
use gwion.Bytecode.{
  Opcode, Code, Pass, is_noop, is_reg_move, join_member, store_instr, store_move, end_unroll,
  first_pass,
}
use Opcode.{reg_move, reg_push_mem, vm_in}
use gwion.Bytecode.Round.{is_vm_in}
use gwion.Bytecode.Taken.{store_move_bound}
use gwion.Bytecode.Blocks.{glued, is_glued}
use gwion.Bytecode.Stored.{joined-glued}
use gwion.Bytecode.Rewrite.{Reads, Rewrites, plain-Rewrites, join-Rewrites}
use gwion.Bytecode.Chain.{Many, many, merged-Rewrites}

end-Rewrites : (c : Code) (size i : ℕ) (st : Pass) → size ≤ i → Rewrites c size i st st
end-Rewrites c size i st over = record {
  before = λ p below. refl;
  inside = λ p from to is. absurd (omega (arith, over, from, to));
  blocks = λ p from to free. absurd (omega (arith, over, from, to));
}

module _ (fuel size : ℕ) (c : Code) (ends : is_glued c size ≡ false)
    (no_vm_in : (p : ℕ) → is_vm_in (c p).opcode ≡ false)
    (rec : (i : ℕ) (st : Pass)
      → i ≤ size
      → size - i ≤ fuel
      → Reads c i st
      → Rewrites c size i st (first_pass fuel size i st))
    (i : ℕ) (st : Pass) (room : i < size) (enough : size - i ≤ suc fuel)
    (reads : Reads c i st) where
  rec_next :
      (st1 : Pass)
      → Reads c (suc i) st1
      → Rewrites c size (suc i) st1 (first_pass fuel size (i + 1) st1)
  rec_next st1 next_reads =
      let e : suc i ≡ i + 1 = omega arith in
      subst (λ n. Rewrites c size (suc i) st1 (first_pass fuel size n st1)) e
        (rec (suc i) st1 (omega (arith, room)) (omega (arith, enough, room)) next_reads)

  plain_then :
      ((y : Opcode) → glued (st.code i).opcode y ≡ false)
      → Rewrites c size i st (first_pass fuel size (i + 1) (store_instr i st))
  plain_then alone =
      plain-Rewrites c size i st (first_pass fuel size (i + 1) (store_instr i st)) reads room
        (elim reads.here [
          | inl (_, e) ↦
              ap (λ x. glued x.opcode (c (suc i)).opcode) (sym e) ∙ alone (c (suc i)).opcode
          | inr (_, dot, _) ↦ joined-glued (c i).opcode (c (suc i)).opcode dot
        ])
        (rec_next (store_instr i st))

  move_then :
      is_reg_move (st.code i).opcode ≡ true
      → Rewrites c size i st (
          first_pass fuel size
            (i + (store_move (size - (i + 1)) i st).1 + 1)
            (store_move (size - (i + 1)) i st).0)
  unfolding store_move Many
  move_then is_move =
      let st1 = (store_move (size - (i + 1)) i st).0 in
      let i1 = i + (store_move (size - (i + 1)) i st).1 + 1 in
      let st' = first_pass fuel size i1 st1 in
      let (d, of) = many c size i st st' reads room is_move ends in
      let bound = store_move_bound st (size - (i + 1)) i in
      let j = of.0 in
      let place : suc i + d ≡ i1 = omega (arith, j) in
      let within : suc i + d ≤ size = omega (arith, place, bound, room) in
      merged-Rewrites c size i st st' reads room is_move ends d of
        (λ next_reads.
          subst (λ n. Rewrites c size (suc i + d) st1 (first_pass fuel size n st1)) place
            (rec (suc i + d) st1 within (omega (arith, enough, within)) next_reads))
        within

  by_opcode :
      (op : Opcode)
      → (st.code i).opcode ≡ op
      → Rewrites c size i st (elim op [
        | reg_move ↦
            first_pass fuel size
              (i + (store_move (size - (i + 1)) i st).1 + 1)
              (store_move (size - (i + 1)) i st).0
        | reg_push_mem ↦
            first_pass fuel size
              (i + 1)
              (store_instr i (record st { code = join_member i st.code }))
        | vm_in ↦ first_pass fuel size (i + 1) (end_unroll i st)
        | _ ↦ first_pass fuel size (i + 1) (store_instr i st)
      ])
  by_opcode reg_move e = move_then (ap is_reg_move e)
  by_opcode reg_push_mem e =
      let st1 = store_instr i (record st { code = join_member i st.code }) in
      join-Rewrites c size i st (first_pass fuel size (i + 1) st1) reads room e ends (rec_next st1)
  by_opcode vm_in e = elim reads.here [
    | inl (_, same_i) ↦
        let never = no_vm_in i in
        let is = ap (λ x. is_vm_in x.opcode) (sym same_i) ∙ ap is_vm_in e in absurd (cc)
    | inr (_, _, g) ↦ let no = ap is_noop e in absurd (cc)
  ]
  by_opcode _ e = plain_then (λ y. ap (λ op. glued op y) e)

first_pass-Rewrites :
    (size : ℕ) (c : Code)
    → is_glued c size ≡ false
    → ((p : ℕ) → is_vm_in (c p).opcode ≡ false)
    → (fuel i : ℕ) (st : Pass) → i ≤ size
    → size - i ≤ fuel
    → Reads c i st
    → Rewrites c size i st (first_pass fuel size i st)
unfolding first_pass
first_pass-Rewrites size c ends no_vm_in zero i st within enough reads =
    end-Rewrites c size i st (omega (arith, within, enough))
first_pass-Rewrites size c ends no_vm_in (suc fuel) i st within enough reads =
    let next = λ (b : Bool). elim b as (λ b. Pass) [
      | false ↦ st
      | true ↦ elim (st.code i).opcode [
        | reg_move ↦
            first_pass fuel size (i + (store_move (size - (i + 1)) i st).1 + 1)
              (store_move (size - (i + 1)) i st).0
        | reg_push_mem ↦
            first_pass fuel size (i + 1)
              (store_instr i (record st { code = join_member i st.code }))
        | vm_in ↦ first_pass fuel size (i + 1) (end_unroll i st)
        | _ ↦ first_pass fuel size (i + 1) (store_instr i st)
      ]
    ] in
    elim (Bool-cases (ltb i size)) [
      | inr over ↦
          subst (λ b. Rewrites c size i st (next b)) (sym over)
            (end-Rewrites c size i st (ltb→le i size over))
      | inl room ↦
          subst (λ b. Rewrites c size i st (next b)) (sym room)
            (by_opcode fuel size c ends no_vm_in (first_pass-Rewrites size c ends no_vm_in fuel) i
              st (ltb→lt i size room) enough reads (st.code i).opcode refl)
    ]

-- From the start, every instruction that a run can be taken up at starts a block.
pub first_pass-blocks :
    (size : ℕ) (c : Code)
    → is_glued c size ≡ false
    → ((p : ℕ) → is_vm_in (c p).opcode ≡ false)
    → (st : Pass) → st.code ≡ c
    → Rewrites c size 0 st (first_pass size size 0 st)
first_pass-blocks size c ends no_vm_in st e =
    first_pass-Rewrites size c ends no_vm_in size 0 st (omega arith) (omega arith)
      (record { later = λ q above. ap (λ f. f q) e; here = inl (refl, ap (λ f. f 0) e) })
