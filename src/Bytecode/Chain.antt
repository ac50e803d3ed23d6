-- ===== src/Bytecode/Chain.antt =====
-- Moves that are merged (src/vm/vm_code.c).
use gwion.Prelude.{
  ℕ, zero, suc, ◌+◌, ◌-◌, ◌<◌, ◌≤◌, ◌≡◌, ◌≢◌, ◌⊎◌, inl, inr, refl, sym, ap, ◌∙◌, Bool, true, false,
  ◌==◌, arith, Bool-cases, ==→eq, ==→ne,
}
use gwion.Bytecode.{
  Opcode, Code, Instr, Pass, Moves, blank, is_noop, is_reg_move, merge_moves, store_move,
}
use Opcode.{reg_push_mem}
use gwion.Bytecode.Taken.{not_noop}
use gwion.Bytecode.Merge.{write_same, write_other, merge_moves-Merged}
use gwion.Bytecode.Blocks.{is_reg_push_mem, glued, is_glued, total, Block}
use Block.{chain}
use gwion.Bytecode.Stored.{merge_moves-total}
use gwion.Bytecode.Rewrite.{Reads, Rewrites, step-Rewrites}

move_no_push : (x : Opcode) → is_reg_move x ≡ true → is_reg_push_mem x ≡ false
move_no_push reg_push_mem e = absurd (cc)
move_no_push _ e = refl

pub moves-glued :
    (x y : Opcode) (b : Bool) → is_reg_move x ≡ true → is_reg_move y ≡ b → glued x y ≡ b
moves-glued x y true e e' = rw (e, e') refl
moves-glued x y false e e' = rw (e, e', move_no_push x e) refl

-- What a round at a move leaves.
store_move_code :
    (rest i : ℕ) (st : Pass)
    → let m =
        merge_moves rest i
          (record { code = st.code; nop = st.nop; j = 0; move = (st.code i).m_val }) in
      ((q : ℕ) → q ≢ i → (store_move rest i st).0.code q ≡ m.code q)
      × (((m.move ≡ 0) × (is_noop ((store_move rest i st).0.code i).opcode ≡ true))
          ⊎ (((store_move rest i st).0.code i).opcode ≡ (m.code i).opcode)
            × (((store_move rest i st).0.code i).m_val ≡ m.move))
unfolding store_move
store_move_code rest i st =
    let m =
      merge_moves rest i
        (record { code = st.code; nop = st.nop; j = 0; move = (st.code i).m_val }) in
    let x : Instr = record (m.code i) { m_val = m.move } in
    elim (Bool-cases (m.move == 0)) [
      | inl still ↦ rw still (
        λ q ne. write_other m.code i (blank x) q ne,
        inl (==→eq m.move 0 still, ap (λ y. is_noop y.opcode) (write_same m.code i (blank x))),
      )
      | inr moves ↦ rw moves (
        λ q ne. write_other m.code i x q ne,
        inr (ap (λ y. y.opcode) (write_same m.code i x), ap (λ y. y.m_val) (write_same m.code i x)),
      )
    ]

module _ (c : Code) (size i : ℕ) (st st' : Pass) (reads : Reads c i st) (room : i < size)
    (is_move : is_reg_move (st.code i).opcode ≡ true) (ends : is_glued c size ≡ false) where
  abbrev rest_of : ℕ
  rest_of = size - (i + 1)

  abbrev merged : Moves
  merged =
      merge_moves rest_of i
        (record { code = st.code; nop = st.nop; j = 0; move = (st.code i).m_val })

  -- As many moves were merged, up to one that is none, or the end.
  unfoldable pub Many : ℕ → Type 0
  Many d =
      (merged.j ≡ 0 + d)
      × (merged.move ≡ total c (suc i) (st.code i).m_val d)
      × ((suc i + d ≡ size) ⊎ (is_reg_move (c (suc i + d)).opcode ≡ false))

  pub many : (d : ℕ) × Many d
  unfolding Many
  many =
      let first : i + 0 + 1 ≡ suc i = omega arith in
      let m0 : Moves = record { code = st.code; nop = st.nop; j = 0; move = (st.code i).m_val } in
      let (d, j, move, end) =
        merge_moves-total rest_of i m0 c (λ p above. reads.later p (omega (arith, above))) in
      (
        d,
        (
          j,
          move ∙ ap (λ p. total c p (st.code i).m_val d) first,
          elim end [
            | inl all ↦ inl (omega (arith, all, room))
            | inr stop ↦ inr (ap (λ p. is_reg_move (c (p + d)).opcode) (sym first) ∙ stop)
          ],
        ),
      )

  here_c : st.code i ≡ c i
  here_c = elim reads.here [
    | inl (_, e) ↦ e
    | inr (_, _, g) ↦ let no = not_noop (st.code i).opcode is_move in absurd (cc)
  ]

  starts : is_glued c i ≡ false
  starts = elim reads.here [
    | inl (free, _) ↦ free
    | inr (_, _, g) ↦ let no = not_noop (st.code i).opcode is_move in absurd (cc)
  ]

  module _ (d : ℕ) (of : Many d) where
    moves_c : (t : ℕ) → i ≤ t → t < suc i + d → is_reg_move (c t).opcode ≡ true
    unfolding Many
    moves_c t from below =
        let r =
          merge_moves-Merged rest_of i
            (record { code = st.code; nop = st.nop; j = 0; move = (st.code i).m_val }) in
        let j = of.0 in
        elim (Bool-cases (t == i)) [
          | inl at_i ↦
              ap (λ n. is_reg_move (c n).opcode) (==→eq t i at_i)
              ∙ ap (λ x. is_reg_move x.opcode) (sym here_c)
              ∙ is_move
          | inr off ↦
              let ne = ==→ne t i off in
              ap (λ x. is_reg_move x.opcode) (sym (reads.later t (omega (arith, from, ne))))
              ∙ r.moves t (omega (arith, from, ne)) (omega (arith, below, j))
        ]

    glued_between : (t : ℕ) → i < t → t < suc i + d → is_glued c t ≡ true
    glued_between zero from below = absurd (omega (arith, from))
    glued_between (suc t) from below =
        moves-glued (c t).opcode (c (suc t)).opcode true
          (moves_c t (omega (arith, from)) (omega (arith, below)))
          (moves_c (suc t) (omega (arith, from)) below)

    free_after : is_glued c (suc i + d) ≡ false
    unfolding Many
    free_after = elim of.2 [
      | inl at_end ↦ ap (is_glued c) at_end ∙ ends
      | inr stop ↦
          let next : suc i + d ≡ suc (i + d) = omega arith in
          ap (is_glued c) next
          ∙ moves-glued (c (i + d)).opcode (c (suc (i + d))).opcode false
              (moves_c (i + d) (omega arith) (omega arith))
              (ap (λ n. is_reg_move (c n).opcode) (sym next) ∙ stop)
    ]

    pub merged-Rewrites :
        (Reads c (suc i + d) (store_move rest_of i st).0
          → Rewrites c size (suc i + d) (store_move rest_of i st).0 st')
        → suc i + d ≤ size
        → Rewrites c size i st st'
    unfolding Many
    merged-Rewrites rec within =
        let r =
          merge_moves-Merged rest_of i
            (record { code = st.code; nop = st.nop; j = 0; move = (st.code i).m_val }) in
        let st1 = (store_move rest_of i st).0 in
        let (off, at_i) = store_move_code rest_of i st in
        let (j, sum, _) = of in
        let kept_i = r.same i (omega arith) in
        let next_reads : Reads c (suc i + d) st1 = record {
          later = λ q above.
              off q (λ e. omega (arith, above, e))
              ∙ r.later q (omega (arith, above, j))
              ∙ reads.later q (omega (arith, above));
          here = inl (
            free_after,
            off (suc i + d) (λ e. omega (arith, e))
                ∙ r.later (suc i + d) (omega (arith, j))
                ∙ reads.later (suc i + d) (omega arith),
          );
        } in
        let rest = rec next_reads in
        let blank_at : (q : ℕ) → i < q → q < suc i + d → is_noop (st1.code q).opcode ≡ true =
          λ q from below.
            ap (λ x. is_noop x.opcode) (off q (λ e. omega (arith, from, e)))
            ∙ r.blanks q (omega (arith, from)) (omega (arith, below, j)) in
        let same_i = rest.before i (omega arith) in
        let total_c : merged.move ≡ total c (suc i) (c i).m_val d =
          sum ∙ ap (λ x. total c (suc i) x.m_val d) here_c in
        step-Rewrites c size i (suc i + d) st st1 st' (omega arith) rest
          (λ p below. off p (λ e. omega (arith, below, e)) ∙ r.same p (omega (arith, below)))
          (λ _. (
            suc i + d,
            omega arith,
            within,
            free_after,
            chain d (moves_c i (omega arith) (omega arith))
                (λ k below. moves_c (suc i + k) (omega arith) (omega (arith, below)))
                (λ k below.
                  ap (λ x. is_noop x.opcode) (rest.before (suc i + k) (omega (arith, below)))
                  ∙ blank_at (suc i + k) (omega arith) (omega (arith, below)))
                (elim at_i [
                  | inl (none_left, g) ↦
                      inl (sym total_c ∙ none_left, ap (λ x. is_noop x.opcode) same_i ∙ g)
                  | inr (op, val) ↦ inr (
                    ap (λ x. is_reg_move x.opcode) same_i
                        ∙ ap is_reg_move op
                        ∙ ap (λ x. is_reg_move x.opcode) kept_i
                        ∙ is_move,
                    ap (λ x. x.m_val) same_i ∙ val ∙ total_c,
                  )
                ]),
          ))
          (λ is. let free = starts in absurd (cc))
          (λ p from below. (glued_between p from below, blank_at p from below))
