-- ===== src/Bytecode/Rewrite.antt =====
-- The rounds of the first loop rewrite blocks of instructions (src/vm/vm_code.c).
use mathlib.Core.Path.{subst}
use gwion.Prelude.{
  ℕ, suc, ◌+◌, ◌<◌, ◌≤◌, ◌≡◌, ◌⊎◌, inl, inr, refl, sym, ap, ◌∙◌, true, false, Option, none, some,
  ◌==◌, ltb, arith, Bool-cases, ==→eq, ==→ne, ltb→lt, ltb→le,
}
use gwion.Bytecode.{Opcode, Code, Pass, is_noop, joined, join_member, store_instr}
use Opcode.{reg_push_mem}
use gwion.Bytecode.Blocks.{is_reg_push_mem, is_some, is_glued, Block}
use Block.{same, blanked, no_jump, join}
use gwion.Bytecode.Stored.{
  joined-glued, joined_stays, Stored, store_instr-Stored, join_member-none, join_member-some,
}
use Stored.{kept, gone, near}

-- What a round at `i` meets: the instructions behind are as they were, and so is this one, unless it was joined.
pub record Reads (c : Code) (i : ℕ) (st : Pass) : Type 0 where
  pub later : (q : ℕ) → i < q → st.code q ≡ c q
  pub here :
      ((is_glued c i ≡ false) × (st.code i ≡ c i))
      ⊎ ((is_glued c i ≡ true)
          × (is_some (joined (c i).opcode) ≡ true)
          × (is_noop (st.code i).opcode ≡ true))

-- A block that starts at `p`.
abbrev pub BlockAt : (c : Code) (size p : ℕ) → Code → Type 0
BlockAt c size p c' = (q : ℕ) × (p < q) × (q ≤ size) × (is_glued c q ≡ false) × Block c c' p q

-- What the rounds from `i` on make of the code.
pub record Rewrites (c : Code) (size i : ℕ) (st st' : Pass) : Type 0 where
  pub before : (p : ℕ) → p < i → st'.code p ≡ st.code p
  pub inside : (p : ℕ) → i ≤ p → p < size → is_glued c p ≡ true → is_noop (st'.code p).opcode ≡ true
  pub blocks : (p : ℕ) → i ≤ p → p < size → is_glued c p ≡ false → BlockAt c size p st'.code

module _ (c : Code) (size i i1 : ℕ) (st st1 st' : Pass) (up : i < i1)
    (rest : Rewrites c size i1 st1 st') where
  pub step-Rewrites :
      ((p : ℕ) → p < i → st1.code p ≡ st.code p)
      → (is_glued c i ≡ false → BlockAt c size i st'.code)
      → (is_glued c i ≡ true → is_noop (st1.code i).opcode ≡ true)
      → ((p : ℕ) → i < p → p < i1 → (is_glued c p ≡ true) × (is_noop (st1.code p).opcode ≡ true))
      → Rewrites c size i st st'
  step-Rewrites same_before first glued_here skipped = record {
    before = λ p below. rest.before p (omega (arith, below, up)) ∙ same_before p below;
    inside = λ p from to is. elim (Bool-cases (ltb p i1)) [
      | inr far ↦ rest.inside p (ltb→le p i1 far) to is
      | inl close ↦
          let below = ltb→lt p i1 close in
          ap (λ x. is_noop x.opcode) (rest.before p below) ∙ elim (Bool-cases (p == i)) [
            | inl at_i ↦
                let e = ==→eq p i at_i in
                ap (λ n. is_noop (st1.code n).opcode) e ∙ glued_here (ap (is_glued c) (sym e) ∙ is)
            | inr off ↦ let ne = ==→ne p i off in (skipped p (omega (arith, from, ne)) below).1
          ]
    ];
    blocks = λ p from to free. elim (Bool-cases (ltb p i1)) [
      | inr far ↦ rest.blocks p (ltb→le p i1 far) to free
      | inl close ↦
          let below = ltb→lt p i1 close in
          elim (Bool-cases (p == i)) [
            | inl at_i ↦
                let e = ==→eq p i at_i in
                subst (λ n. BlockAt c size n st'.code) (sym e)
                  (first (ap (is_glued c) (sym e) ∙ free))
            | inr off ↦
                let ne = ==→ne p i off in
                let is = (skipped p (omega (arith, from, ne)) below).0 in absurd (cc)
          ]
    ];
  }

-- A round that stores an instruction, which is not made one with the next.
pub plain-Rewrites :
    (c : Code) (size i : ℕ) (st st' : Pass)
    → Reads c i st
    → i < size
    → is_glued c (suc i) ≡ false
    → (Reads c (suc i) (store_instr i st) → Rewrites c size (suc i) (store_instr i st) st')
    → Rewrites c size i st st'
plain-Rewrites c size i st st' reads room free rec =
    let st1 = store_instr i st in
    let (others, stored) = store_instr-Stored st i in
    let next_reads : Reads c (suc i) st1 = record {
      later =
          λ q above. others q (λ e. omega (arith, above, e)) ∙ reads.later q (omega (arith, above));
      here = inl (free, others (suc i) (λ e. omega (arith, e)) ∙ reads.later (suc i) (omega arith));
    } in
    let rest = rec next_reads in
    let at_i : st'.code i ≡ st1.code i = rest.before i (omega arith) in
    let noop_i = ap (λ x. is_noop x.opcode) at_i in
    step-Rewrites c size i (suc i) st st1 st' (omega arith) rest
      (λ p below. others p (λ e. omega (arith, below, e)))
      (λ start. elim reads.here [
        | inr (is, _, _) ↦ absurd (cc)
        | inl (_, e) ↦ (
          suc i,
          omega arith,
          omega (arith, room),
          free,
          elim stored [
            | kept k ↦ same (at_i ∙ k ∙ e)
            | gone g g1 ↦ blanked (ap (λ x. is_noop x.opcode) (sym e) ∙ g) (noop_i ∙ g1)
            | near jump val g1 ↦
                no_jump (ap (λ x. x.opcode) (sym e) ∙ jump) (ap (λ x. x.m_val) (sym e) ∙ val)
                  (noop_i ∙ g1)
          ],
        )
      ])
      (λ is. elim reads.here [
        | inl (start, _) ↦ absurd (cc)
        | inr (_, _, g) ↦ elim stored [
          | kept k ↦ ap (λ x. is_noop x.opcode) k ∙ g
          | gone _ g1 ↦ g1
          | near _ _ g1 ↦ g1
        ]
      ])
      (λ p from to. absurd (omega (arith, from, to)))

-- A round at a push.
module _ (c : Code) (size i : ℕ) (st st' : Pass) (reads : Reads c i st) (room : i < size)
    (push : (st.code i).opcode ≡ reg_push_mem) (ends : is_glued c size ≡ false) where
  abbrev joined_st : Code → Pass
  joined_st code = record st { code = code }

  abbrev Rec : Code → Type 0
  Rec code =
      Reads c (suc i) (store_instr i (joined_st code))
      → Rewrites c size (suc i) (store_instr i (joined_st code)) st'

  as_it_was : (is_glued c i ≡ false) × (st.code i ≡ c i)
  as_it_was = elim reads.here [
    | inl both ↦ both
    | inr (_, _, g) ↦ let no = ap is_noop push in absurd (cc)
  ]

  push_c : (c i).opcode ≡ reg_push_mem
  push_c = ap (λ x. x.opcode) (sym as_it_was.1) ∙ push

  not_joined :
      joined (c (suc i)).opcode ≡ none → Rec (join_member i st.code) → Rewrites c size i st st'
  not_joined e rec =
      let next : i + 1 ≡ suc i = omega arith in
      let e0 : joined (st.code (i + 1)).opcode ≡ none =
        ap (λ n. joined (st.code n).opcode) next
        ∙ ap (λ x. joined x.opcode) (reads.later (suc i) (omega arith))
        ∙ e in
      let free : is_glued c (suc i) ≡ false = rw (push_c, e) refl in
      plain-Rewrites c size i st st' reads room free (subst Rec (join_member-none i st.code e0) rec)

  was_joined :
      (op : Opcode)
      → joined (c (suc i)).opcode ≡ some op
      → Rec (join_member i st.code)
      → Rewrites c size i st st'
  was_joined op e rec =
      let st0 = joined_st (join_member i st.code) in
      let st1 = store_instr i st0 in
      let behind = reads.later (suc i) (omega arith) in
      let (one, none_left, off) =
        join_member-some i st.code op (ap (λ x. joined x.opcode) behind ∙ e) in
      let (others, stored) = store_instr-Stored st0 i in
      let (stays, no_goto, _) = joined_stays (c (suc i)).opcode op e in
      let stored_one : st1.code i ≡ st0.code i = elim stored [
        | kept k ↦ k
        | gone g _ ↦ let h = ap (λ x. is_noop x.opcode) (sym one) ∙ g in absurd (cc)
        | near jump _ _ ↦ absurd (no_goto (ap (λ x. x.opcode) (sym one) ∙ jump))
      ] in
      let is : is_glued c (suc i) ≡ true = rw (push_c, e) refl in
      let is_dot : is_some (joined (c (suc i)).opcode) ≡ true = ap is_some e in
      let inner : suc i < size = elim (Bool-cases (suc i == size)) [
        | inl last ↦ let at_end = ap (is_glued c) (==→eq (suc i) size last) in absurd (cc)
        | inr not_last ↦ let ne = ==→ne (suc i) size not_last in omega (arith, room, ne)
      ] in
      let next_reads : Reads c (suc i) st1 = record {
        later = λ q above.
            others q (λ h. omega (arith, above, h))
            ∙ off q (λ h. omega (arith, above, h)) (λ h. omega (arith, above, h))
            ∙ reads.later q (omega (arith, above));
        here = inr (
          is,
          is_dot,
          ap (λ x. is_noop x.opcode) (others (suc i) (λ h. omega (arith, h))) ∙ none_left,
        );
      } in
      let rest = rec next_reads in
      let whole : st'.code i
          ≡ record { opcode = op; m_val = (c (suc i)).m_val; m_val2 = (c i).m_val } =
        rest.before i (omega arith)
        ∙ stored_one
        ∙ one
        ∙ ap (λ x. record { opcode = op; m_val = x.m_val; m_val2 = (st.code i).m_val }) behind
        ∙ ap (λ x. record { opcode = op; m_val = (c (suc i)).m_val; m_val2 = x.m_val })
            as_it_was.1 in
      let start = as_it_was.0 in
      step-Rewrites c size i (suc i) st st1 st' (omega arith) rest
        (λ p below.
          others p (λ h. omega (arith, below, h))
          ∙ off p (λ h. omega (arith, below, h)) (λ h. omega (arith, below, h)))
        (λ _. (
          suc (suc i),
          omega arith,
          omega (arith, inner),
          joined-glued (c (suc i)).opcode (c (suc (suc i))).opcode is_dot,
          join op (ap is_reg_push_mem push_c) e whole (rest.inside (suc i) (omega arith) inner is),
        ))
        (λ is_i. absurd (cc)) (λ p from to. absurd (omega (arith, from, to)))

  pub join-Rewrites : Rec (join_member i st.code) → Rewrites c size i st st'
  join-Rewrites rec = pick (joined (c (suc i)).opcode) refl
    where
      pick : (o : Option Opcode) → joined (c (suc i)).opcode ≡ o → Rewrites c size i st st'
      pick none e = not_joined e rec
      pick (some op) e = was_joined op e rec
