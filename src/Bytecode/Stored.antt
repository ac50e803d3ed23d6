-- ===== src/Bytecode/Stored.antt =====
-- Merging, joining and storing, as far as the instructions that are left show it (src/vm/vm_code.c).
use mathlib.Core.Option.{none-ne-some, some-injective}
use gwion.Prelude.{
  ℕ, zero, suc, ◌+◌, ◌%◌, ◌≤◌, ◌≡◌, ◌≢◌, ◌⊎◌, inl, inr, refl, sym, ap, ◌∙◌, true, false, none, some,
  ◌++◌, [], ◌∷◌, ◌==◌, if◌then◌else◌, arith, Bool-cases, ==→eq,
}
use gwion.Word.{word_mod}
use gwion.Bytecode.{
  Opcode, Code, Instr, Pass, Moves, write, blank, is_noop, is_reg_move, isgoto, joined, merge_moves,
  join_member, store_instr,
}
use Opcode.{
  noop, reg_move, dot_member, dot_member2, dot_member4, dot_member_mem, dot_member_mem2,
  dot_member_mem4, goto,
}
use gwion.Bytecode.Merge.{write_same, write_other, take_move}
use gwion.Bytecode.Round.{slot_of}
use gwion.Bytecode.Blocks.{is_some, glued, total}

-- What follows a joined access is not made one with it.
pub joined-glued : (x y : Opcode) → is_some (joined x) ≡ true → glued x y ≡ false
joined-glued dot_member y e = refl
joined-glued dot_member2 y e = refl
joined-glued dot_member4 y e = refl
joined-glued _ y e = absurd (cc)

pub noop_no_jump : (x : Opcode) → is_noop x ≡ true → isgoto x ≡ false
noop_no_jump noop e = refl
noop_no_jump _ e = absurd (cc)

pub move_no_jump : (x : Opcode) → is_reg_move x ≡ true → isgoto x ≡ false
move_no_jump reg_move e = refl
move_no_jump _ e = absurd (cc)

pub joined_stays :
    (x op : Opcode) → joined x ≡ some op → (is_noop op ≡ false) × (op ≢ goto) × (isgoto op ≡ false)
joined_stays dot_member op e =
    let e' = some-injective dot_member_mem op e in
    (ap is_noop (sym e'), λ h. (let f = e' ∙ h in absurd (cc)), ap isgoto (sym e'))
joined_stays dot_member2 op e =
    let e' = some-injective dot_member_mem2 op e in
    (ap is_noop (sym e'), λ h. (let f = e' ∙ h in absurd (cc)), ap isgoto (sym e'))
joined_stays dot_member4 op e =
    let e' = some-injective dot_member_mem4 op e in
    (ap is_noop (sym e'), λ h. (let f = e' ∙ h in absurd (cc)), ap isgoto (sym e'))
joined_stays _ op e = absurd (none-ne-some op e)

-- What the end of a round leaves of the instruction at `i`.
pub data Stored (st st1 : Pass) (i : ℕ) : Type 0 where
  kept : st1.code i ≡ st.code i → Stored st st1 i
  gone : is_noop (st.code i).opcode ≡ true → is_noop (st1.code i).opcode ≡ true → Stored st st1 i
  near :
      (st.code i).opcode ≡ goto
      → (st.code i).m_val ≡ suc i
      → is_noop (st1.code i).opcode ≡ true
      → Stored st st1 i

pub store_instr-Stored :
    (st : Pass) (i : ℕ)
    → ((q : ℕ) → q ≢ i → (store_instr i st).code q ≡ st.code q) × Stored st (store_instr i st) i
unfolding store_instr
store_instr-Stored st i = pick (st.code i).opcode refl
  where
    full : Pass
    full = record st { bytes = write st.bytes i (slot_of (st.code i) i) }

    less : Pass
    less = record st { code = write st.code i (blank (st.code i)); nop = st.nop ++ i ∷ [] }

    Result : Pass → Type 0
    Result st1 = ((q : ℕ) → q ≢ i → st1.code q ≡ st.code q) × Stored st st1 i

    others : (q : ℕ) → q ≢ i → less.code q ≡ st.code q
    others q ne = write_other st.code i (blank (st.code i)) q ne

    blank_there : is_noop (less.code i).opcode ≡ true
    blank_there = ap (λ x. is_noop x.opcode) (write_same st.code i (blank (st.code i)))

    stays : Result full
    stays = (λ q ne. refl, kept refl)

    pick :
        (op : Opcode)
        → (st.code i).opcode ≡ op
        → Result (elim op [
          | goto ↦ if (st.code i).m_val == i + 1 then less else full
          | noop ↦ less
          | _ ↦ full
        ])
    pick goto e = elim (Bool-cases ((st.code i).m_val == i + 1)) [
      | inl here ↦
          let next : i + 1 ≡ suc i = omega arith in
          rw here (others, near e (==→eq (st.code i).m_val (i + 1) here ∙ next) blank_there)
      | inr there ↦ rw there stays
    ]
    pick noop e = (others, gone (ap is_noop e) blank_there)
    pick _ e = stays

-- Joining, when the next instruction cannot be joined, and when it can.
pub join_member-none :
    (i : ℕ) (code : Code) → joined (code (i + 1)).opcode ≡ none → join_member i code ≡ code
unfolding join_member
join_member-none i code e = rw (e, join_member) refl

pub join_member-some :
    (i : ℕ) (code : Code) (op : Opcode)
    → joined (code (suc i)).opcode ≡ some op
    → (join_member i code i
        ≡ record { opcode = op; m_val = (code (suc i)).m_val; m_val2 = (code i).m_val })
      × (is_noop (join_member i code (suc i)).opcode ≡ true)
      × ((q : ℕ) → q ≢ i → q ≢ suc i → join_member i code q ≡ code q)
unfolding join_member
join_member-some i code op e =
    let next : i + 1 ≡ suc i = omega arith in
    let both = λ (n : ℕ).
      write (write code i (record { opcode = op; m_val = (code n).m_val; m_val2 = (code i).m_val }))
        n (blank (code n)) in
    let e1 : joined (code (i + 1)).opcode ≡ some op = ap (λ n. joined (code n).opcode) next ∙ e in
    let opened : join_member i code ≡ both (i + 1) = rw (e1, join_member) refl in
    let shape : join_member i code ≡ both (suc i) = opened ∙ ap both next in
    let x : Instr = record { opcode = op; m_val = (code (suc i)).m_val; m_val2 = (code i).m_val } in
    let first = write code i x in
    let last = blank (code (suc i)) in
    (
      ap (λ f. f i) shape
          ∙ write_other first (suc i) last i (λ h. omega (arith, h))
          ∙ write_same code i x,
      ap (λ f. is_noop (f (suc i)).opcode) shape
          ∙ ap (λ y. is_noop y.opcode) (write_same first (suc i) last),
      λ q ne ne1.
          ap (λ f. f q) shape ∙ write_other first (suc i) last q ne1 ∙ write_other code i x q ne,
    )

-- Merging adds up the moves, and ends where there is none.
pub merge_moves-total :
    (rest i : ℕ) (m : Moves) (c : Code)
    → ((p : ℕ) → i + m.j + 1 ≤ p → m.code p ≡ c p)
    → (d : ℕ) × ((merge_moves rest i m).j ≡ m.j + d)
      × ((merge_moves rest i m).move ≡ total c (i + m.j + 1) m.move d)
      × ((d ≡ rest) ⊎ (is_reg_move (c (i + m.j + 1 + d)).opcode ≡ false))
unfolding merge_moves total
merge_moves-total zero i m c reads = (0, omega arith, refl, inl refl)
merge_moves-total (suc rest) i m c reads =
    let at = i + m.j + 1 in
    let same = reads at (omega arith) in
    elim (Bool-cases (is_reg_move (m.code at).opcode)) [
      | inr other_op ↦
          let here : at + 0 ≡ at = omega arith in
          let none_more : m.j ≡ m.j + 0 = omega arith in
          rw other_op (
            0,
            none_more,
            refl,
            inr (
                ap (λ p. is_reg_move (c p).opcode) here
                ∙ sym (ap (λ x. is_reg_move x.opcode) same)
                ∙ other_op),
          )
      | inl is_move ↦
          let (d, j, move, end) = merge_moves-total rest i (take_move i m) c (λ p above.
            write_other m.code at (blank (m.code at)) p (λ e. omega (arith, above, e))
            ∙ reads p (omega (arith, above))) in
          let next : i + (m.j + 1) + 1 ≡ suc at = omega arith in
          let far : i + (m.j + 1) + 1 + d ≡ at + suc d = omega arith in
          rw is_move (
            suc d,
            omega (arith, j),
            move
                ∙ ap (λ p. total c p ((m.move + (m.code at).m_val) % word_mod) d) next
                ∙ ap (λ x. total c (suc at) ((m.move + x.m_val) % word_mod) d) same,
            elim end [
              | inl all ↦ inl (ap suc all)
              | inr stop ↦ inr (ap (λ p. is_reg_move (c p).opcode) (sym far) ∙ stop)
            ],
          )
    ]
