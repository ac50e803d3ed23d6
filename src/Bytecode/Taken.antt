-- ===== src/Bytecode/Taken.antt =====
-- The rounds that join a member access or merge moves (src/vm/vm_code.c).
use mathlib.Core.Path.{subst}
use mathlib.Core.List.{append-nil, append_assoc}
use gwion.Prelude.{
  ℕ, suc, ◌+◌, ◌<◌, ◌≤◌, ◌≡◌, ◌≢◌, inl, inr, refl, sym, ap, ◌∙◌, true, false, Option, none, some,
  List, [], ◌∷◌, ◌++◌, All, length, length-append, ◌==◌, if◌then◌else◌, arith, Bool-cases, ==→eq,
  ==→ne,
}
use gwion.Bytecode.{
  Opcode, Code, Instr, Slot, Pass, Moves, write, blank, is_noop, is_reg_move, merge_moves, joined,
  join_member, store_instr, store_move,
}
use Opcode.{noop}
use gwion.Bytecode.Noops.{noops, noops_same, noops_run, All-append, All-map}
use gwion.Bytecode.Merge.{write_same, write_other, Merged, merge_moves-Merged}
use gwion.Bytecode.Round.{Round, is_vm_in, slot_of, store_instr-Round}

-- Joining leaves what is before, and makes no moves and no ends of loops behind.
record Joined (code code1 : Code) (i : ℕ) : Type 0 where
  same : (p : ℕ) → p < i → code1 p ≡ code p
  moves_only :
      (p : ℕ) → suc i ≤ p → is_reg_move (code1 p).opcode ≡ true → is_reg_move (code p).opcode ≡ true
  no_vm_in :
      (p : ℕ) → suc i ≤ p → is_vm_in (code p).opcode ≡ false → is_vm_in (code1 p).opcode ≡ false

join_member-Joined : (i : ℕ) (code : Code) → Joined code (join_member i code) i
unfolding join_member
join_member-Joined i code = pick (joined (code (i + 1)).opcode)
  where
    first : Opcode → Code
    first op =
        write code i (record { opcode = op; m_val = (code (i + 1)).m_val; m_val2 = (code i).m_val })

    both : Opcode → Code
    both op = write (first op) (i + 1) (blank (code (i + 1)))

    off : (op : Opcode) (p : ℕ) → p ≢ i → p ≢ i + 1 → both op p ≡ code p
    off op p ne ne1 =
        write_other (first op) (i + 1) (blank (code (i + 1))) p ne1
        ∙ write_other code i
            (record { opcode = op; m_val = (code (i + 1)).m_val; m_val2 = (code i).m_val }) p ne

    on : (op : Opcode) (p : ℕ) → p ≡ i + 1 → both op p ≡ blank (code (i + 1))
    on op p e = ap (both op) e ∙ write_same (first op) (i + 1) (blank (code (i + 1)))

    pick : (op : Option Opcode) → Joined code (elim op [ none ↦ code | some op ↦ both op ]) i
    pick none = record {
      same = λ p below. refl;
      moves_only = λ p above h. h;
      no_vm_in = λ p above h. h;
    }
    pick (some op) = record {
      same = λ p below. off op p (λ e. omega (arith, below, e)) (λ e. omega (arith, below, e));
      moves_only = λ p above h. elim (Bool-cases (p == i + 1)) [
        | inl e ↦
            let blanked = ap (λ x. is_reg_move x.opcode) (on op p (==→eq p (i + 1) e)) in
            absurd (cc)
        | inr ne ↦
            ap (λ x. is_reg_move x.opcode)
              (sym (off op p (λ e. omega (arith, above, e)) (==→ne p (i + 1) ne)))
            ∙ h
      ];
      no_vm_in = λ p above h. elim (Bool-cases (p == i + 1)) [
        | inl e ↦ ap (λ x. is_vm_in x.opcode) (on op p (==→eq p (i + 1) e))
        | inr ne ↦
            ap (λ x. is_vm_in x.opcode)
              (off op p (λ e. omega (arith, above, e)) (==→ne p (i + 1) ne))
            ∙ h
      ];
    }

-- A round at a push of memory.
pub join-Round :
    (st : Pass) (i : ℕ)
    → Round st (store_instr i (record st { code = join_member i st.code })) i (suc i)
join-Round st i =
    let code1 = join_member i st.code in
    let j = join_member-Joined i st.code in
    let r = store_instr-Round (record st { code = code1 }) i in
    record {
      forward = r.forward;
      more = r.more;
      nop = r.nop;
      low = r.low;
      high = r.high;
      same = λ p below. r.same p below ∙ j.same p below;
      count = r.count ∙ ap (λ n. n + length r.more) (noops_same code1 st.code i j.same);
      bytes_new = r.bytes_new;
      bytes_old = r.bytes_old;
      moves_only = λ p above h. j.moves_only p above (r.moves_only p above h);
      no_vm_in = λ p above h. r.no_vm_in p above (j.no_vm_in p above h);
      skipped = λ t from below. absurd (omega (arith, from, below));
    }

-- A round at a move: `y` takes its place, and `extra` has the place if it is left out.
module _ (st : Pass) (rest i : ℕ) (is_move : is_reg_move (st.code i).opcode ≡ true) where
  abbrev start : Moves
  start = record { code = st.code; nop = st.nop; j = 0; move = (st.code i).m_val }

  abbrev merged : Moves
  merged = merge_moves rest i start

  module _ (y : Instr) (extra : List ℕ) (bytes : ℕ → Slot) where
    abbrev taken : Pass
    taken = record { code = write merged.code i y; nop = merged.nop ++ extra; bytes = bytes }

    before_move :
        Merged rest i start merged
        → (t : ℕ) → i ≤ t
        → suc t < i + merged.j + 1
        → is_reg_move (st.code t).opcode ≡ true
    before_move r t from below = elim (Bool-cases (t == i)) [
      | inl e ↦ ap (λ p. is_reg_move (st.code p).opcode) (==→eq t i e) ∙ is_move
      | inr ne ↦
          let off = ==→ne t i ne in r.moves t (omega (arith, from, off)) (omega (arith, below))
    ]

    taken-Round :
        Merged rest i start merged
        → All (λ x. x ≡ i) extra
        → ((n : ℕ) → (if is_noop y.opcode then n + 1 else n) ≡ n + length extra)
        → (is_noop y.opcode ≡ false → bytes i ≡ slot_of y i)
        → ((p : ℕ) → p < i → bytes p ≡ st.bytes p)
        → Round st taken i (i + merged.j + 1)
    unfolding noops
    taken-Round r at_i counted bytes_i bytes_o =
        let off_i = λ (p : ℕ) (ne : p ≢ i). write_other merged.code i y p ne in
        let j = r.j in
        let here : taken.code i ≡ y = write_same merged.code i y in
        let width : i + merged.j + 1 ≡ suc i + r.taken = omega (arith, j) in
        let before : noops taken.code i ≡ noops st.code i =
          noops_same taken.code st.code i
            (λ p below. off_i p (λ e. omega (arith, below, e)) ∙ r.same p (omega (arith, below))) in
        let first : noops taken.code (suc i) ≡ noops st.code i + length extra =
          ap (λ x. if is_noop x.opcode then noops taken.code i + 1 else noops taken.code i) here
          ∙ counted (noops taken.code i)
          ∙ ap (λ n. n + length extra) before in
        let run = noops_run taken.code (suc i) r.taken (λ p from below.
          ap (λ x. is_noop x.opcode) (off_i p (λ e. omega (arith, from, e)))
          ∙ r.blanks p (omega (arith, from)) (omega (arith, below, j))) in
        let few = r.few in
        let long = length-append r.more extra in
        record {
          forward = omega arith;
          more = r.more ++ extra;
          nop = ap (λ l. l ++ extra) r.nop ∙ append_assoc st.nop r.more extra;
          low =
              All-append (λ x. i ≤ x) r.more extra
                (All-map (λ x. i + 0 + 1 ≤ x) (λ x. i ≤ x) r.more (λ x h. omega (arith, h)) r.low)
                (All-map (λ x. x ≡ i) (λ x. i ≤ x) extra (λ x h. omega (arith, h)) at_i);
          high =
              All-append (λ x. x < i + merged.j + 1) r.more extra r.high
                (All-map (λ x. x ≡ i) (λ x. x < i + merged.j + 1) extra (λ x h. omega (arith, h))
                  at_i);
          same =
              λ p below. off_i p (λ e. omega (arith, below, e)) ∙ r.same p (omega (arith, below));
          count = ap (noops taken.code) width ∙ omega (arith, run, first, few, long);
          bytes_new = λ p from below used. elim (Bool-cases (p == i)) [
            | inl e ↦
                let is_i = ==→eq p i e in
                let at = ap taken.code is_i ∙ here in
                ap bytes is_i
                ∙ bytes_i (ap (λ x. is_noop x.opcode) (sym at) ∙ used)
                ∙ ap (slot_of y) (sym is_i)
                ∙ ap (λ x. slot_of x p) (sym at)
            | inr ne ↦
                let off = ==→ne p i ne in
                let blanked =
                  ap (λ x. is_noop x.opcode) (off_i p off)
                  ∙ r.blanks p (omega (arith, from, off)) below in
                absurd (cc)
          ];
          bytes_old = bytes_o;
          moves_only = λ p above h.
              ap (λ x. is_reg_move x.opcode)
                (sym (off_i p (λ e. omega (arith, above, e)) ∙ r.later p above))
              ∙ h;
          no_vm_in = λ p above h.
              ap (λ x. is_vm_in x.opcode) (off_i p (λ e. omega (arith, above, e)) ∙ r.later p above)
              ∙ h;
          skipped = λ t from below.
              (r.moves (suc t) (omega (arith, from)) below, before_move r t from below);
        }

pub not_noop : (op : Opcode) → is_reg_move op ≡ true → is_noop op ≡ false
not_noop noop e = absurd (cc)
not_noop _ e = refl

pub store_move-Round :
    (st : Pass) (rest i : ℕ)
    → is_reg_move (st.code i).opcode ≡ true
    → Round st (store_move rest i st).0 i (i + (store_move rest i st).1 + 1)
unfolding store_move
store_move-Round st rest i is_move =
    let r = merge_moves-Merged rest i (start st rest i is_move) in
    let m = merged st rest i is_move in
    let x : Instr = record (m.code i) { m_val = m.move } in
    let used : is_noop x.opcode ≡ false =
      not_noop x.opcode (ap (λ y. is_reg_move y.opcode) (r.same i (omega arith)) ∙ is_move) in
    elim (Bool-cases (m.move == 0)) [
      | inl still ↦ rw still (
          taken-Round st rest i is_move (blank x) (i ∷ []) st.bytes r (refl, tt) (λ n. refl)
            (λ e. absurd (cc)) (λ p below. refl))
      | inr moves ↦ rw moves (
          subst
            (λ l.
              Round st
                (record {
                  code = write m.code i x;
                  nop = l;
                  bytes = write st.bytes i (slot_of x i);
                })
                i (i + m.j + 1))
            (append-nil m.nop)
            (taken-Round st rest i is_move x [] (write st.bytes i (slot_of x i)) r tt
              (λ n. rw used (omega arith)) (λ e. write_same st.bytes i (slot_of x i))
              (λ p below. write_other st.bytes i (slot_of x i) p (λ e. omega (arith, below, e)))))
    ]

-- It takes no more than there are.
pub store_move_bound : (st : Pass) (rest i : ℕ) → (store_move rest i st).1 ≤ rest
unfolding store_move
store_move_bound st rest i =
    let r =
      merge_moves-Merged rest i
        (record { code = st.code; nop = st.nop; j = 0; move = (st.code i).m_val }) in
    let bound = r.bounded in let j = r.j in omega (arith, bound, j)
