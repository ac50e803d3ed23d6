-- ===== src/Bytecode/Round.antt =====
-- What a round of the first loop of `tobytecode` does (src/vm/vm_code.c).
use mathlib.Core.Path.{subst}
use mathlib.Core.List.{append-nil}
use gwion.Prelude.{
  ℕ, suc, ◌+◌, ◌<◌, ◌≤◌, ◌≡◌, ◌≢◌, inl, inr, refl, sym, ap, ◌∙◌, Bool, true, false, List, [], ◌∷◌,
  ◌++◌, All, length, ◌==◌, if◌then◌else◌, arith, Bool-cases,
}
use gwion.Bytecode.{Opcode, Instr, Slot, Pass, write, blank, is_noop, is_reg_move, store_instr}
use Opcode.{noop, goto, vm_in}
use gwion.Bytecode.Noops.{noops, noops_same}
use gwion.Bytecode.Merge.{write_same, write_other}

abbrev pub is_vm_in : Opcode → Bool
is_vm_in vm_in = true
is_vm_in _ = false

abbrev pub slot_of : Instr → ℕ → Slot
slot_of x p = record { instr = x; next = p + 1 }

-- A round takes the instructions from `i` to `i'`.
pub record Round (st st' : Pass) (i i' : ℕ) : Type 0 where
  pub forward : i < i'
  pub more : List ℕ
  pub nop : st'.nop ≡ st.nop ++ more
  pub low : All (λ x. i ≤ x) more
  pub high : All (λ x. x < i') more
  pub same : (p : ℕ) → p < i → st'.code p ≡ st.code p
  pub count : noops st'.code i' ≡ noops st.code i + length more
  pub bytes_new :
      (p : ℕ)
      → i ≤ p
      → p < i'
      → is_noop (st'.code p).opcode ≡ false
      → st'.bytes p ≡ slot_of (st'.code p) p
  pub bytes_old : (p : ℕ) → p < i → st'.bytes p ≡ st.bytes p
  pub moves_only :
      (p : ℕ)
      → i' ≤ p
      → is_reg_move (st'.code p).opcode ≡ true
      → is_reg_move (st.code p).opcode ≡ true
  pub no_vm_in :
      (p : ℕ) → i' ≤ p → is_vm_in (st.code p).opcode ≡ false → is_vm_in (st'.code p).opcode ≡ false
  pub skipped :
      (t : ℕ)
      → i ≤ t
      → suc t < i'
      → (is_reg_move (st.code (suc t)).opcode ≡ true) × (is_reg_move (st.code t).opcode ≡ true)

-- An instruction that is stored.
pub kept-Round :
    (st : Pass) (i : ℕ)
    → is_noop (st.code i).opcode ≡ false
    → Round st (record st { bytes = write st.bytes i (slot_of (st.code i) i) }) i (suc i)
unfolding noops
kept-Round st i kept = record {
  forward = omega arith;
  more = [];
  nop = sym (append-nil st.nop);
  low = tt;
  high = tt;
  same = λ p below. refl;
  count = rw kept (omega arith);
  bytes_new = λ p from below used.
      let e : p ≡ i = omega (arith, from, below) in
      subst (λ q. write st.bytes i (slot_of (st.code i) i) q ≡ slot_of (st.code q) q) (sym e)
        (write_same st.bytes i (slot_of (st.code i) i));
  bytes_old =
      λ p below. write_other st.bytes i (slot_of (st.code i) i) p (λ e. omega (arith, below, e));
  moves_only = λ p above h. h;
  no_vm_in = λ p above h. h;
  skipped = λ t from below. absurd (omega (arith, from, below));
}

-- One that is left out.
pub left-Round :
    (st : Pass) (i : ℕ)
    → Round st
        (record st { code = write st.code i (blank (st.code i)); nop = st.nop ++ i ∷ [] })
        i
        (suc i)
unfolding noops
left-Round st i =
    let code = write st.code i (blank (st.code i)) in
    let kept = λ (p : ℕ) (ne : p ≢ i). write_other st.code i (blank (st.code i)) p ne in
    let here : code i ≡ blank (st.code i) = write_same st.code i (blank (st.code i)) in
    record {
      forward = omega arith;
      more = i ∷ [];
      nop = refl;
      low = (omega arith, tt);
      high = (omega arith, tt);
      same = λ p below. kept p (λ e. omega (arith, below, e));
      count =
          ap (λ x. if is_noop x.opcode then noops code i + 1 else noops code i) here
          ∙ ap (λ n. n + 1)
              (noops_same code st.code i (λ p below. kept p (λ e. omega (arith, below, e))));
      bytes_new = λ p from below used.
          let e : p ≡ i = omega (arith, from, below) in
          let blanked = ap (λ x. is_noop x.opcode) (ap code e ∙ here) in absurd (cc);
      bytes_old = λ p below. refl;
      moves_only = λ p above h.
          ap (λ x. is_reg_move x.opcode) (sym (kept p (λ e. omega (arith, above, e)))) ∙ h;
      no_vm_in =
          λ p above h. ap (λ x. is_vm_in x.opcode) (kept p (λ e. omega (arith, above, e))) ∙ h;
      skipped = λ t from below. absurd (omega (arith, from, below));
    }

-- The end of a round stores the instruction or leaves it out.
pub store_instr-Round : (st : Pass) (i : ℕ) → Round st (store_instr i st) i (suc i)
unfolding store_instr
store_instr-Round st i = pick (st.code i).opcode refl
  where
    kept : Pass
    kept = record st { bytes = write st.bytes i (slot_of (st.code i) i) }

    left : Pass
    left = record st { code = write st.code i (blank (st.code i)); nop = st.nop ++ i ∷ [] }

    pick :
        (op : Opcode)
        → (st.code i).opcode ≡ op
        → Round st
            (elim op [
              | goto ↦ if (st.code i).m_val == i + 1 then left else kept
              | noop ↦ left
              | _ ↦ kept
            ])
            i
            (suc i)
    pick goto e = elim (Bool-cases ((st.code i).m_val == i + 1)) [
      | inl near ↦
          subst (λ b. Round st (if b then left else kept) i (suc i)) (sym near) (left-Round st i)
      | inr far ↦
          subst (λ b. Round st (if b then left else kept) i (suc i)) (sym far)
            (kept-Round st i (ap is_noop e))
    ]
    pick noop e = left-Round st i
    pick _ e = kept-Round st i (ap is_noop e)
