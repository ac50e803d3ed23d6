-- ===== src/Bytecode/Run.antt =====
-- Running instructions and running their bytecode (src/vm/vm_code.c). What an instruction does is an
-- argument: the dispatch loop of src/vm/vm.c as far as the program counter stays in this code.
use mathlib.Core.Path.{subst}
use gwion.Prelude.{
  ℕ, zero, suc, ◌+◌, ◌<◌, ◌≤◌, ◌≡◌, ◌⊎◌, inl, inr, refl, sym, ap, ◌∙◌, true, false, none, some,
  List, get_elem?, ltb, if◌then◌else◌, arith, Bool-cases, ltb→lt, ltb→le,
}
use gwion.Bytecode.{Code, Instr, Slot, is_noop, isgoto, is_recurs}
use gwion.Bytecode.Noops.{place}
use gwion.Bytecode.Compact.{place_next}

-- The next instruction follows, or the target of a jump, or the control leaves the code.
pub data Effect (S : Type 0) : Type 0 where
  next taken : S → Effect S
  leaves : Effect S

-- An instruction finds the target of its jump in `m_val` and uses it for nothing else; `recurs` is a call.
pub record Machine (S : Type 0) : Type 0 where
  pub act : Instr → S → Effect S
  pub act_noop : (x : Instr) (s : S) → is_noop x.opcode ≡ true → act x s ≡ next s
  pub act_goto :
      (x : Instr) (t : ℕ) (s : S)
      → isgoto x.opcode ≡ true
      → act (record x { m_val = t }) s ≡ act x s
  pub act_recurs : (x : Instr) (s : S) → is_recurs x.opcode ≡ true → act x s ≡ leaves

-- Where a run is, or where it left the code.
pub data Config (S : Type 0) : Type 0 where
  at left : (pc : ℕ) → S → Config S

module _ {S : Type 0} (m : Machine S) where
  abbrev pub after : Effect S → (pc target following : ℕ) → S → Config S
  after (next s') pc target following s = at following s'
  after (taken s') pc target following s = at target s'
  after leaves pc target following s = left pc s

  unfoldable pub step_code : (size : ℕ) → Code → Config S → Config S
  step_code size code (left pc s) = left pc s
  step_code size code (at pc s) =
      let x = code pc in
      let target = if isgoto x.opcode then x.m_val else pc + 1 in
      if ltb pc size then after (m.act x s) pc target (pc + 1) s else left pc s

  unfoldable pub step_bytes : List Slot → Config S → Config S
  step_bytes slots (left pc s) = left pc s
  step_bytes slots (at pc s) = elim (get_elem? slots pc) [
    | none ↦ left pc s
    | some slot ↦
        after (m.act slot.instr s) pc
          (if isgoto slot.instr.opcode then slot.instr.m_val else slot.next) slot.next s
  ]

  unfoldable pub run_code : (n size : ℕ) → Code → Config S → Config S
  unfolding step_code
  run_code zero size code c = c
  run_code (suc n) size code c = run_code n size code (step_code size code c)

  unfoldable pub run_bytes : (n : ℕ) → List Slot → Config S → Config S
  unfolding step_bytes
  run_bytes zero slots c = c
  run_bytes (suc n) slots c = run_bytes n slots (step_bytes slots c)

-- The same place in the bytecode.
abbrev pub moved : {S : Type 0} → Code → Config S → Config S
moved code (at pc s) = at (place code pc) s
moved code (left pc s) = left (place code pc) s

-- The slot of an instruction that is kept.
pub data IsSlot (code : Code) (p : ℕ) (x : Instr) (slot : Slot) : Type 0 where
  jumps :
      isgoto x.opcode ≡ true
      → slot ≡ record { instr = record x { m_val = place code x.m_val }; next = place code p + 1 }
      → IsSlot code p x slot
  calls : is_recurs x.opcode ≡ true → is_recurs slot.instr.opcode ≡ true → IsSlot code p x slot
  plain :
      isgoto x.opcode ≡ false
      → slot ≡ record { instr = x; next = place code p + 1 }
      → IsSlot code p x slot

-- Every instruction that does something has its slot, and there are no more.
pub record IsCompact (size : ℕ) (code : Code) (slots : List Slot) : Type 0 where
  pub slot :
      (p : ℕ)
      → p < size
      → is_noop (code p).opcode ≡ false
      → (x : Slot) × (get_elem? slots (place code p) ≡ some x) × IsSlot code p (code p) x
  pub over : (p : ℕ) → size ≤ p → get_elem? slots (place code p) ≡ none

module _ {S : Type 0} (m : Machine S) (size : ℕ) (code : Code) (slots : List Slot)
    (compact : IsCompact size code slots) where
  abbrev code_after : Effect S → ℕ → S → Config S
  code_after e pc s =
      after m e pc (if isgoto (code pc).opcode then (code pc).m_val else pc + 1) (pc + 1) s

  after_moved :
      (e : Effect S) (pc target : ℕ) (s : S)
      → place code (pc + 1) ≡ place code pc + 1
      → after m e (place code pc) (place code target) (place code pc + 1) s
        ≡ moved code (after m e pc target (pc + 1) s)
  after_moved (next s') pc target s e = ap (λ n. at n s') (sym e)
  after_moved (taken s') pc target s e = refl
  after_moved leaves pc target s e = refl

  slot_step :
      (pc : ℕ) (s : S) (x : Slot)
      → place code (pc + 1) ≡ place code pc + 1
      → IsSlot code pc (code pc) x
      → after m
          (m.act x.instr s)
          (place code pc)
          (if isgoto x.instr.opcode then x.instr.m_val else x.next)
          x.next
          s
        ≡ moved code (code_after (m.act (code pc) s) pc s)
  slot_step pc s x used (jumps jump e) =
      let here = place code pc in
      let there = place code (code pc).m_val in
      let f = m.act (code pc) s in
      subst
        (λ y.
          after m (m.act y.instr s) here (if isgoto y.instr.opcode then y.instr.m_val else y.next)
            y.next s
          ≡ moved code (code_after f pc s))
        (sym e)
        (ap (λ g. after m g here (if isgoto (code pc).opcode then there else here + 1) (here + 1) s)
            (m.act_goto (code pc) there s jump)
          ∙ ap (λ b. after m f here (if b then there else here + 1) (here + 1) s) jump
          ∙ after_moved f pc (code pc).m_val s used
          ∙ sym (
              ap (λ b. moved code (after m f pc (if b then (code pc).m_val else pc + 1) (pc + 1) s))
                jump))
  slot_step pc s x used (calls call call') =
      let here = place code pc in
      ap (λ g. after m g here (if isgoto x.instr.opcode then x.instr.m_val else x.next) x.next s)
        (m.act_recurs x.instr s call')
      ∙ sym (ap (λ g. moved code (code_after g pc s)) (m.act_recurs (code pc) s call))
  slot_step pc s x used (plain jump e) =
      let here = place code pc in
      let f = m.act (code pc) s in
      subst
        (λ y.
          after m (m.act y.instr s) here (if isgoto y.instr.opcode then y.instr.m_val else y.next)
            y.next s
          ≡ moved code (code_after f pc s))
        (sym e)
        (ap (λ b. after m f here (if b then (code pc).m_val else here + 1) (here + 1) s) jump
          ∙ ap (λ n. after m f here n (here + 1) s) (sym used)
          ∙ after_moved f pc (pc + 1) s used
          ∙ sym (
              ap (λ b. moved code (after m f pc (if b then (code pc).m_val else pc + 1) (pc + 1) s))
                jump))

  -- A step of the code is no step of the bytecode or one.
  step_lem :
      (c : Config S)
      → (moved code (step_code m size code c) ≡ moved code c)
        ⊎ (step_bytes m slots (moved code c) ≡ moved code (step_code m size code c))
  unfolding step_code step_bytes
  step_lem (left pc s) = inl refl
  step_lem (at pc s) = elim (Bool-cases (ltb pc size)) [
    | inr over ↦
        let none_there = compact.over pc (ltb→le pc size over) in
        inr (rw (over, step_bytes, none_there) refl)
    | inl room ↦ elim (Bool-cases (is_noop (code pc).opcode)) [
      | inl gone ↦
          let next_place : place code (pc + 1) ≡ place code pc =
            place_next code pc ∙ rw gone refl in
          inl (rw (room, m.act_noop (code pc) s gone) (ap (λ n. at n s) next_place))
      | inr stays ↦
          let next_place : place code (pc + 1) ≡ place code pc + 1 =
            place_next code pc ∙ rw stays refl in
          let (x, found, is) = compact.slot pc (ltb→lt pc size room) stays in
          inr (rw (room, step_bytes, found) (slot_step pc s x next_place is))
    ]
  ]

  -- The bytecode does what the code does, in no more steps.
  pub run_lem :
      (n : ℕ) (c : Config S)
      → (k : ℕ) × (k ≤ n)
        × (run_bytes m k slots (moved code c) ≡ moved code (run_code m n size code c))
  unfolding run_code run_bytes
  run_lem zero c = (0, omega arith, refl)
  run_lem (suc n) c =
      let (k, few, rest) = run_lem n (step_code m size code c) in
      elim (step_lem c) [
        | inl still ↦ (k, omega (arith, few), ap (run_bytes m k slots) (sym still) ∙ rest)
        | inr steps ↦ (suc k, omega (arith, few), ap (run_bytes m k slots) steps ∙ rest)
      ]
