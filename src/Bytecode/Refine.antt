-- ===== src/Bytecode/Refine.antt =====
-- The bytecode that `tobytecode` makes does what the instructions do (src/vm/vm_code.c).
use mathlib.Core.List.{nil≢cons}
use gwion.Prelude.{
  ℕ, zero, suc, ◌+◌, ◌-◌, ◌<◌, ◌≤◌, ◌≡◌, ◌≢◌, inl, inr, refl, sym, ap, ◌∙◌, true, false, none, some,
  List, [], ◌∷◌, length, get_elem?, arith, Bool-cases,
}
use gwion.Bytecode.{
  Opcode, Code, Slot, Pass, isgoto, is_recurs, is_handle_effect, relocate, first_pass, second_pass,
  all_bytes, tobytecode,
}
use Opcode.{handle_effect}
use gwion.Bytecode.Noops.{noops_mono, noops, place, place-add-noops, SplitsAt, new_pc_lem}
use gwion.Bytecode.Round.{is_vm_in, slot_of}
use gwion.Bytecode.Passed.{inside_moves, Passed}
use gwion.Bytecode.First.{first_pass_lem}
use gwion.Bytecode.Compact.{place_le, second_length, second_slot, second_handlers, kept_handlers}
use gwion.Bytecode.Run.{Machine, Config, moved, run_code, run_bytes, IsSlot, IsCompact, run_lem}
use IsSlot.{jumps, calls, plain}

get_elem?-none : {A : Type 0} (xs : List A) (i : ℕ) → length xs ≤ i → get_elem? xs i ≡ none
get_elem?-none [] i h = refl
get_elem?-none (x ∷ xs) zero h = absurd (omega (arith, h))
get_elem?-none (x ∷ xs) (suc i) h = get_elem?-none xs i (omega (arith, h))

all_bytes_lem :
    (rest i : ℕ) (bytes : ℕ → Slot) (d : ℕ)
    → d < rest
    → get_elem? (all_bytes rest i bytes) d ≡ some (bytes (i + d))
unfolding all_bytes
all_bytes_lem zero i bytes d h = absurd (omega (arith, h))
all_bytes_lem (suc rest) i bytes zero h =
    let e : i ≡ i + 0 = omega arith in ap (λ n. some (bytes n)) e
all_bytes_lem (suc rest) i bytes (suc d) h =
    let e : i + 1 + d ≡ i + suc d = omega arith in
    all_bytes_lem rest (i + 1) bytes d (omega (arith, h)) ∙ ap (λ n. some (bytes n)) e

length-all_bytes : (rest i : ℕ) (bytes : ℕ → Slot) → length (all_bytes rest i bytes) ≡ rest
unfolding all_bytes
length-all_bytes zero i bytes = refl
length-all_bytes (suc rest) i bytes = ap suc (length-all_bytes rest (i + 1) bytes)

relocate-IsSlot :
    (code : Code) (nop : List ℕ) (p : ℕ)
    → (isgoto (code p).opcode ≡ true → SplitsAt code nop (code p).m_val)
    → IsSlot code p (code p) (relocate nop (place code p) (code p) (slot_of (code p) p))
unfolding relocate
relocate-IsSlot code nop p target = elim (Bool-cases (isgoto (code p).opcode)) [
  | inl jump ↦ jumps jump (
      rw jump (
        ap (λ t. record { instr = record (code p) { m_val = t }; next = place code p + 1 })
          (new_pc_lem code nop (code p).m_val (target jump))))
  | inr no_jump ↦ elim (Bool-cases (is_recurs (code p).opcode)) [
    | inl call ↦ calls call (rw (no_jump, call) call)
    | inr no_call ↦ plain no_jump (rw (no_jump, no_call) refl)
  ]
]

handler_jumps : (op : Opcode) → is_handle_effect op ≡ true → isgoto op ≡ true
handler_jumps handle_effect e = refl
handler_jumps _ e = absurd (cc)

module _ (fresh : ℕ → Slot) (size : ℕ) (c : Code) where
  -- The instructions as the first loop leaves them.
  abbrev pub rewritten : Pass
  rewritten = first_pass size size 0 (record { code = c; nop = []; bytes = fresh })

  -- No unrolled loop, and no jump behind the code or between moves that follow each other.
  pub record IsPlain : Type 0 where
    pub no_vm_in : (p : ℕ) → is_vm_in (c p).opcode ≡ false
    pub targets :
        (p : ℕ)
        → p < size
        → isgoto (rewritten.code p).opcode ≡ true
        → ((rewritten.code p).m_val ≤ size) × (inside_moves c (rewritten.code p).m_val ≡ false)

  module _ (fits : IsPlain) where
    passed : Passed c size 0 (record { code = c; nop = []; bytes = fresh }) rewritten
    passed = first_pass_lem size c fresh fits.no_vm_in

    splits_at :
        (p : ℕ)
        → p < size
        → isgoto (rewritten.code p).opcode ≡ true
        → SplitsAt rewritten.code rewritten.nop (rewritten.code p).m_val
    splits_at p to jump =
        let (bound, out) = fits.targets p to jump in
        passed.splits (rewritten.code p).m_val (omega arith) bound out

    second-IsCompact : IsCompact size rewritten.code (second_pass size 0 0 rewritten).0
    unfolding place
    second-IsCompact = record {
      slot = λ p to used.
          let there =
            relocate rewritten.nop (place rewritten.code p) (rewritten.code p)
              (slot_of (rewritten.code p) p) in
          let zero_less : place rewritten.code p ≡ 0 + place rewritten.code p = omega arith in
          (
            there,
            second_slot rewritten size 0 0 p (place rewritten.code p) (omega arith)
                  (omega (arith, to)) used zero_less
                ∙ ap
                    (λ s.
                      some
                        (relocate rewritten.nop (0 + place rewritten.code p) (rewritten.code p) s))
                    (passed.bytes_new p (omega arith) to used)
                ∙ ap
                    (λ n.
                      some (
                        relocate rewritten.nop n (rewritten.code p) (slot_of (rewritten.code p) p)))
                    (sym zero_less),
            relocate-IsSlot rewritten.code rewritten.nop p (splits_at p to),
          );
      over = λ p above.
          let long = second_length rewritten size 0 0 in
          let size_is : 0 + size ≡ size = omega arith in
          let ends = ap (place rewritten.code) size_is in
          let more = place_le rewritten.code size p above in
          get_elem?-none (second_pass size 0 0 rewritten).0 (place rewritten.code p)
            (omega (arith, long, ends, more));
    }

    -- Where nothing is left out every instruction stays at its place.
    all-IsCompact :
        rewritten.nop ≡ [] → IsCompact size rewritten.code (all_bytes size 0 rewritten.bytes)
    all-IsCompact none_left =
        let no_noops : noops rewritten.code size ≡ 0 = sym passed.count ∙ ap length none_left in
        let stays : (p : ℕ) → p ≤ size → place rewritten.code p ≡ p = λ p to.
          let few = noops_mono rewritten.code p (size - p) in
          let whole : p + (size - p) ≡ size = omega (arith, to) in
          let all = ap (noops rewritten.code) whole in
          let here = place-add-noops rewritten.code p in omega (arith, few, all, no_noops, here) in
        record {
          slot = λ p to used.
              let at = stays p (omega (arith, to)) in
              let base : 0 + p ≡ p = omega arith in
              (
                slot_of (rewritten.code p) p,
                ap (get_elem? (all_bytes size 0 rewritten.bytes)) at
                    ∙ all_bytes_lem size 0 rewritten.bytes p to
                    ∙ ap (λ n. some (rewritten.bytes n)) base
                    ∙ ap some (passed.bytes_new p (omega arith) to used),
                own_slot p to at (λ bound. stays (rewritten.code p).m_val bound),
              );
          over = λ p above.
              let long = length-all_bytes size 0 rewritten.bytes in
              let ends = stays size (omega arith) in
              let more = place_le rewritten.code size p above in
              get_elem?-none (all_bytes size 0 rewritten.bytes) (place rewritten.code p)
                (omega (arith, long, ends, more));
        }
      where
        own_slot :
            (p : ℕ)
            → p < size
            → place rewritten.code p ≡ p
            → ((rewritten.code p).m_val ≤ size
                → place rewritten.code (rewritten.code p).m_val ≡ (rewritten.code p).m_val)
            → IsSlot rewritten.code p (rewritten.code p) (slot_of (rewritten.code p) p)
        own_slot p to at stay = elim (Bool-cases (isgoto (rewritten.code p).opcode)) [
          | inl jump ↦
              let (bound, out) = fits.targets p to jump in
              jumps jump (
                ap (λ t. record { instr = record (rewritten.code p) { m_val = t }; next = p + 1 })
                  (sym (stay bound))
                ∙ ap
                    (λ n. record {
                      instr = record (rewritten.code p) {
                        m_val = place rewritten.code (rewritten.code p).m_val;
                      };
                      next = n + 1;
                    })
                    (sym at))
          | inr no_jump ↦ plain no_jump (ap (slot_of (rewritten.code p)) (sym at))
        ]

    tobytecode-IsCompact : IsCompact size rewritten.code (tobytecode fresh size c).0
    unfolding tobytecode
    tobytecode-IsCompact = pick rewritten.nop refl
      where
        pick :
            (nop : List ℕ)
            → rewritten.nop ≡ nop
            → IsCompact size rewritten.code
                (elim nop as (λ x. List Slot × List (ℕ × ℕ)) [
                  | [] ↦ (all_bytes size 0 rewritten.bytes, [])
                  | _ ∷ _ ↦ second_pass size 0 0 rewritten
                ]).0
        pick [] e = all-IsCompact e
        pick (x ∷ nop) e = second-IsCompact

    -- A run of the instructions, as the first loop leaves them, is a run of the bytecode in no more steps: it
    -- ends, or leaves the code, at the place that the instruction has there, with the same state.
    pub tobytecode-run :
        {S : Type 0} (m : Machine S) (n : ℕ) (from : Config S)
        → (k : ℕ) × (k ≤ n)
          × (run_bytes m k (tobytecode fresh size c).0 (moved rewritten.code from)
              ≡ moved rewritten.code (run_code m n size rewritten.code from))
    tobytecode-run m n from =
        run_lem m size rewritten.code (tobytecode fresh size c).0 tobytecode-IsCompact n from

    -- The handlers are those of the instructions that are kept, at their places and with the places of their
    -- targets, where something was left out; where nothing was, there are none.
    pub tobytecode-handlers :
        (rewritten.nop ≢ [] → (tobytecode fresh size c).1 ≡ kept_handlers rewritten.code size 0)
        × (rewritten.nop ≡ [] → (tobytecode fresh size c).1 ≡ [])
    unfolding tobytecode place
    tobytecode-handlers = (pick rewritten.nop, λ e. pick_none rewritten.nop e)
      where
        handlers_of : List ℕ → List (ℕ × ℕ)
        handlers_of nop =
            (elim nop as (λ x. List Slot × List (ℕ × ℕ)) [
              | [] ↦ (all_bytes size 0 rewritten.bytes, [])
              | _ ∷ _ ↦ second_pass size 0 0 rewritten
            ]).1

        pick : (nop : List ℕ) → nop ≢ [] → handlers_of nop ≡ kept_handlers rewritten.code size 0
        pick [] some_left = absurd (some_left refl)
        pick (x ∷ nop) some_left = second_handlers rewritten size 0 0 refl (λ p to handles.
            splits_at p (omega (arith, to)) (handler_jumps (rewritten.code p).opcode handles))

        pick_none : (nop : List ℕ) → nop ≡ [] → handlers_of nop ≡ []
        pick_none [] e = refl
        pick_none (x ∷ nop) e = absurd (nil≢cons (sym e))
