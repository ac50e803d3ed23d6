-- ===== src/Bytecode/Blocks.antt =====
-- Code before and after the first loop of `tobytecode`, run side by side (src/vm/vm_code.c): where a block of
-- instructions was rewritten, both do the same in the same number of steps.
use gwion.Prelude.{
  ℕ, zero, suc, ◌+◌, ◌%◌, ◌<◌, ◌≤◌, ◌≡◌, ◌⊎◌, refl, sym, ap, ◌∙◌, Bool, true, false, ◌&&◌, ◌||◌,
  Option, none, some, arith, lt→ltb,
}
use gwion.Word.{word_mod}
use gwion.Bytecode.{Opcode, Code, Instr, is_noop, is_reg_move, joined}
use Opcode.{reg_push_mem, goto}
use gwion.Bytecode.Run.{Machine, Effect, Config, step_code, run_code}
use Effect.{next, taken}
use Config.{at, left}

abbrev pub is_reg_push_mem : Opcode → Bool
is_reg_push_mem reg_push_mem = true
is_reg_push_mem _ = false

abbrev pub is_some : {A : Type 0} → Option A → Bool
is_some none = false
is_some (some x) = true

-- An instruction that may be made one with the one before it.
abbrev pub glued : (before here : Opcode) → Bool
glued x y = (is_reg_move x && is_reg_move y) || (is_reg_push_mem x && is_some (joined y))

abbrev pub is_glued : Code → ℕ → Bool
is_glued c zero = false
is_glued c (suc t) = glued (c t).opcode (c (suc t)).opcode

-- What moves that follow each other, from `p` on, add to `v`.
unfoldable pub total : Code → (p v d : ℕ) → ℕ
total c p v zero = v
total c p v (suc d) = total c (suc p) ((v + (c p).m_val) % word_mod) d

-- The instructions that are rewritten: moves add up, a joined access is a push and an access, and a `goto` only
-- jumps.
pub record Joining {S : Type 0} (m : Machine S) : Type 0 where
  pub move : ℕ → S → S
  pub act_move :
      (x : Instr) (s : S) → is_reg_move x.opcode ≡ true → m.act x s ≡ next (move x.m_val s)
  pub move_add : (a b : ℕ) (s : S) → move b (move a s) ≡ move ((a + b) % word_mod) s
  pub move_zero : (s : S) → move 0 s ≡ s
  pub act_joined :
      (x y : Instr) (op : Opcode) (s : S)
      → is_reg_push_mem x.opcode ≡ true
      → joined y.opcode ≡ some op
      → (s1 : S) × (s2 : S) × (m.act x s ≡ next s1)
        × (m.act y s1 ≡ next s2)
        × (m.act (record { opcode = op; m_val = y.m_val; m_val2 = x.m_val }) s ≡ next s2)
  pub act_goto_taken : (x : Instr) (s : S) → x.opcode ≡ goto → m.act x s ≡ taken s

-- The instructions from `p` up to `q` before and after.
pub data Block (c c' : Code) (p : ℕ) : ℕ → Type 0 where
  same : c' p ≡ c p → Block c c' p (suc p)
  blanked : is_noop (c p).opcode ≡ true → is_noop (c' p).opcode ≡ true → Block c c' p (suc p)
  no_jump :
      (c p).opcode ≡ goto
      → (c p).m_val ≡ suc p
      → is_noop (c' p).opcode ≡ true
      → Block c c' p (suc p)
  chain :
      (d : ℕ)
      → is_reg_move (c p).opcode ≡ true
      → ((k : ℕ) → k < d → is_reg_move (c (suc p + k)).opcode ≡ true)
      → ((k : ℕ) → k < d → is_noop (c' (suc p + k)).opcode ≡ true)
      → ((total c (suc p) (c p).m_val d ≡ 0) × (is_noop (c' p).opcode ≡ true))
        ⊎ ((is_reg_move (c' p).opcode ≡ true) × ((c' p).m_val ≡ total c (suc p) (c p).m_val d))
      → Block c c' p (suc p + d)
  join :
      (op : Opcode)
      → is_reg_push_mem (c p).opcode ≡ true
      → joined (c (suc p)).opcode ≡ some op
      → c' p ≡ record { opcode = op; m_val = (c (suc p)).m_val; m_val2 = (c p).m_val }
      → is_noop (c' (suc p)).opcode ≡ true
      → Block c c' p (suc (suc p))

module _ {S : Type 0} (m : Machine S) (size : ℕ) where
  pub run_add :
      (c : Code) (a b : ℕ) (x : Config S)
      → run_code m (a + b) size c x ≡ run_code m b size c (run_code m a size c x)
  unfolding run_code
  run_add c zero b x = let e : 0 + b ≡ b = omega arith in ap (λ n. run_code m n size c x) e
  run_add c (suc a) b x =
      let e : suc a + b ≡ suc (a + b) = omega arith in
      ap (λ n. run_code m n size c x) e ∙ run_add c a b (step_code m size c x)

  pub run_left : (c : Code) (n pc : ℕ) (s : S) → run_code m n size c (left pc s) ≡ left pc s
  unfolding run_code step_code
  run_left c zero pc s = refl
  run_left c (suc n) pc s = run_left c n pc s

  -- A step of an instruction that goes on to the next one.
  pub step_next :
      (c : Code) (pc : ℕ) (s s' : S)
      → pc < size
      → m.act (c pc) s ≡ next s'
      → step_code m size c (at pc s) ≡ at (suc pc) s'
  unfolding step_code
  step_next c pc s s' room e =
      let there : pc + 1 ≡ suc pc = omega arith in rw (lt→ltb pc size room, e, there) refl

  pub step_noop :
      (c : Code) (pc : ℕ) (s : S)
      → pc < size
      → is_noop (c pc).opcode ≡ true
      → step_code m size c (at pc s) ≡ at (suc pc) s
  step_noop c pc s room gone = step_next c pc s s room (m.act_noop (c pc) s gone)

  pub run_noops :
      (c : Code) (d pc : ℕ) (s : S)
      → pc + d ≤ size
      → ((k : ℕ) → k < d → is_noop (c (pc + k)).opcode ≡ true)
      → run_code m d size c (at pc s) ≡ at (pc + d) s
  unfolding run_code
  run_noops c zero pc s room gone = let e : pc ≡ pc + 0 = omega arith in ap (λ n. at n s) e
  run_noops c (suc d) pc s room gone =
      let here : pc + 0 ≡ pc = omega arith in
      let end : suc pc + d ≡ pc + suc d = omega arith in
      ap (run_code m d size c) (
        step_noop c pc s (omega (arith, room))
          (ap (λ n. is_noop (c n).opcode) (sym here) ∙ gone 0 (omega arith)))
      ∙ run_noops c d (suc pc) s (omega (arith, room)) (λ k below.
        let there : pc + suc k ≡ suc pc + k = omega arith in
        ap (λ n. is_noop (c n).opcode) (sym there) ∙ gone (suc k) (omega (arith, below)))
      ∙ ap (λ n. at n s) end

  module _ (j : Joining m) where
    pub run_moves :
        (c : Code) (d pc v : ℕ) (s : S)
        → pc + d ≤ size
        → ((k : ℕ) → k < d → is_reg_move (c (pc + k)).opcode ≡ true)
        → run_code m d size c (at pc (j.move v s)) ≡ at (pc + d) (j.move (total c pc v d) s)
    unfolding run_code total
    run_moves c zero pc v s room moves =
        let e : pc ≡ pc + 0 = omega arith in ap (λ n. at n (j.move v s)) e
    run_moves c (suc d) pc v s room moves =
        let here : pc + 0 ≡ pc = omega arith in
        let end : suc pc + d ≡ pc + suc d = omega arith in
        let v' = (v + (c pc).m_val) % word_mod in
        let is_move = ap (λ n. is_reg_move (c n).opcode) (sym here) ∙ moves 0 (omega arith) in
        let moved =
          j.act_move (c pc) (j.move v s) is_move ∙ ap next (j.move_add v (c pc).m_val s) in
        ap (run_code m d size c)
          (step_next c pc (j.move v s) (j.move v' s) (omega (arith, room)) moved)
        ∙ run_moves c d (suc pc) v' s (omega (arith, room)) (λ k below.
          let there : pc + suc k ≡ suc pc + k = omega arith in
          ap (λ n. is_reg_move (c n).opcode) (sym there) ∙ moves (suc k) (omega (arith, below)))
        ∙ ap (λ n. at n (j.move (total c (suc pc) v' d) s)) end
