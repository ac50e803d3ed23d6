-- ===== src/Bytecode/Simulate.antt =====
-- Blocks of instructions that were rewritten do what they did (src/vm/vm_code.c).
use mathlib.Core.Path.{subst}
use gwion.Prelude.{
  ℕ, zero, suc, ◌+◌, ◌<◌, ◌≤◌, ◌≡◌, inl, inr, refl, sym, ap, ◌∙◌, true, false, ltb, if◌then◌else◌,
  arith, Bool-cases, ltb→lt, ltb→le, lt→ltb, le→ltb,
}
use gwion.Bytecode.{Code, isgoto}
use gwion.Bytecode.Run.{Machine, Effect, Config, step_code, run_code, after}
use Effect.{next, taken, leaves}
use Config.{at, left}
use gwion.Bytecode.Blocks.{
  is_glued, total, Joining, Block, run_add, run_left, step_next, step_noop, run_noops, run_moves,
}
use Block.{same, blanked, no_jump, chain, join}

-- Where a run can be taken up in the rewritten code: not between instructions that may have become one.
unfoldable pub Starts : {S : Type 0} → Code → Config S → Type 0
Starts c (at p s) = is_glued c p ≡ false
Starts c (left p s) = Unit {0}

module _ {S : Type 0} (m : Machine S) (j : Joining m) (size : ℕ) (c c' : Code)
    (targets : (p : ℕ) → p < size → isgoto (c p).opcode ≡ true → is_glued c (c p).m_val ≡ false)
    (blocks : (p : ℕ)
      → p < size
      → is_glued c p ≡ false
      → (q : ℕ) × (p < q) × (q ≤ size) × (is_glued c q ≡ false) × Block c c' p q) where
  -- Both codes come to the same place in some steps.
  Meet : Config S → Type 0
  Meet from =
      (d : ℕ) × (0 < d)
      × (run_code m d size c' from ≡ run_code m d size c from)
      × Starts c (run_code m d size c from)

  step-Starts :
      (p : ℕ) (s : S)
      → p < size
      → is_glued c (suc p) ≡ false
      → Starts c (step_code m size c (at p s))
  unfolding step_code Starts
  step-Starts p s room free =
      let following : p + 1 ≡ suc p = omega arith in
      let free1 : is_glued c (p + 1) ≡ false = ap (is_glued c) following ∙ free in
      rw (lt→ltb p size room)
        (elim (m.act (c p) s)
          as (λ e.
            Starts c (after m e p (if isgoto (c p).opcode then (c p).m_val else p + 1) (p + 1) s)) [
              | next s' ↦ free1
              | leaves ↦ tt
              | taken s' ↦ elim (Bool-cases (isgoto (c p).opcode)) [
                | inl jump ↦ rw jump (targets p room jump)
                | inr no_jump_here ↦ rw no_jump_here free1
              ]
            ])

  one_step :
      (p : ℕ) (s : S)
      → p < size
      → is_glued c (suc p) ≡ false
      → step_code m size c' (at p s) ≡ step_code m size c (at p s)
      → Meet (at p s)
  unfolding Meet run_code
  one_step p s room free e = (1, omega arith, e, step-Starts p s room free)

  meets :
      (p q : ℕ) (s : S)
      → p < size
      → q ≤ size
      → is_glued c q ≡ false
      → Block c c' p q
      → Meet (at p s)
  unfolding Meet run_code step_code Starts total
  meets p q s room within free (same e) = one_step p s room free (rw (lt→ltb p size room, e) refl)
  meets p q s room within free (blanked gone gone') =
      one_step p s room free
        (step_noop m size c' p s room gone' ∙ sym (step_noop m size c p s room gone))
  meets p q s room within free (no_jump jump near gone') = one_step p s room free (
      step_noop m size c' p s room gone'
      ∙ sym (rw (lt→ltb p size room, j.act_goto_taken (c p) s jump, ap isgoto jump, near) refl))
  meets p q s room within free (chain d is_move moves gone' sum) =
      let t = total c (suc p) (c p).m_val d in
      let old : run_code m (suc d) size c (at p s) ≡ at (suc p + d) (j.move t s) =
        ap (run_code m d size c)
          (step_next m size c p s (j.move (c p).m_val s) room (j.act_move (c p) s is_move))
        ∙ run_moves m size j c d (suc p) (c p).m_val s within moves in
      let first : step_code m size c' (at p s) ≡ at (suc p) (j.move t s) = elim sum [
        | inl (none_left, gone) ↦
            step_noop m size c' p s room gone
            ∙ ap (at (suc p)) (sym (ap (λ v. j.move v s) none_left ∙ j.move_zero s))
        | inr (stays, val) ↦
            step_next m size c' p s (j.move t s) room
              (j.act_move (c' p) s stays ∙ ap (λ v. next (j.move v s)) val)
      ] in
      let new : run_code m (suc d) size c' (at p s) ≡ at (suc p + d) (j.move t s) =
        ap (run_code m d size c') first ∙ run_noops m size c' d (suc p) (j.move t s) within gone' in
      (suc d, omega arith, new ∙ sym old, subst (Starts c) (sym old) free)
  meets p q s room within free (join op push dot e gone') =
      let (s1, s2, pushed, read, whole) = j.act_joined (c p) (c (suc p)) op s push dot in
      let old : run_code m 2 size c (at p s) ≡ at (suc (suc p)) s2 =
        ap (step_code m size c) (step_next m size c p s s1 room pushed)
        ∙ step_next m size c (suc p) s1 s2 (omega (arith, within)) read in
      let new : run_code m 2 size c' (at p s) ≡ at (suc (suc p)) s2 =
        ap (step_code m size c') (step_next m size c' p s s2 room (ap (λ x. m.act x s) e ∙ whole))
        ∙ step_noop m size c' (suc p) s2 (omega (arith, within)) gone' in
      (2, omega arith, new ∙ sym old, subst (Starts c) (sym old) free)

  stays_there : (x : Code) (p : ℕ) (s : S) → size ≤ p → step_code m size x (at p s) ≡ left p s
  unfolding step_code
  stays_there x p s over = rw (le→ltb size p over) refl

  -- However far the code runs, both come to the same place that far or further on.
  pub simulate :
      (n : ℕ) (from : Config S)
      → Starts c from
      → (k : ℕ) × (n ≤ k) × (run_code m k size c' from ≡ run_code m k size c from)
  unfolding Meet run_code Starts
  simulate zero from starts = (0, omega arith, refl)
  simulate (suc n) (left p s) starts =
      (suc n, omega arith, run_left m size c' (suc n) p s ∙ sym (run_left m size c (suc n) p s))
  simulate (suc n) (at p s) starts = elim (Bool-cases (ltb p size)) [
    | inr over ↦
        let above = ltb→le p size over in
        let ends = λ (x : Code).
          ap (run_code m n size x) (stays_there x p s above) ∙ run_left m size x n p s in
        (suc n, omega arith, ends c' ∙ sym (ends c))
    | inl room ↦
        let (q, up, within, free, block) = blocks p (ltb→lt p size room) starts in
        let (d, some_steps, e, starts') = meets p q s (ltb→lt p size room) within free block in
        let (k, far, rest) = simulate n (run_code m d size c (at p s)) starts' in
        (
          d + k,
          omega (arith, some_steps, far),
          run_add m size c' d k (at p s)
              ∙ ap (run_code m k size c') e
              ∙ rest
              ∙ sym (run_add m size c d k (at p s)),
        )
  ]
