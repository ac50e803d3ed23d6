-- ===== src/Bytecode/Merge.antt =====
-- What merging moves of the register pointer leaves (src/vm/vm_code.c).
use mathlib.Core.Path.{subst}
use mathlib.Core.List.{append-nil, append_assoc}
use gwion.Prelude.{
  ℕ, zero, suc, ◌+◌, ◌%◌, ◌<◌, ◌≤◌, ◌≡◌, ◌≢◌, inl, inr, refl, sym, ap, ◌∙◌, true, List, [], ◌∷◌,
  ◌++◌, All, length, ◌==◌, if◌then◌else◌, arith, Bool-cases, ==-refl, ne→==, ==→eq, ==→ne,
}
use gwion.Word.{word_mod}
use gwion.Bytecode.{write, blank, is_noop, is_reg_move, Moves, merge_moves}
use gwion.Bytecode.Noops.{All-map}

module _ {A : Type 0} (f : ℕ → A) where
  pub write_same : (p : ℕ) (x : A) → write f p x p ≡ x
  write_same p x = rw (==-refl p) refl

  pub write_other : (p : ℕ) (x : A) (a : ℕ) → a ≢ p → write f p x a ≡ f a
  write_other p x a ne = rw (ne→== a p ne) refl

-- Merging takes the next moves, which then do nothing, and notes their places; all else stays.
pub record Merged (rest i : ℕ) (m m' : Moves) : Type 0 where
  pub more : List ℕ
  pub taken : ℕ
  pub j : m'.j ≡ m.j + taken
  pub nop : m'.nop ≡ m.nop ++ more
  pub bounded : taken ≤ rest
  pub few : length more ≡ taken
  pub low : All (λ x. i + m.j + 1 ≤ x) more
  pub high : All (λ x. x < i + m'.j + 1) more
  pub same : (p : ℕ) → p < i + m.j + 1 → m'.code p ≡ m.code p
  pub later : (p : ℕ) → i + m'.j + 1 ≤ p → m'.code p ≡ m.code p
  pub blanks : (p : ℕ) → i + m.j + 1 ≤ p → p < i + m'.j + 1 → is_noop (m'.code p).opcode ≡ true
  pub moves : (p : ℕ) → i + m.j + 1 ≤ p → p < i + m'.j + 1 → is_reg_move (m.code p).opcode ≡ true

stay-Merged : (rest i : ℕ) (m : Moves) → Merged rest i m m
stay-Merged rest i m = record {
  more = [];
  taken = 0;
  j = omega arith;
  nop = sym (append-nil m.nop);
  bounded = omega arith;
  few = refl;
  low = tt;
  high = tt;
  same = λ p below. refl;
  later = λ p above. refl;
  blanks = λ p above below. absurd (omega (arith, above, below));
  moves = λ p above below. absurd (omega (arith, above, below));
}

-- The move right behind is taken.
abbrev pub take_move : (i : ℕ) → Moves → Moves
take_move i m =
    let at = i + m.j + 1 in
    record {
      code = write m.code at (blank (m.code at));
      nop = m.nop ++ at ∷ [];
      j = m.j + 1;
      move = (m.move + (m.code at).m_val) % word_mod;
    }

step-Merged :
    (rest i : ℕ) (m m' : Moves)
    → is_reg_move (m.code (i + m.j + 1)).opcode ≡ true
    → Merged rest i (take_move i m) m'
    → Merged (suc rest) i m m'
step-Merged rest i m m' is_move r =
    let at = i + m.j + 1 in
    let j = r.j in
    record {
      more = at ∷ r.more;
      taken = r.taken + 1;
      j = omega (arith, j);
      nop = r.nop ∙ append_assoc m.nop (at ∷ []) r.more;
      bounded = omega (arith, r.bounded);
      few = ap suc r.few ∙ omega arith;
      low = (
        omega arith,
        All-map (λ x. i + (m.j + 1) + 1 ≤ x) (λ x. at ≤ x) r.more (λ x h. omega (arith, h)) r.low,
      );
      high = (omega (arith, j), r.high);
      same = λ p below.
          r.same p (omega (arith, below))
          ∙ write_other m.code at (blank (m.code at)) p (λ e. omega (arith, below, e));
      later = λ p above.
          r.later p above
          ∙ write_other m.code at (blank (m.code at)) p (λ e. omega (arith, above, e, j));
      blanks = λ p above below. elim (Bool-cases (p == at)) [
        | inl here ↦
            let e = ==→eq p at here in
            ap (λ x. is_noop x.opcode)
              (r.same p (omega (arith, e))
                ∙ ap (write m.code at (blank (m.code at))) e
                ∙ write_same m.code at (blank (m.code at)))
        | inr off ↦ let ne = ==→ne p at off in r.blanks p (omega (arith, above, ne)) below
      ];
      moves = λ p above below. elim (Bool-cases (p == at)) [
        | inl here ↦ ap (λ q. is_reg_move (m.code q).opcode) (==→eq p at here) ∙ is_move
        | inr off ↦
            let ne = ==→ne p at off in
            ap (λ x. is_reg_move x.opcode) (sym (write_other m.code at (blank (m.code at)) p ne))
            ∙ r.moves p (omega (arith, above, ne)) below
      ];
    }

pub merge_moves-Merged : (rest i : ℕ) (m : Moves) → Merged rest i m (merge_moves rest i m)
unfolding merge_moves
merge_moves-Merged zero i m = stay-Merged zero i m
merge_moves-Merged (suc rest) i m = elim (Bool-cases (is_reg_move (m.code (i + m.j + 1)).opcode)) [
  | inl is_move ↦
      subst (λ b. Merged (suc rest) i m (if b then merge_moves rest i (take_move i m) else m))
        (sym is_move)
        (step-Merged rest i m (merge_moves rest i (take_move i m)) is_move
          (merge_moves-Merged rest i (take_move i m)))
  | inr other ↦
      subst (λ b. Merged (suc rest) i m (if b then merge_moves rest i (take_move i m) else m))
        (sym other) (stay-Merged (suc rest) i m)
]
