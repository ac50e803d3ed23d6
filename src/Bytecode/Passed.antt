-- ===== src/Bytecode/Passed.antt =====
-- What rounds of the first loop of `tobytecode` leave (src/vm/vm_code.c).
use mathlib.Core.Path.{subst}
use mathlib.Core.List.{append-nil, append_assoc}
use gwion.Prelude.{
  ℕ, zero, suc, ◌<◌, ◌≤◌, ◌≡◌, ◌≢◌, inl, inr, refl, sym, ap, ◌∙◌, Bool, true, false, ◌&&◌, List, [],
  ◌++◌, All, length, length-append, ◌==◌, ltb, arith, Bool-cases, ltb→lt, ltb→le, ==→eq, ==→ne,
}
use gwion.Bytecode.{Code, Pass, is_noop, is_reg_move}
use gwion.Bytecode.Noops.{noops, noops_same, SplitsAt, All-append, All-map}
use gwion.Bytecode.Round.{Round, is_vm_in, slot_of}

-- A place between moves that follow each other.
abbrev pub inside_moves : Code → ℕ → Bool
inside_moves c zero = false
inside_moves c (suc t) = is_reg_move (c (suc t)).opcode && is_reg_move (c t).opcode

-- What the rounds before `i` leave.
pub record Good (c : Code) (i : ℕ) (st : Pass) : Type 0 where
  pub before : All (λ x. x < i) st.nop
  pub count : length st.nop ≡ noops st.code i
  pub moves_only :
      (p : ℕ) → i ≤ p → is_reg_move (st.code p).opcode ≡ true → is_reg_move (c p).opcode ≡ true
  pub no_vm_in : (p : ℕ) → i ≤ p → is_vm_in (st.code p).opcode ≡ false

-- What the rounds from `i` on leave: `nop` can be split at every place that is not between moves.
pub record Passed (c : Code) (size i : ℕ) (st st' : Pass) : Type 0 where
  pub more : List ℕ
  pub nop : st'.nop ≡ st.nop ++ more
  pub low : All (λ x. i ≤ x) more
  pub count : length st'.nop ≡ noops st'.code size
  pub same : (p : ℕ) → p < i → st'.code p ≡ st.code p
  pub bytes_old : (p : ℕ) → p < i → st'.bytes p ≡ st.bytes p
  pub bytes_new :
      (p : ℕ)
      → i ≤ p
      → p < size
      → is_noop (st'.code p).opcode ≡ false
      → st'.bytes p ≡ slot_of (st'.code p) p
  pub splits : (t : ℕ) → i ≤ t → t ≤ size → inside_moves c t ≡ false → SplitsAt st'.code st'.nop t

pub next-Good :
    {c : Code} {st st1 : Pass} {i i1 : ℕ} → Round st st1 i i1 → Good c i st → Good c i1 st1
next-Good {c} {st} {st1} {i} {i1} r g =
    let forward = r.forward in
    let count = r.count in
    let old = g.count in
    let long = ap length r.nop ∙ length-append st.nop r.more in
    record {
      before = subst (All (λ x. x < i1)) (sym r.nop) (
          All-append (λ x. x < i1) st.nop r.more
            (All-map (λ x. x < i) (λ x. x < i1) st.nop (λ x h. omega (arith, h, forward)) g.before)
            r.high);
      count = omega (arith, count, old, long);
      moves_only =
          λ p above h. g.moves_only p (omega (arith, above, forward)) (r.moves_only p above h);
      no_vm_in = λ p above. r.no_vm_in p above (g.no_vm_in p (omega (arith, above, forward)));
    }

-- The rounds are over.
pub end-Passed :
    (c : Code) (size i : ℕ) (st : Pass) → size ≤ i → i ≤ size → Good c i st → Passed c size i st st
end-Passed c size i st above below g = record {
  more = [];
  nop = sym (append-nil st.nop);
  low = tt;
  count = let e : i ≡ size = omega (arith, above, below) in g.count ∙ ap (noops st.code) e;
  same = λ p h. refl;
  bytes_old = λ p h. refl;
  bytes_new = λ p from to used. absurd (omega (arith, above, from, to));
  splits = λ t from to out.
      let e : i ≡ t = omega (arith, above, below, from, to) in
      subst (SplitsAt st.code st.nop) e (record {
        before = st.nop;
        after = [];
        parts = sym (append-nil st.nop);
        all_before = g.before;
        all_after = tt;
        count = g.count;
      });
}

-- One round and those behind it.
pub step-Passed :
    (c : Code) (size i i1 : ℕ) (st st1 st' : Pass)
    → Good c i st
    → Round st st1 i i1
    → Passed c size i1 st1 st'
    → Passed c size i st st'
step-Passed c size i i1 st st1 st' g r p =
    let forward = r.forward in
    let nop : st'.nop ≡ st.nop ++ (r.more ++ p.more) =
      p.nop ∙ ap (λ l. l ++ p.more) r.nop ∙ append_assoc st.nop r.more p.more in
    let low : All (λ x. i ≤ x) (r.more ++ p.more) =
      All-append (λ x. i ≤ x) r.more p.more r.low
        (All-map (λ x. i1 ≤ x) (λ x. i ≤ x) p.more (λ x h. omega (arith, h, forward)) p.low) in
    let same : (q : ℕ) → q < i → st'.code q ≡ st.code q =
      λ q h. p.same q (omega (arith, h, forward)) ∙ r.same q h in
    record {
      more = r.more ++ p.more;
      nop = nop;
      low = low;
      count = p.count;
      same = same;
      bytes_old = λ q h. p.bytes_old q (omega (arith, h, forward)) ∙ r.bytes_old q h;
      bytes_new = λ q from to used. elim (Bool-cases (ltb q i1)) [
        | inl near ↦
            let h = ltb→lt q i1 near in
            let e = p.same q h in
            p.bytes_old q h
            ∙ r.bytes_new q from h (ap (λ x. is_noop x.opcode) (sym e) ∙ used)
            ∙ ap (λ x. slot_of x q) (sym e)
        | inr far ↦ p.bytes_new q (ltb→le q i1 far) to used
      ];
      splits = λ t from to out. elim (Bool-cases (ltb t i1)) [
        | inr far ↦ p.splits t (ltb→le t i1 far) to out
        | inl near ↦ elim (Bool-cases (t == i)) [
          | inl at ↦ subst (SplitsAt st'.code st'.nop) (sym (==→eq t i at)) (record {
            before = st.nop;
            after = r.more ++ p.more;
            parts = nop;
            all_before = g.before;
            all_after = low;
            count = g.count ∙ noops_same st.code st'.code i (λ q h. sym (same q h));
          })
          | inr off ↦ let ne = ==→ne t i off in skip t from (ltb→lt t i1 near) ne out
        ]
      ];
    }
  where
    skip : (t : ℕ) → i ≤ t → t < i1 → t ≢ i → inside_moves c t ≡ false → SplitsAt st'.code st'.nop t
    skip zero from below ne out = absurd (omega (arith, from, ne))
    skip (suc t) from below ne out =
        let (first, second) = r.skipped t (omega (arith, from, ne)) below in
        let first = g.moves_only (suc t) from first in
        let second = g.moves_only t (omega (arith, from, ne)) second in
        let both : inside_moves c (suc t) ≡ true = rw (first, second) refl in absurd (cc)
