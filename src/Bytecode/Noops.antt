-- ===== src/Bytecode/Noops.antt =====
-- How many instructions before a place do nothing, and where a jump to it goes (src/vm/vm_code.c).
use mathlib.Core.Path.{subst}
use gwion.Prelude.{
  ℕ, zero, suc, ◌+◌, ◌-◌, ◌<◌, ◌≤◌, ◌≡◌, refl, sym, ap, ◌∙◌, true, false, List, [], ◌∷◌, ◌++◌, All,
  length, ltb, leb, if◌then◌else◌, arith,
}
use gwion.Bytecode.{Code, is_noop, nops_before, new_pc}

unfoldable pub noops : Code → ℕ → ℕ
noops code zero = 0
noops code (suc n) = if is_noop (code n).opcode then noops code n + 1 else noops code n

-- The place that an instruction has when those that do nothing are left out.
unfoldable pub place : Code → ℕ → ℕ
place code zero = 0
place code (suc n) = if is_noop (code n).opcode then place code n else place code n + 1

pub place-add-noops : (code : Code) (n : ℕ) → place code n + noops code n ≡ n
unfolding place noops
place-add-noops code zero = omega arith
place-add-noops code (suc n) = ground (arith, place-add-noops code n)

pub noops_mono : (code : Code) (a d : ℕ) → noops code a ≤ noops code (a + d)
unfolding noops
noops_mono code a zero = let e : a + 0 ≡ a = omega arith in rw (ap (noops code) e) (omega arith)
noops_mono code a (suc d) =
    let e : a + suc d ≡ suc (a + d) = omega arith in
    let rest = noops_mono code a d in
    subst (λ n. noops code a ≤ n) (sym (ap (noops code) e)) (up rest)
  where
    up : noops code a ≤ noops code (a + d) → noops code a ≤ noops code (suc (a + d))
    up rest = ground (arith, rest)

pub noops_same :
    (code code' : Code) (n : ℕ)
    → ((p : ℕ) → p < n → code p ≡ code' p)
    → noops code n ≡ noops code' n
unfolding noops
noops_same code code' zero same = refl
noops_same code code' (suc n) same =
    let rest = noops_same code code' n (λ p below. same p (omega (arith, below))) in
    ap (λ x. if is_noop x.opcode then noops code n + 1 else noops code n) (same n (omega arith))
    ∙ ap (λ k. if is_noop (code' n).opcode then k + 1 else k) rest

-- A stretch of instructions that do nothing.
pub noops_run :
    (code : Code) (s k : ℕ)
    → ((p : ℕ) → s ≤ p → p < s + k → is_noop (code p).opcode ≡ true)
    → noops code (s + k) ≡ noops code s + k
unfolding noops
noops_run code s zero blank = let e : s + 0 ≡ s = omega arith in ap (noops code) e ∙ omega arith
noops_run code s (suc k) blank =
    let e : s + suc k ≡ suc (s + k) = omega arith in
    let rest = noops_run code s k (λ p from below. blank p from (omega (arith, below))) in
    ap (noops code) e
    ∙ (ap (λ b. if b then noops code (s + k) + 1 else noops code (s + k))
          (blank (s + k) (omega arith) (omega arith))
        ∙ omega (arith, rest))

pub All-append : (P : ℕ → Type 0) (xs ys : List ℕ) → All P xs → All P ys → All P (xs ++ ys)
All-append P [] ys hs ks = ks
All-append P (x ∷ xs) ys (h, hs) ks = (h, All-append P xs ys hs ks)

pub All-map : (P Q : ℕ → Type 0) (xs : List ℕ) → ((x : ℕ) → P x → Q x) → All P xs → All Q xs
All-map P Q [] f hs = tt
All-map P Q (x ∷ xs) f (h, hs) = (f x h, All-map P Q xs f hs)

-- The places left out are those before `t`, as many as instructions there do nothing, and then others.
pub record SplitsAt (code : Code) (nop : List ℕ) (t : ℕ) : Type 0 where
  pub before : List ℕ
  pub after : List ℕ
  pub parts : nop ≡ before ++ after
  pub all_before : All (λ x. x < t) before
  pub all_after : All (λ x. t ≤ x) after
  pub count : length before ≡ noops code t

nops_before-append :
    (t : ℕ) (xs ys : List ℕ)
    → All (λ x. x < t) xs
    → All (λ x. t ≤ x) ys
    → nops_before t (xs ++ ys) ≡ length xs
unfolding nops_before
nops_before-append t [] [] hs ks = refl
nops_before-append t [] (y ∷ ys) hs (k, ks) = ground (arith, k)
nops_before-append t (x ∷ xs) ys (h, hs) ks =
    let rest = nops_before-append t xs ys hs ks in
    rw (at_least t x h) (ap (λ n. n + 1) rest ∙ omega arith)
  where
    at_least : (t x : ℕ) → x < t → leb t x ≡ false
    at_least t x h = ground (arith, h)

pub new_pc_lem :
    (code : Code) (nop : List ℕ) (t : ℕ) → SplitsAt code nop t → new_pc t nop ≡ place code t
unfolding new_pc
new_pc_lem code nop t s =
    let at : nops_before t nop ≡ noops code t =
      ap (nops_before t) s.parts
      ∙ nops_before-append t s.before s.after s.all_before s.all_after
      ∙ s.count in
    ap (λ n. if ltb n t then t - n else 0) at ∙ ground (arith, place-add-noops code t)
