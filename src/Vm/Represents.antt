-- ===== src/Vm/Represents.antt =====
-- How the register stack and the memory of a shred (src/vm/vm.c) represent the words and the variables
-- of the stack machine, and the moves of the shred.
use mathlib.Core.Path.{subst}
use gwion.Prelude.{
  ap, ℕ, ◌+◌, ◌-◌, ◌*◌, ◌≤◌, ◌<◌, ◌≡◌, ◌⊎◌, inl, inr, refl, sym, true, false, List, ◌∷◌, ◌∙◌, arith,
  length, ltb, leb, ltb→lt, leb→le, ◌||◌, Bool, ◌≢◌,
}
use gwion.Word.{word_mod}
use gwion.Vm.{Shred, Memory, poke, plus_ptr, minus_ptr, sz_int, store, push}
use gwion.Vm.Stack.{
  Stack, plus_ptr-small, minus_ptr-small, poke-other, poke-agree, Stack-outside, Stack-push,
  Stack-replace, Stack-length,
}
use gwion.Vm.Machine.{Frame, is_outside, has_room}

-- The shred runs in the frame, at an instruction, with these words on its register stack and these
-- variables outside it.
pub record Represents (f : Frame) (xs : List ℕ) (vars : Memory) (pc : ℕ) (s : Shred) : Type 0 where
  pub stack : Stack s.memory f.bottom xs s.reg
  pub fits : s.reg ≤ f.limit
  pub agrees : (p : ℕ) → is_outside f p ≡ true → s.memory p ≡ vars p
  pub mem_at : s.mem ≡ f.mem
  pub base_at : s.base ≡ f.base
  pub pc_at : s.pc ≡ pc

or-cases : (a b : Bool) → (a || b) ≡ true → (a ≡ true) ⊎ (b ≡ true)
or-cases true b e = inl refl
or-cases false b e = inr e

outside-cases : (f : Frame) (p : ℕ) → is_outside f p ≡ true → (p < f.bottom) ⊎ (f.limit ≤ p)
outside-cases f p e = elim (or-cases (ltb p f.bottom) (leb f.limit p) e) [
  | inl h ↦ inl (ltb→lt p f.bottom h)
  | inr h ↦ inr (leb→le f.limit p h)
]

-- A word of the stack is not outside it.
inside-≢ : (f : Frame) (a p : ℕ) → f.bottom ≤ a → a < f.limit → is_outside f p ≡ true → p ≢ a
inside-≢ f a p lo hi out e = elim (outside-cases f p out) [
  | inl h ↦ omega (arith, e)
  | inr h ↦ omega (arith, e)
]

pub Represents-jump :
    {f : Frame} {xs : List ℕ} {vars : Memory} {pc : ℕ} {s : Shred} (target : ℕ)
    → Represents f xs vars pc s
    → Represents f xs vars target (record s { pc = target })
Represents-jump target r = record {
  stack = r.stack;
  fits = r.fits;
  agrees = r.agrees;
  mem_at = r.mem_at;
  base_at = r.base_at;
  pc_at = refl;
}

pub Represents-advance :
    {f : Frame} {xs : List ℕ} {vars : Memory} {pc : ℕ} {s : Shred}
    → Represents f xs vars pc s
    → Represents f xs vars (pc + 1) (record s { pc = s.pc + 1 })
Represents-advance r = record {
  stack = r.stack;
  fits = r.fits;
  agrees = r.agrees;
  mem_at = r.mem_at;
  base_at = r.base_at;
  pc_at = ap (λ x. x + 1) r.pc_at;
}

pub Represents-store :
    {f : Frame} {xs : List ℕ} {vars : Memory} {pc : ℕ} {s : Shred} (p v : ℕ)
    → is_outside f p ≡ true
    → Represents f xs vars pc s
    → Represents f xs (poke vars p v) pc (store s p v)
Represents-store {f = f} {xs = xs} {vars = vars} {s = s} p v out r = record {
  stack =
      Stack-outside s.memory f.bottom f.limit xs s.reg p v r.stack r.fits (outside-cases f p out);
  fits = r.fits;
  agrees = λ q h. poke-agree s.memory vars p v q (r.agrees q h);
  mem_at = r.mem_at;
  base_at = r.base_at;
  pc_at = r.pc_at;
}

module _ {f : Frame} (small : f.limit < word_mod) {xs : List ℕ} {vars : Memory} {pc : ℕ}
    {s : Shred} where
  pub Represents-push :
      (v : ℕ)
      → has_room f xs ≡ true
      → Represents f xs vars pc s
      → Represents f (v ∷ xs) vars pc (push s v)
  Represents-push v room r =
      let reg : s.reg ≡ f.bottom + sz_int * length xs =
        Stack-length s.memory f.bottom xs s.reg r.stack in
      let above : s.reg + sz_int ≤ f.limit =
        omega (arith, leb→le (f.bottom + sz_int * length xs + sz_int) f.limit room, reg) in
      let up : plus_ptr s.reg sz_int ≡ s.reg + sz_int =
        plus_ptr-small s.reg sz_int (omega (arith, small, above)) in
      record {
        stack =
            subst (λ p. Stack (poke s.memory s.reg v) f.bottom (v ∷ xs) p) (sym up)
              (Stack-push s.memory f.bottom xs s.reg v r.stack);
        fits = omega (arith, up, above);
        agrees = λ q h.
            poke-other s.memory s.reg v q
              (inside-≢ f s.reg q (omega (arith, reg)) (omega (arith, above)) h)
            ∙ r.agrees q h;
        mem_at = r.mem_at;
        base_at = r.base_at;
        pc_at = r.pc_at;
      }

  module _ (x : ℕ) (r : Represents f (x ∷ xs) vars pc s) where
    top_address : minus_ptr s.reg sz_int ≡ s.reg - sz_int
    top_address =
        let (room, _, _) = r.stack in
        minus_ptr-small s.reg sz_int (omega (arith, room)) (omega (arith, small, r.fits))

    pub Represents-top : s.memory (minus_ptr s.reg sz_int) ≡ x
    Represents-top = let (_, top, _) = r.stack in subst (λ p. s.memory p ≡ x) (sym top_address) top

    pub Represents-pop : Represents f xs vars pc (record s { reg = minus_ptr s.reg sz_int })
    Represents-pop =
        let (room, _, st) = r.stack in
        record {
          stack = subst (λ p. Stack s.memory f.bottom xs p) (sym top_address) st;
          fits = omega (arith, top_address, r.fits);
          agrees = r.agrees;
          mem_at = r.mem_at;
          base_at = r.base_at;
          pc_at = r.pc_at;
        }

    pub Represents-replace :
        (v : ℕ) → Represents f (v ∷ xs) vars pc (store s (minus_ptr s.reg sz_int) v)
    Represents-replace v =
        let (room, _, st) = r.stack in
        record {
          stack =
              subst (λ p. Stack (poke s.memory p v) f.bottom (v ∷ xs) s.reg) (sym top_address)
                (Stack-replace s.memory f.bottom x xs s.reg v r.stack);
          fits = r.fits;
          agrees = λ q h.
              poke-other s.memory (minus_ptr s.reg sz_int) v q (
                inside-≢ f (minus_ptr s.reg sz_int) q (omega (arith, top_address, room))
                  (omega (arith, top_address, room, r.fits)) h)
              ∙ r.agrees q h;
          mem_at = r.mem_at;
          base_at = r.base_at;
          pc_at = r.pc_at;
        }
