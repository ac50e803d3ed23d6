-- ===== src/Vm/Stack.antt =====
-- The register stack of a shred (src/vm/vm.c) as a list of words: those between the bottom of the
-- stack and `reg`, the top one first.
use mathlib.Core.Path.{subst}
use gwion.Prelude.{
  ap, ℕ, ◌+◌, ◌-◌, ◌*◌, ◌≤◌, ◌<◌, ◌≡◌, ◌⊎◌, inl, inr, refl, List, [], ◌∷◌, ◌∙◌, arith, ◌==◌, length,
  if◌then◌else◌, ◌≢◌, ne→==, ==-refl,
}
use gwion.Word.{word_mod}
use gwion.Vm.{Memory, poke, plus_ptr, minus_ptr, sz_int}

abbrev pub Stack : Memory → (bottom : ℕ) → List ℕ → ℕ → Type 0
Stack m bottom [] reg = reg ≡ bottom
Stack m bottom (x ∷ xs) reg =
    (bottom + sz_int ≤ reg) × (m (reg - sz_int) ≡ x) × Stack m bottom xs (reg - sz_int)

pub plus_ptr-small : (p n : ℕ) → p + n < word_mod → plus_ptr p n ≡ p + n
plus_ptr-small p n h = omega arith

pub minus_ptr-small : (p n : ℕ) → n ≤ p → p < word_mod → minus_ptr p n ≡ p - n
minus_ptr-small p n h k = omega arith

pub poke-same : (m : Memory) (p v : ℕ) → poke m p v p ≡ v
unfolding poke
poke-same m p v = rw (==-refl p) refl

pub poke-other : (m : Memory) (p v a : ℕ) → a ≢ p → poke m p v a ≡ m a
unfolding poke
poke-other m p v a d = rw (ne→== a p d) refl

pub poke-agree : (m m' : Memory) (p v a : ℕ) → m a ≡ m' a → poke m p v a ≡ poke m' p v a
unfolding poke
poke-agree m m' p v a e = ap (λ x. if a == p then v else x) e

pub Stack-length :
    (m : Memory) (bottom : ℕ) (xs : List ℕ) (reg : ℕ)
    → Stack m bottom xs reg
    → reg ≡ bottom + sz_int * length xs
Stack-length m bottom [] reg st = omega (arith, st)
Stack-length m bottom (x ∷ xs) reg (room, _, st) =
    omega (arith, room, Stack-length m bottom xs (reg - sz_int) st)

-- The bottom of a stack lies below its top.
pub Stack-≤ :
    (m : Memory) (bottom : ℕ) (xs : List ℕ) (reg : ℕ) → Stack m bottom xs reg → bottom ≤ reg
Stack-≤ m bottom [] reg st = omega (arith, st)
Stack-≤ m bottom (x ∷ xs) reg (room, _, st) = omega arith

-- A stack does not depend on the words outside it.
pub Stack-frame :
    (m m' : Memory) (bottom : ℕ) (xs : List ℕ) (reg : ℕ)
    → Stack m bottom xs reg
    → ((a : ℕ) → bottom ≤ a → a < reg → m' a ≡ m a)
    → Stack m' bottom xs reg
Stack-frame m m' bottom [] reg st same = st
Stack-frame m m' bottom (x ∷ xs) reg (room, top, st) same = (
  room,
  same (reg - sz_int) (omega arith) (omega arith) ∙ top,
  Stack-frame m m' bottom xs (reg - sz_int) st (λ a lo hi. same a lo (omega arith)),
)

-- A word outside the stack is written.
pub Stack-outside :
    (m : Memory) (bottom limit : ℕ) (xs : List ℕ) (reg p v : ℕ)
    → Stack m bottom xs reg
    → reg ≤ limit
    → (p < bottom) ⊎ (limit ≤ p)
    → Stack (poke m p v) bottom xs reg
Stack-outside m bottom limit xs reg p v st fits out =
    Stack-frame m (poke m p v) bottom xs reg st (λ a lo hi.
      poke-other m p v a (λ e. elim out [ inl h ↦ omega (arith, e) | inr h ↦ omega (arith, e) ]))

-- A word is pushed.
pub Stack-push :
    (m : Memory) (bottom : ℕ) (xs : List ℕ) (reg v : ℕ)
    → Stack m bottom xs reg
    → Stack (poke m reg v) bottom (v ∷ xs) (reg + sz_int)
Stack-push m bottom xs reg v st =
    let back : reg ≡ reg + sz_int - sz_int = omega arith in
    (
      omega (arith, Stack-≤ m bottom xs reg st),
      subst (λ a. poke m reg v a ≡ v) back (poke-same m reg v),
      subst (λ r. Stack (poke m reg v) bottom xs r) back
          (Stack-frame m (poke m reg v) bottom xs reg st
            (λ a lo hi. poke-other m reg v a (λ e. omega arith))),
    )

-- The top word is replaced.
pub Stack-replace :
    (m : Memory) (bottom : ℕ) (x : ℕ) (xs : List ℕ) (reg v : ℕ)
    → Stack m bottom (x ∷ xs) reg
    → Stack (poke m (reg - sz_int) v) bottom (v ∷ xs) reg
Stack-replace m bottom x xs reg v (room, top, st) = (
  room,
  poke-same m (reg - sz_int) v,
  Stack-frame m (poke m (reg - sz_int) v) bottom xs (reg - sz_int) st
      (λ a lo hi. poke-other m (reg - sz_int) v a (λ e. omega arith)),
)
