-- ===== src/Bytecode/Compact.antt =====
-- The second loop of `tobytecode`: where the kept instructions and the handlers go (src/vm/vm_code.c).
use mathlib.Core.Path.{subst}
use gwion.Prelude.{
  ℕ, zero, suc, ◌+◌, ◌-◌, ◌<◌, ◌≤◌, ◌≡◌, ◌≢◌, inl, inr, refl, sym, ap, ◌∙◌, Bool, true, false, some,
  List, [], ◌∷◌, length, get_elem?, ◌==◌, if◌then◌else◌, arith, Bool-cases, ==→eq, ==→ne,
}
use gwion.Bytecode.{Opcode, Code, Pass, is_noop, is_handle_effect, new_pc, relocate, second_pass}
use Opcode.{handle_effect}
use gwion.Bytecode.Noops.{place, SplitsAt, new_pc_lem}

pub place_next :
    (code : Code) (i : ℕ)
    → place code (i + 1) ≡ (if is_noop (code i).opcode then place code i else place code i + 1)
unfolding place
place_next code i = let e : i + 1 ≡ suc i = omega arith in ap (place code) e

pub place_mono : (code : Code) (a d : ℕ) → place code a ≤ place code (a + d)
place_mono code a zero = let e : a + 0 ≡ a = omega arith in rw (ap (place code) e) (omega arith)
place_mono code a (suc d) =
    let e : a + suc d ≡ a + d + 1 = omega arith in
    let rest = place_mono code a d in
    subst (λ n. place code a ≤ n) (sym (ap (place code) e ∙ place_next code (a + d)))
      (elim (Bool-cases (is_noop (code (a + d)).opcode)) [
        | inl b ↦ rw b rest
        | inr b ↦ rw b (omega (arith, rest))
      ])

pub place_le : (code : Code) (a b : ℕ) → a ≤ b → place code a ≤ place code b
place_le code a b h =
    let e : a + (b - a) ≡ b = omega (arith, h) in
    subst (λ n. place code a ≤ place code n) e (place_mono code a (b - a))

module _ (st : Pass) where
  pub second_length :
      (rest i j : ℕ)
      → place st.code i + length (second_pass rest i j st).0 ≡ place st.code (i + rest)
  unfolding second_pass
  second_length zero i j = let e : i ≡ i + 0 = omega arith in omega arith ∙ ap (place st.code) e
  second_length (suc rest) i j =
      let e : i + 1 + rest ≡ i + suc rest = omega arith in
      elim (Bool-cases (is_noop (st.code i).opcode)) [
        | inl gone ↦
            let next : place st.code (i + 1) ≡ place st.code i =
              place_next st.code i ∙ rw gone refl in
            rw gone (
              sym (ap (λ n. n + length (second_pass rest (i + 1) j st).0) next)
              ∙ second_length rest (i + 1) j
              ∙ ap (place st.code) e)
        | inr stays ↦
            let next : place st.code (i + 1) ≡ place st.code i + 1 =
              place_next st.code i ∙ rw stays refl in
            let tail = second_length rest (i + 1) (j + 1) in
            rw stays (omega (arith, next, tail) ∙ ap (place st.code) e)
      ]

  pub second_slot :
      (rest i j p d : ℕ)
      → i ≤ p
      → p < i + rest
      → is_noop (st.code p).opcode ≡ false
      → place st.code p ≡ place st.code i + d
      → get_elem? (second_pass rest i j st).0 d
        ≡ some (relocate st.nop (j + d) (st.code p) (st.bytes p))
  unfolding second_pass
  second_slot zero i j p d from to used at = absurd (omega (arith, from, to))
  second_slot (suc rest) i j p d from to used at = elim (Bool-cases (is_noop (st.code i).opcode)) [
    | inl gone ↦
        let next : place st.code (i + 1) ≡ place st.code i = place_next st.code i ∙ rw gone refl in
        let ne : p ≢ i = λ e. clash (ap (λ q. is_noop (st.code q).opcode) (sym e) ∙ used) gone in
        rw gone (
          second_slot rest (i + 1) j p d (omega (arith, from, ne)) (omega (arith, to)) used
            (at ∙ ap (λ n. n + d) (sym next)))
    | inr stays ↦
        let next : place st.code (i + 1) ≡ place st.code i + 1 =
          place_next st.code i ∙ rw stays refl in
        rw stays (elim (Bool-cases (p == i)) [
          | inl e ↦ first d p (==→eq p i e) (omega (arith, at, ap (place st.code) (==→eq p i e)))
          | inr off ↦
              let ne = ==→ne p i off in
              let above = place_le st.code (i + 1) p (omega (arith, from, ne)) in
              let shift : d ≡ suc (d - 1) = omega (arith, above, next, at) in
              subst
                (λ n.
                  get_elem?
                    (relocate st.nop j (st.code i) (st.bytes i)
                      ∷ (second_pass rest (i + 1) (j + 1) st).0)
                    n
                  ≡ some (relocate st.nop (j + n) (st.code p) (st.bytes p)))
                (sym shift)
                (second_slot rest (i + 1) (j + 1) p (d - 1) (omega (arith, from, ne))
                    (omega (arith, to)) used (omega (arith, at, next, above))
                  ∙ ap (λ n. some (relocate st.nop n (st.code p) (st.bytes p))) (omega arith))
        ])
  ]
    where
      clash : {b : Bool} → b ≡ false → b ≡ true → ⊥
      clash e f = absurd (cc)

      first :
          (d p : ℕ)
          → p ≡ i
          → d ≡ 0
          → get_elem?
              (relocate st.nop j (st.code i) (st.bytes i) ∷ (second_pass rest (i + 1) (j + 1) st).0)
              d
            ≡ some (relocate st.nop (j + d) (st.code p) (st.bytes p))
      first d p e z =
          let at_i : (n : ℕ)
              → j ≡ j + n
              → n ≡ 0
              → get_elem?
                  (relocate st.nop j (st.code i) (st.bytes i)
                    ∷ (second_pass rest (i + 1) (j + 1) st).0)
                  n
                ≡ some (relocate st.nop (j + n) (st.code i) (st.bytes i)) =
            λ n sum zero_n.
              ap
                (get_elem? (
                  relocate st.nop j (st.code i) (st.bytes i)
                  ∷ (second_pass rest (i + 1) (j + 1) st).0))
                zero_n
              ∙ ap (λ k. some (relocate st.nop k (st.code i) (st.bytes i))) sum in
          at_i d (omega (arith, z)) z
          ∙ ap (λ q. some (relocate st.nop (j + d) (st.code q) (st.bytes q))) (sym e)

-- The handlers that are kept, from `i` on, with their places and targets.
unfoldable pub kept_handlers : Code → (rest i : ℕ) → List (ℕ × ℕ)
unfolding place
kept_handlers code zero i = []
kept_handlers code (suc rest) i =
    let later = kept_handlers code rest (i + 1) in
    if is_handle_effect (code i).opcode
    then (place code i, place code (code i).m_val) ∷ later
    else later

noop_handles : (op : Opcode) → is_noop op ≡ true → is_handle_effect op ≡ false
noop_handles handle_effect e = absurd (cc)
noop_handles _ e = refl

pub second_handlers :
    (st : Pass) (rest i j : ℕ)
    → j ≡ place st.code i
    → ((p : ℕ)
        → p < i + rest
        → is_handle_effect (st.code p).opcode ≡ true
        → SplitsAt st.code st.nop (st.code p).m_val)
    → (second_pass rest i j st).1 ≡ kept_handlers st.code rest i
unfolding second_pass kept_handlers
second_handlers st zero i j at targets = refl
second_handlers st (suc rest) i j at targets =
    let next = place_next st.code i in
    let fits = λ (p : ℕ) (to : p < i + 1 + rest). targets p (omega (arith, to)) in
    elim (Bool-cases (is_noop (st.code i).opcode)) [
      | inl gone ↦
          rw (gone, noop_handles (st.code i).opcode gone)
            (second_handlers st rest (i + 1) j (at ∙ sym (next ∙ rw gone refl)) fits)
      | inr stays ↦
          let later =
            second_handlers st rest (i + 1) (j + 1)
              (ap (λ n. n + 1) at ∙ sym (next ∙ rw stays refl)) fits in
          rw stays (elim (Bool-cases (is_handle_effect (st.code i).opcode)) [
            | inl handles ↦
                let there : new_pc (st.code i).m_val st.nop ≡ place st.code (st.code i).m_val =
                  new_pc_lem st.code st.nop (st.code i).m_val (targets i (omega arith) handles) in
                rw handles (
                  ap
                    (λ n.
                      (n, new_pc (st.code i).m_val st.nop)
                      ∷ (second_pass rest (i + 1) (j + 1) st).1)
                    at
                  ∙ ap (λ n. (place st.code i, n) ∷ (second_pass rest (i + 1) (j + 1) st).1) there
                  ∙ ap (λ l. (place st.code i, place st.code (st.code i).m_val) ∷ l) later)
            | inr plain ↦ rw plain later
          ])
    ]
