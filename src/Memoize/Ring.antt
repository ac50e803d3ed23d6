-- ===== src/Memoize/Ring.antt =====
-- The ring of remembered calls of src/emit/memoize.c: its bound, and reading what was stored.
use native.Mathlib.Nat.{mod-lt}
use gwion.Prelude.{
  leb→lt, ℕ, ◌+◌, ◌%◌, ◌^◌, ◌<◌, ◌≤◌, ◌≡◌, ◌≢◌, refl, ap, ◌∙◌, inl, inr, List, [], ◌∷◌, ◌++◌, some,
  none, arith, length, length-append, get_or, leb, lt→ltb, leb→le, ◌==◌, ne→==, ==-refl, Bool-cases,
  if◌then◌else◌,
}
use gwion.Vector.{VectorOps, VectorLaws}
use gwion.Memoize.{Memoize, Data, Entries, get_data, memoize_store, memoize_ini_at}

get_or-append : (xs : List ℕ) (x : ℕ) → get_or (xs ++ x ∷ []) (length xs) 0 ≡ x
get_or-append [] x = refl
get_or-append (y ∷ xs) x = get_or-append xs x

module _ {V : Type 0} ⦃vo : VectorOps V⦄ (laws : VectorLaws vo) where
  pub record IsRing (m : Memoize V) : Type 0 where
    pub some_limit : m.limit ≢ 0
    pub bounded : vo.size m.v ≤ m.limit

  -- Where a call is written: at an index of the new vector, which keeps to the limit.
  get_data-IsRing :
      (fresh : ℕ) (m : Memoize V)
      → IsRing m
      → (slot : ℕ) × (m' : Memoize V) × (i : ℕ) × (get_data fresh m ≡ some (slot, m'))
        × IsRing m'
        × (i < vo.size m'.v)
        × (vo.at m'.v i ≡ slot)
  unfolding get_data
  get_data-IsRing fresh m ring = elim (Bool-cases (leb m.limit (vo.size m.v))) [
    | inl full ↦
        let i = m.curr % m.limit in
        (
          vo.at m.v i,
          record m { curr = (m.curr + 1) % 2 ^ 64 },
          i,
          rw (get_data, full, ne→== m.limit 0 ring.some_limit) refl,
          record { some_limit = ring.some_limit; bounded = ring.bounded },
          omega (
            arith,
            mod-lt m.curr {m = m.limit} (omega (arith, ring.some_limit)),
            leb→le m.limit (vo.size m.v) full,
          ),
          refl,
        )
    | inr grows ↦
        let old = laws.items m.v in
        let added : laws.items (vo.add m.v fresh) ≡ old ++ fresh ∷ [] = laws.items-add m.v fresh in
        let longer : vo.size (vo.add m.v fresh) ≡ length old + 1 =
          laws.size_lem (vo.add m.v fresh) ∙ ap length added ∙ length-append old (fresh ∷ []) in
        let room : vo.size m.v < m.limit = leb→lt m.limit (vo.size m.v) grows in
        (
          fresh,
          record m { v = vo.add m.v fresh },
          length old,
          rw (get_data, grows) refl,
          record {
            some_limit = ring.some_limit;
            bounded = omega (arith, longer, room, laws.size_lem m.v);
          },
          omega (arith, longer),
          laws.at_lem (vo.add m.v fresh) (length old)
              ∙ ap (λ xs. get_or xs (length old) 0) added
              ∙ get_or-append old fresh,
        )
  ]

  -- A remembered call is found again at some index below the size of the vector, its result stands at
  -- the same address, every other address keeps its call, and no more than `limit` calls are
  -- remembered: for a limit that is not zero and was kept to before.
  pub memoize_store-IsRing :
      (fresh : ℕ) (m : Memoize V) (entries : Entries) (args ret : List ℕ)
      → IsRing m
      → (m' : Memoize V) × (entries' : Entries) × (i : ℕ) × (slot : ℕ) × (memoize_store fresh m
            entries args ret
          ≡ some (m', entries'))
        × IsRing m'
        × (i < vo.size m'.v)
        × (memoize_ini_at m' entries' i ≡ some args)
        × (vo.at m'.v i ≡ slot)
        × (entries' slot ≡ record { args = args; ret = ret })
        × ((a : ℕ) → a ≢ slot → entries' a ≡ entries a)
  unfolding memoize_store memoize_ini_at
  memoize_store-IsRing fresh m entries args ret ring =
      let (slot, m', i, runs, ring', inside, here) = get_data-IsRing fresh m ring in
      let call : Data = record { args = args; ret = ret } in
      let written : Entries = λ a. if a == slot then call else entries a in
      let read : written slot ≡ call = ap (λ b. if b then call else entries slot) (==-refl slot) in
      (
        m',
        written,
        i,
        slot,
        rw (memoize_store, runs) refl,
        ring',
        inside,
        ap (λ b. if b then some (written (vo.at m'.v i)).args else none)
              (lt→ltb i (vo.size m'.v) inside)
            ∙ ap (λ p. some (written p).args) here
            ∙ ap (λ d. some d.args) read,
        here,
        read,
        λ a ne. ap (λ b. if b then call else entries a) (ne→== a slot ne),
      )
