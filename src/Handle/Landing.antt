-- ===== src/Handle/Landing.antt =====
-- Where unwinding (src/vm/vm.c) is to end, on lists of frames and of the places where tries end.
use gwion.Prelude.{
  ℕ, zero, suc, ◌+◌, ◌-◌, ◌%◌, ◌^◌, ◌≡◌, refl, true, false, ◌&&◌, ◌||◌, Option, none, some, List,
  [], ◌∷◌, arith, ◌==◌, ltb, if◌then◌else◌, Bool-cases, inl, inr,
}
use gwion.Calls.{Frame}
use gwion.Handle.{Indexed, Code, find_pc, find_from}

-- At a place of a code with the frames that are left; nowhere; or in a code whose last try opened behind
-- the place where it stands, at whatever place.
pub data Landing : Type 0 where
  at : (code pc : ℕ) → List Frame → Landing
  nowhere astray : Landing

-- The tries of a code, by the places where they end.
abbrev pub places : {M : Type 0} → Indexed M ℕ → M → (i count : ℕ) → List ℕ
places keys m i zero = []
places keys m i (suc count) = keys.at m i ∷ places keys m (i + 1) count

-- The first try that ends behind `pc` and takes the effect, or takes any.
unfoldable pub first_try : (takes : ℕ → ℕ) (effect pc : ℕ) → List ℕ → Option ℕ
first_try takes effect pc [] = none
first_try takes effect pc (k ∷ ks) =
    if ltb pc k && ((takes k == effect) || (takes k == 0))
    then some k
    else first_try takes effect pc ks

-- The handler stands right behind the end of the try, at a place of 16 bits, of which 0 is none.
abbrev pub behind : (code : ℕ) → List Frame → Option ℕ → Landing
behind code fs none = nowhere
behind code fs (some k) = if (k + 1) % 2 ^ 16 == 0 then nowhere else at code ((k + 1) % 2 ^ 16) fs

abbrev pub place_behind : Option ℕ → ℕ
place_behind none = 0
place_behind (some k) = (k + 1) % 2 ^ 16

module _ {M L : Type 0} (keys : Indexed M ℕ) (code_of : ℕ → Code M L) (effect : ℕ) where
  abbrev pub try_here : (start code pc : ℕ) → M → Option ℕ
  try_here start code pc m =
      if ltb start pc
      then first_try (λ k. ((code_of code).instr k).m_val2) effect pc
          (places keys m 0 (keys.size m))
      else none

  abbrev pub landed : (start code pc : ℕ) → List Frame → Option M → (rest : Landing) → Landing
  landed start code pc fs none rest = rest
  landed start code pc fs (some m) rest =
      if ltb pc start then astray else behind code fs (try_here start code pc m)

  -- Where unwinding ends: in the first code with handlers, at the handler for the effect if there is one;
  -- else, or at the last frame, or when the count of tries is used up, nowhere.
  unfoldable pub landing : (start size code pc : ℕ) → List Frame → Landing
  landing start size code pc [] =
      if size == 0 then nowhere else landed start code pc [] (code_of code).handlers nowhere
  landing start size code pc (x ∷ fs) =
      let less = if code == x.code then size else size - 1 in
      let rest = landing start less x.code x.pc fs in
      if size == 0 then nowhere else landed start code pc (x ∷ fs) (code_of code).handlers rest

  find_from_lem :
      (code : ℕ) (m : M) (start pc i count : ℕ)
      → ltb start pc ≡ true
      → find_from keys (code_of code) effect m start pc i count
        ≡ place_behind
            (first_try (λ k. ((code_of code).instr k).m_val2) effect pc (places keys m i count))
  unfolding find_from first_try
  find_from_lem code m start pc i zero inside = refl
  find_from_lem code m start pc i (suc count) inside =
      let rest = find_from_lem code m start pc (i + 1) count inside in ground (arith, rest)

  find_from-outside :
      (code : ℕ) (m : M) (start pc i count : ℕ)
      → ltb start pc ≡ false
      → find_from keys (code_of code) effect m start pc i count ≡ 0
  unfolding find_from
  find_from-outside code m start pc i zero outside = refl
  find_from-outside code m start pc i (suc count) outside =
      let rest = find_from-outside code m start pc (i + 1) count outside in ground (arith, rest)

  -- `find_pc` in a try.
  pub find_pc_lem :
      (code start pc : ℕ) (m : M)
      → ltb pc start ≡ false
      → find_pc keys (code_of code) effect m start pc ≡ place_behind (try_here start code pc m)
  unfolding find_pc
  find_pc_lem code start pc m late = elim (Bool-cases (ltb start pc)) [
    | inl inside ↦ rw (late, inside) (find_from_lem code m start pc 0 (keys.size m) inside)
    | inr outside ↦ rw (late, outside) (find_from-outside code m start pc 0 (keys.size m) outside)
  ]
