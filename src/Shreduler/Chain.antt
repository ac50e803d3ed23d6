-- ===== src/Shreduler/Chain.antt =====
-- What it is for the ticks of a heap to form a doubly linked list, and which writes keep it one.
use gwion.Prelude.{◌≡◌, refl, ◌≢◌, List, [], ◌∷◌, arith, ◌∙◌, ◌∈◌, ◌∉◌, Distinct}
use gwion.Shreduler.{Ptr, null, Ticks, write, link_front, link_after}

module _ {F V : Type 0} where
  -- From `p` the `next` pointers lead through `qs` to null, and each `prev` points back.
  abbrev pub Chain : Ticks F V → Ptr → Ptr → List Ptr → Type 0
  Chain h before p [] = p ≡ null
  Chain h before p (q ∷ qs) = (p ≡ q) × (q ≢ null) × ((h q).prev ≡ before) × Chain h q (h q).next qs

  abbrev pub SameLinks : Ticks F V → Ticks F V → Ptr → Type 0
  SameLinks g h a = ((g a).prev ≡ (h a).prev) × ((g a).next ≡ (h a).next)

  -- The tick at `a` is the same but for its links and its wake-up time.
  abbrev pub SameBody : Ticks F V → Ticks F V → Ptr → Type 0
  SameBody g h a =
      ((g a).self ≡ (h a).self)
      × ((g a).child ≡ (h a).child)
      × ((g a).parent ≡ (h a).parent)
      × ((g a).xid ≡ (h a).xid)

  -- `g` has the links of `h` at every address that is not in `xs`.
  abbrev pub SameOutside : List Ptr → Ticks F V → Ticks F V → Type 0
  SameOutside xs h g = (a : Ptr) → a ∉ xs → SameLinks g h a

  pub frame :
      (g h : Ticks F V) (before p : Ptr) (qs : List Ptr)
      → ((a : Ptr) → a ∈ qs → SameLinks g h a)
      → Chain h before p qs
      → Chain g before p qs
  frame g h before p [] same c = c
  frame g h before p (q ∷ qs) same (at, ne, back, c) =
      let (sp, sn) = same q (ground arith) in
      (at, ne, sp ∙ back, rw sn (frame g h q (h q).next qs (λ a i. same a (ground arith)) c))

  pub null-not-mem :
      (h : Ticks F V) (before p : Ptr) (qs : List Ptr) → Chain h before p qs → null ∉ qs
  null-not-mem h before p [] c = refl
  null-not-mem h before p (q ∷ qs) c = ground (arith, null-not-mem h q (h q).next qs c.3)

  -- Linking `tk` behind `prev` touches `tk`, `prev` and the tick behind `prev` only.
  pub link_after-same :
      (h : Ticks F V) (tk prev a : Ptr)
      → tk ≢ prev
      → a ∉ (tk ∷ prev ∷ [])
      → (a ≡ (h prev).next → a ≡ null)
      → SameLinks (link_after h tk prev) h a
  unfolding link_after write
  link_after-same h tk prev a ne out next = ground arith

  pub link_after-Chain :
      (h : Ticks F V) (tk before prev : Ptr) (qs : List Ptr)
      → tk ≢ null
      → tk ∉ (prev ∷ qs)
      → Distinct (prev ∷ qs)
      → Chain h before prev (prev ∷ qs)
      → Chain (link_after h tk prev) before prev (prev ∷ tk ∷ qs)
  unfolding link_after write
  link_after-Chain h tk before prev [] some_tk out apart c = ground arith
  link_after-Chain h tk before prev (q ∷ qs) some_tk out apart
        (at, ne, back, (at', ne', back', c)) =
      let g = link_after h tk prev in
      let same : (a : Ptr) → a ∈ qs → SameLinks g h a = λ a i. ground arith in
      let stay : (g q).next ≡ (h q).next = ground arith in
      (
        refl,
        ne,
        ground arith,
        (
          ground arith,
          some_tk,
          ground arith,
          (ground arith, ne', ground arith, rw stay (frame g h q (h q).next qs same c)),
        ),
      )

  pub link_front-Chain :
      (h : Ticks F V) (tk : Ptr) (q : Ptr) (qs : List Ptr)
      → tk ≢ null
      → (h tk).prev ≡ null
      → tk ∉ (q ∷ qs)
      → Distinct (q ∷ qs)
      → Chain h null q (q ∷ qs)
      → Chain (link_front h tk q) null tk (tk ∷ q ∷ qs)
  unfolding link_front write
  link_front-Chain h tk q qs some_tk free out apart (at, ne, back, c) =
      let g = link_front h tk q in
      let same : (a : Ptr) → a ∈ qs → SameLinks g h a = λ a i. ground arith in
      let stay : (g q).next ≡ (h q).next = ground arith in
      (
        refl,
        some_tk,
        ground arith,
        (ground arith, ne, ground arith, rw stay (frame g h q (h q).next qs same c)),
      )

  -- Links alone are written: every wake-up time stays.
  pub link_after-wake_time :
      (h : Ticks F V) (tk prev a : Ptr) → (link_after h tk prev a).wake_time ≡ (h a).wake_time
  unfolding link_after write
  link_after-wake_time h tk prev a = ground arith

  pub link_after-body : (h : Ticks F V) (tk prev a : Ptr) → SameBody (link_after h tk prev) h a
  unfolding link_after write
  link_after-body h tk prev a = ground arith

  pub link_front-body : (h : Ticks F V) (tk q a : Ptr) → SameBody (link_front h tk q) h a
  unfolding link_front write
  link_front-body h tk q a = ground arith

  pub link_front-wake_time :
      (h : Ticks F V) (tk q a : Ptr) → (link_front h tk q a).wake_time ≡ (h a).wake_time
  unfolding link_front write
  link_front-wake_time h tk q a = ground arith
