-- ===== src/Shreduler/Insert.antt =====
-- `_shredule` of src/vm/shreduler.c: the walk to the place of a tick, and the links that are made.
use gwion.Prelude.{
  ℕ, zero, suc, ◌<◌, ◌≡◌, refl, ◌≢◌, false, List, [], ◌∷◌, some, arith, ◌∉◌, Distinct, length,
  if◌then◌else◌, Bool-cases, inl, inr, ne→==, ◌∙◌, sym,
}
use mathlib.Core.Path.{subst}
use gwion.Float.{FloatOps}
use gwion.Shreduler.{Ptr, null, Ticks, last_due, link_front, link_after, enqueue}
use gwion.Shreduler.Chain.{
  Chain, SameOutside, link_after-same, link_after-Chain, link_front-Chain, link_after-wake_time,
  link_front-wake_time, SameBody, link_after-body, link_front-body,
}

module _ {F V : Type 0} ⦃o : FloatOps F⦄ where
  -- The order in which the shreds are to wake once `tk` is to wake at `w`.
  unfoldable pub insert_due : Ticks F V → F → Ptr → List Ptr → List Ptr
  insert_due h w tk [] = tk ∷ []
  insert_due h w tk (q ∷ qs) =
      if o.lt w (h q).wake_time then tk ∷ q ∷ qs else q ∷ insert_due h w tk qs

  -- The state of the walk once `prev` is known to be due no later.
  record Linked (h : Ticks F V) (w : F) (tk before prev : Ptr) (qs : List Ptr) (found : Ptr)
      : Type 0 where
    some_found : found ≢ null
    chain : Chain (link_after h tk found) before prev (prev ∷ insert_due h w tk qs)
    same : SameOutside (tk ∷ prev ∷ qs) h (link_after h tk found)

  null_of_next :
      (h : Ticks F V) (before prev a : Ptr) (qs : List Ptr)
      → Chain h before prev (prev ∷ qs)
      → a ∉ qs
      → a ≡ (h prev).next
      → a ≡ null
  null_of_next h before prev a [] c out e = e ∙ c.3
  null_of_next h before prev a (q ∷ qs) c out e = absurd (ground arith)

  -- The walk ends at `prev`.
  Linked-here :
      (h : Ticks F V) (w : F) (tk before prev : Ptr) (qs : List Ptr)
      → tk ≢ null
      → tk ∉ (prev ∷ qs)
      → Distinct (prev ∷ qs)
      → Chain h before prev (prev ∷ qs)
      → insert_due h w tk qs ≡ tk ∷ qs
      → Linked h w tk before prev qs prev
  Linked-here h w tk before prev qs some_tk out apart c front = record {
    some_found = c.1;
    chain = rw front (link_after-Chain h tk before prev qs some_tk out apart c);
    same = λ a o'.
        link_after-same h tk prev a (ground arith) (ground arith)
          (λ e. null_of_next h before prev a qs c (ground arith) e);
  }

  -- The walk goes on to the next tick.
  Linked-step :
      (h : Ticks F V) (w : F) (tk before prev q found : Ptr) (qs : List Ptr)
      → tk ∉ (prev ∷ q ∷ qs)
      → Distinct (prev ∷ q ∷ qs)
      → Chain h before prev (prev ∷ q ∷ qs)
      → o.lt w (h q).wake_time ≡ false
      → Linked h w tk prev q qs found
      → Linked h w tk before prev (q ∷ qs) found
  unfolding insert_due
  Linked-step h w tk before prev q found qs out apart c due l =
      let (sp, sn) = l.same prev (ground arith) in
      record {
        some_found = l.some_found;
        chain = rw due (refl, c.1, sp ∙ c.2, rw (sn, c.3.0) l.chain);
        same = λ a o'. l.same a (ground arith);
      }

  last_due-Linked :
      (fuel : ℕ) (h : Ticks F V) (w : F) (tk before prev : Ptr) (qs : List Ptr)
      → length qs < fuel
      → tk ≢ null
      → tk ∉ (prev ∷ qs)
      → Distinct (prev ∷ qs)
      → Chain h before prev (prev ∷ qs)
      → (found : Ptr) × (last_due h w fuel prev (h prev).next ≡ some found)
        × Linked h w tk before prev qs found
  unfolding last_due insert_due
  last_due-Linked zero h w tk before prev qs enough some_tk out apart c = elim enough [ ]
  last_due-Linked (suc fuel) h w tk before prev [] enough some_tk out apart c =
      (prev, ground arith, Linked-here h w tk before prev [] some_tk out apart c refl)
  last_due-Linked (suc fuel) h w tk before prev (q ∷ qs) enough some_tk out apart c =
      elim (Bool-cases (o.lt w (h q).wake_time)) [
        | inl later ↦ (
          prev,
          ground arith,
          Linked-here h w tk before prev (q ∷ qs) some_tk out apart c (rw later),
        )
        | inr due ↦
            let (found, walk, linked) =
              last_due-Linked fuel h w tk prev q qs (omega arith) some_tk (ground arith) apart.1
                (refl, c.3.1, c.3.2, c.3.3) in
            (found, ground arith, Linked-step h w tk before prev q found qs out apart c due linked)
      ]

  abbrev pub SameTimes : Ticks F V → Ticks F V → Type 0
  SameTimes h g = (a : Ptr) → (g a).wake_time ≡ (h a).wake_time

  abbrev Enqueued : ℕ → Ticks F V → Ptr → Ptr → F → List Ptr → Type 0
  Enqueued fuel h list tk w qs =
      (r : Ticks F V × Ptr) × (enqueue fuel h list tk w ≡ some r)
      × Chain r.0 null r.1 (insert_due h w tk qs)
      × SameTimes h r.0
      × ((a : Ptr) → SameBody r.0 h a)

  -- With fuel above the length of the queue `tk` is linked in, and of the ticks only links change.
  pub enqueue-Chain :
      (fuel : ℕ) (h : Ticks F V) (list tk : Ptr) (w : F) (qs : List Ptr)
      → length qs < fuel
      → tk ≢ null
      → tk ∉ qs
      → Distinct qs
      → (h tk).prev ≡ null
      → (h tk).next ≡ null
      → Chain h null list qs
      → Enqueued fuel h list tk w qs
  unfolding enqueue insert_due
  enqueue-Chain fuel h list tk w [] enough some_tk out apart free free' c = (
    (h, tk),
    ground arith,
    (refl, some_tk, free, free'),
    λ a. refl,
    λ a. (refl, refl, refl, refl),
  )
  enqueue-Chain zero h list tk w (q ∷ qs) enough some_tk out apart free free' c = elim enough [ ]
  enqueue-Chain (suc fuel) h list tk w (q ∷ qs) enough some_tk out apart free free' c =
      subst (λ p. Enqueued (suc fuel) h p tk w (q ∷ qs)) (sym c.0)
        (elim (Bool-cases (o.lt w (h q).wake_time)) [
          | inl later ↦ (
            (link_front h tk q, tk),
            rw (ne→== q null c.1, later),
            rw later (link_front-Chain h tk q qs some_tk free out apart (refl, c.1, c.2, c.3)),
            link_front-wake_time h tk q,
            link_front-body h tk q,
          )
          | inr due ↦
              let (found, walk, l) =
                last_due-Linked fuel h w tk null q qs (omega arith) some_tk out apart
                  (refl, c.1, c.2, c.3) in
              (
                (link_after h tk found, q),
                rw (ne→== q null c.1, due, walk, ne→== found null l.some_found),
                rw due l.chain,
                link_after-wake_time h tk found,
                link_after-body h tk found,
              )
        ])
