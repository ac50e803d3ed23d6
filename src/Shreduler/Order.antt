-- ===== src/Shreduler/Order.antt =====
-- The order of wake-up times in a list of ticks, and what `insert_due` does to a list.
use gwion.Prelude.{
  ◌≡◌, refl, true, ◌||◌, List, [], ◌∷◌, arith, ◌==◌, has, ◌∉◌, Distinct, Bool-cases, inl, inr, All,
  sym,
}
use mathlib.Core.Path.{subst}
use gwion.Float.{FloatOps, FloatLaws}
use gwion.Shreduler.{Ptr, Ticks}
use gwion.Shreduler.Insert.{insert_due}

module _ {F V : Type 0} ⦃o : FloatOps F⦄ where
  abbrev pub DueBy : Ticks F V → F → List Ptr → Type 0
  DueBy h w qs = All (λ r. o.le w (h r).wake_time ≡ true) qs

  abbrev pub DueOrder : Ticks F V → List Ptr → Type 0
  DueOrder h [] = Unit
  DueOrder h (q ∷ qs) = DueBy h (h q).wake_time qs × DueOrder h qs

  pub has-insert_due :
      (h : Ticks F V) (w : F) (tk a : Ptr) (qs : List Ptr)
      → has a (insert_due h w tk qs) ≡ ((a == tk) || has a qs)
  unfolding insert_due
  has-insert_due h w tk a [] = refl
  has-insert_due h w tk a (q ∷ qs) = ground (arith, has-insert_due h w tk a qs)

  pub Distinct-insert_due :
      (h : Ticks F V) (w : F) (tk : Ptr) (qs : List Ptr)
      → tk ∉ qs
      → Distinct qs
      → Distinct (insert_due h w tk qs)
  unfolding insert_due
  Distinct-insert_due h w tk [] out d = (refl, tt)
  Distinct-insert_due h w tk (q ∷ qs) out d = elim (Bool-cases (o.lt w (h q).wake_time)) [
    | inl later ↦ rw later (out, d)
    | inr due ↦ rw due (
      ground (arith, has-insert_due h w tk q qs),
      Distinct-insert_due h w tk qs (ground arith) d.1,
    )
  ]

  pub All-insert_due :
      (P : Ptr → Type 0) (h : Ticks F V) (w : F) (tk : Ptr) (qs : List Ptr)
      → P tk
      → All P qs
      → All P (insert_due h w tk qs)
  unfolding insert_due
  All-insert_due P h w tk [] p ps = (p, tt)
  All-insert_due P h w tk (q ∷ qs) p ps = elim (Bool-cases (o.lt w (h q).wake_time)) [
    | inl later ↦ rw later (p, ps)
    | inr due ↦ rw due (ps.0, All-insert_due P h w tk qs p ps.1)
  ]

  abbrev pub SameTimesIn : List Ptr → Ticks F V → Ticks F V → Type 0
  SameTimesIn qs h g = All (λ a. (g a).wake_time ≡ (h a).wake_time) qs

  pub insert_due-same :
      (h g : Ticks F V) (w : F) (tk : Ptr) (qs : List Ptr)
      → SameTimesIn qs h g
      → insert_due g w tk qs ≡ insert_due h w tk qs
  unfolding insert_due
  insert_due-same h g w tk [] same = refl
  insert_due-same h g w tk (q ∷ qs) same = rw (same.0, insert_due-same h g w tk qs same.1)

  DueBy-same :
      (h g : Ticks F V) (v : F) (qs : List Ptr) → SameTimesIn qs h g → DueBy h v qs → DueBy g v qs
  DueBy-same h g v [] same d = tt
  DueBy-same h g v (q ∷ qs) same d = (rw same.0 d.0, DueBy-same h g v qs same.1 d.1)

  pub DueOrder-same :
      (h g : Ticks F V) (qs : List Ptr) → SameTimesIn qs h g → DueOrder h qs → DueOrder g qs
  DueOrder-same h g [] same d = tt
  DueOrder-same h g (q ∷ qs) same d = (
    subst (λ v. DueBy g v qs) (sym same.0) (DueBy-same h g (h q).wake_time qs same.1 d.0),
    DueOrder-same h g qs same.1 d.1,
  )

  module _ (laws : FloatLaws o) where
    DueBy-insert_due :
        (h : Ticks F V) (v w : F) (tk : Ptr) (qs : List Ptr)
        → o.le v w ≡ true
        → (h tk).wake_time ≡ w
        → DueBy h v qs
        → DueBy h v (insert_due h w tk qs)
    unfolding insert_due
    DueBy-insert_due h v w tk [] le e d = (rw e le, tt)
    DueBy-insert_due h v w tk (q ∷ qs) le e d = elim (Bool-cases (o.lt w (h q).wake_time)) [
      | inl later ↦ rw later (rw e le, d)
      | inr due ↦ rw due (d.0, DueBy-insert_due h v w tk qs le e d.1)
    ]

    DueBy-trans :
        (h : Ticks F V) (v w : F) (qs : List Ptr) → o.le v w ≡ true → DueBy h w qs → DueBy h v qs
    DueBy-trans h v w [] le d = tt
    DueBy-trans h v w (q ∷ qs) le d =
        (laws.le_trans v w (h q).wake_time le d.0, DueBy-trans h v w qs le d.1)

    pub DueOrder-insert_due :
        (h : Ticks F V) (w : F) (tk : Ptr) (qs : List Ptr)
        → (h tk).wake_time ≡ w
        → DueOrder h qs
        → DueOrder h (insert_due h w tk qs)
    unfolding insert_due
    DueOrder-insert_due h w tk [] e d = (tt, tt)
    DueOrder-insert_due h w tk (q ∷ qs) e d = elim (Bool-cases (o.lt w (h q).wake_time)) [
      | inl later ↦
          let le = laws.le_of_lt _ _ later in
          rw later (
            (
              rw e le,
              subst (λ v. DueBy h v qs) (sym e) (DueBy-trans h w (h q).wake_time qs le d.0),
            ),
            d,
          )
      | inr due ↦ rw due (
        DueBy-insert_due h (h q).wake_time w tk qs (laws.le_of_not_lt _ _ due) e d.0,
        DueOrder-insert_due h w tk qs e d.1,
      )
    ]
