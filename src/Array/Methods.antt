-- ===== src/Array/Methods.antt =====
-- The methods of arrays that build an array, or count (src/lib/array.c).
use mathlib.Core.List.{append_assoc}
use gwion.Prelude.{
  ℕ, ◌^◌, ◌<◌, ◌≤◌, ◌≡◌, refl, ap, ◌∙◌, Bool, Option, none, some, List, [], ◌∷◌, ◌++◌,
  if◌then◌else◌, Bool-cases, inl, inr,
}
use gwion.Array.{MVectorOps, vm_vector_compactmap, vm_vector_filter}
use gwion.Array.Spec
use gwion.Array.Elements.{MVectorLaws, fold-built, in_order}

module _ {V E : Type 0} (mv : MVectorOps V E) (laws : MVectorLaws mv) where
  keep_step : (f : E → Bool) → E → V → V
  keep_step f x v = if f x then mv.add v x else v

  keep_one :
      (f : E → Bool) (x : E) (v : V) (xs : List E)
      → laws.items (keep_step f x v) ++ Spec.filter f xs ≡ laws.items v ++ Spec.filter f (x ∷ xs)
  unfolding keep_step Spec.filter
  keep_one f x v xs = elim (Bool-cases (f x)) [
    | inl kept ↦ rw kept (
        ap (λ l. l ++ Spec.filter f xs) (laws.items-add v x)
        ∙ append_assoc (laws.items v) (x ∷ []) (Spec.filter f xs))
    | inr left_out ↦ rw left_out refl
  ]

  module _ (fuel : ℕ) (self : V) (small : mv.size self < 2 ^ 16)
      (enough : mv.size self ≤ fuel) where
    pub filter_lem :
        (f : E → Bool)
        → (out : V) × (vm_vector_filter mv f fuel self ≡ some out)
          × (laws.items out ≡ Spec.filter f (laws.items self))
    unfolding vm_vector_filter keep_step Spec.filter
    filter_lem f =
        let whole =
          fold-built mv laws (keep_step f) (Spec.filter f) (keep_one f) refl (laws.items self)
            (mv.init 0) in
        (
          Spec.foldl (keep_step f) (mv.init 0) (laws.items self),
          in_order mv laws fuel self small enough (λ index. keep_step f (mv.get self index))
              (keep_step f) (mv.init 0)
              (λ i x b e. ap (λ y. keep_step f y b) (laws.get_lem self i x e)),
          whole ∙ ap (λ l. l ++ Spec.filter f (laws.items self)) laws.items-init_zero,
        )

module _ {V E W R : Type 0} (mv : MVectorOps V E) (laws : MVectorLaws mv) (mw : MVectorOps W R)
    (laws_w : MVectorLaws mw) (fuel : ℕ) (self : V) (small : mv.size self < 2 ^ 16)
    (enough : mv.size self ≤ fuel) where
  add_some : Option R → W → W
  add_some none w = w
  add_some (some y) w = mw.add w y

  compact_one :
      (f : E → Option R) (x : E) (w : W) (xs : List E)
      → laws_w.items (add_some (f x) w) ++ Spec.compact f xs
        ≡ laws_w.items w ++ Spec.compact f (x ∷ xs)
  unfolding add_some Spec.compact
  compact_one f x w xs =
      elim (f x)
        as (λ o.
          laws_w.items (add_some o w) ++ Spec.compact f xs
          ≡ laws_w.items w
            ++ elim o [ none ↦ Spec.compact f xs | some y ↦ y ∷ Spec.compact f xs ]) [
              | none ↦ refl
              | some y ↦
                  ap (λ l. l ++ Spec.compact f xs) (laws_w.items-add w y)
                  ∙ append_assoc (laws_w.items w) (y ∷ []) (Spec.compact f xs)
            ]

  compact_step : (o : Option R) (w : W) → elim o [ none ↦ w | some x ↦ mw.add w x ] ≡ add_some o w
  unfolding add_some
  compact_step none w = refl
  compact_step (some y) w = refl

  pub compactmap_lem :
      (f : E → Option R)
      → (out : W) × (vm_vector_compactmap mv mw f fuel self ≡ some out)
        × (laws_w.items out ≡ Spec.compact f (laws.items self))
  unfolding vm_vector_compactmap Spec.compact
  compactmap_lem f =
      let g = λ (x : E) (w : W). add_some (f x) w in
      let whole =
        fold-built mw laws_w g (Spec.compact f) (compact_one f) refl (laws.items self)
          (mw.init 0) in
      (
        Spec.foldl g (mw.init 0) (laws.items self),
        in_order mv laws fuel self small enough
            (λ index ret. elim (f (mv.get self index)) [ none ↦ ret | some x ↦ mw.add ret x ]) g
            (mw.init 0)
            (λ i x b e.
              compact_step (f (mv.get self i)) b
              ∙ ap (λ y. add_some (f y) b) (laws.get_lem self i x e)),
        whole ∙ ap (λ l. l ++ Spec.compact f (laws.items self)) laws_w.items-init_zero,
      )
