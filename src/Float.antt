-- ===== src/Float.antt =====
-- `m_float`: the host's floating-point type is not implemented by the repository, so its
-- operations are an interface. The laws are those of IEEE comparison away from NaN.
use gwion.Prelude.{ℕ, ◌≡◌, Bool, true, false, leb, ltb, ◌+◌, arith}

pub record FloatOps (F : Type 0) : Type 0 where
  pub add : F → F → F
  pub lt : F → F → Bool
  pub le : F → F → Bool
  pub of_uint : ℕ → F
  pub epsilon : F

pub record FloatLaws {F : Type 0} (o : FloatOps F) : Type 0 where
  pub le_refl : (a : F) → o.le a a ≡ true
  pub le_trans : (a b c : F) → o.le a b ≡ true → o.le b c ≡ true → o.le a c ≡ true
  pub le_of_lt : (a b : F) → o.lt a b ≡ true → o.le a b ≡ true
  pub not_le_of_lt : (a b : F) → o.lt a b ≡ true → o.le b a ≡ false
  pub not_lt-add : (a b : F) → o.le (o.of_uint 0) a ≡ true → o.lt (o.add a b) b ≡ false
  pub le_of_not_lt : (a b : F) → o.lt a b ≡ false → o.le b a ≡ true

-- A value of the interface: times counted in a small fixed unit.
instance abbrev pub ticks_ops : FloatOps ℕ
ticks_ops = record { add = ◌+◌; lt = ltb; le = leb; of_uint = λ n. n; epsilon = 0 }

pub ticks_laws : FloatLaws ticks_ops
ticks_laws = record {
  le_refl = λ a. ground arith;
  le_trans = λ a b c h k. ground arith;
  le_of_lt = λ a b h. ground arith;
  not_le_of_lt = λ a b h. ground arith;
  not_lt-add = λ a b h. ground arith;
  le_of_not_lt = λ a b h. ground arith;
}
