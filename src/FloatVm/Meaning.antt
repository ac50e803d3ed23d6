-- ===== src/FloatVm/Meaning.antt =====
-- What the operators on floats mean, alone or with an integer that is converted, over the host's operations on
-- floats (src/vm/vm.c).
use gwion.Prelude.{ℕ, ◌≡◌, refl, Bool, false, ◌||◌, ◌&&◌, ◌==◌, if◌then◌else◌, arith}
use gwion.FloatVm.{
  FloatBits, FloatOp, FloatTest, float_apply, float_test, int_float_test, float_int_test,
  tests_divisor,
}
use FloatOp.{plus, minus, mul, div}
use FloatTest.{logical_and, logical_or, eq, ne, gt, ge, lt, le}

-- A division by a float that is zero is refused when an integer variable is divided.
unfoldable pub refused : (is_zero : ℕ → Bool) → FloatOp → ℕ → Bool
refused is_zero plus b = false
refused is_zero minus b = false
refused is_zero mul b = false
refused is_zero div b = is_zero b

module _ (bits : FloatBits) where
  unfoldable pub float_value : FloatOp → ℕ → ℕ → ℕ
  float_value plus = bits.add
  float_value minus = bits.sub
  float_value mul = bits.mul
  float_value div = bits.div

  -- The test of two floats, given which of the operands are zero.
  abbrev holds : FloatTest → (zero_a zero_b : Bool) → ℕ → ℕ → ℕ
  holds logical_and zero_a zero_b a b = if zero_a || zero_b then 0 else 1
  holds logical_or zero_a zero_b a b = if zero_a && zero_b then 0 else 1
  holds eq zero_a zero_b a b = if bits.eq a b then 1 else 0
  holds ne zero_a zero_b a b = if bits.eq a b then 0 else 1
  holds gt zero_a zero_b a b = if bits.lt b a then 1 else 0
  holds ge zero_a zero_b a b = if bits.le b a then 1 else 0
  holds lt zero_a zero_b a b = if bits.lt a b then 1 else 0
  holds le zero_a zero_b a b = if bits.le a b then 1 else 0

  unfoldable pub test_value : FloatTest → ℕ → ℕ → ℕ
  test_value t a b = holds t (bits.is_zero a) (bits.is_zero b) a b

  unfoldable pub int_float_value : FloatTest → ℕ → ℕ → ℕ
  int_float_value t a b = holds t (a == 0) (bits.is_zero b) (bits.of_int a) b

  unfoldable pub float_int_value : FloatTest → ℕ → ℕ → ℕ
  float_int_value t a b = holds t (bits.is_zero a) (b == 0) a (bits.of_int b)

  pub float_value_lem : (op : FloatOp) (a b : ℕ) → float_value op a b ≡ float_apply bits op a b
  unfolding float_value float_apply
  float_value_lem plus a b = refl
  float_value_lem minus a b = refl
  float_value_lem mul a b = refl
  float_value_lem div a b = refl

  pub test_value_lem : (t : FloatTest) (a b : ℕ) → test_value t a b ≡ float_test bits t a b
  unfolding test_value float_test
  test_value_lem logical_and a b = ground arith
  test_value_lem logical_or a b = ground arith
  test_value_lem ne a b = ground arith
  test_value_lem _ a b = refl

  pub int_float_value_lem :
      (t : FloatTest) (a b : ℕ) → int_float_value t a b ≡ int_float_test bits t a b
  unfolding int_float_value int_float_test
  int_float_value_lem logical_and a b = ground arith
  int_float_value_lem logical_or a b = ground arith
  int_float_value_lem ne a b = ground arith
  int_float_value_lem _ a b = refl

  pub float_int_value_lem :
      (t : FloatTest) (a b : ℕ) → float_int_value t a b ≡ float_int_test bits t a b
  unfolding float_int_value float_int_test
  float_int_value_lem logical_and a b = ground arith
  float_int_value_lem logical_or a b = ground arith
  float_int_value_lem ne a b = ground arith
  float_int_value_lem _ a b = refl

  pub refused_lem :
      (op : FloatOp) (b : ℕ) → refused bits.is_zero op b ≡ (tests_divisor op && bits.is_zero b)
  unfolding refused tests_divisor
  refused_lem plus b = refl
  refused_lem minus b = refl
  refused_lem mul b = refl
  refused_lem div b = refl
