-- ===== src/Vm/Meaning.antt =====
-- What the operators of the language mean on 64-bit words: numbers modulo 2^64, which the signed operators
-- read as a sign and a magnitude. A divisor that is the immediate operand of an instruction is unsigned
-- (src/vm/vm.c).
use Prim.Native.Nat.{bit_and, bit_or, bit_xor}
use gwion.Prelude.{
  ℕ, ◌+◌, ◌-◌, ◌*◌, ◌/◌, ◌%◌, ◌^◌, ◌≡◌, refl, Bool, true, false, ◌&&◌, ◌||◌, arith, ◌==◌, ltb, leb,
  if◌then◌else◌,
}
use gwion.Word.{
  Value, word, undefined, IntOp, int_apply, int_lt, int_div, int_rem, negate, magnitude, shift_down,
}
use gwion.Vm.{is_division, int_imm_apply}
use IntOp.{
  plus, minus, mul, div, rem, eq, ne, logical_and, logical_or, gt, ge, lt, le, shift_left,
  shift_right, bit_conj, bit_disj, bit_excl,
}

abbrev below_zero : ℕ → Bool
below_zero a = leb 9223372036854775808 a

abbrev size_of : ℕ → ℕ
size_of a = if below_zero a then 18446744073709551616 - a else a

abbrev with_sign : Bool → ℕ → ℕ
with_sign minus_sign m = if minus_sign then (18446744073709551616 - m) % 18446744073709551616 else m

abbrev differ : Bool → Bool → Bool
differ true b = if b then false else true
differ false b = b

-- The order of the signed numbers: with different signs the negative one is less.
abbrev less : ℕ → ℕ → Bool
less a b =
    let x = a % 18446744073709551616 in
    let y = b % 18446744073709551616 in
    if differ (below_zero x) (below_zero y) then below_zero x else ltb x y

abbrev truth : Bool → Value
truth b = if b then word 1 else word 0

-- There is no quotient by zero, and none of the least number by -1.
abbrev quotient : ℕ → ℕ → Value → Value
quotient a b v =
    if b == 0
    then undefined
    else if (a == 9223372036854775808) && (b == 18446744073709551615)
    then undefined
    else v

unfoldable pub divides : IntOp → Bool
divides div = true
divides rem = true
divides _ = false

unfoldable pub int_value : IntOp → ℕ → ℕ → Value
int_value plus a b = word ((a + b) % 18446744073709551616)
int_value minus a b = word ((a + 18446744073709551616 - b) % 18446744073709551616)
int_value mul a b = word (a * b % 18446744073709551616)
int_value div a b =
    quotient a b (word (with_sign (differ (below_zero a) (below_zero b)) (size_of a / size_of b)))
int_value rem a b = quotient a b (word (with_sign (below_zero a) (size_of a % size_of b)))
int_value eq a b = truth (a == b)
int_value ne a b = if a == b then word 0 else word 1
int_value logical_and a b = if (a == 0) || (b == 0) then word 0 else word 1
int_value logical_or a b = if (a == 0) && (b == 0) then word 0 else word 1
int_value gt a b = truth (less b a)
int_value ge a b = if less a b then word 0 else word 1
int_value lt a b = truth (less a b)
int_value le a b = if less b a then word 0 else word 1
int_value shift_left a b = if leb 64 b then undefined else word (a * 2 ^ b % 18446744073709551616)
int_value shift_right a b =
    if leb 64 b
    then undefined
    else word (
        if below_zero a
        then 18446744073709551615 - (18446744073709551615 - a) / 2 ^ b
        else a / 2 ^ b)
int_value bit_conj a b = word (bit_and a b)
int_value bit_disj a b = word (bit_or a b)
int_value bit_excl a b = word (bit_xor a b)

-- With an immediate operand, division and remainder are those of the words as they are.
unfoldable pub imm_value : IntOp → ℕ → ℕ → Value
unfolding int_value
imm_value div a b = if b == 0 then undefined else word (a / b)
imm_value rem a b = if b == 0 then undefined else word (a % b)
imm_value op a b = int_value op a b

pub divides_lem : (op : IntOp) → divides op ≡ is_division op
unfolding divides
divides_lem div = refl
divides_lem rem = refl
divides_lem _ = refl

less_lem : (a b : ℕ) → less a b ≡ int_lt a b
unfolding int_lt
less_lem a b = ground arith

pub int_value_lem : (op : IntOp) (a b : ℕ) → int_value op a b ≡ int_apply op a b
unfolding int_value int_apply int_div int_rem negate magnitude shift_down
int_value_lem plus a b = refl
int_value_lem minus a b = refl
int_value_lem mul a b = refl
int_value_lem div a b = ground arith
int_value_lem rem a b = ground arith
int_value_lem eq a b = ground arith
int_value_lem ne a b = ground arith
int_value_lem logical_and a b = ground arith
int_value_lem logical_or a b = ground arith
int_value_lem gt a b = ground (arith, less_lem b a)
int_value_lem ge a b = ground (arith, less_lem a b)
int_value_lem lt a b = ground (arith, less_lem a b)
int_value_lem le a b = ground (arith, less_lem b a)
int_value_lem shift_left a b = ground arith
int_value_lem shift_right a b = ground arith
int_value_lem bit_conj a b = refl
int_value_lem bit_disj a b = refl
int_value_lem bit_excl a b = refl

pub imm_value_lem : (op : IntOp) (a b : ℕ) → imm_value op a b ≡ int_imm_apply op a b
unfolding imm_value int_imm_apply
imm_value_lem div a b = refl
imm_value_lem rem a b = refl
imm_value_lem op a b = int_value_lem op a b
