-- ===== src/Word.antt =====
-- `m_int` and `m_uint`: 64-bit words, and the C operators that src/vm/vm.c applies to them. A word is
-- a number below 2^64; the signed operators read it in two's complement, and their results wrap around
-- as on the hardware. `undefined` is a division or a shift with no result.
use Prim.Native.Nat.{bit_and, bit_or, bit_xor}
use mathlib.Core.Bool.{not}
use gwion.Prelude.{ℕ, ◌+◌, ◌-◌, ◌*◌, ◌/◌, ◌%◌, ◌^◌, Bool, ◌&&◌, ◌||◌, ltb, leb, ◌==◌, if◌then◌else◌}

abbrev pub word_mod : ℕ
word_mod = 2 ^ 64

abbrev pub is_negative : ℕ → Bool
is_negative a = leb (2 ^ 63) a

unfoldable pub negate : ℕ → ℕ
negate a = (word_mod - a) % word_mod

unfoldable pub magnitude : ℕ → ℕ
magnitude a = if is_negative a then word_mod - a else a

abbrev pub of_bool : Bool → ℕ
of_bool b = if b then 1 else 0

unfoldable pub int_lt : ℕ → ℕ → Bool
int_lt a b = ltb ((a + 2 ^ 63) % word_mod) ((b + 2 ^ 63) % word_mod)

pub data Value : Type 0 where
  word : ℕ → Value
  undefined : Value

-- Division cuts towards zero, and overflows for the least integer by -1.
unfoldable pub int_div : ℕ → ℕ → Value
int_div a b =
    if (b == 0) || ((a == 2 ^ 63) && (b == word_mod - 1))
    then undefined
    else word (
        let q = magnitude a / magnitude b in
        if is_negative a
        then (if is_negative b then q else negate q)
        else if is_negative b
        then negate q
        else q)

unfoldable pub int_rem : ℕ → ℕ → Value
int_rem a b =
    if (b == 0) || ((a == 2 ^ 63) && (b == word_mod - 1))
    then undefined
    else word (let r = magnitude a % magnitude b in if is_negative a then negate r else r)

pub data IntOp : Type 0 where
  plus minus mul div rem eq ne logical_and logical_or gt ge lt le shift_left shift_right : IntOp
  bit_conj bit_disj bit_excl : IntOp

-- `a >> b` of a negative word keeps the sign.
unfoldable pub shift_down : ℕ → ℕ → ℕ
shift_down a b = if is_negative a then word_mod - 1 - (word_mod - 1 - a) / 2 ^ b else a / 2 ^ b

unfoldable pub int_apply : IntOp → ℕ → ℕ → Value
int_apply plus a b = word ((a + b) % word_mod)
int_apply minus a b = word ((a + word_mod - b) % word_mod)
int_apply mul a b = word (a * b % word_mod)
int_apply div a b = int_div a b
int_apply rem a b = int_rem a b
int_apply eq a b = word (of_bool (a == b))
int_apply ne a b = word (of_bool (not (a == b)))
int_apply logical_and a b = word (of_bool (not (a == 0) && not (b == 0)))
int_apply logical_or a b = word (of_bool (not (a == 0) || not (b == 0)))
int_apply gt a b = word (of_bool (int_lt b a))
int_apply ge a b = word (of_bool (not (int_lt a b)))
int_apply lt a b = word (of_bool (int_lt a b))
int_apply le a b = word (of_bool (not (int_lt b a)))
int_apply shift_left a b = if ltb b 64 then word (a * 2 ^ b % word_mod) else undefined
int_apply shift_right a b = if ltb b 64 then word (shift_down a b) else undefined
int_apply bit_conj a b = word (bit_and a b)
int_apply bit_disj a b = word (bit_or a b)
int_apply bit_excl a b = word (bit_xor a b)
