-- ===== src/Ptx/Ops.antt =====
-- The operations of PTX on registers, by the names of the instructions.
use ventus_gpgpu_sbt_simulat.Prelude.{
  ℕ, zero, suc, ◌+◌, ◌-◌, ◌*◌, ◌/◌, ◌%◌, ◌^◌, String, str_eq, Bool, not, Option, none, some, ◌&&◌,
  ◌||◌, ◌==◌, ltb, leb, if◌then◌else◌, bit_and, bit_or, bit_xor,
}
use ventus_gpgpu_sbt_simulat.Words.{u32, ◌<<<◌, ◌>>>◌}
use ventus_gpgpu_sbt_simulat.Words.Signed.{
  lt_signed, shift_signed, quotient_signed, remainder_signed, high_signed, extend_signed,
  shift_signed_wide,
}

-- The position of the highest bit.
unfoldable pub highest_bit : ℕ → ℕ → ℕ
highest_bit zero n = 0
highest_bit (suc fuel) n = let rest = highest_bit fuel (n / 2) in if ltb n 2 then 0 else rest + 1

abbrev pub find_bit : ℕ → ℕ
find_bit n = if n == 0 then 2 ^ 32 - 1 else highest_bit 32 n

abbrev pub unary_op : String → Option (ℕ → ℕ)
unary_op n =
    if str_eq n "mov.u32" || (str_eq n "ld.param.u32" || str_eq n "st.param.u32")
    then some (λ a. a)
    else if str_eq n "ld.param.u64"
        || (str_eq n "st.param.u64" || (str_eq n "cvt.u64.u32" || str_eq n "cvt.s64.u32"))
    then some (λ a. a)
    else if str_eq n "cvt.s64.s32"
    then some extend_signed
    else if str_eq n "cvt.u32.u64" || str_eq n "cvt.u32.s64"
    then some u32
    else if str_eq n "cvt.u32.u8" || str_eq n "cvt.u32.u16"
    then some (λ a. a)
    else if str_eq n "cvt.u8.u32"
    then some (λ a. a % 2 ^ 8)
    else if str_eq n "cvt.u16.u32"
    then some (λ a. a % 2 ^ 16)
    else if str_eq n "not.b32"
    then some (λ a. 2 ^ 32 - 1 - a)
    else if str_eq n "bfind.u32"
    then some find_bit
    else none

-- A division by zero and the overflow of a signed division have no defined result.
abbrev pub divides : ℕ → ℕ → Bool
divides a b = not (b == 0) && not ((a == 2 ^ 31) && (b == 2 ^ 32 - 1))

abbrev pub defined_if : Bool → ℕ → Option ℕ
defined_if b a = if b then some a else none

abbrev pub binary_op : String → Option (ℕ → ℕ → Option ℕ)
binary_op n =
    if str_eq n "add.u32" || str_eq n "add.s32"
    then some (λ a b. some (u32 (a + b)))
    else if str_eq n "sub.u32"
    then some (λ a b. some (u32 (a + (2 ^ 32 - b))))
    else if str_eq n "and.b32"
    then some (λ a b. some (bit_and a b))
    else if str_eq n "or.b32"
    then some (λ a b. some (bit_or a b))
    else if str_eq n "xor.b32"
    then some (λ a b. some (bit_xor a b))
    else if str_eq n "mul.lo.s32" || str_eq n "mul.lo.u32"
    then some (λ a b. some (u32 (a * b)))
    else if str_eq n "mul.hi.s32"
    then some (λ a b. some (high_signed a b))
    else if str_eq n "mul.hi.u32"
    then some (λ a b. some (a * b / 2 ^ 32))
    else if str_eq n "shl.b32"
    then some (λ a b. some (if ltb b 32 then u32 (a <<< b) else 0))
    else if str_eq n "shr.u32"
    then some (λ a b. some (if ltb b 32 then a >>> b else 0))
    else if str_eq n "shr.s32"
    then some (λ a b. some (shift_signed a (if ltb b 32 then b else 31)))
    else if str_eq n "div.s32"
    then some (λ a b. defined_if (divides a b) (quotient_signed a b))
    else if str_eq n "div.u32"
    then some (λ a b. defined_if (not (b == 0)) (a / b))
    else if str_eq n "rem.s32"
    then some (λ a b. defined_if (divides a b) (remainder_signed a b))
    else if str_eq n "rem.u32"
    then some (λ a b. defined_if (not (b == 0)) (a % b))
    else if str_eq n "add.u64"
    then some (λ a b. some ((a + b) % 2 ^ 64))
    else if str_eq n "mul.lo.s64" || str_eq n "mul.lo.u64"
    then some (λ a b. some (a * b % 2 ^ 64))
    else if str_eq n "shr.s64"
    then some (λ a b. some (shift_signed_wide a b))
    else none

abbrev pub compare_op : String → Option (ℕ → ℕ → Bool)
compare_op n =
    if str_eq n "setp.eq.u32"
    then some (λ a b. a == b)
    else if str_eq n "setp.ne.u32"
    then some (λ a b. not (a == b))
    else if str_eq n "setp.lt.u32"
    then some (λ a b. ltb a b)
    else if str_eq n "setp.ge.u32"
    then some (λ a b. leb b a)
    else if str_eq n "setp.lt.s32"
    then some (λ a b. lt_signed a b)
    else if str_eq n "setp.ge.s32"
    then some (λ a b. not (lt_signed a b))
    else none
