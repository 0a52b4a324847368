-- ===== src/Words/Signed.antt =====
-- Operations on uint32_t values that read them as two's-complement numbers, as RISC-V and PTX
-- define them.
use ventus_gpgpu_sbt_simulat.Prelude.{
  ℕ, ◌+◌, ◌-◌, ◌*◌, ◌/◌, ◌%◌, ◌^◌, Bool, ltb, if◌then◌else◌, not,
}
use ventus_gpgpu_sbt_simulat.Words.{u32}

abbrev pub is_negative : ℕ → Bool
is_negative a = not (ltb a (2 ^ 31))

abbrev pub magnitude : ℕ → ℕ
magnitude a = if is_negative a then 2 ^ 32 - a else a

-- The order of the signed readings: the words with their sign bits flipped.
abbrev pub lt_signed : ℕ → ℕ → Bool
lt_signed a b = ltb (u32 (a + 2 ^ 31)) (u32 (b + 2 ^ 31))

-- The shift that copies the sign bit.
abbrev pub shift_signed : ℕ → ℕ → ℕ
shift_signed a k = if is_negative a then 2 ^ 32 - 1 - (2 ^ 32 - 1 - a) / 2 ^ k else a / 2 ^ k

-- The quotient and the remainder of a division that rounds to zero.
abbrev pub quotient_signed : ℕ → ℕ → ℕ
quotient_signed a b =
    let q = magnitude a / magnitude b in
    if is_negative a
    then (if is_negative b then q else u32 (2 ^ 32 - q))
    else if is_negative b
    then u32 (2 ^ 32 - q)
    else q

abbrev pub remainder_signed : ℕ → ℕ → ℕ
remainder_signed a b =
    let m = magnitude a % magnitude b in if is_negative a then u32 (2 ^ 32 - m) else m

-- The high word of a product of a signed and an unsigned number, and of two signed ones: a number
-- that is read as negative stands for itself less 2 ^ 32.
abbrev pub high_signed_unsigned : ℕ → ℕ → ℕ
high_signed_unsigned a b = u32 (a * b / 2 ^ 32 + (if is_negative a then 2 ^ 32 - b else 0))

abbrev pub high_signed : ℕ → ℕ → ℕ
high_signed a b = u32 (
    a * b / 2 ^ 32
    + (if is_negative a then 2 ^ 32 - b else 0)
    + (if is_negative b then 2 ^ 32 - a else 0))

-- The sign extension of a word to 64 bits, and the shift of a double word that copies the sign.
abbrev pub extend_signed : ℕ → ℕ
extend_signed a = if is_negative a then a + (2 ^ 64 - 2 ^ 32) else a

abbrev pub shift_signed_wide : ℕ → ℕ → ℕ
shift_signed_wide m k = if ltb m (2 ^ 63) then m / 2 ^ k else 2 ^ 64 - 1 - (2 ^ 64 - 1 - m) / 2 ^ k
