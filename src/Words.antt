-- ===== src/Words.antt =====
-- Machine words: a uint32_t is a number below 2 ^ 32, an int32_t is an integer.
mod Bits
pub mod Laws
pub mod Digits
pub mod Signed
pub use Bits.*
use ventus_gpgpu_sbt_simulat.Prelude.{ℕ, ◌+◌, ◌-◌, ◌*◌, ◌/◌, ◌%◌, ◌^◌, ltb, if◌then◌else◌}
use ventus_gpgpu_sbt_simulat.Prelude.Int.{ℤ, pos, negsuc}

abbrev pub u32 : ℕ → ℕ
u32 n = n % 2 ^ 32

infixl 75 ◌<<<◌ ◌>>>◌
abbrev pub ◌<<<◌ : ℕ → ℕ → ℕ
x <<< k = x * 2 ^ k

abbrev pub ◌>>>◌ : ℕ → ℕ → ℕ
x >>> k = x / 2 ^ k

-- int32_t(x) of a uint32_t: the two's-complement reading.
abbrev pub to_i32 : ℕ → ℤ
to_i32 x = if ltb x (2 ^ 31) then pos x else negsuc (2 ^ 32 - x - 1)

-- static_cast<uint32_t> of a signed value: its residue mod 2 ^ 32.
abbrev pub to_u32 : ℤ → ℕ
to_u32 (pos n) = n % 2 ^ 32
to_u32 (negsuc n) = 2 ^ 32 - 1 - n % 2 ^ 32
