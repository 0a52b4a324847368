-- ===== src/Decode/Fields.antt =====
-- The bit fields of an instruction word, as sbt/riscv_decode.cpp takes them apart.
use ventus_gpgpu_sbt_simulat.Prelude.{
  ℕ, ◌+◌, ◌-◌, ◌^◌, if◌then◌else◌, ◌==◌, bit_and, bit_or, bit_xor,
}
use ventus_gpgpu_sbt_simulat.Prelude.Int.{ℤ}
use ventus_gpgpu_sbt_simulat.Words.{u32, to_i32, ◌<<<◌, ◌>>>◌}

-- The four bytes are given in the order of the file.
unfoldable pub read_u32_le : ℕ → ℕ → ℕ → ℕ → ℕ
read_u32_le p0 p1 p2 p3 = bit_or (bit_or (bit_or p0 (p1 <<< 8)) (p2 <<< 16)) (p3 <<< 24)

-- `bits` is from 1 to 32, so no shift wraps. The subtraction is done in uint32_t and its result
-- read as an int32_t.
unfoldable pub sext : ℕ → ℕ → ℤ
sext x bits =
    let m = 1 <<< (bits - 1) in
    let mask = if bits == 32 then 0xffff_ffff else (1 <<< bits) - 1 in
    let y = bit_and x mask in to_i32 (u32 (bit_xor y m + 2 ^ 32 - m))

unfoldable pub imm_i : ℕ → ℕ
imm_i w = bit_and (w >>> 20) 0xfff

unfoldable pub imm_s : ℕ → ℕ
imm_s w = bit_or ((w >>> 25) <<< 5) (bit_and (w >>> 7) 0x1f)

unfoldable pub imm_b : ℕ → ℕ
imm_b w =
    let bit12 = bit_and (w >>> 31) 1 in
    let bit11 = bit_and (w >>> 7) 1 in
    let bits10_5 = bit_and (w >>> 25) 0x3f in
    let bits4_1 = bit_and (w >>> 8) 0xf in
    bit_or (bit_or (bit_or (bit12 <<< 12) (bit11 <<< 11)) (bits10_5 <<< 5)) (bits4_1 <<< 1)

unfoldable pub imm_u : ℕ → ℕ
imm_u w = bit_and w 0xffff_f000

unfoldable pub imm_j : ℕ → ℕ
imm_j w =
    let bit20 = bit_and (w >>> 31) 1 in
    let bits10_1 = bit_and (w >>> 21) 0x3ff in
    let bit11 = bit_and (w >>> 20) 1 in
    let bits19_12 = bit_and (w >>> 12) 0xff in
    bit_or (bit_or (bit_or (bit20 <<< 20) (bits19_12 <<< 12)) (bit11 <<< 11)) (bits10_1 <<< 1)

-- The fields that `decode_scalar` and `decode_one` name.
unfoldable pub opcode : ℕ → ℕ
opcode w = bit_and w 0x7f

unfoldable pub rd5 : ℕ → ℕ
rd5 w = bit_and (w >>> 7) 0x1f

unfoldable pub funct3 : ℕ → ℕ
funct3 w = bit_and (w >>> 12) 0x7

unfoldable pub rs1_5 : ℕ → ℕ
rs1_5 w = bit_and (w >>> 15) 0x1f

unfoldable pub rs2_5 : ℕ → ℕ
rs2_5 w = bit_and (w >>> 20) 0x1f

unfoldable pub funct7 : ℕ → ℕ
funct7 w = bit_and (w >>> 25) 0x7f

unfoldable pub rs3_5 : ℕ → ℕ
rs3_5 w = bit_and (w >>> 27) 0x1f

-- `base5` is a register number that is not negative, and `ext3` the prefix's three bits.
unfoldable pub ext_apply : ℕ → ℕ → ℕ
ext_apply base5 ext3 = bit_or base5 (ext3 <<< 5)
