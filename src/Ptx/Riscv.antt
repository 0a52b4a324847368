-- ===== src/Ptx/Riscv.antt =====
-- The integer instructions of RV32IM on two words, as the RISC-V manual defines them, under the
-- names that sbt/riscv_decode.cpp gives them.
use ventus_gpgpu_sbt_simulat.Prelude.{
  ℕ, ◌+◌, ◌-◌, ◌*◌, ◌/◌, ◌%◌, ◌^◌, String, Bool, ◌&&◌, ◌==◌, ltb, if◌then◌else◌, bit_and, bit_or,
  bit_xor,
}
use ventus_gpgpu_sbt_simulat.Words.{u32, ◌<<<◌, ◌>>>◌}
use ventus_gpgpu_sbt_simulat.Words.Signed.{
  lt_signed, shift_signed, quotient_signed, remainder_signed, high_signed, high_signed_unsigned,
}

pub data RegOp : Type 0 where
  op_add op_sub op_and op_or op_xor op_mul op_mulh op_mulhu op_mulhsu op_div op_divu op_rem op_remu
        op_sll op_srl op_sra op_slt op_sltu :
      RegOp

pub data ImmOp : Type 0 where
  op_addi op_andi op_ori op_xori op_slli op_srli op_srai op_slti op_sltiu : ImmOp

unfoldable pub reg_name : RegOp → String
reg_name RegOp.op_add = "add"
reg_name RegOp.op_sub = "sub"
reg_name RegOp.op_and = "and"
reg_name RegOp.op_or = "or"
reg_name RegOp.op_xor = "xor"
reg_name RegOp.op_mul = "mul"
reg_name RegOp.op_mulh = "mulh"
reg_name RegOp.op_mulhu = "mulhu"
reg_name RegOp.op_mulhsu = "mulhsu"
reg_name RegOp.op_div = "div"
reg_name RegOp.op_divu = "divu"
reg_name RegOp.op_rem = "rem"
reg_name RegOp.op_remu = "remu"
reg_name RegOp.op_sll = "sll"
reg_name RegOp.op_srl = "srl"
reg_name RegOp.op_sra = "sra"
reg_name RegOp.op_slt = "slt"
reg_name RegOp.op_sltu = "sltu"

unfoldable pub imm_name : ImmOp → String
imm_name ImmOp.op_addi = "addi"
imm_name ImmOp.op_andi = "andi"
imm_name ImmOp.op_ori = "ori"
imm_name ImmOp.op_xori = "xori"
imm_name ImmOp.op_slli = "slli"
imm_name ImmOp.op_srli = "srli"
imm_name ImmOp.op_srai = "srai"
imm_name ImmOp.op_slti = "slti"
imm_name ImmOp.op_sltiu = "sltiu"

abbrev bit : Bool → ℕ
bit b = if b then 1 else 0

-- The one signed division whose quotient does not fit.
abbrev overflows : ℕ → ℕ → Bool
overflows a b = (a == 2 ^ 31) && (b == 2 ^ 32 - 1)

-- A division by zero gives the word of ones and leaves the dividend as the remainder; the
-- overflow gives the dividend and the remainder 0; a shift uses the low five bits of the count.
unfoldable pub reg_result : RegOp → ℕ → ℕ → ℕ
reg_result RegOp.op_add a b = u32 (a + b)
reg_result RegOp.op_sub a b = u32 (a + (2 ^ 32 - b))
reg_result RegOp.op_and a b = bit_and a b
reg_result RegOp.op_or a b = bit_or a b
reg_result RegOp.op_xor a b = bit_xor a b
reg_result RegOp.op_mul a b = u32 (a * b)
reg_result RegOp.op_mulh a b = high_signed a b
reg_result RegOp.op_mulhu a b = a * b / 2 ^ 32
reg_result RegOp.op_mulhsu a b = high_signed_unsigned a b
reg_result RegOp.op_div a b =
    if b == 0 then 2 ^ 32 - 1 else if overflows a b then 2 ^ 31 else quotient_signed a b
reg_result RegOp.op_divu a b = if b == 0 then 2 ^ 32 - 1 else a / b
reg_result RegOp.op_rem a b =
    if b == 0 then a else if overflows a b then 0 else remainder_signed a b
reg_result RegOp.op_remu a b = if b == 0 then a else a % b
reg_result RegOp.op_sll a b = u32 (a <<< (b % 32))
reg_result RegOp.op_srl a b = a >>> (b % 32)
reg_result RegOp.op_sra a b = shift_signed a (b % 32)
reg_result RegOp.op_slt a b = bit (lt_signed a b)
reg_result RegOp.op_sltu a b = bit (ltb a b)

-- The immediate is a word; the decoder leaves it below 32 in a shift.
unfoldable pub imm_result : ImmOp → ℕ → ℕ → ℕ
imm_result ImmOp.op_addi a k = u32 (a + k)
imm_result ImmOp.op_andi a k = bit_and a k
imm_result ImmOp.op_ori a k = bit_or a k
imm_result ImmOp.op_xori a k = bit_xor a k
imm_result ImmOp.op_slli a k = u32 (a <<< k)
imm_result ImmOp.op_srli a k = a >>> k
imm_result ImmOp.op_srai a k = shift_signed a k
imm_result ImmOp.op_slti a k = bit (lt_signed a k)
imm_result ImmOp.op_sltiu a k = bit (ltb a k)
