-- ===== src/Decode/Manual.antt =====
-- The instruction tables of the RISC-V manual for the opcodes BRANCH, LOAD, STORE, OP-IMM and OP: which
-- funct3 and funct7 each instruction has. They are written from the manual and not from the decoder.
pub mod Names
use ventus_gpgpu_sbt_simulat.Prelude.{ℕ, String}
use ventus_gpgpu_sbt_simulat.Ptx.Riscv.{RegOp}

pub data Branch : Type 0 where
  beq bne blt bge bltu bgeu : Branch

abbrev pub branch_mnemonic : Branch → String
branch_mnemonic Branch.beq = "beq"
branch_mnemonic Branch.bne = "bne"
branch_mnemonic Branch.blt = "blt"
branch_mnemonic Branch.bge = "bge"
branch_mnemonic Branch.bltu = "bltu"
branch_mnemonic Branch.bgeu = "bgeu"

abbrev pub branch_funct3 : Branch → ℕ
branch_funct3 Branch.beq = 0
branch_funct3 Branch.bne = 1
branch_funct3 Branch.blt = 4
branch_funct3 Branch.bge = 5
branch_funct3 Branch.bltu = 6
branch_funct3 Branch.bgeu = 7

pub data Load : Type 0 where
  lb lh lw lbu lhu : Load

abbrev pub load_mnemonic : Load → String
load_mnemonic Load.lb = "lb"
load_mnemonic Load.lh = "lh"
load_mnemonic Load.lw = "lw"
load_mnemonic Load.lbu = "lbu"
load_mnemonic Load.lhu = "lhu"

abbrev pub load_funct3 : Load → ℕ
load_funct3 Load.lb = 0
load_funct3 Load.lh = 1
load_funct3 Load.lw = 2
load_funct3 Load.lbu = 4
load_funct3 Load.lhu = 5

pub data Store : Type 0 where
  sb sh sw : Store

abbrev pub store_mnemonic : Store → String
store_mnemonic Store.sb = "sb"
store_mnemonic Store.sh = "sh"
store_mnemonic Store.sw = "sw"

abbrev pub store_funct3 : Store → ℕ
store_funct3 Store.sb = 0
store_funct3 Store.sh = 1
store_funct3 Store.sw = 2

-- The operations with an immediate, without the shifts.
pub data OpImm : Type 0 where
  addi slti sltiu xori ori andi : OpImm

abbrev pub op_imm_mnemonic : OpImm → String
op_imm_mnemonic OpImm.addi = "addi"
op_imm_mnemonic OpImm.slti = "slti"
op_imm_mnemonic OpImm.sltiu = "sltiu"
op_imm_mnemonic OpImm.xori = "xori"
op_imm_mnemonic OpImm.ori = "ori"
op_imm_mnemonic OpImm.andi = "andi"

abbrev pub op_imm_funct3 : OpImm → ℕ
op_imm_funct3 OpImm.addi = 0
op_imm_funct3 OpImm.slti = 2
op_imm_funct3 OpImm.sltiu = 3
op_imm_funct3 OpImm.xori = 4
op_imm_funct3 OpImm.ori = 6
op_imm_funct3 OpImm.andi = 7

abbrev pub reg_funct3 : RegOp → ℕ
reg_funct3 RegOp.op_add = 0
reg_funct3 RegOp.op_sub = 0
reg_funct3 RegOp.op_sll = 1
reg_funct3 RegOp.op_slt = 2
reg_funct3 RegOp.op_sltu = 3
reg_funct3 RegOp.op_xor = 4
reg_funct3 RegOp.op_srl = 5
reg_funct3 RegOp.op_sra = 5
reg_funct3 RegOp.op_or = 6
reg_funct3 RegOp.op_and = 7
reg_funct3 RegOp.op_mul = 0
reg_funct3 RegOp.op_mulh = 1
reg_funct3 RegOp.op_mulhsu = 2
reg_funct3 RegOp.op_mulhu = 3
reg_funct3 RegOp.op_div = 4
reg_funct3 RegOp.op_divu = 5
reg_funct3 RegOp.op_rem = 6
reg_funct3 RegOp.op_remu = 7

abbrev pub reg_funct7 : RegOp → ℕ
reg_funct7 RegOp.op_add = 0
reg_funct7 RegOp.op_sub = 0x20
reg_funct7 RegOp.op_sll = 0
reg_funct7 RegOp.op_slt = 0
reg_funct7 RegOp.op_sltu = 0
reg_funct7 RegOp.op_xor = 0
reg_funct7 RegOp.op_srl = 0
reg_funct7 RegOp.op_sra = 0x20
reg_funct7 RegOp.op_or = 0
reg_funct7 RegOp.op_and = 0
reg_funct7 RegOp.op_mul = 1
reg_funct7 RegOp.op_mulh = 1
reg_funct7 RegOp.op_mulhsu = 1
reg_funct7 RegOp.op_mulhu = 1
reg_funct7 RegOp.op_div = 1
reg_funct7 RegOp.op_divu = 1
reg_funct7 RegOp.op_rem = 1
reg_funct7 RegOp.op_remu = 1
