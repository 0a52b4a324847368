-- ===== src/Decode/Manual/Names.antt =====
-- The names that the decoder finds at the places of the manual's tables.
use ventus_gpgpu_sbt_simulat.Prelude.{◌<◌, ◌≡◌, refl, arith, some}
use ventus_gpgpu_sbt_simulat.Ptx.Riscv.{RegOp, reg_name}
use ventus_gpgpu_sbt_simulat.Decode.Scalar.{
  branch_name, load_name, store_name, op_imm_name, op_name,
}
use ventus_gpgpu_sbt_simulat.Decode.Manual.{
  Branch, branch_mnemonic, branch_funct3, Load, load_mnemonic, load_funct3, Store, store_mnemonic,
  store_funct3, OpImm, op_imm_mnemonic, op_imm_funct3, reg_funct3, reg_funct7,
}

pub branch_funct3_bound : (o : Branch) → branch_funct3 o < 8
branch_funct3_bound Branch.beq = omega arith
branch_funct3_bound Branch.bne = omega arith
branch_funct3_bound Branch.blt = omega arith
branch_funct3_bound Branch.bge = omega arith
branch_funct3_bound Branch.bltu = omega arith
branch_funct3_bound Branch.bgeu = omega arith

pub branch_name-branch_funct3 :
    (o : Branch) → branch_name (branch_funct3 o) ≡ some (branch_mnemonic o)
unfolding branch_name
branch_name-branch_funct3 Branch.beq = refl
branch_name-branch_funct3 Branch.bne = refl
branch_name-branch_funct3 Branch.blt = refl
branch_name-branch_funct3 Branch.bge = refl
branch_name-branch_funct3 Branch.bltu = refl
branch_name-branch_funct3 Branch.bgeu = refl

pub load_funct3_bound : (o : Load) → load_funct3 o < 8
load_funct3_bound Load.lb = omega arith
load_funct3_bound Load.lh = omega arith
load_funct3_bound Load.lw = omega arith
load_funct3_bound Load.lbu = omega arith
load_funct3_bound Load.lhu = omega arith

pub load_name-load_funct3 : (o : Load) → load_name (load_funct3 o) ≡ some (load_mnemonic o)
unfolding load_name
load_name-load_funct3 Load.lb = refl
load_name-load_funct3 Load.lh = refl
load_name-load_funct3 Load.lw = refl
load_name-load_funct3 Load.lbu = refl
load_name-load_funct3 Load.lhu = refl

pub store_funct3_bound : (o : Store) → store_funct3 o < 8
store_funct3_bound Store.sb = omega arith
store_funct3_bound Store.sh = omega arith
store_funct3_bound Store.sw = omega arith

pub store_name-store_funct3 : (o : Store) → store_name (store_funct3 o) ≡ some (store_mnemonic o)
unfolding store_name
store_name-store_funct3 Store.sb = refl
store_name-store_funct3 Store.sh = refl
store_name-store_funct3 Store.sw = refl

pub op_imm_funct3_bound : (o : OpImm) → op_imm_funct3 o < 8
op_imm_funct3_bound OpImm.addi = omega arith
op_imm_funct3_bound OpImm.slti = omega arith
op_imm_funct3_bound OpImm.sltiu = omega arith
op_imm_funct3_bound OpImm.xori = omega arith
op_imm_funct3_bound OpImm.ori = omega arith
op_imm_funct3_bound OpImm.andi = omega arith

pub op_imm_name-op_imm_funct3 :
    (o : OpImm) → op_imm_name (op_imm_funct3 o) ≡ some (op_imm_mnemonic o)
unfolding op_imm_name
op_imm_name-op_imm_funct3 OpImm.addi = refl
op_imm_name-op_imm_funct3 OpImm.slti = refl
op_imm_name-op_imm_funct3 OpImm.sltiu = refl
op_imm_name-op_imm_funct3 OpImm.xori = refl
op_imm_name-op_imm_funct3 OpImm.ori = refl
op_imm_name-op_imm_funct3 OpImm.andi = refl

pub reg_funct3_bound : (o : RegOp) → reg_funct3 o < 8
reg_funct3_bound RegOp.op_add = omega arith
reg_funct3_bound RegOp.op_sub = omega arith
reg_funct3_bound RegOp.op_and = omega arith
reg_funct3_bound RegOp.op_or = omega arith
reg_funct3_bound RegOp.op_xor = omega arith
reg_funct3_bound RegOp.op_mul = omega arith
reg_funct3_bound RegOp.op_mulh = omega arith
reg_funct3_bound RegOp.op_mulhu = omega arith
reg_funct3_bound RegOp.op_mulhsu = omega arith
reg_funct3_bound RegOp.op_div = omega arith
reg_funct3_bound RegOp.op_divu = omega arith
reg_funct3_bound RegOp.op_rem = omega arith
reg_funct3_bound RegOp.op_remu = omega arith
reg_funct3_bound RegOp.op_sll = omega arith
reg_funct3_bound RegOp.op_srl = omega arith
reg_funct3_bound RegOp.op_sra = omega arith
reg_funct3_bound RegOp.op_slt = omega arith
reg_funct3_bound RegOp.op_sltu = omega arith

pub reg_funct7_bound : (o : RegOp) → reg_funct7 o < 128
reg_funct7_bound RegOp.op_add = omega arith
reg_funct7_bound RegOp.op_sub = omega arith
reg_funct7_bound RegOp.op_and = omega arith
reg_funct7_bound RegOp.op_or = omega arith
reg_funct7_bound RegOp.op_xor = omega arith
reg_funct7_bound RegOp.op_mul = omega arith
reg_funct7_bound RegOp.op_mulh = omega arith
reg_funct7_bound RegOp.op_mulhu = omega arith
reg_funct7_bound RegOp.op_mulhsu = omega arith
reg_funct7_bound RegOp.op_div = omega arith
reg_funct7_bound RegOp.op_divu = omega arith
reg_funct7_bound RegOp.op_rem = omega arith
reg_funct7_bound RegOp.op_remu = omega arith
reg_funct7_bound RegOp.op_sll = omega arith
reg_funct7_bound RegOp.op_srl = omega arith
reg_funct7_bound RegOp.op_sra = omega arith
reg_funct7_bound RegOp.op_slt = omega arith
reg_funct7_bound RegOp.op_sltu = omega arith

pub op_name-reg_funct3 : (o : RegOp) → op_name (reg_funct3 o) (reg_funct7 o) ≡ some (reg_name o)
unfolding op_name reg_name
op_name-reg_funct3 RegOp.op_add = refl
op_name-reg_funct3 RegOp.op_sub = refl
op_name-reg_funct3 RegOp.op_and = refl
op_name-reg_funct3 RegOp.op_or = refl
op_name-reg_funct3 RegOp.op_xor = refl
op_name-reg_funct3 RegOp.op_mul = refl
op_name-reg_funct3 RegOp.op_mulh = refl
op_name-reg_funct3 RegOp.op_mulhu = refl
op_name-reg_funct3 RegOp.op_mulhsu = refl
op_name-reg_funct3 RegOp.op_div = refl
op_name-reg_funct3 RegOp.op_divu = refl
op_name-reg_funct3 RegOp.op_rem = refl
op_name-reg_funct3 RegOp.op_remu = refl
op_name-reg_funct3 RegOp.op_sll = refl
op_name-reg_funct3 RegOp.op_srl = refl
op_name-reg_funct3 RegOp.op_sra = refl
op_name-reg_funct3 RegOp.op_slt = refl
op_name-reg_funct3 RegOp.op_sltu = refl
