-- ===== src/Decode/Scalar.antt =====
-- `decode_scalar`: the scalar instructions, decoded without patterns. `none` is its false, which
-- leaves `out` as it was.
use ventus_gpgpu_sbt_simulat.Prelude.{ℕ, if◌then◌else◌, ◌==◌, ltb, String, Option, none, some}
use ventus_gpgpu_sbt_simulat.Prelude.Int.{ℤ, pos}
use ventus_gpgpu_sbt_simulat.Words.{to_i32}
use ventus_gpgpu_sbt_simulat.Decode.Types.{RegClass, ImmKind, DecodedInst}
use ventus_gpgpu_sbt_simulat.Decode.Fields.{
  sext, imm_i, imm_s, imm_b, imm_u, imm_j, opcode, rd5, funct3, rs1_5, rs2_5, funct7,
}
use ventus_gpgpu_sbt_simulat.Decode.Fp.{decode_fp}

-- The names that the inner switches choose; `none` is their `return false`.
unfoldable pub branch_name : ℕ → Option String
branch_name f3 =
    if f3 == 0x0
    then some "beq"
    else if f3 == 0x1
    then some "bne"
    else if f3 == 0x4
    then some "blt"
    else if f3 == 0x5
    then some "bge"
    else if f3 == 0x6
    then some "bltu"
    else if f3 == 0x7
    then some "bgeu"
    else none

unfoldable pub load_name : ℕ → Option String
load_name f3 =
    if f3 == 0x0
    then some "lb"
    else if f3 == 0x1
    then some "lh"
    else if f3 == 0x2
    then some "lw"
    else if f3 == 0x4
    then some "lbu"
    else if f3 == 0x5
    then some "lhu"
    else none

unfoldable pub store_name : ℕ → Option String
store_name f3 =
    if f3 == 0x0
    then some "sb"
    else if f3 == 0x1
    then some "sh"
    else if f3 == 0x2
    then some "sw"
    else none

-- The immediate operations on a sign-extended operand.
unfoldable pub op_imm_name : ℕ → Option String
op_imm_name f3 =
    if f3 == 0x0
    then some "addi"
    else if f3 == 0x2
    then some "slti"
    else if f3 == 0x3
    then some "sltiu"
    else if f3 == 0x4
    then some "xori"
    else if f3 == 0x6
    then some "ori"
    else if f3 == 0x7
    then some "andi"
    else none

-- The immediate shifts.
unfoldable pub shift_name : ℕ → ℕ → Option String
shift_name f3 f7 =
    if f3 == 0x1
    then (if f7 == 0x00 then some "slli" else none)
    else if f3 == 0x5
    then (if f7 == 0x00 then some "srli" else if f7 == 0x20 then some "srai" else none)
    else none

unfoldable pub op_name : ℕ → ℕ → Option String
op_name f3 f7 =
    if f7 == 0x01
    then (if f3 == 0x0
        then some "mul"
        else if f3 == 0x1
        then some "mulh"
        else if f3 == 0x2
        then some "mulhsu"
        else if f3 == 0x3
        then some "mulhu"
        else if f3 == 0x4
        then some "div"
        else if f3 == 0x5
        then some "divu"
        else if f3 == 0x6
        then some "rem"
        else if f3 == 0x7
        then some "remu"
        else none)
    else if f3 == 0x0
    then (if f7 == 0x00 then some "add" else if f7 == 0x20 then some "sub" else none)
    else if f3 == 0x1
    then some "sll"
    else if f3 == 0x2
    then some "slt"
    else if f3 == 0x3
    then some "sltu"
    else if f3 == 0x4
    then some "xor"
    else if f3 == 0x5
    then (if f7 == 0x00 then some "srl" else if f7 == 0x20 then some "sra" else none)
    else if f3 == 0x6
    then some "or"
    else if f3 == 0x7
    then some "and"
    else none

unfoldable pub csr_name : ℕ → String
csr_name f3 =
    if f3 == 0x1
    then "csrrw"
    else if f3 == 0x2
    then "csrrs"
    else if f3 == 0x3
    then "csrrc"
    else if f3 == 0x5
    then "csrrwi"
    else if f3 == 0x6
    then "csrrsi"
    else if f3 == 0x7
    then "csrrci"
    else "csr"

-- The two kinds of `addi` and its like: the name and the immediate.
abbrev pub ImmOp : Type 0
ImmOp = String × ℤ

unfoldable pub op_imm : ℕ → Option ImmOp
unfolding op_imm_name shift_name
op_imm w = elim (op_imm_name (funct3 w)) [
  | some n ↦ some (n, sext (imm_i w) 12)
  | none ↦ elim (shift_name (funct3 w) (funct7 w)) [
    | some n ↦ some (n, pos (rs2_5 w))
    | none ↦ none
  ]
]

module _ (w : ℕ) (out : DecodedInst) where
  -- `set_r` with rd, rs1 and rs2 filled in.
  unfoldable pub set_r : String → DecodedInst
  set_r n = record out {
    name = n;
    rd_class = RegClass.xreg;
    rs1_class = RegClass.xreg;
    rs2_class = RegClass.xreg;
    rd = pos (rd5 w);
    rs1 = pos (rs1_5 w);
    rs2 = pos (rs2_5 w);
  }

  -- `set_i` with rd, rs1 and the immediate filled in.
  unfoldable pub set_i : String → ℤ → DecodedInst
  set_i n i = record out {
    name = n;
    rd_class = RegClass.xreg;
    rs1_class = RegClass.xreg;
    imm_kind = ImmKind.i12;
    rd = pos (rd5 w);
    rs1 = pos (rs1_5 w);
    imm = i;
  }

  -- `set_s` and `set_b` with rs1, rs2 and the immediate filled in.
  unfoldable pub set_s_b : String → ImmKind → ℤ → DecodedInst
  set_s_b n k i = record out {
    name = n;
    rs1_class = RegClass.xreg;
    rs2_class = RegClass.xreg;
    imm_kind = k;
    rs1 = pos (rs1_5 w);
    rs2 = pos (rs2_5 w);
    imm = i;
  }

  -- `set_u` and `set_j` with rd and the immediate filled in.
  unfoldable pub set_u_j : String → ImmKind → ℤ → DecodedInst
  set_u_j n k i = record out {
    name = n;
    rd_class = RegClass.xreg;
    imm_kind = k;
    rd = pos (rd5 w);
    imm = i;
  }

  -- The CSR instructions; from funct3 = 5 on the rs1 field is an immediate, and rs1 is not set.
  unfoldable pub set_csr : DecodedInst
  unfolding csr_name
  set_csr =
      let by_imm = ltb 0x4 (funct3 w) in
      record out {
        name = csr_name (funct3 w);
        rd_class = RegClass.xreg;
        rs1_class = if by_imm then RegClass.none else RegClass.xreg;
        imm_kind = ImmKind.csr12;
        imm = pos (imm_i w);
        rd = pos (rd5 w);
        rs1 = if by_imm then out.rs1 else pos (rs1_5 w);
      }

  -- The `switch (opcode)`.
  unfoldable pub decode_base : Option DecodedInst
  unfolding branch_name load_name store_name op_name op_imm set_r set_i set_s_b set_u_j set_csr
  decode_base =
      let op = opcode w in
      let f3 = funct3 w in
      if op == 0x37
      then some (set_u_j "lui" ImmKind.u20 (to_i32 (imm_u w)))
      else if op == 0x17
      then some (set_u_j "auipc" ImmKind.u20 (to_i32 (imm_u w)))
      else if op == 0x6f
      then some (set_u_j "jal" ImmKind.j21 (sext (imm_j w) 21))
      else if op == 0x67
      then (if f3 == 0 then some (set_i "jalr" (sext (imm_i w) 12)) else none)
      else if op == 0x63
      then elim (branch_name f3) [
        | some n ↦ some (set_s_b n ImmKind.b13 (sext (imm_b w) 13))
        | none ↦ none
      ]
      else if op == 0x03
      then elim (load_name f3) [ some n ↦ some (set_i n (sext (imm_i w) 12)) | none ↦ none ]
      else if op == 0x23
      then elim (store_name f3) [
        | some n ↦ some (set_s_b n ImmKind.s12 (sext (imm_s w) 12))
        | none ↦ none
      ]
      else if op == 0x13
      then elim (op_imm w) [ some (n, i) ↦ some (set_i n i) | none ↦ none ]
      else if op == 0x33
      then elim (op_name f3 (funct7 w)) [ some n ↦ some (set_r n) | none ↦ none ]
      else if op == 0x73
      then some (if f3 == 0 then record out { name = "system" } else set_csr)
      else none

  unfoldable pub decode_scalar : Option DecodedInst
  unfolding decode_fp decode_base
  decode_scalar = elim (decode_fp w out) [ some d ↦ some d | none ↦ decode_base ]
