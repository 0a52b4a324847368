-- ===== src/Decode/Roundtrip/Tables.antt =====
-- The decoder of scalar instructions inverts the tables of `Manual`, in the formats of `Encoding`.
use ventus_gpgpu_sbt_simulat.Prelude.{ℕ, ◌*◌, ◌<◌, ◌≡◌, some}
use ventus_gpgpu_sbt_simulat.Prelude.Int.{pos}
use ventus_gpgpu_sbt_simulat.Ptx.Riscv.{RegOp, reg_name}
use ventus_gpgpu_sbt_simulat.Decode.Types.{RegClass, ImmKind, DecodedInst}
use ventus_gpgpu_sbt_simulat.Decode.Sext.{signed}
use ventus_gpgpu_sbt_simulat.Decode.Encoding.{encode_b, encode_i, encode_s, encode_r}
use ventus_gpgpu_sbt_simulat.Decode.Scalar.{decode_scalar}
use ventus_gpgpu_sbt_simulat.Decode.Manual.{
  Branch, branch_mnemonic, branch_funct3, Load, load_mnemonic, load_funct3, Store, store_mnemonic,
  store_funct3, OpImm, op_imm_mnemonic, op_imm_funct3, reg_funct3, reg_funct7,
}
use ventus_gpgpu_sbt_simulat.Decode.Manual.Names.{
  branch_funct3_bound, branch_name-branch_funct3, load_funct3_bound, load_name-load_funct3,
  store_funct3_bound, store_name-store_funct3, op_imm_funct3_bound, op_imm_name-op_imm_funct3,
  reg_funct3_bound, reg_funct7_bound, op_name-reg_funct3,
}
use ventus_gpgpu_sbt_simulat.Decode.Roundtrip.{
  decode_named_b, decode_named_load, decode_named_op_imm, decode_named_s, decode_named_r,
}

-- A conditional branch of RV32I that is encoded by the manual, with register numbers below 32 and
-- an even 13-bit offset, decodes to its mnemonic, its two registers and its signed offset.
pub decode_scalar-encode_b :
    (out : DecodedInst) (o : Branch) (rs1 rs2 k : ℕ)
    → rs1 < 32
    → rs2 < 32
    → k < 4096
    → decode_scalar (encode_b 0x63 (branch_funct3 o) rs1 rs2 (2 * k)) out
      ≡ some (record out {
        name = branch_mnemonic o;
        rs1_class = RegClass.xreg;
        rs2_class = RegClass.xreg;
        rs1 = pos rs1;
        rs2 = pos rs2;
        imm_kind = ImmKind.b13;
        imm = signed 13 (2 * k);
      })
decode_scalar-encode_b out o rs1 rs2 k q r s =
    decode_named_b out (branch_funct3 o) rs1 rs2 k (branch_funct3_bound o) q r s
      (branch_name-branch_funct3 o)

-- A load of RV32I that is encoded by the manual, with register numbers below 32 and a 12-bit
-- offset, decodes to its mnemonic, its registers and its signed offset.
pub decode_scalar-encode_load :
    (out : DecodedInst) (o : Load) (rd rs1 i : ℕ)
    → rd < 32
    → rs1 < 32
    → i < 4096
    → decode_scalar (encode_i 0x03 rd (load_funct3 o) rs1 i) out
      ≡ some (record out {
        name = load_mnemonic o;
        rd_class = RegClass.xreg;
        rs1_class = RegClass.xreg;
        rd = pos rd;
        rs1 = pos rs1;
        imm_kind = ImmKind.i12;
        imm = signed 12 i;
      })
decode_scalar-encode_load out o rd rs1 i h0 h1 h2 =
    decode_named_load out rd (load_funct3 o) rs1 i h0 (load_funct3_bound o) h1 h2
      (load_name-load_funct3 o)

-- An operation of RV32I with an immediate that is no shift, encoded by the manual with register
-- numbers below 32 and a 12-bit immediate, decodes to its mnemonic, its registers and its sign-
-- extended immediate.
pub decode_scalar-encode_op_imm :
    (out : DecodedInst) (o : OpImm) (rd rs1 i : ℕ)
    → rd < 32
    → rs1 < 32
    → i < 4096
    → decode_scalar (encode_i 0x13 rd (op_imm_funct3 o) rs1 i) out
      ≡ some (record out {
        name = op_imm_mnemonic o;
        rd_class = RegClass.xreg;
        rs1_class = RegClass.xreg;
        rd = pos rd;
        rs1 = pos rs1;
        imm_kind = ImmKind.i12;
        imm = signed 12 i;
      })
decode_scalar-encode_op_imm out o rd rs1 i h0 h1 h2 =
    decode_named_op_imm out rd (op_imm_funct3 o) rs1 i h0 (op_imm_funct3_bound o) h1 h2
      (op_imm_name-op_imm_funct3 o)

-- A store of RV32I that is encoded by the manual, with register numbers below 32 and a 12-bit
-- offset, decodes to its mnemonic, its two registers and its signed offset.
pub decode_scalar-encode_s :
    (out : DecodedInst) (o : Store) (rs1 rs2 i : ℕ)
    → rs1 < 32
    → rs2 < 32
    → i < 4096
    → decode_scalar (encode_s 0x23 (store_funct3 o) rs1 rs2 i) out
      ≡ some (record out {
        name = store_mnemonic o;
        rs1_class = RegClass.xreg;
        rs2_class = RegClass.xreg;
        rs1 = pos rs1;
        rs2 = pos rs2;
        imm_kind = ImmKind.s12;
        imm = signed 12 i;
      })
decode_scalar-encode_s out o rs1 rs2 i h1 h2 h3 =
    decode_named_s out (store_funct3 o) rs1 rs2 i (store_funct3_bound o) h1 h2 h3
      (store_name-store_funct3 o)

-- A register operation of RV32IM that is encoded by the manual, with register numbers below 32,
-- decodes to its mnemonic and its three registers.
pub decode_scalar-encode_r :
    (out : DecodedInst) (o : RegOp) (rd rs1 rs2 : ℕ)
    → rd < 32
    → rs1 < 32
    → rs2 < 32
    → decode_scalar (encode_r 0x33 rd (reg_funct3 o) rs1 rs2 (reg_funct7 o)) out
      ≡ some (record out {
        name = reg_name o;
        rd_class = RegClass.xreg;
        rs1_class = RegClass.xreg;
        rs2_class = RegClass.xreg;
        rd = pos rd;
        rs1 = pos rs1;
        rs2 = pos rs2;
      })
decode_scalar-encode_r out o rd rs1 rs2 h0 h2 h3 =
    decode_named_r out rd (reg_funct3 o) rs1 rs2 (reg_funct7 o) h0 (reg_funct3_bound o) h2 h3
      (reg_funct7_bound o) (op_name-reg_funct3 o)
