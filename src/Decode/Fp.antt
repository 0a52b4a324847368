-- ===== src/Decode/Fp.antt =====
-- `decode_fp`, the scalar floating-point part of `decode_scalar`. The C++ returns false before it
-- writes to `out`, so `none` stands for false and `out` as it was.
use ventus_gpgpu_sbt_simulat.Prelude.{
  ℕ, if◌then◌else◌, ◌==◌, String, ◌&&◌, ◌||◌, Option, none, some, bit_and,
}
use ventus_gpgpu_sbt_simulat.Prelude.Int.{pos}
use ventus_gpgpu_sbt_simulat.Words.{◌>>>◌}
use ventus_gpgpu_sbt_simulat.Decode.Types.{RegClass, ImmKind, FpRoundingMode, DecodedInst}
use ventus_gpgpu_sbt_simulat.Decode.Fields.{
  sext, imm_i, imm_s, opcode, rd5, funct3, rs1_5, rs2_5, rs3_5, funct7,
}

-- `static_cast<FpRoundingMode>(funct3)`
unfoldable pub rounding_mode : ℕ → FpRoundingMode
rounding_mode f =
    if f == 0
    then FpRoundingMode.rne
    else if f == 1
    then FpRoundingMode.rtz
    else if f == 2
    then FpRoundingMode.rdn
    else if f == 3
    then FpRoundingMode.rup
    else if f == 4
    then FpRoundingMode.rmm
    else if f == 5
    then FpRoundingMode.reserved5
    else if f == 6
    then FpRoundingMode.reserved6
    else FpRoundingMode.dyn

-- A name and the rounding mode that goes with it.
pub record FpOp : Type 0 where
  pub name : String
  pub rm : FpRoundingMode

module _ (w : ℕ) where
  abbrev rounded : String → Option FpOp
  rounded n = some (record { name = n; rm = rounding_mode (funct3 w) })

  abbrev unrounded : String → Option FpOp
  unrounded n = some (record { name = n; rm = FpRoundingMode.none })

  -- The operations of opcode 0x53 that fill rd, rs1 and rs2.
  unfoldable pub fp_binary : Option FpOp
  unfolding rounding_mode
  fp_binary =
      let f7 = funct7 w in
      let f3 = funct3 w in
      if f7 == 0x00
      then rounded "fadd_s"
      else if f7 == 0x04
      then rounded "fsub_s"
      else if f7 == 0x08
      then rounded "fmul_s"
      else if f7 == 0x0c
      then rounded "fdiv_s"
      else if f7 == 0x2c && rs2_5 w == 0x0
      then rounded "fsqrt_s"
      else if f7 == 0x10 && f3 == 0x0
      then unrounded "fsgnj_s"
      else if f7 == 0x10 && f3 == 0x1
      then unrounded "fsgnjn_s"
      else if f7 == 0x10 && f3 == 0x2
      then unrounded "fsgnjx_s"
      else if f7 == 0x14 && f3 == 0x0
      then unrounded "fmin_s"
      else if f7 == 0x14 && f3 == 0x1
      then unrounded "fmax_s"
      else if f7 == 0x50 && f3 == 0x2
      then unrounded "feq_s"
      else if f7 == 0x50 && f3 == 0x1
      then unrounded "flt_s"
      else if f7 == 0x50 && f3 == 0x0
      then unrounded "fle_s"
      else none

  -- The fused multiply-add family.
  unfoldable pub fp_ternary : Option FpOp
  unfolding rounding_mode
  fp_ternary =
      let op = opcode w in
      if op == 0x43
      then rounded "fmadd_s"
      else if op == 0x47
      then rounded "fmsub_s"
      else if op == 0x4b
      then rounded "fnmsub_s"
      else if op == 0x4f
      then rounded "fnmadd_s"
      else none

  module _ (out : DecodedInst) where
    abbrev kept : String → Option FpOp
    kept n = some (record { name = n; rm = out.fp_rm })

    -- The operations of opcode 0x53 that fill rd and rs1. The moves and fclass leave `fp_rm` alone.
    unfoldable pub fp_unary : Option FpOp
    unfolding rounding_mode
    fp_unary =
        let f7 = funct7 w in
        let f3 = funct3 w in
        let rs2 = rs2_5 w in
        if f7 == 0x60 && rs2 == 0x0
        then rounded "fcvt_w_s"
        else if f7 == 0x60 && rs2 == 0x1
        then rounded "fcvt_wu_s"
        else if f7 == 0x68 && rs2 == 0x0
        then rounded "fcvt_s_w"
        else if f7 == 0x68 && rs2 == 0x1
        then rounded "fcvt_s_wu"
        else if f7 == 0x70 && rs2 == 0x0 && f3 == 0x0
        then kept "fmv_x_w"
        else if f7 == 0x70 && rs2 == 0x0 && f3 == 0x1
        then kept "fclass_s"
        else if f7 == 0x78 && rs2 == 0x0 && f3 == 0x0
        then kept "fmv_w_x"
        else none

    unfoldable pub fill_unary : FpOp → DecodedInst
    fill_unary op = record out {
      name = op.name;
      rd_class = RegClass.xreg;
      rs1_class = RegClass.xreg;
      fp_rm = op.rm;
      rd = pos (rd5 w);
      rs1 = pos (rs1_5 w);
    }

    unfoldable pub fill_binary : FpOp → DecodedInst
    fill_binary op = record out {
      name = op.name;
      rd_class = RegClass.xreg;
      rs1_class = RegClass.xreg;
      rs2_class = RegClass.xreg;
      fp_rm = op.rm;
      rd = pos (rd5 w);
      rs1 = pos (rs1_5 w);
      rs2 = pos (rs2_5 w);
    }

    unfoldable pub fill_ternary : FpOp → DecodedInst
    unfolding fill_binary
    fill_ternary op = record (fill_binary op) { rs3_class = RegClass.xreg; rs3 = pos (rs3_5 w) }

    unfoldable pub fp_load : DecodedInst
    fp_load = record out {
      name = "flw";
      rd_class = RegClass.xreg;
      rs1_class = RegClass.xreg;
      imm_kind = ImmKind.i12;
      rd = pos (rd5 w);
      rs1 = pos (rs1_5 w);
      imm = sext (imm_i w) 12;
    }

    unfoldable pub fp_store : DecodedInst
    fp_store = record out {
      name = "fsw";
      rs1_class = RegClass.xreg;
      rs2_class = RegClass.xreg;
      imm_kind = ImmKind.s12;
      rs1 = pos (rs1_5 w);
      rs2 = pos (rs2_5 w);
      imm = sext (imm_s w) 12;
    }

    unfoldable pub decode_fp : Option DecodedInst
    unfolding fill_unary fill_binary fill_ternary fp_load fp_store
    decode_fp =
        let op = opcode w in
        if op == 0x07
        then (if funct3 w == 0x2 then some fp_load else none)
        else if op == 0x27
        then (if funct3 w == 0x2 then some fp_store else none)
        else if op == 0x43 || op == 0x47 || op == 0x4b || op == 0x4f
        then (if bit_and (w >>> 25) 0x3 == 0x0
            then elim fp_ternary [ none ↦ none | some o ↦ some (fill_ternary o) ]
            else none)
        else if op == 0x53
        then elim fp_binary [
          | some o ↦ some (fill_binary o)
          | none ↦ elim fp_unary [ some o ↦ some (fill_unary o) | none ↦ none ]
        ]
        else none
