-- ===== src/Ptx/VectorMul.antt =====
-- sbt/ptx_emit.cpp, `emit_one_inst`: products and quotients of the vector registers.
use ventus_gpgpu_sbt_simulat.Prelude.{str_eq, Option, none, some, [], ◌∷◌, if◌then◌else◌}
use ventus_gpgpu_sbt_simulat.Decode.Types.{DecodedInst}
use ventus_gpgpu_sbt_simulat.Ptx.Lines.{Guard, r, rd, p, v, op, dec, zero_imm, inst, hex}
use ventus_gpgpu_sbt_simulat.Ptx.Emit.{
  EmitCtx, Emit, emit_line, emit_lines, ◌>>◌, emit_ld_x_u32_all,
}

module _ (c : EmitCtx) (di : DecodedInst) where
  unfoldable pub emit_vector_multiply : Option Emit
  emit_vector_multiply =
      if str_eq di.name "vmul_vx"
      then some (
          emit_ld_x_u32_all c (r 14) di.rs1 di.pc
          >> emit_line (op "mul.lo.s32" (v di.rd ∷ v di.rs2 ∷ r 14 ∷ [])))
      else if str_eq di.name "vmul_vv"
      then some (emit_line (op "mul.lo.s32" (v di.rd ∷ v di.rs2 ∷ v di.rs1 ∷ [])))
      else if str_eq di.name "vmulh_vx"
      then some (
          emit_ld_x_u32_all c (r 14) di.rs1 di.pc
          >> emit_line (op "mul.hi.s32" (v di.rd ∷ v di.rs2 ∷ r 14 ∷ [])))
      else if str_eq di.name "vmulh_vv"
      then some (emit_line (op "mul.hi.s32" (v di.rd ∷ v di.rs2 ∷ v di.rs1 ∷ [])))
      else if str_eq di.name "vmulhu_vx"
      then some (
          emit_ld_x_u32_all c (r 14) di.rs1 di.pc
          >> emit_line (op "mul.hi.u32" (v di.rd ∷ v di.rs2 ∷ r 14 ∷ [])))
      else if str_eq di.name "vmulhu_vv"
      then some (emit_line (op "mul.hi.u32" (v di.rd ∷ v di.rs2 ∷ v di.rs1 ∷ [])))
      else if str_eq di.name "vmulhsu_vx"
      then some (
          emit_ld_x_u32_all c (r 14) di.rs1 di.pc
          >> emit_lines (
              op "cvt.s64.s32" (rd 16 ∷ v di.rs2 ∷ [])
              ∷ op "cvt.s64.u32" (rd 17 ∷ r 14 ∷ [])
              ∷ op "mul.lo.s64" (rd 18 ∷ rd 16 ∷ rd 17 ∷ [])
              ∷ op "shr.s64" (rd 18 ∷ rd 18 ∷ dec 32 ∷ [])
              ∷ op "cvt.u32.s64" (r 15 ∷ rd 18 ∷ [])
              ∷ op "mov.u32" (v di.rd ∷ r 15 ∷ [])
              ∷ []))
      else if str_eq di.name "vmulhsu_vv"
      then some (
          emit_lines (
            op "cvt.s64.s32" (rd 16 ∷ v di.rs2 ∷ [])
            ∷ op "cvt.s64.u32" (rd 17 ∷ v di.rs1 ∷ [])
            ∷ op "mul.lo.s64" (rd 18 ∷ rd 16 ∷ rd 17 ∷ [])
            ∷ op "shr.s64" (rd 18 ∷ rd 18 ∷ dec 32 ∷ [])
            ∷ op "cvt.u32.s64" (r 15 ∷ rd 18 ∷ [])
            ∷ op "mov.u32" (v di.rd ∷ r 15 ∷ [])
            ∷ []))
      else none

  unfoldable pub emit_vector_divide : Option Emit
  emit_vector_divide =
      if str_eq di.name "vdivu_vx"
      then some (
          emit_ld_x_u32_all c (r 14) di.rs1 di.pc
          >> emit_lines (
              op "setp.eq.u32" (p 1 ∷ r 14 ∷ zero_imm ∷ [])
              ∷ inst (Guard.when 1) "mov.u32" (v di.rd ∷ hex 0xffffffff ∷ [])
              ∷ inst (Guard.unless 1) "div.u32" (v di.rd ∷ v di.rs2 ∷ r 14 ∷ [])
              ∷ []))
      else if str_eq di.name "vdivu_vv"
      then some (
          emit_lines (
            op "setp.eq.u32" (p 1 ∷ v di.rs1 ∷ zero_imm ∷ [])
            ∷ inst (Guard.when 1) "mov.u32" (v di.rd ∷ hex 0xffffffff ∷ [])
            ∷ inst (Guard.unless 1) "div.u32" (v di.rd ∷ v di.rs2 ∷ v di.rs1 ∷ [])
            ∷ []))
      else if str_eq di.name "vremu_vx"
      then some (
          emit_ld_x_u32_all c (r 14) di.rs1 di.pc
          >> emit_lines (
              op "setp.eq.u32" (p 1 ∷ r 14 ∷ zero_imm ∷ [])
              ∷ inst (Guard.when 1) "mov.u32" (v di.rd ∷ v di.rs2 ∷ [])
              ∷ inst (Guard.unless 1) "rem.u32" (v di.rd ∷ v di.rs2 ∷ r 14 ∷ [])
              ∷ []))
      else if str_eq di.name "vremu_vv"
      then some (
          emit_lines (
            op "setp.eq.u32" (p 1 ∷ v di.rs1 ∷ zero_imm ∷ [])
            ∷ inst (Guard.when 1) "mov.u32" (v di.rd ∷ v di.rs2 ∷ [])
            ∷ inst (Guard.unless 1) "rem.u32" (v di.rd ∷ v di.rs2 ∷ v di.rs1 ∷ [])
            ∷ []))
      else if str_eq di.name "vdiv_vx"
      then some (
          emit_ld_x_u32_all c (r 14) di.rs1 di.pc
          >> emit_lines (
              op "setp.eq.u32" (p 1 ∷ r 14 ∷ zero_imm ∷ [])
              ∷ op "setp.eq.u32" (p 2 ∷ v di.rs2 ∷ hex 0x80000000 ∷ [])
              ∷ op "setp.eq.u32" (p 3 ∷ r 14 ∷ hex 0xffffffff ∷ [])
              ∷ op "and.pred" (p 2 ∷ p 2 ∷ p 3 ∷ [])
              ∷ op "or.pred" (p 4 ∷ p 1 ∷ p 2 ∷ [])
              ∷ inst (Guard.when 1) "mov.u32" (v di.rd ∷ hex 0xffffffff ∷ [])
              ∷ inst (Guard.when 2) "mov.u32" (v di.rd ∷ hex 0x80000000 ∷ [])
              ∷ inst (Guard.unless 4) "div.s32" (v di.rd ∷ v di.rs2 ∷ r 14 ∷ [])
              ∷ []))
      else if str_eq di.name "vdiv_vv"
      then some (
          emit_lines (
            op "setp.eq.u32" (p 1 ∷ v di.rs1 ∷ zero_imm ∷ [])
            ∷ op "setp.eq.u32" (p 2 ∷ v di.rs2 ∷ hex 0x80000000 ∷ [])
            ∷ op "setp.eq.u32" (p 3 ∷ v di.rs1 ∷ hex 0xffffffff ∷ [])
            ∷ op "and.pred" (p 2 ∷ p 2 ∷ p 3 ∷ [])
            ∷ op "or.pred" (p 4 ∷ p 1 ∷ p 2 ∷ [])
            ∷ inst (Guard.when 1) "mov.u32" (v di.rd ∷ hex 0xffffffff ∷ [])
            ∷ inst (Guard.when 2) "mov.u32" (v di.rd ∷ hex 0x80000000 ∷ [])
            ∷ inst (Guard.unless 4) "div.s32" (v di.rd ∷ v di.rs2 ∷ v di.rs1 ∷ [])
            ∷ []))
      else if str_eq di.name "vrem_vx"
      then some (
          emit_ld_x_u32_all c (r 14) di.rs1 di.pc
          >> emit_lines (
              op "setp.eq.u32" (p 1 ∷ r 14 ∷ zero_imm ∷ [])
              ∷ op "setp.eq.u32" (p 2 ∷ v di.rs2 ∷ hex 0x80000000 ∷ [])
              ∷ op "setp.eq.u32" (p 3 ∷ r 14 ∷ hex 0xffffffff ∷ [])
              ∷ op "and.pred" (p 2 ∷ p 2 ∷ p 3 ∷ [])
              ∷ op "or.pred" (p 4 ∷ p 1 ∷ p 2 ∷ [])
              ∷ inst (Guard.when 1) "mov.u32" (v di.rd ∷ v di.rs2 ∷ [])
              ∷ inst (Guard.when 2) "mov.u32" (v di.rd ∷ zero_imm ∷ [])
              ∷ inst (Guard.unless 4) "rem.s32" (v di.rd ∷ v di.rs2 ∷ r 14 ∷ [])
              ∷ []))
      else if str_eq di.name "vrem_vv"
      then some (
          emit_lines (
            op "setp.eq.u32" (p 1 ∷ v di.rs1 ∷ zero_imm ∷ [])
            ∷ op "setp.eq.u32" (p 2 ∷ v di.rs2 ∷ hex 0x80000000 ∷ [])
            ∷ op "setp.eq.u32" (p 3 ∷ v di.rs1 ∷ hex 0xffffffff ∷ [])
            ∷ op "and.pred" (p 2 ∷ p 2 ∷ p 3 ∷ [])
            ∷ op "or.pred" (p 4 ∷ p 1 ∷ p 2 ∷ [])
            ∷ inst (Guard.when 1) "mov.u32" (v di.rd ∷ v di.rs2 ∷ [])
            ∷ inst (Guard.when 2) "mov.u32" (v di.rd ∷ zero_imm ∷ [])
            ∷ inst (Guard.unless 4) "rem.s32" (v di.rd ∷ v di.rs2 ∷ v di.rs1 ∷ [])
            ∷ []))
      else none

  unfoldable pub emit_vector_multiply_add : Option Emit
  emit_vector_multiply_add =
      if str_eq di.name "vmadd_vv"
      then some (emit_line (op "mad.lo.s32" (v di.rd ∷ v di.rd ∷ v di.rs1 ∷ v di.rs2 ∷ [])))
      else if str_eq di.name "vmadd_vx"
      then some (
          emit_ld_x_u32_all c (r 14) di.rs1 di.pc
          >> emit_line (op "mad.lo.s32" (v di.rd ∷ v di.rd ∷ r 14 ∷ v di.rs2 ∷ [])))
      else if str_eq di.name "vnmsub_vv"
      then some (
          emit_lines (
            op "mul.lo.u32" (r 14 ∷ v di.rd ∷ v di.rs1 ∷ [])
            ∷ op "sub.u32" (v di.rd ∷ v di.rs2 ∷ r 14 ∷ [])
            ∷ []))
      else if str_eq di.name "vnmsub_vx"
      then some (
          emit_ld_x_u32_all c (r 14) di.rs1 di.pc
          >> emit_lines (
              op "mul.lo.u32" (r 15 ∷ v di.rd ∷ r 14 ∷ [])
              ∷ op "sub.u32" (v di.rd ∷ v di.rs2 ∷ r 15 ∷ [])
              ∷ []))
      else if str_eq di.name "vmacc_vv"
      then some (emit_line (op "mad.lo.s32" (v di.rd ∷ v di.rs1 ∷ v di.rs2 ∷ v di.rd ∷ [])))
      else if str_eq di.name "vmacc_vx"
      then some (
          emit_ld_x_u32_all c (r 14) di.rs1 di.pc
          >> emit_line (op "mad.lo.s32" (v di.rd ∷ r 14 ∷ v di.rs2 ∷ v di.rd ∷ [])))
      else if str_eq di.name "vnmsac_vv"
      then some (
          emit_lines (
            op "mul.lo.s32" (r 14 ∷ v di.rs1 ∷ v di.rs2 ∷ [])
            ∷ op "sub.u32" (v di.rd ∷ v di.rd ∷ r 14 ∷ [])
            ∷ []))
      else if str_eq di.name "vnmsac_vx"
      then some (
          emit_ld_x_u32_all c (r 14) di.rs1 di.pc
          >> emit_lines (
              op "mul.lo.s32" (r 15 ∷ r 14 ∷ v di.rs2 ∷ [])
              ∷ op "sub.u32" (v di.rd ∷ v di.rd ∷ r 15 ∷ [])
              ∷ []))
      else none
