-- ===== src/Ptx/VectorInt.antt =====
-- sbt/ptx_emit.cpp, `emit_one_inst`: moves and integer arithmetic of the vector registers.
use ventus_gpgpu_sbt_simulat.Prelude.{str_eq, Option, none, some, [], ◌∷◌, ◌&&◌, if◌then◌else◌}
use ventus_gpgpu_sbt_simulat.Prelude.Int.{pos}
use ventus_gpgpu_sbt_simulat.Words.{to_u32}
use ventus_gpgpu_sbt_simulat.Decode.Types.{DecodedInst, is_i12}
use ventus_gpgpu_sbt_simulat.Ptx.Lines.{Guard, r, p, v, x, op, dec, zero_imm, inst, num, hex, word}
use ventus_gpgpu_sbt_simulat.Ptx.Kinds.{ScalarExecKind, require_kind}
use ventus_gpgpu_sbt_simulat.Ptx.Emit.{
  EmitCtx, Emit, emit_line, emit_lines, ◌>>◌, emit_ld_x_u32_all, emit_read_activemask,
  emit_trap_if_lane_inactive,
}

module _ (c : EmitCtx) (di : DecodedInst) where
  unfoldable pub emit_vector_move : Option Emit
  emit_vector_move =
      if str_eq di.name "vmv_v_x"
      then some (
          emit_ld_x_u32_all c (r 14) di.rs1 di.pc >> emit_line (op "mov.u32" (v di.rd ∷ r 14 ∷ [])))
      else if str_eq di.name "vmv_s_x"
      then some (
          emit_ld_x_u32_all c (r 14) di.rs1 di.pc >> emit_line (op "mov.u32" (v di.rd ∷ r 14 ∷ [])))
      else if str_eq di.name "vfmv_v_f"
      then some (
          emit_ld_x_u32_all c (r 14) di.rs1 di.pc >> emit_line (op "mov.u32" (v di.rd ∷ r 14 ∷ [])))
      else if str_eq di.name "vmv_v_i"
      then some (emit_line (op "mov.u32" (v di.rd ∷ num di.imm ∷ [])))
      else if str_eq di.name "vmv_v_v"
      then some (emit_line (op "mov.u32" (v di.rd ∷ v di.rs2 ∷ [])))
      else if str_eq di.name "vmv_x_s"
      then some (
          require_kind c di ScalarExecKind.fixed_lane_sensitive
          >> emit_trap_if_lane_inactive c 0
          >> emit_lines (
              op "setp.eq.u32" (p 2 ∷ r 0 ∷ zero_imm ∷ [])
              ∷ inst (Guard.when 2) "mov.u32" (x di.rd ∷ v di.rs2 ∷ [])
              ∷ [])
          >> emit_read_activemask (r 1)
          >> emit_line
              (op "shfl.sync.idx.b32" (x di.rd ∷ x di.rd ∷ zero_imm ∷ word "0x1f" ∷ r 1 ∷ [])))
      else if str_eq di.name "vid_v"
      then some (emit_line (op "mov.u32" (v di.rd ∷ r 0 ∷ [])))
      else if str_eq di.name "vmerge_vvm"
      then some (
          emit_lines (
            op "setp.ne.u32" (p 1 ∷ v (pos 0) ∷ zero_imm ∷ [])
            ∷ op "selp.u32" (v di.rd ∷ v di.rs1 ∷ v di.rs2 ∷ p 1 ∷ [])
            ∷ []))
      else if str_eq di.name "vmerge_vxm"
      then some (
          emit_ld_x_u32_all c (r 14) di.rs1 di.pc
          >> emit_lines (
              op "setp.ne.u32" (p 1 ∷ v (pos 0) ∷ zero_imm ∷ [])
              ∷ op "selp.u32" (v di.rd ∷ r 14 ∷ v di.rs2 ∷ p 1 ∷ [])
              ∷ []))
      else if str_eq di.name "vmerge_vim"
      then some (
          emit_lines (
            op "setp.ne.u32" (p 1 ∷ v (pos 0) ∷ zero_imm ∷ [])
            ∷ op "selp.u32" (v di.rd ∷ num di.imm ∷ v di.rs2 ∷ p 1 ∷ [])
            ∷ []))
      else if str_eq di.name "vfmerge_vfm"
      then some (
          emit_ld_x_u32_all c (r 14) di.rs1 di.pc
          >> emit_lines (
              op "setp.ne.u32" (p 1 ∷ v (pos 0) ∷ zero_imm ∷ [])
              ∷ op "selp.u32" (v di.rd ∷ r 14 ∷ v di.rs2 ∷ p 1 ∷ [])
              ∷ []))
      else none

  unfoldable pub emit_vector_add_or_logic : Option Emit
  emit_vector_add_or_logic =
      if str_eq di.name "vadd_vv"
      then some (emit_line (op "add.u32" (v di.rd ∷ v di.rs2 ∷ v di.rs1 ∷ [])))
      else if str_eq di.name "vadd_vx"
      then some (
          emit_ld_x_u32_all c (r 14) di.rs1 di.pc
          >> emit_line (op "add.u32" (v di.rd ∷ v di.rs2 ∷ r 14 ∷ [])))
      else if str_eq di.name "vadd_vi"
      then some (emit_line (op "add.s32" (v di.rd ∷ v di.rs2 ∷ num di.imm ∷ [])))
      else if str_eq di.name "vadd12_vi" && is_i12 di.imm_kind
      then some (emit_line (op "add.s32" (v di.rd ∷ v di.rs1 ∷ num di.imm ∷ [])))
      else if str_eq di.name "vsub_vv"
      then some (emit_line (op "sub.u32" (v di.rd ∷ v di.rs2 ∷ v di.rs1 ∷ [])))
      else if str_eq di.name "vsub_vx"
      then some (
          emit_ld_x_u32_all c (r 14) di.rs1 di.pc
          >> emit_line (op "sub.u32" (v di.rd ∷ v di.rs2 ∷ r 14 ∷ [])))
      else if str_eq di.name "vrsub_vi"
      then some (emit_line (op "sub.s32" (v di.rd ∷ num di.imm ∷ v di.rs2 ∷ [])))
      else if str_eq di.name "vrsub_vx"
      then some (
          emit_ld_x_u32_all c (r 14) di.rs1 di.pc
          >> emit_line (op "sub.u32" (v di.rd ∷ r 14 ∷ v di.rs2 ∷ [])))
      else if str_eq di.name "vminu_vv"
      then some (emit_line (op "min.u32" (v di.rd ∷ v di.rs2 ∷ v di.rs1 ∷ [])))
      else if str_eq di.name "vminu_vx"
      then some (
          emit_ld_x_u32_all c (r 14) di.rs1 di.pc
          >> emit_line (op "min.u32" (v di.rd ∷ v di.rs2 ∷ r 14 ∷ [])))
      else if str_eq di.name "vmin_vv"
      then some (emit_line (op "min.s32" (v di.rd ∷ v di.rs2 ∷ v di.rs1 ∷ [])))
      else if str_eq di.name "vmin_vx"
      then some (
          emit_ld_x_u32_all c (r 14) di.rs1 di.pc
          >> emit_line (op "min.s32" (v di.rd ∷ v di.rs2 ∷ r 14 ∷ [])))
      else if str_eq di.name "vmaxu_vv"
      then some (emit_line (op "max.u32" (v di.rd ∷ v di.rs2 ∷ v di.rs1 ∷ [])))
      else if str_eq di.name "vmaxu_vx"
      then some (
          emit_ld_x_u32_all c (r 14) di.rs1 di.pc
          >> emit_line (op "max.u32" (v di.rd ∷ v di.rs2 ∷ r 14 ∷ [])))
      else if str_eq di.name "vmax_vv"
      then some (emit_line (op "max.s32" (v di.rd ∷ v di.rs2 ∷ v di.rs1 ∷ [])))
      else if str_eq di.name "vmax_vx"
      then some (
          emit_ld_x_u32_all c (r 14) di.rs1 di.pc
          >> emit_line (op "max.s32" (v di.rd ∷ v di.rs2 ∷ r 14 ∷ [])))
      else if str_eq di.name "vsub12_vi" && is_i12 di.imm_kind
      then some (emit_line (op "sub.s32" (v di.rd ∷ v di.rs1 ∷ num di.imm ∷ [])))
      else if str_eq di.name "vand_vv"
      then some (emit_line (op "and.b32" (v di.rd ∷ v di.rs2 ∷ v di.rs1 ∷ [])))
      else if str_eq di.name "vand_vx"
      then some (
          emit_ld_x_u32_all c (r 14) di.rs1 di.pc
          >> emit_line (op "and.b32" (v di.rd ∷ v di.rs2 ∷ r 14 ∷ [])))
      else if str_eq di.name "vand_vi"
      then some (emit_line (op "and.b32" (v di.rd ∷ v di.rs2 ∷ hex (to_u32 di.imm) ∷ [])))
      else if str_eq di.name "vor_vv"
      then some (emit_line (op "or.b32" (v di.rd ∷ v di.rs2 ∷ v di.rs1 ∷ [])))
      else if str_eq di.name "vor_vx"
      then some (
          emit_ld_x_u32_all c (r 14) di.rs1 di.pc
          >> emit_line (op "or.b32" (v di.rd ∷ v di.rs2 ∷ r 14 ∷ [])))
      else if str_eq di.name "vor_vi"
      then some (emit_line (op "or.b32" (v di.rd ∷ v di.rs2 ∷ hex (to_u32 di.imm) ∷ [])))
      else if str_eq di.name "vxor_vv"
      then some (emit_line (op "xor.b32" (v di.rd ∷ v di.rs2 ∷ v di.rs1 ∷ [])))
      else if str_eq di.name "vxor_vi"
      then some (emit_line (op "xor.b32" (v di.rd ∷ v di.rs2 ∷ num di.imm ∷ [])))
      else if str_eq di.name "vxor_vx"
      then some (
          emit_ld_x_u32_all c (r 14) di.rs1 di.pc
          >> emit_line (op "xor.b32" (v di.rd ∷ v di.rs2 ∷ r 14 ∷ [])))
      else none

  unfoldable pub emit_vector_shift : Option Emit
  emit_vector_shift =
      if str_eq di.name "vsll_vi"
      then some (emit_line (op "shl.b32" (v di.rd ∷ v di.rs2 ∷ num di.imm ∷ [])))
      else if str_eq di.name "vsll_vv"
      then some (
          emit_lines (
            op "and.b32" (r 14 ∷ v di.rs1 ∷ dec 31 ∷ [])
            ∷ op "shl.b32" (v di.rd ∷ v di.rs2 ∷ r 14 ∷ [])
            ∷ []))
      else if str_eq di.name "vsll_vx"
      then some (
          emit_ld_x_u32_all c (r 14) di.rs1 di.pc
          >> emit_lines (
              op "and.b32" (r 14 ∷ r 14 ∷ dec 31 ∷ [])
              ∷ op "shl.b32" (v di.rd ∷ v di.rs2 ∷ r 14 ∷ [])
              ∷ []))
      else if str_eq di.name "vsrl_vi"
      then some (emit_line (op "shr.u32" (v di.rd ∷ v di.rs2 ∷ num di.imm ∷ [])))
      else if str_eq di.name "vsrl_vv"
      then some (
          emit_lines (
            op "and.b32" (r 14 ∷ v di.rs1 ∷ dec 31 ∷ [])
            ∷ op "shr.u32" (v di.rd ∷ v di.rs2 ∷ r 14 ∷ [])
            ∷ []))
      else if str_eq di.name "vsrl_vx"
      then some (
          emit_ld_x_u32_all c (r 14) di.rs1 di.pc
          >> emit_lines (
              op "and.b32" (r 14 ∷ r 14 ∷ dec 31 ∷ [])
              ∷ op "shr.u32" (v di.rd ∷ v di.rs2 ∷ r 14 ∷ [])
              ∷ []))
      else if str_eq di.name "vsra_vi"
      then some (emit_line (op "shr.s32" (v di.rd ∷ v di.rs2 ∷ num di.imm ∷ [])))
      else if str_eq di.name "vsra_vv"
      then some (
          emit_lines (
            op "and.b32" (r 14 ∷ v di.rs1 ∷ dec 31 ∷ [])
            ∷ op "shr.s32" (v di.rd ∷ v di.rs2 ∷ r 14 ∷ [])
            ∷ []))
      else if str_eq di.name "vsra_vx"
      then some (
          emit_ld_x_u32_all c (r 14) di.rs1 di.pc
          >> emit_lines (
              op "and.b32" (r 14 ∷ r 14 ∷ dec 31 ∷ [])
              ∷ op "shr.s32" (v di.rd ∷ v di.rs2 ∷ r 14 ∷ [])
              ∷ []))
      else none
