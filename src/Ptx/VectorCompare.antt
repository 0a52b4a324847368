-- ===== src/Ptx/VectorCompare.antt =====
-- sbt/ptx_emit.cpp, `emit_one_inst`: comparisons of the vector registers and operations on masks.
use ventus_gpgpu_sbt_simulat.Prelude.{
  String, str_eq, Option, none, some, [], ◌∷◌, ◌||◌, if◌then◌else◌,
}
use ventus_gpgpu_sbt_simulat.Words.{to_u32}
use ventus_gpgpu_sbt_simulat.Decode.Types.{DecodedInst}
use ventus_gpgpu_sbt_simulat.Ptx.Lines.{Line, Operand, r, p, f, v, op, dec, zero_imm, num, hex}
use ventus_gpgpu_sbt_simulat.Ptx.Emit.{
  EmitCtx, Emit, skip, emit_line, emit_lines, ◌>>◌, emit_ld_x_u32_all,
}

module _ (c : EmitCtx) (di : DecodedInst) where
  -- A mask register holds 1 or 0.
  abbrev pub emit_mask_from_pred : Operand → Line
  emit_mask_from_pred pred = op "selp.u32" (v di.rd ∷ dec 1 ∷ zero_imm ∷ pred ∷ [])

  unfoldable pub emit_vector_compare : Option Emit
  emit_vector_compare =
      if str_eq di.name "vmseq_vv"
      then some (
          emit_lines
            (op "setp.eq.u32" (p 1 ∷ v di.rs2 ∷ v di.rs1 ∷ []) ∷ emit_mask_from_pred (p 1) ∷ []))
      else if str_eq di.name "vmseq_vx"
      then some (
          emit_ld_x_u32_all c (r 14) di.rs1 di.pc
          >> emit_lines
              (op "setp.eq.u32" (p 1 ∷ v di.rs2 ∷ r 14 ∷ []) ∷ emit_mask_from_pred (p 1) ∷ []))
      else if str_eq di.name "vmseq_vi"
      then some (
          emit_lines (
            op "setp.eq.u32" (p 1 ∷ v di.rs2 ∷ hex (to_u32 di.imm) ∷ [])
            ∷ emit_mask_from_pred (p 1)
            ∷ []))
      else if str_eq di.name "vmsne_vv"
      then some (
          emit_lines
            (op "setp.ne.u32" (p 1 ∷ v di.rs2 ∷ v di.rs1 ∷ []) ∷ emit_mask_from_pred (p 1) ∷ []))
      else if str_eq di.name "vmsne_vx"
      then some (
          emit_ld_x_u32_all c (r 14) di.rs1 di.pc
          >> emit_lines
              (op "setp.ne.u32" (p 1 ∷ v di.rs2 ∷ r 14 ∷ []) ∷ emit_mask_from_pred (p 1) ∷ []))
      else if str_eq di.name "vmsne_vi"
      then some (
          emit_lines (
            op "setp.ne.u32" (p 1 ∷ v di.rs2 ∷ hex (to_u32 di.imm) ∷ [])
            ∷ emit_mask_from_pred (p 1)
            ∷ []))
      else if str_eq di.name "vmsltu_vv"
      then some (
          emit_lines
            (op "setp.lt.u32" (p 1 ∷ v di.rs2 ∷ v di.rs1 ∷ []) ∷ emit_mask_from_pred (p 1) ∷ []))
      else if str_eq di.name "vmslt_vv"
      then some (
          emit_lines
            (op "setp.lt.s32" (p 1 ∷ v di.rs2 ∷ v di.rs1 ∷ []) ∷ emit_mask_from_pred (p 1) ∷ []))
      else if str_eq di.name "vmsleu_vv"
      then some (
          emit_lines
            (op "setp.le.u32" (p 1 ∷ v di.rs2 ∷ v di.rs1 ∷ []) ∷ emit_mask_from_pred (p 1) ∷ []))
      else if str_eq di.name "vmsleu_vx"
      then some (
          emit_ld_x_u32_all c (r 14) di.rs1 di.pc
          >> emit_lines
              (op "setp.le.u32" (p 1 ∷ v di.rs2 ∷ r 14 ∷ []) ∷ emit_mask_from_pred (p 1) ∷ []))
      else if str_eq di.name "vmsleu_vi"
      then some (
          emit_lines (
            op "setp.le.u32" (p 1 ∷ v di.rs2 ∷ hex (to_u32 di.imm) ∷ [])
            ∷ emit_mask_from_pred (p 1)
            ∷ []))
      else if str_eq di.name "vmsle_vv"
      then some (
          emit_lines
            (op "setp.le.s32" (p 1 ∷ v di.rs2 ∷ v di.rs1 ∷ []) ∷ emit_mask_from_pred (p 1) ∷ []))
      else if str_eq di.name "vmsle_vx"
      then some (
          emit_ld_x_u32_all c (r 14) di.rs1 di.pc
          >> emit_lines
              (op "setp.le.s32" (p 1 ∷ v di.rs2 ∷ r 14 ∷ []) ∷ emit_mask_from_pred (p 1) ∷ []))
      else if str_eq di.name "vmsgtu_vi"
      then some (
          emit_lines (
            op "setp.gt.u32" (p 1 ∷ v di.rs2 ∷ hex (to_u32 di.imm) ∷ [])
            ∷ emit_mask_from_pred (p 1)
            ∷ []))
      else if str_eq di.name "vmsgtu_vx"
      then some (
          emit_ld_x_u32_all c (r 14) di.rs1 di.pc
          >> emit_lines
              (op "setp.gt.u32" (p 1 ∷ v di.rs2 ∷ r 14 ∷ []) ∷ emit_mask_from_pred (p 1) ∷ []))
      else if str_eq di.name "vmsgt_vi"
      then some (
          emit_lines
            (op "setp.gt.s32" (p 1 ∷ v di.rs2 ∷ num di.imm ∷ []) ∷ emit_mask_from_pred (p 1) ∷ []))
      else if str_eq di.name "vmsgt_vx"
      then some (
          emit_ld_x_u32_all c (r 14) di.rs1 di.pc
          >> emit_lines
              (op "setp.gt.s32" (p 1 ∷ v di.rs2 ∷ r 14 ∷ []) ∷ emit_mask_from_pred (p 1) ∷ []))
      else none

  unfoldable pub emit_mask_bool : Option Emit
  emit_mask_bool =
      if str_eq di.name "vmand_mm"
        || (str_eq di.name "vmandn_mm"
            || (str_eq di.name "vmor_mm"
                || (str_eq di.name "vmorn_mm"
                    || (str_eq di.name "vmxor_mm"
                        || (str_eq di.name "vmxnor_mm"
                            || (str_eq di.name "vmnand_mm" || str_eq di.name "vmnor_mm"))))))
      then some (
          emit_lines (
            op "setp.ne.u32" (p 1 ∷ v di.rs2 ∷ zero_imm ∷ [])
            ∷ op "setp.ne.u32" (p 2 ∷ v di.rs1 ∷ zero_imm ∷ [])
            ∷ [])
          >> (if str_eq di.name "vmandn_mm" || str_eq di.name "vmorn_mm"
              then emit_line (op "not.pred" (p 2 ∷ p 2 ∷ []))
              else skip)
          >> emit_line (
              if str_eq di.name "vmand_mm" || str_eq di.name "vmandn_mm"
              then op "and.pred" (p 3 ∷ p 1 ∷ p 2 ∷ [])
              else if str_eq di.name "vmor_mm" || str_eq di.name "vmorn_mm"
              then op "or.pred" (p 3 ∷ p 1 ∷ p 2 ∷ [])
              else op "xor.pred" (p 3 ∷ p 1 ∷ p 2 ∷ []))
          >> (if str_eq di.name "vmxnor_mm"
                || (str_eq di.name "vmnand_mm" || str_eq di.name "vmnor_mm")
              then emit_line (op "not.pred" (p 3 ∷ p 3 ∷ []))
              else skip)
          >> emit_line (emit_mask_from_pred (p 3)))
      else none

  unfoldable pub emit_vf_cmp_vv : String → Emit
  emit_vf_cmp_vv cmp = emit_lines (
      op "mov.b32" (f 0 ∷ v di.rs2 ∷ [])
      ∷ op "mov.b32" (f 1 ∷ v di.rs1 ∷ [])
      ∷ op cmp (p 1 ∷ f 0 ∷ f 1 ∷ [])
      ∷ emit_mask_from_pred (p 1)
      ∷ [])

  unfoldable pub emit_vf_cmp_vf : String → Emit
  emit_vf_cmp_vf cmp =
      emit_ld_x_u32_all c (r 14) di.rs1 di.pc
      >> emit_lines (
          op "mov.b32" (f 0 ∷ v di.rs2 ∷ [])
          ∷ op "mov.b32" (f 1 ∷ r 14 ∷ [])
          ∷ op cmp (p 1 ∷ f 0 ∷ f 1 ∷ [])
          ∷ emit_mask_from_pred (p 1)
          ∷ [])

  unfoldable pub emit_vector_float_compare : Option Emit
  emit_vector_float_compare =
      if str_eq di.name "vmfeq_vv"
      then some (emit_vf_cmp_vv "setp.eq.f32")
      else if str_eq di.name "vmfeq_vf"
      then some (emit_vf_cmp_vf "setp.eq.f32")
      else if str_eq di.name "vmfle_vv"
      then some (emit_vf_cmp_vv "setp.le.f32")
      else if str_eq di.name "vmfle_vf"
      then some (emit_vf_cmp_vf "setp.le.f32")
      else if str_eq di.name "vmflt_vv"
      then some (emit_vf_cmp_vv "setp.lt.f32")
      else if str_eq di.name "vmflt_vf"
      then some (emit_vf_cmp_vf "setp.lt.f32")
      else if str_eq di.name "vmfgt_vf"
      then some (
          emit_ld_x_u32_all c (r 14) di.rs1 di.pc
          >> emit_lines (
              op "mov.b32" (f 0 ∷ r 14 ∷ [])
              ∷ op "mov.b32" (f 1 ∷ v di.rs2 ∷ [])
              ∷ op "setp.lt.f32" (p 1 ∷ f 0 ∷ f 1 ∷ [])
              ∷ emit_mask_from_pred (p 1)
              ∷ []))
      else if str_eq di.name "vmfge_vf"
      then some (
          emit_ld_x_u32_all c (r 14) di.rs1 di.pc
          >> emit_lines (
              op "mov.b32" (f 0 ∷ r 14 ∷ [])
              ∷ op "mov.b32" (f 1 ∷ v di.rs2 ∷ [])
              ∷ op "setp.le.f32" (p 1 ∷ f 0 ∷ f 1 ∷ [])
              ∷ emit_mask_from_pred (p 1)
              ∷ []))
      else if str_eq di.name "vmfne_vv"
      then some (
          emit_vf_cmp_vv "setp.eq.f32"
          >> emit_lines (op "not.pred" (p 1 ∷ p 1 ∷ []) ∷ emit_mask_from_pred (p 1) ∷ []))
      else if str_eq di.name "vmfne_vf"
      then some (
          emit_vf_cmp_vf "setp.eq.f32"
          >> emit_lines (op "not.pred" (p 1 ∷ p 1 ∷ []) ∷ emit_mask_from_pred (p 1) ∷ []))
      else none

  unfoldable pub emit_vector_compare_rest : Option Emit
  emit_vector_compare_rest =
      if str_eq di.name "vmslt_vx"
      then some (
          emit_ld_x_u32_all c (r 14) di.rs1 di.pc
          >> emit_lines (
              op "setp.lt.s32" (p 1 ∷ v di.rs2 ∷ r 14 ∷ [])
              ∷ op "selp.u32" (v di.rd ∷ dec 1 ∷ zero_imm ∷ p 1 ∷ [])
              ∷ []))
      else if str_eq di.name "vmsltu_vx"
      then some (
          emit_ld_x_u32_all c (r 14) di.rs1 di.pc
          >> emit_lines (
              op "setp.lt.u32" (p 1 ∷ v di.rs2 ∷ r 14 ∷ [])
              ∷ op "selp.u32" (v di.rd ∷ dec 1 ∷ zero_imm ∷ p 1 ∷ [])
              ∷ []))
      else if str_eq di.name "vmsle_vi"
      then some (
          emit_lines (
            op "setp.le.s32" (p 1 ∷ v di.rs2 ∷ num di.imm ∷ [])
            ∷ op "selp.u32" (v di.rd ∷ dec 1 ∷ zero_imm ∷ p 1 ∷ [])
            ∷ []))
      else none
