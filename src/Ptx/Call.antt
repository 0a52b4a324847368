-- ===== src/Ptx/Call.antt =====
-- sbt/ptx_emit.cpp, `emit_one_inst`: calls, of the inlined functions and of emitted ones.
use ventus_gpgpu_sbt_simulat.Prelude.{
  ℕ, ◌+◌, String, str_eq, Option, none, some, [], ◌∷◌, ◌||◌, if◌then◌else◌,
}
use Prim.Native.String.{◌++◌ as str_append}
use ventus_gpgpu_sbt_simulat.Prelude.Int.{pos, ◌+ℤ◌}
use ventus_gpgpu_sbt_simulat.Words.{u32, to_u32}
use ventus_gpgpu_sbt_simulat.Cfg.Types.{BundleInst}
use ventus_gpgpu_sbt_simulat.Ptx.Lines.{r, v, op, hex, word}
use ventus_gpgpu_sbt_simulat.Ptx.Kinds.{is_call}
use ventus_gpgpu_sbt_simulat.Ptx.Builtins.{
  is_inlined_builtin_call_name, emit_builtin_get_id, emit_builtin_get_global_size,
  emit_builtin_fmaxff, emit_builtin_sqrtf, emit_builtin_mad24iii, emit_builtin_vec4_cos,
  emit_builtin_vec4_sin, emit_builtin_vec4_sqrt, emit_builtin_vec4_fabs, emit_builtin_vec4_tan,
}
use ventus_gpgpu_sbt_simulat.Ptx.Blob.{emit_direct_call}
use ventus_gpgpu_sbt_simulat.Ptx.Text.{hex_u32}
use ventus_gpgpu_sbt_simulat.Ptx.Emit.{
  EmitCtx, Emit, find_text, emit_line, emit_lines, ◌>>◌, throw, emit_st_x_u32_all,
}

unfoldable pub emit_builtin : EmitCtx → String → ℕ → Emit
emit_builtin c callee pc =
    if str_eq callee "_Z13get_global_idj"
    then emit_builtin_get_id "global"
    else if str_eq callee "_Z12get_local_idj"
    then emit_builtin_get_id "local"
    else if str_eq callee "_Z12get_group_idj"
    then emit_builtin_get_id "group"
    else if str_eq callee "_Z15get_global_sizej"
    then emit_builtin_get_global_size
    else if str_eq callee "_Z4fmaxff"
    then emit_builtin_fmaxff
    else if str_eq callee "_Z10__clc_sqrtf" || str_eq callee "_Z4sqrtf"
    then emit_builtin_sqrtf
    else if str_eq callee "_Z3cosDv4_f"
    then emit_builtin_vec4_cos c pc
    else if str_eq callee "_Z3sinDv4_f"
    then emit_builtin_vec4_sin c pc
    else if str_eq callee "_Z3tanDv4_f"
    then emit_builtin_vec4_tan
    else if str_eq callee "_Z4sqrtDv4_f"
    then emit_builtin_vec4_sqrt c pc
    else if str_eq callee "_Z4fabsDv4_f"
    then emit_builtin_vec4_fabs
    else if str_eq callee "_Z5mad24iii"
    then emit_builtin_mad24iii
    else if str_eq callee "__builtin_riscv_workitem_id_x"
    then emit_line (op "mov.u32" (v (pos 0) ∷ word "%tid.x" ∷ []))
    else if str_eq callee "__builtin_riscv_workitem_id_y"
    then emit_line (op "mov.u32" (v (pos 0) ∷ word "%tid.y" ∷ []))
    else if str_eq callee "__builtin_riscv_workitem_id_z"
    then emit_line (op "mov.u32" (v (pos 0) ∷ word "%tid.z" ∷ []))
    else if str_eq callee "__builtin_riscv_workgroup_id_x"
    then emit_line (op "mov.u32" (v (pos 0) ∷ word "%ctaid.x" ∷ []))
    else if str_eq callee "__builtin_riscv_workgroup_id_y"
    then emit_line (op "mov.u32" (v (pos 0) ∷ word "%ctaid.y" ∷ []))
    else if str_eq callee "__builtin_riscv_workgroup_id_z"
    then emit_line (op "mov.u32" (v (pos 0) ∷ word "%ctaid.z" ∷ []))
    else if str_eq callee "__builtin_riscv_global_id_x"
    then emit_lines (
        op "mov.u32" (r 21 ∷ word "%tid.x" ∷ [])
        ∷ op "mov.u32" (r 22 ∷ word "%ntid.x" ∷ [])
        ∷ op "mov.u32" (r 23 ∷ word "%ctaid.x" ∷ [])
        ∷ op "mul.lo.u32" (r 24 ∷ r 23 ∷ r 22 ∷ [])
        ∷ op "add.u32" (r 24 ∷ r 24 ∷ r 21 ∷ [])
        ∷ op "mov.u32" (v (pos 0) ∷ r 24 ∷ [])
        ∷ [])
    else if str_eq callee "__builtin_riscv_global_id_y"
    then emit_lines (
        op "mov.u32" (r 21 ∷ word "%tid.y" ∷ [])
        ∷ op "mov.u32" (r 22 ∷ word "%ntid.y" ∷ [])
        ∷ op "mov.u32" (r 23 ∷ word "%ctaid.y" ∷ [])
        ∷ op "mul.lo.u32" (r 24 ∷ r 23 ∷ r 22 ∷ [])
        ∷ op "add.u32" (r 24 ∷ r 24 ∷ r 21 ∷ [])
        ∷ op "mov.u32" (v (pos 0) ∷ r 24 ∷ [])
        ∷ [])
    else if str_eq callee "__builtin_riscv_global_id_z"
    then emit_lines (
        op "mov.u32" (r 21 ∷ word "%tid.z" ∷ [])
        ∷ op "mov.u32" (r 22 ∷ word "%ntid.z" ∷ [])
        ∷ op "mov.u32" (r 23 ∷ word "%ctaid.z" ∷ [])
        ∷ op "mul.lo.u32" (r 24 ∷ r 23 ∷ r 22 ∷ [])
        ∷ op "add.u32" (r 24 ∷ r 24 ∷ r 21 ∷ [])
        ∷ op "mov.u32" (v (pos 0) ∷ r 24 ∷ [])
        ∷ [])
    else throw c "unsupported.call" pc (str_append "callee=" callee)

-- `ptx_name_by_addr` is the map of the emitted functions, or null.
abbrev emitted_name : EmitCtx → ℕ → Option String
emitted_name c target = elim c.ptx_name_by_addr [
  | none ↦ none
  | some names ↦ find_text target names
]

module _ (c : EmitCtx) (bi : BundleInst) where
  abbrev unsupported : String → Emit
  unsupported detail = throw c "unsupported.call" bi.inst.pc detail

  unfoldable pub call_function : String → ℕ → Emit
  call_function callee target = elim (emitted_name c target) [
    | none ↦ unsupported (str_append "callee=" callee)
    | some name ↦ emit_direct_call name
  ]

  unfoldable pub emit_call : Option Emit
  emit_call =
      if is_call bi.inst
      then some (
          let target = to_u32 (pos bi.inst_pc +ℤ bi.inst.imm) in
          elim (find_text target c.sym_by_addr) [
            | none ↦ unsupported (str_append "target=" (hex_u32 target))
            | some callee ↦
                emit_line (op "mov.u32" (r 14 ∷ hex (u32 (bi.inst_pc + 4)) ∷ []))
                >> emit_st_x_u32_all c bi.inst.rd (r 14) bi.inst.pc
                >> (if is_inlined_builtin_call_name callee
                    then emit_builtin c callee bi.inst.pc
                    else call_function callee target)
          ])
      else none
