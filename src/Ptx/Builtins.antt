-- ===== src/Ptx/Builtins.antt =====
-- sbt/ptx_emit.cpp: the library functions that are translated in place of a call.
use ventus_gpgpu_sbt_simulat.Prelude.{
  ℕ, String, str_eq, Bool, Option, none, some, List, [], ◌∷◌, ◌++◌, if◌then◌else◌,
}
use Prim.Native.String.{◌++◌ as str_append}
use ventus_gpgpu_sbt_simulat.Prelude.Int.{pos}
use ventus_gpgpu_sbt_simulat.Ptx.Lines.{
  Label, Line, Guard, Operand, r, p, f, v, op, dec, zero_imm, inst, hex, word, goal, comment,
}
use ventus_gpgpu_sbt_simulat.Ptx.Kinds.{any_name}
use ventus_gpgpu_sbt_simulat.Ptx.Emit.{
  EmitCtx, Emit, emit_line, emit_lines, ◌>>◌, with_label, throw,
}

unfoldable pub is_inlined_builtin_call_name : String → Bool
is_inlined_builtin_call_name callee = any_name callee (
    "_Z13get_global_idj" ∷ "_Z12get_local_idj" ∷ "_Z12get_group_idj" ∷ "_Z15get_global_sizej"
    ∷ "__builtin_riscv_workitem_id_x" ∷ "__builtin_riscv_workitem_id_y"
    ∷ "__builtin_riscv_workitem_id_z" ∷ "__builtin_riscv_workgroup_id_x"
    ∷ "__builtin_riscv_workgroup_id_y" ∷ "__builtin_riscv_workgroup_id_z"
    ∷ "__builtin_riscv_global_id_x" ∷ "__builtin_riscv_global_id_y" ∷ "__builtin_riscv_global_id_z"
    ∷ "_Z10__clc_sqrtf" ∷ "_Z4sqrtf" ∷ "_Z4fmaxff" ∷ "_Z3cosDv4_f" ∷ "_Z3sinDv4_f" ∷ "_Z3tanDv4_f"
    ∷ "_Z4sqrtDv4_f" ∷ "_Z4fabsDv4_f" ∷ "_Z5mad24iii" ∷ [])

-- The code for one dimension: `emit_dim`.
abbrev id_lines : String → Label → Label → String → String → String → List Line
id_lines kind place done tid ntid ctaid =
    Line.label place
    ∷ ((if str_eq kind "local"
          then op "mov.u32" (v (pos 0) ∷ word tid ∷ []) ∷ []
          else if str_eq kind "group"
          then op "mov.u32" (v (pos 0) ∷ word ctaid ∷ []) ∷ []
          else op "mov.u32" (r 21 ∷ word tid ∷ [])
            ∷ op "mov.u32" (r 22 ∷ word ntid ∷ [])
            ∷ op "mov.u32" (r 23 ∷ word ctaid ∷ [])
            ∷ op "mul.lo.u32" (r 24 ∷ r 23 ∷ r 22 ∷ [])
            ∷ op "add.u32" (r 24 ∷ r 24 ∷ r 21 ∷ [])
            ∷ op "mov.u32" (v (pos 0) ∷ r 24 ∷ [])
            ∷ [])
        ++ op "bra" (goal done ∷ []) ∷ [])

abbrev size_lines : Label → Label → String → String → List Line
size_lines place done ntid nctaid =
    Line.label place
    ∷ op "mov.u32" (r 21 ∷ word ntid ∷ [])
    ∷ op "mov.u32" (r 22 ∷ word nctaid ∷ [])
    ∷ op "mul.lo.u32" (r 23 ∷ r 21 ∷ r 22 ∷ [])
    ∷ op "mov.u32" (v (pos 0) ∷ r 23 ∷ [])
    ∷ op "bra" (goal done ∷ [])
    ∷ []

-- The jump to the code for the dimension in `%v0`, and the value for a dimension that is none.
abbrev dispatch_lines : ℕ → Label → Label → Label → Label → List Line
dispatch_lines other dim0 dim1 dim2 done =
    op "setp.eq.u32" (p 5 ∷ r 20 ∷ zero_imm ∷ [])
    ∷ inst (Guard.when 5) "bra" (goal dim0 ∷ [])
    ∷ op "setp.eq.u32" (p 6 ∷ r 20 ∷ dec 1 ∷ [])
    ∷ inst (Guard.when 6) "bra" (goal dim1 ∷ [])
    ∷ op "setp.eq.u32" (p 7 ∷ r 20 ∷ dec 2 ∷ [])
    ∷ inst (Guard.when 7) "bra" (goal dim2 ∷ [])
    ∷ op "mov.u32" (v (pos 0) ∷ dec other ∷ [])
    ∷ op "bra" (goal done ∷ [])
    ∷ []

unfoldable pub emit_builtin_get_id : String → Emit
emit_builtin_get_id kind =
    emit_lines (
      comment (str_append "// builtin: " (str_append kind "_id(dim=v0) -> v0"))
      ∷ op "mov.u32" (r 20 ∷ v (pos 0) ∷ [])
      ∷ [])
    >> with_label "dim0" (λ dim0. with_label "dim1" (λ dim1. with_label "dim2" (λ dim2.
      with_label "dim_done" (λ done. emit_lines (
        dispatch_lines 0 dim0 dim1 dim2 done
        ++ id_lines kind dim0 done "%tid.x" "%ntid.x" "%ctaid.x"
        ++ id_lines kind dim1 done "%tid.y" "%ntid.y" "%ctaid.y"
        ++ id_lines kind dim2 done "%tid.z" "%ntid.z" "%ctaid.z"
        ++ Line.label done ∷ [])))))

unfoldable pub emit_builtin_get_global_size : Emit
emit_builtin_get_global_size =
    emit_lines
      (comment "// builtin: global_size(dim=v0) -> v0" ∷ op "mov.u32" (r 20 ∷ v (pos 0) ∷ []) ∷ [])
    >> with_label "gsize_dim0" (λ dim0. with_label "gsize_dim1" (λ dim1.
      with_label "gsize_dim2" (λ dim2. with_label "gsize_done" (λ done. emit_lines (
        dispatch_lines 1 dim0 dim1 dim2 done
        ++ size_lines dim0 done "%ntid.x" "%nctaid.x"
        ++ size_lines dim1 done "%ntid.y" "%nctaid.y"
        ++ size_lines dim2 done "%ntid.z" "%nctaid.z"
        ++ Line.label done ∷ [])))))

unfoldable pub emit_builtin_fmaxff : Emit
emit_builtin_fmaxff = emit_lines (
    comment "// builtin: fmax(v0,v1) -> v0 (f32 bits, NaN-safe)"
    ∷ op "mov.b32" (f 0 ∷ v (pos 0) ∷ [])
    ∷ op "mov.b32" (f 1 ∷ v (pos 1) ∷ [])
    ∷ op "setp.nan.f32" (p 2 ∷ f 0 ∷ f 0 ∷ [])
    ∷ op "setp.nan.f32" (p 3 ∷ f 1 ∷ f 1 ∷ [])
    ∷ op "max.f32" (f 2 ∷ f 0 ∷ f 1 ∷ [])
    ∷ op "selp.b32" (f 2 ∷ f 1 ∷ f 2 ∷ p 2 ∷ [])
    ∷ op "selp.b32" (f 2 ∷ f 0 ∷ f 2 ∷ p 3 ∷ [])
    ∷ op "mov.b32" (v (pos 0) ∷ f 2 ∷ [])
    ∷ [])

unfoldable pub emit_builtin_sqrtf : Emit
emit_builtin_sqrtf = emit_lines (
    comment "// builtin: sqrtf(v0) -> v0 (f32 bits)"
    ∷ op "mov.b32" (f 0 ∷ v (pos 0) ∷ [])
    ∷ op "sqrt.rn.f32" (f 1 ∷ f 0 ∷ [])
    ∷ op "mov.b32" (v (pos 0) ∷ f 1 ∷ [])
    ∷ [])

unfoldable pub emit_builtin_mad24iii : Emit
emit_builtin_mad24iii = emit_lines (
    comment "// builtin: mad24(v0,v1,v2) -> v0 (signed 24-bit)"
    ∷ op "mov.b32" (r 14 ∷ v (pos 0) ∷ [])
    ∷ op "mov.b32" (r 15 ∷ v (pos 1) ∷ [])
    ∷ op "mov.b32" (r 16 ∷ v (pos 2) ∷ [])
    ∷ op "shl.b32" (r 14 ∷ r 14 ∷ dec 8 ∷ [])
    ∷ op "shr.s32" (r 14 ∷ r 14 ∷ dec 8 ∷ [])
    ∷ op "shl.b32" (r 15 ∷ r 15 ∷ dec 8 ∷ [])
    ∷ op "shr.s32" (r 15 ∷ r 15 ∷ dec 8 ∷ [])
    ∷ op "mad.lo.s32" (r 14 ∷ r 14 ∷ r 15 ∷ r 16 ∷ [])
    ∷ op "mov.b32" (v (pos 0) ∷ r 14 ∷ [])
    ∷ [])

-- The instruction of a function on one number, where it has one.
abbrev unary_line : String → Option Line
unary_line opname =
    if str_eq opname "sqrt"
    then some (op "sqrt.rn.f32" (f 1 ∷ f 0 ∷ []))
    else if str_eq opname "cos"
    then some (op "cos.approx.f32" (f 1 ∷ f 0 ∷ []))
    else if str_eq opname "sin"
    then some (op "sin.approx.f32" (f 1 ∷ f 0 ∷ []))
    else none

unfoldable pub emit_builtin_unary_f32_inplace : EmitCtx → String → Operand → ℕ → Emit
emit_builtin_unary_f32_inplace c opname dst pc =
    emit_line (op "mov.b32" (f 0 ∷ dst ∷ []))
    >> elim (unary_line opname) [
      | some l ↦ emit_line l
      | none ↦ throw c "unsupported.call" pc (str_append "unary_op=" opname)
    ]
    >> emit_line (op "mov.b32" (dst ∷ f 1 ∷ []))

-- A function on the four numbers in `%v0` to `%v3`.
unfoldable pub emit_builtin_vec4 : EmitCtx → String → String → ℕ → Emit
emit_builtin_vec4 c note opname pc =
    emit_line (comment note)
    >> emit_builtin_unary_f32_inplace c opname (v (pos 0)) pc
    >> emit_builtin_unary_f32_inplace c opname (v (pos 1)) pc
    >> emit_builtin_unary_f32_inplace c opname (v (pos 2)) pc
    >> emit_builtin_unary_f32_inplace c opname (v (pos 3)) pc

unfoldable pub emit_builtin_vec4_cos : EmitCtx → ℕ → Emit
emit_builtin_vec4_cos c pc = emit_builtin_vec4 c "// builtin: cos(float4) in v0..v3" "cos" pc

unfoldable pub emit_builtin_vec4_sin : EmitCtx → ℕ → Emit
emit_builtin_vec4_sin c pc = emit_builtin_vec4 c "// builtin: sin(float4) in v0..v3" "sin" pc

unfoldable pub emit_builtin_vec4_sqrt : EmitCtx → ℕ → Emit
emit_builtin_vec4_sqrt c pc = emit_builtin_vec4 c "// builtin: sqrt(float4) in v0..v3" "sqrt" pc

abbrev fabs_line : ℕ → Line
fabs_line i = op "and.b32" (v (pos i) ∷ v (pos i) ∷ hex 0x7fffffff ∷ [])

unfoldable pub emit_builtin_vec4_fabs : Emit
emit_builtin_vec4_fabs = emit_lines (
    comment "// builtin: fabs(float4) in v0..v3 (bitwise clear sign)"
    ∷ fabs_line 0
    ∷ fabs_line 1
    ∷ fabs_line 2
    ∷ fabs_line 3
    ∷ [])

abbrev tan_lines : ℕ → List Line
tan_lines i =
    op "mov.b32" (f 0 ∷ v (pos i) ∷ [])
    ∷ op "sin.approx.f32" (f 1 ∷ f 0 ∷ [])
    ∷ op "cos.approx.f32" (f 2 ∷ f 0 ∷ [])
    ∷ op "div.rn.f32" (f 3 ∷ f 1 ∷ f 2 ∷ [])
    ∷ op "mov.b32" (v (pos i) ∷ f 3 ∷ [])
    ∷ []

unfoldable pub emit_builtin_vec4_tan : Emit
emit_builtin_vec4_tan = emit_lines (
    comment "// builtin: tan(float4) in v0..v3 (approx via sin/cos)"
    ∷ (tan_lines 0 ++ tan_lines 1 ++ tan_lines 2 ++ tan_lines 3))
