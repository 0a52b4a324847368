-- ===== src/Ptx/ScalarFp.antt =====
-- sbt/ptx_emit.cpp: the floating-point instructions on the scalar registers, which hold the bits of
-- the numbers.
use ventus_gpgpu_sbt_simulat.Prelude.{
  String, str_eq, Option, none, some, List, [], ◌∷◌, ◌++◌, ◌||◌, if◌then◌else◌,
}
use Prim.Native.String.{◌++◌ as str_append}
use ventus_gpgpu_sbt_simulat.Decode.Types.{DecodedInst}
use ventus_gpgpu_sbt_simulat.Ptx.Lines.{Line, r, p, f, op, dec, zero_imm, hex}
use ventus_gpgpu_sbt_simulat.Ptx.Scalar.{from_one, from_two}
use ventus_gpgpu_sbt_simulat.Ptx.Rounding.{ptx_rm_f32, ptx_rm_cvt_i32}
use ventus_gpgpu_sbt_simulat.Ptx.Fclass.{emit_scalar_fclass_s}
use ventus_gpgpu_sbt_simulat.Ptx.Emit.{
  EmitCtx, Emit, skip, emit_line, emit_lines, ◌>>◌, emit_ld_x_u32_all, emit_st_x_u32_all,
}

abbrev f32_op : String → String → String
f32_op name rm = str_append name (str_append rm ".f32")

-- The sign of the second operand, its opposite, or the product of the signs, in `%r17`.
abbrev sign_lines : String → List Line
sign_lines n =
    if str_eq n "fsgnj_s"
    then op "and.b32" (r 17 ∷ r 15 ∷ hex 0x80000000 ∷ []) ∷ []
    else if str_eq n "fsgnjn_s"
    then op "and.b32" (r 17 ∷ r 15 ∷ hex 0x80000000 ∷ [])
      ∷ op "xor.b32" (r 17 ∷ r 17 ∷ hex 0x80000000 ∷ [])
      ∷ []
    else op "xor.b32" (r 17 ∷ r 14 ∷ r 15 ∷ [])
      ∷ op "and.b32" (r 17 ∷ r 17 ∷ hex 0x80000000 ∷ [])
      ∷ []

unfoldable pub injection_lines : String → List Line
injection_lines n =
    op "and.b32" (r 16 ∷ r 14 ∷ hex 0x7fffffff ∷ [])
    ∷ (sign_lines n ++ op "or.b32" (r 16 ∷ r 16 ∷ r 17 ∷ []) ∷ [])

abbrev min_max_lines : String → List Line
min_max_lines n =
    op "mov.b32" (f 0 ∷ r 14 ∷ [])
    ∷ op "mov.b32" (f 1 ∷ r 15 ∷ [])
    ∷ op "setp.nan.f32" (p 2 ∷ f 0 ∷ f 0 ∷ [])
    ∷ op "setp.nan.f32" (p 3 ∷ f 1 ∷ f 1 ∷ [])
    ∷ op (if str_eq n "fmax_s" then "max.f32" else "min.f32") (f 2 ∷ f 0 ∷ f 1 ∷ [])
    ∷ op "selp.b32" (f 2 ∷ f 1 ∷ f 2 ∷ p 2 ∷ [])
    ∷ op "selp.b32" (f 2 ∷ f 0 ∷ f 2 ∷ p 3 ∷ [])
    ∷ op "mov.b32" (r 16 ∷ f 2 ∷ [])
    ∷ []

abbrev compare_lines : String → List Line
compare_lines n =
    op "mov.b32" (f 0 ∷ r 14 ∷ [])
    ∷ op "mov.b32" (f 1 ∷ r 15 ∷ [])
    ∷ op
        (if str_eq n "feq_s"
          then "setp.eq.f32"
          else if str_eq n "flt_s"
          then "setp.lt.f32"
          else "setp.le.f32")
        (p 1 ∷ f 0 ∷ f 1 ∷ [])
    ∷ op "selp.u32" (r 16 ∷ dec 1 ∷ zero_imm ∷ p 1 ∷ [])
    ∷ []

abbrev pub fma_lines : String → List Line
fma_lines rm =
    op "mov.b32" (f 0 ∷ r 14 ∷ [])
    ∷ op "mov.b32" (f 1 ∷ r 15 ∷ [])
    ∷ op "mov.b32" (f 2 ∷ r 16 ∷ [])
    ∷ op (f32_op "fma" rm) (f 3 ∷ f 0 ∷ f 1 ∷ f 2 ∷ [])
    ∷ op "mov.b32" (r 17 ∷ f 3 ∷ [])
    ∷ []

module _ (c : EmitCtx) (di : DecodedInst) where
  unfoldable pub f32_binop : String → Emit
  f32_binop name = ptx_rm_f32 c di.fp_rm di.pc (λ rm. from_two c di (
      op "mov.b32" (f 0 ∷ r 14 ∷ [])
      ∷ op "mov.b32" (f 1 ∷ r 15 ∷ [])
      ∷ op (f32_op name rm) (f 2 ∷ f 0 ∷ f 1 ∷ [])
      ∷ op "mov.b32" (r 16 ∷ f 2 ∷ [])
      ∷ []))

  unfoldable pub emit_fsqrt_s : Emit
  emit_fsqrt_s = ptx_rm_f32 c di.fp_rm di.pc (λ rm. from_one c di (
      op "mov.b32" (f 0 ∷ r 14 ∷ [])
      ∷ op (f32_op "sqrt" rm) (f 1 ∷ f 0 ∷ [])
      ∷ op "mov.b32" (r 15 ∷ f 1 ∷ [])
      ∷ []))

  -- The third operand changes its sign in fmsub and fnmadd, the first one in fnmsub and fnmadd.
  unfoldable pub emit_fma_family : Emit
  emit_fma_family = ptx_rm_f32 c di.fp_rm di.pc (λ rm.
      emit_ld_x_u32_all c (r 14) di.rs1 di.pc
      >> emit_ld_x_u32_all c (r 15) di.rs2 di.pc
      >> emit_ld_x_u32_all c (r 16) di.rs3 di.pc
      >> (if str_eq di.name "fmsub_s" || str_eq di.name "fnmadd_s"
          then emit_line (op "xor.b32" (r 16 ∷ r 16 ∷ hex 0x80000000 ∷ []))
          else skip)
      >> (if str_eq di.name "fnmsub_s" || str_eq di.name "fnmadd_s"
          then emit_line (op "xor.b32" (r 14 ∷ r 14 ∷ hex 0x80000000 ∷ []))
          else skip)
      >> emit_lines (fma_lines rm)
      >> emit_st_x_u32_all c di.rd (r 17) di.pc)

  unfoldable pub emit_fcvt_from_int : Emit
  emit_fcvt_from_int = ptx_rm_f32 c di.fp_rm di.pc (λ rm. from_one c di (
      op
        (str_append "cvt"
          (str_append rm (if str_eq di.name "fcvt_s_w" then ".f32.s32" else ".f32.u32")))
        (f 0 ∷ r 14 ∷ [])
      ∷ op "mov.b32" (r 15 ∷ f 0 ∷ [])
      ∷ []))

  unfoldable pub emit_fcvt_to_int : Emit
  emit_fcvt_to_int = ptx_rm_cvt_i32 c di.fp_rm di.pc (λ rm. from_one c di (
      op "mov.b32" (f 0 ∷ r 14 ∷ [])
      ∷ op
          (str_append "cvt"
            (str_append rm (if str_eq di.name "fcvt_w_s" then ".s32.f32" else ".u32.f32")))
          (r 15 ∷ f 0 ∷ [])
      ∷ []))

  unfoldable pub try_emit_scalar_fp : Option Emit
  try_emit_scalar_fp =
      if str_eq di.name "fmv_w_x" || str_eq di.name "fmv_x_w"
      then some (emit_ld_x_u32_all c (r 14) di.rs1 di.pc >> emit_st_x_u32_all c di.rd (r 14) di.pc)
      else if str_eq di.name "fsgnj_s" || (str_eq di.name "fsgnjn_s" || str_eq di.name "fsgnjx_s")
      then some (from_two c di (injection_lines di.name))
      else if str_eq di.name "fadd_s"
      then some (f32_binop "add")
      else if str_eq di.name "fsub_s"
      then some (f32_binop "sub")
      else if str_eq di.name "fmul_s"
      then some (f32_binop "mul")
      else if str_eq di.name "fdiv_s"
      then some (f32_binop "div")
      else if str_eq di.name "fsqrt_s"
      then some emit_fsqrt_s
      else if str_eq di.name "fmadd_s"
          || (str_eq di.name "fmsub_s" || (str_eq di.name "fnmsub_s" || str_eq di.name "fnmadd_s"))
      then some emit_fma_family
      else if str_eq di.name "fmin_s" || str_eq di.name "fmax_s"
      then some (from_two c di (min_max_lines di.name))
      else if str_eq di.name "feq_s" || (str_eq di.name "flt_s" || str_eq di.name "fle_s")
      then some (from_two c di (compare_lines di.name))
      else if str_eq di.name "fcvt_s_w" || str_eq di.name "fcvt_s_wu"
      then some emit_fcvt_from_int
      else if str_eq di.name "fcvt_w_s" || str_eq di.name "fcvt_wu_s"
      then some emit_fcvt_to_int
      else if str_eq di.name "fclass_s"
      then some (emit_scalar_fclass_s c di)
      else none
