-- ===== src/Ptx/VectorFloat.antt =====
-- sbt/ptx_emit.cpp, `emit_one_inst`: floating-point arithmetic of the vector registers.
use ventus_gpgpu_sbt_simulat.Prelude.{
  ℕ, String, str_eq, Bool, true, false, Option, none, some, List, [], ◌∷◌, ◌++◌, ◌||◌,
  if◌then◌else◌,
}
use ventus_gpgpu_sbt_simulat.Decode.Types.{DecodedInst}
use ventus_gpgpu_sbt_simulat.Ptx.Lines.{Line, Operand, r, f, v, op, hex}
use ventus_gpgpu_sbt_simulat.Ptx.Emit.{
  EmitCtx, Emit, skip, emit_line, emit_lines, ◌>>◌, emit_ld_x_u32_all,
}

abbrev is_injection_vv : String → Bool
is_injection_vv n = str_eq n "vfsgnj_vv" || (str_eq n "vfsgnjn_vv" || str_eq n "vfsgnjx_vv")

abbrev is_injection_vf : String → Bool
is_injection_vf n = str_eq n "vfsgnj_vf" || (str_eq n "vfsgnjn_vf" || str_eq n "vfsgnjx_vf")

module _ (c : EmitCtx) (di : DecodedInst) where
  unfoldable pub vf_binop : String → Emit
  vf_binop name = emit_lines (
      op "mov.b32" (f 0 ∷ v di.rs2 ∷ [])
      ∷ op "mov.b32" (f 1 ∷ v di.rs1 ∷ [])
      ∷ op name (f 2 ∷ f 0 ∷ f 1 ∷ [])
      ∷ op "mov.b32" (v di.rd ∷ f 2 ∷ [])
      ∷ [])

  unfoldable pub vf_binop_vf : String → Emit
  vf_binop_vf name =
      emit_ld_x_u32_all c (r 14) di.rs1 di.pc
      >> emit_lines (
          op "mov.b32" (f 0 ∷ v di.rs2 ∷ [])
          ∷ op "mov.b32" (f 1 ∷ r 14 ∷ [])
          ∷ op name (f 2 ∷ f 0 ∷ f 1 ∷ [])
          ∷ op "mov.b32" (v di.rd ∷ f 2 ∷ [])
          ∷ [])

  -- The sign of the number in `%r` register `k` is changed.
  abbrev flip : Bool → ℕ → List Line
  flip true k = op "xor.b32" (r k ∷ r k ∷ hex 0x80000000 ∷ []) ∷ []
  flip false k = []

  unfoldable pub vf_fma_bits : Operand → Bool → Operand → Bool → Operand → Bool → Emit
  vf_fma_bits a_bits neg_a b_bits neg_b c_bits neg_c = emit_lines (
      op "mov.u32" (r 14 ∷ a_bits ∷ [])
      ∷ op "mov.u32" (r 15 ∷ b_bits ∷ [])
      ∷ op "mov.u32" (r 16 ∷ c_bits ∷ [])
      ∷ (flip neg_a 14
          ++ flip neg_b 15
          ++ flip neg_c 16
          ++ op "mov.b32" (f 0 ∷ r 14 ∷ [])
            ∷ op "mov.b32" (f 1 ∷ r 15 ∷ [])
            ∷ op "mov.b32" (f 2 ∷ r 16 ∷ [])
            ∷ op "fma.rn.f32" (f 3 ∷ f 0 ∷ f 1 ∷ f 2 ∷ [])
            ∷ op "mov.b32" (v di.rd ∷ f 3 ∷ [])
            ∷ []))

  unfoldable pub emit_vector_float : Option Emit
  emit_vector_float =
      if str_eq di.name "vfadd_vv"
      then some (vf_binop "add.rn.f32")
      else if str_eq di.name "vfadd_vf"
      then some (vf_binop_vf "add.rn.f32")
      else if str_eq di.name "vfsub_vv"
      then some (vf_binop "sub.rn.f32")
      else if str_eq di.name "vfsub_vf"
      then some (vf_binop_vf "sub.rn.f32")
      else if str_eq di.name "vfmul_vv"
      then some (vf_binop "mul.rn.f32")
      else if str_eq di.name "vfmul_vf"
      then some (vf_binop_vf "mul.rn.f32")
      else if str_eq di.name "vfdiv_vv"
      then some (vf_binop "div.rn.f32")
      else if str_eq di.name "vfdiv_vf"
      then some (vf_binop_vf "div.rn.f32")
      else if str_eq di.name "vfrsub_vf"
      then some (
          emit_ld_x_u32_all c (r 14) di.rs1 di.pc
          >> emit_lines (
              op "mov.b32" (f 0 ∷ r 14 ∷ [])
              ∷ op "mov.b32" (f 1 ∷ v di.rs2 ∷ [])
              ∷ op "sub.rn.f32" (f 2 ∷ f 0 ∷ f 1 ∷ [])
              ∷ op "mov.b32" (v di.rd ∷ f 2 ∷ [])
              ∷ []))
      else if str_eq di.name "vfrdiv_vf"
      then some (
          emit_ld_x_u32_all c (r 14) di.rs1 di.pc
          >> emit_lines (
              op "mov.b32" (f 0 ∷ r 14 ∷ [])
              ∷ op "mov.b32" (f 1 ∷ v di.rs2 ∷ [])
              ∷ op "div.rn.f32" (f 2 ∷ f 0 ∷ f 1 ∷ [])
              ∷ op "mov.b32" (v di.rd ∷ f 2 ∷ [])
              ∷ []))
      else if str_eq di.name "vfmin_vv"
      then some (vf_binop "min.f32")
      else if str_eq di.name "vfmin_vf"
      then some (vf_binop_vf "min.f32")
      else if str_eq di.name "vfmax_vv"
      then some (vf_binop "max.f32")
      else if str_eq di.name "vfmax_vf"
      then some (vf_binop_vf "max.f32")
      else if str_eq di.name "vfmadd_vv"
      then some (
          emit_lines (
            op "mov.b32" (f 0 ∷ v di.rd ∷ [])
            ∷ op "mov.b32" (f 1 ∷ v di.rs1 ∷ [])
            ∷ op "mov.b32" (f 2 ∷ v di.rs2 ∷ [])
            ∷ op "fma.rn.f32" (f 3 ∷ f 0 ∷ f 1 ∷ f 2 ∷ [])
            ∷ op "mov.b32" (v di.rd ∷ f 3 ∷ [])
            ∷ []))
      else none

  unfoldable pub emit_vector_fma : Option Emit
  emit_vector_fma =
      if str_eq di.name "vfmadd_vf"
      then some (
          emit_ld_x_u32_all c (r 15) di.rs1 di.pc
          >> vf_fma_bits (v di.rd) false (r 15) false (v di.rs2) false)
      else if str_eq di.name "vfmsub_vv"
      then some (vf_fma_bits (v di.rd) false (v di.rs1) false (v di.rs2) true)
      else if str_eq di.name "vfmsub_vf"
      then some (
          emit_ld_x_u32_all c (r 15) di.rs1 di.pc
          >> vf_fma_bits (v di.rd) false (r 15) false (v di.rs2) true)
      else if str_eq di.name "vfnmadd_vv"
      then some (vf_fma_bits (v di.rd) true (v di.rs1) false (v di.rs2) true)
      else if str_eq di.name "vfnmadd_vf"
      then some (
          emit_ld_x_u32_all c (r 15) di.rs1 di.pc
          >> vf_fma_bits (v di.rd) true (r 15) false (v di.rs2) true)
      else if str_eq di.name "vfnmsub_vv"
      then some (vf_fma_bits (v di.rd) true (v di.rs1) false (v di.rs2) false)
      else if str_eq di.name "vfnmsub_vf"
      then some (
          emit_ld_x_u32_all c (r 15) di.rs1 di.pc
          >> vf_fma_bits (v di.rd) true (r 15) false (v di.rs2) false)
      else if str_eq di.name "vfmacc_vv"
      then some (vf_fma_bits (v di.rs1) false (v di.rs2) false (v di.rd) false)
      else if str_eq di.name "vfmacc_vf"
      then some (
          emit_ld_x_u32_all c (r 15) di.rs1 di.pc
          >> vf_fma_bits (r 15) false (v di.rs2) false (v di.rd) false)
      else if str_eq di.name "vfnmacc_vv"
      then some (vf_fma_bits (v di.rs2) true (v di.rs1) false (v di.rd) true)
      else if str_eq di.name "vfnmacc_vf"
      then some (
          emit_ld_x_u32_all c (r 15) di.rs1 di.pc
          >> vf_fma_bits (r 15) false (v di.rs2) true (v di.rd) true)
      else if str_eq di.name "vfmsac_vv"
      then some (vf_fma_bits (v di.rs1) false (v di.rs2) false (v di.rd) true)
      else if str_eq di.name "vfmsac_vf"
      then some (
          emit_ld_x_u32_all c (r 15) di.rs1 di.pc
          >> vf_fma_bits (r 15) false (v di.rs2) false (v di.rd) true)
      else if str_eq di.name "vfnmsac_vv"
      then some (vf_fma_bits (v di.rs1) true (v di.rs2) false (v di.rd) false)
      else if str_eq di.name "vfnmsac_vf"
      then some (
          emit_ld_x_u32_all c (r 15) di.rs1 di.pc
          >> vf_fma_bits (r 15) false (v di.rs2) true (v di.rd) false)
      else if str_eq di.name "vfsqrt_v"
      then some (
          emit_lines (
            op "mov.b32" (f 0 ∷ v di.rs2 ∷ [])
            ∷ op "sqrt.rn.f32" (f 1 ∷ f 0 ∷ [])
            ∷ op "mov.b32" (v di.rd ∷ f 1 ∷ [])
            ∷ []))
      else none

  unfoldable pub emit_vector_sign : Option Emit
  emit_vector_sign =
      if is_injection_vv di.name || is_injection_vf di.name
      then some (
          let sign_src = if is_injection_vf di.name then r 14 else v di.rs1 in
          (if is_injection_vf di.name then emit_ld_x_u32_all c (r 14) di.rs1 di.pc else skip)
          >> emit_line (op "and.b32" (r 15 ∷ v di.rs2 ∷ hex 0x7fffffff ∷ []))
          >> emit_lines (
              if str_eq di.name "vfsgnj_vv" || str_eq di.name "vfsgnj_vf"
              then op "and.b32" (r 16 ∷ sign_src ∷ hex 0x80000000 ∷ []) ∷ []
              else if str_eq di.name "vfsgnjn_vv" || str_eq di.name "vfsgnjn_vf"
              then op "not.b32" (r 16 ∷ sign_src ∷ [])
                ∷ op "and.b32" (r 16 ∷ r 16 ∷ hex 0x80000000 ∷ [])
                ∷ []
              else op "xor.b32" (r 16 ∷ sign_src ∷ v di.rs2 ∷ [])
                ∷ op "and.b32" (r 16 ∷ r 16 ∷ hex 0x80000000 ∷ [])
                ∷ [])
          >> emit_line (op "or.b32" (v di.rd ∷ r 15 ∷ r 16 ∷ [])))
      else none
