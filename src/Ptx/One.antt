-- ===== src/Ptx/One.antt =====
-- sbt/ptx_emit.cpp, `emit_one_inst`: the sections in their order.
use ventus_gpgpu_sbt_simulat.Prelude.{
  str_eq, Option, none, some, List, [], ◌∷◌, ◌||◌, if◌then◌else◌,
}
use Prim.Native.String.{◌++◌ as str_append}
use ventus_gpgpu_sbt_simulat.Decode.Types.{DecodedInst}
use ventus_gpgpu_sbt_simulat.Cfg.Types.{BundleInst}
use ventus_gpgpu_sbt_simulat.Ptx.Lines.{op, zero_imm, comment}
use ventus_gpgpu_sbt_simulat.Ptx.Kinds.{is_ret, any_name}
use ventus_gpgpu_sbt_simulat.Ptx.Pds.{emit_entry_pds_pool_release}
use ventus_gpgpu_sbt_simulat.Ptx.Blob.{emit_store_mutable_state_blob}
use ventus_gpgpu_sbt_simulat.Ptx.Text.{hex_u32}
use ventus_gpgpu_sbt_simulat.Ptx.Scalar.{emit_scalar_alu}
use ventus_gpgpu_sbt_simulat.Ptx.ScalarFp.{try_emit_scalar_fp}
use ventus_gpgpu_sbt_simulat.Ptx.Csr.{emit_csr}
use ventus_gpgpu_sbt_simulat.Ptx.Access.{emit_scalar_load, emit_scalar_store, emit_vector_access}
use ventus_gpgpu_sbt_simulat.Ptx.Branch.{emit_uncond_jump, emit_scalar_branch, emit_vector_branch}
use ventus_gpgpu_sbt_simulat.Ptx.Call.{emit_call}
use ventus_gpgpu_sbt_simulat.Ptx.VectorInt.{
  emit_vector_move, emit_vector_add_or_logic, emit_vector_shift,
}
use ventus_gpgpu_sbt_simulat.Ptx.VectorMul.{
  emit_vector_multiply, emit_vector_divide, emit_vector_multiply_add,
}
use ventus_gpgpu_sbt_simulat.Ptx.VectorCompare.{
  emit_vector_compare, emit_mask_bool, emit_vector_float_compare, emit_vector_compare_rest,
}
use ventus_gpgpu_sbt_simulat.Ptx.VectorConvert.{emit_vector_convert}
use ventus_gpgpu_sbt_simulat.Ptx.VectorFloat.{emit_vector_float, emit_vector_fma, emit_vector_sign}
use ventus_gpgpu_sbt_simulat.Ptx.Emit.{EmitCtx, Emit, skip, emit_line, ◌>>◌, throw, otherwise}

-- The instructions that need no section of their own: no-ops, the end of a function, the barrier.
unfoldable pub emit_marker : EmitCtx → BundleInst → Option Emit
emit_marker c bi =
    if any_name bi.inst.name ("setrpc" ∷ "join" ∷ "vsetvli" ∷ [])
    then some skip
    else if str_eq bi.inst.name "endprg" || is_ret bi.inst
    then some (
        (if c.is_entry
          then emit_entry_pds_pool_release c
          else emit_store_mutable_state_blob "__sbt_mutable_state_out")
        >> emit_line (op "ret" []))
    else if str_eq bi.inst.name "barrier"
    then some (emit_line (op "bar.sync" (zero_imm ∷ [])))
    else none

-- The first section that has a case for the instruction.
unfoldable pub first_of : List (Option Emit) → Option Emit
first_of [] = none
first_of (e ∷ es) = otherwise e (first_of es)

abbrev pub sections : EmitCtx → BundleInst → List (Option Emit)
sections c bi =
    emit_marker c bi
    ∷ emit_call c bi
    ∷ emit_uncond_jump c bi
    ∷ emit_scalar_branch c bi
    ∷ emit_vector_branch c bi
    ∷ emit_csr c bi.inst
    ∷ emit_scalar_load c bi.inst
    ∷ emit_scalar_store c bi.inst
    ∷ try_emit_scalar_fp c bi.inst
    ∷ emit_scalar_alu c bi.inst
    ∷ emit_vector_access c bi.inst
    ∷ emit_vector_move c bi.inst
    ∷ emit_vector_add_or_logic c bi.inst
    ∷ emit_vector_shift c bi.inst
    ∷ emit_vector_multiply c bi.inst
    ∷ emit_vector_divide c bi.inst
    ∷ emit_vector_multiply_add c bi.inst
    ∷ emit_vector_compare c bi.inst
    ∷ emit_mask_bool c bi.inst
    ∷ emit_vector_float_compare c bi.inst
    ∷ emit_vector_compare_rest c bi.inst
    ∷ emit_vector_convert c bi.inst
    ∷ emit_vector_float c bi.inst
    ∷ emit_vector_fma c bi.inst
    ∷ emit_vector_sign c bi.inst
    ∷ []

abbrev emit_or_throw : EmitCtx → DecodedInst → Option Emit → Emit
emit_or_throw c di (some e) = e
emit_or_throw c di none = throw c "unsupported.inst" di.pc di.name

unfoldable pub emit_one_inst : EmitCtx → BundleInst → Emit
emit_one_inst c bi =
    (if c.opt.include_comments
      then emit_line
          (comment (str_append "// " (str_append (hex_u32 bi.pc) (str_append " " bi.inst.name))))
      else skip)
    >> emit_or_throw c bi.inst (first_of (sections c bi))
