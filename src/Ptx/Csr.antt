-- ===== src/Ptx/Csr.antt =====
-- sbt/ptx_emit.cpp, `emit_one_inst`: the control registers, which are only read.
use ventus_gpgpu_sbt_simulat.Prelude.{ℕ, Option, none, some, [], ◌∷◌, ◌==◌, if◌then◌else◌}
use Prim.Native.String.{◌++◌ as str_append}
use ventus_gpgpu_sbt_simulat.Words.{to_u32}
use ventus_gpgpu_sbt_simulat.Decode.Types.{DecodedInst, is_csr12}
use ventus_gpgpu_sbt_simulat.Ptx.Lines.{r, op, dec, hex, word}
use ventus_gpgpu_sbt_simulat.Ptx.Kinds.{ScalarExecKind, require_kind, any_name}
use ventus_gpgpu_sbt_simulat.Ptx.Memory.{emit_load_knl_u32_scalar}
use ventus_gpgpu_sbt_simulat.Ptx.Pds.{emit_compute_csr_pds_u32}
use ventus_gpgpu_sbt_simulat.Ptx.Text.{hex_u32}
use ventus_gpgpu_sbt_simulat.Ptx.Emit.{
  EmitCtx, Emit, emit_line, ◌>>◌, throw, require, emit_st_x_u32_all,
}

module _ (c : EmitCtx) (di : DecodedInst) where
  -- The value of a register, in `%r14`.
  unfoldable pub csr_value : ℕ → Emit
  csr_value csr =
      if csr == 0x803
      then emit_line (op "mov.u32" (r 14 ∷ r 30 ∷ []))
      else if csr == 0x802
      then emit_line (op "mov.u32" (r 14 ∷ dec 32 ∷ []))
      else if csr == 0x805
      then emit_line (op "mov.u32" (r 14 ∷ r 10 ∷ []))
      else if csr == 0x800
      then emit_line (op "shl.b32" (r 14 ∷ r 10 ∷ dec 5 ∷ []))
      else if csr == 0x801
      then emit_line (op "mov.u32" (r 14 ∷ r 12 ∷ []))
      else if csr == 0x806
      then emit_line (op "mov.u32" (r 14 ∷ hex c.opt.shared_base_vaddr ∷ []))
      else if csr == 0x807
      then emit_compute_csr_pds_u32 (r 14)
      else if csr == 0x808
      then emit_line (op "mov.u32" (r 14 ∷ word "%ctaid.x" ∷ []))
      else if csr == 0x809
      then emit_line (op "mov.u32" (r 14 ∷ word "%ctaid.y" ∷ []))
      else if csr == 0x80a
      then emit_line (op "mov.u32" (r 14 ∷ word "%ctaid.z" ∷ []))
      else if csr == 0x80b
      then emit_load_knl_u32_scalar c (r 14) 48
      else throw c "unsupported.csr" di.pc (str_append "csr=" (hex_u32 csr))

  unfoldable pub emit_csr : Option Emit
  emit_csr =
      if any_name di.name ("csrrw" ∷ "csrrs" ∷ "csrrc" ∷ "csrrwi" ∷ "csrrsi" ∷ "csrrci" ∷ [])
      then some (
          require_kind c di ScalarExecKind.uniform_pure
          >> require c (is_csr12 di.imm_kind) "invalid.csr" di.pc "imm_kind"
          >> csr_value (to_u32 di.imm)
          >> emit_st_x_u32_all c di.rd (r 14) di.pc)
      else none
