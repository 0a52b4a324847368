-- ===== src/Ptx/Access.antt =====
-- sbt/ptx_emit.cpp, `emit_one_inst`: loads and stores.
use ventus_gpgpu_sbt_simulat.Prelude.{
  ℕ, str_eq, Option, none, some, List, [], ◌∷◌, ◌&&◌, ◌||◌, if◌then◌else◌,
}
use ventus_gpgpu_sbt_simulat.Decode.Types.{DecodedInst, is_i12, is_s12}
use ventus_gpgpu_sbt_simulat.Ptx.Lines.{Line, r, u8, u16, v, op, dec, num, hex}
use ventus_gpgpu_sbt_simulat.Ptx.Kinds.{
  is_vector_load, is_vector_store, is_scalar_load, is_scalar_store, ScalarExecKind, require_kind,
}
use ventus_gpgpu_sbt_simulat.Ptx.Memory.{
  emit_addr_map_and_ld_u32, emit_addr_map_and_ld_u8_zext_u32, emit_addr_map_and_ld_u16_zext_u32,
  emit_addr_map_and_st_u32, emit_addr_map_and_st_u8, emit_addr_map_and_st_u16,
  emit_addr_map_and_st_u32_scalar, emit_addr_map_and_st_u8_scalar, emit_addr_map_and_st_u16_scalar,
}
use ventus_gpgpu_sbt_simulat.Ptx.Pds.{emit_compute_csr_pds_u32}
use ventus_gpgpu_sbt_simulat.Ptx.Emit.{
  EmitCtx, Emit, emit_line, emit_lines, ◌>>◌, throw, emit_ld_x_u32_all, emit_st_x_u32_all,
}

-- The sign extension of the low bits of a register.
abbrev extend_lines : ℕ → ℕ → List Line
extend_lines k count =
    op "shl.b32" (r k ∷ r k ∷ dec count ∷ []) ∷ op "shr.s32" (r k ∷ r k ∷ dec count ∷ []) ∷ []

module _ (c : EmitCtx) (di : DecodedInst) where
  unfoldable pub scalar_load : Option Emit
  scalar_load =
      let store = emit_st_x_u32_all c di.rd (r 17) di.pc in
      if str_eq di.name "lw" || str_eq di.name "flw"
      then some (emit_addr_map_and_ld_u32 c (r 17) (r 15) >> store)
      else if str_eq di.name "lb"
      then some (
          emit_addr_map_and_ld_u8_zext_u32 c (r 17) (r 15)
          >> emit_lines (extend_lines 17 24)
          >> store)
      else if str_eq di.name "lh"
      then some (
          emit_addr_map_and_ld_u16_zext_u32 c (r 17) (r 15)
          >> emit_lines (extend_lines 17 16)
          >> store)
      else if str_eq di.name "lbu"
      then some (emit_addr_map_and_ld_u8_zext_u32 c (r 17) (r 15) >> store)
      else if str_eq di.name "lhu"
      then some (emit_addr_map_and_ld_u16_zext_u32 c (r 17) (r 15) >> store)
      else none

  abbrev or_unsupported : Option Emit → Emit
  or_unsupported (some e) = e
  or_unsupported none = throw c "unsupported.inst" di.pc di.name

  unfoldable pub emit_scalar_load : Option Emit
  emit_scalar_load =
      if is_scalar_load di.name && is_i12 di.imm_kind
      then some (
          require_kind c di ScalarExecKind.uniform_pure
          >> emit_ld_x_u32_all c (r 14) di.rs1 di.pc
          >> emit_line (op "add.u32" (r 15 ∷ r 14 ∷ num di.imm ∷ []))
          >> or_unsupported scalar_load)
      else none

  unfoldable pub scalar_store : Option Emit
  scalar_store =
      if str_eq di.name "sw" || str_eq di.name "fsw"
      then some (emit_addr_map_and_st_u32_scalar c (r 16) (r 15))
      else if str_eq di.name "sb"
      then some (
          emit_line (op "cvt.u8.u32" (u8 1 ∷ r 15 ∷ []))
          >> emit_addr_map_and_st_u8_scalar c (r 16) (u8 1))
      else if str_eq di.name "sh"
      then some (
          emit_line (op "cvt.u16.u32" (u16 1 ∷ r 15 ∷ []))
          >> emit_addr_map_and_st_u16_scalar c (r 16) (u16 1))
      else none

  unfoldable pub emit_scalar_store : Option Emit
  emit_scalar_store =
      if is_scalar_store di.name && is_s12 di.imm_kind
      then some (
          require_kind c di ScalarExecKind.externally_side_effecting
          >> emit_ld_x_u32_all c (r 14) di.rs1 di.pc
          >> emit_ld_x_u32_all c (r 15) di.rs2 di.pc
          >> emit_line (op "add.u32" (r 16 ∷ r 14 ∷ num di.imm ∷ []))
          >> or_unsupported scalar_store)
      else none

  -- The address of a word of private memory, in `%r14`.
  unfoldable pub private_address : Emit
  private_address =
      emit_lines (
        op "add.s32" (r 14 ∷ v di.rs1 ∷ num di.imm ∷ [])
        ∷ op "and.b32" (r 15 ∷ r 14 ∷ hex 0xfffffffc ∷ [])
        ∷ op "shl.b32" (r 15 ∷ r 15 ∷ dec 5 ∷ [])
        ∷ op "shl.b32" (r 16 ∷ r 0 ∷ dec 2 ∷ [])
        ∷ op "add.u32" (r 15 ∷ r 15 ∷ r 16 ∷ [])
        ∷ [])
      >> emit_compute_csr_pds_u32 (r 24)
      >> emit_line (op "add.u32" (r 14 ∷ r 24 ∷ r 15 ∷ []))

  abbrev vector_address : Emit
  vector_address = emit_line (op "add.u32" (r 14 ∷ v di.rs1 ∷ num di.imm ∷ []))

  unfoldable pub vector_load : Emit
  vector_load =
      let store = emit_line (op "mov.u32" (v di.rd ∷ r 15 ∷ [])) in
      if str_eq di.name "vlb12_v"
      then emit_addr_map_and_ld_u8_zext_u32 c (r 15) (r 14)
        >> emit_lines (extend_lines 15 24)
        >> store
      else if str_eq di.name "vlbu12_v"
      then emit_addr_map_and_ld_u8_zext_u32 c (r 15) (r 14) >> store
      else if str_eq di.name "vlh12_v"
      then emit_addr_map_and_ld_u16_zext_u32 c (r 15) (r 14)
        >> emit_lines (extend_lines 15 16)
        >> store
      else if str_eq di.name "vlhu12_v"
      then emit_addr_map_and_ld_u16_zext_u32 c (r 15) (r 14) >> store
      else emit_addr_map_and_ld_u32 c (r 15) (r 14) >> store

  unfoldable pub vector_store : Emit
  vector_store =
      if str_eq di.name "vsb12_v"
      then emit_line (op "cvt.u8.u32" (u8 1 ∷ v di.rs2 ∷ []))
        >> emit_addr_map_and_st_u8 c (r 14) (u8 1)
      else if str_eq di.name "vsh12_v"
      then emit_line (op "cvt.u16.u32" (u16 1 ∷ v di.rs2 ∷ []))
        >> emit_addr_map_and_st_u16 c (r 14) (u16 1)
      else emit_addr_map_and_st_u32 c (r 14) (v di.rs2)

  unfoldable pub emit_vector_access : Option Emit
  emit_vector_access =
      if str_eq di.name "vlw_v" && is_i12 di.imm_kind
      then some (
          private_address
          >> emit_addr_map_and_ld_u32 c (r 20) (r 14)
          >> emit_line (op "mov.u32" (v di.rd ∷ r 20 ∷ [])))
      else if str_eq di.name "vsw_v" && is_s12 di.imm_kind
      then some (private_address >> emit_addr_map_and_st_u32 c (r 14) (v di.rs2))
      else if is_vector_load di.name && is_i12 di.imm_kind
      then some (vector_address >> vector_load)
      else if is_vector_store di.name && is_s12 di.imm_kind
      then some (vector_address >> vector_store)
      else none
