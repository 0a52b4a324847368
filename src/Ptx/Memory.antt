-- ===== src/Ptx/Memory.antt =====
-- sbt/ptx_emit.cpp: accesses to memory. A numeric address from the shared base on and below the
-- global base is one of shared memory, one from the global base on is one of global memory.
use ventus_gpgpu_sbt_simulat.Prelude.{ℕ, List, [], ◌∷◌, if◌then◌else◌}
use ventus_gpgpu_sbt_simulat.Prelude.Int.{ℤ, is_nonneg, is_num}
use ventus_gpgpu_sbt_simulat.Ptx.Lines.{
  Line, Guard, Operand, r, rd, p, u8, u16, x, op, dec, zero_imm, inst, hex, neg_hex, word, at, goal,
}
use ventus_gpgpu_sbt_simulat.Ptx.Emit.{
  EmitCtx, Emit, skip, emit_line, emit_lines, emit_label, ◌>>◌, with_label, require,
  emit_read_activemask, emit_select_leader_from_active_mask, emit_warp_sync,
}

module _ (c : EmitCtx) where
  unfoldable pub emit_ld_x_u32_leader : Operand → ℤ → ℕ → Emit
  emit_ld_x_u32_leader dst xreg pc =
      if is_num xreg 0
      then emit_line (inst (Guard.when 0) "mov.u32" (dst ∷ zero_imm ∷ []))
      else require c (is_nonneg xreg) "invalid.reg" pc "xreg<0"
        >> emit_line (inst (Guard.when 0) "mov.u32" (dst ∷ x xreg ∷ []))

  unfoldable pub emit_st_x_u32_leader : ℤ → Operand → ℕ → Emit
  emit_st_x_u32_leader xreg src pc =
      if is_num xreg 0
      then skip
      else require c (is_nonneg xreg) "invalid.reg" pc "xreg<=0"
        >> emit_line (inst (Guard.when 0) "mov.u32" (x xreg ∷ src ∷ []))

  unfoldable pub emit_broadcast_from_leader : Operand → Operand → Emit
  emit_broadcast_from_leader dst src =
      emit_read_activemask (r 1)
      >> emit_line (op "shfl.sync.idx.b32" (dst ∷ src ∷ r 2 ∷ word "0x1f" ∷ r 1 ∷ []))

  -- `%p3` is an address of shared memory, `%p4` one of global memory, and any other traps; `%rd17` and
  -- `%rd16` are the pointers.
  unfoldable pub prepare_lines : Operand → List Line
  prepare_lines addr =
      op "mov.u32" (r 31 ∷ addr ∷ [])
      ∷ op "setp.ge.u32" (p 1 ∷ r 31 ∷ hex c.opt.shared_base_vaddr ∷ [])
      ∷ op "setp.lt.u32" (p 2 ∷ r 31 ∷ hex c.opt.global_base_vaddr ∷ [])
      ∷ op "and.pred" (p 3 ∷ p 1 ∷ p 2 ∷ [])
      ∷ op "setp.ge.u32" (p 4 ∷ r 31 ∷ hex c.opt.global_base_vaddr ∷ [])
      ∷ op "or.pred" (p 5 ∷ p 3 ∷ p 4 ∷ [])
      ∷ inst (Guard.unless 5) "trap" []
      ∷ op "add.u32" (r 16 ∷ r 31 ∷ neg_hex c.opt.shared_base_vaddr ∷ [])
      ∷ op "cvt.u64.u32" (rd 16 ∷ r 16 ∷ [])
      ∷ op "add.u64" (rd 17 ∷ rd 2 ∷ rd 16 ∷ [])
      ∷ op "add.u32" (r 16 ∷ r 31 ∷ neg_hex c.opt.global_base_vaddr ∷ [])
      ∷ op "cvt.u64.u32" (rd 16 ∷ r 16 ∷ [])
      ∷ op "add.u64" (rd 16 ∷ rd 0 ∷ rd 16 ∷ [])
      ∷ []

  unfoldable pub emit_prepare_addr_mapping : Operand → Emit
  emit_prepare_addr_mapping addr = emit_lines (prepare_lines addr)

  unfoldable pub emit_addr_map_and_ld_u32 : Operand → Operand → Emit
  emit_addr_map_and_ld_u32 dst addr =
      emit_prepare_addr_mapping addr
      >> emit_lines (
          inst (Guard.when 3) "ld.shared.u32" (dst ∷ at (rd 17) ∷ [])
          ∷ inst (Guard.when 4) "ld.global.u32" (dst ∷ at (rd 16) ∷ [])
          ∷ [])

  unfoldable pub emit_addr_map_and_ld_u32_leader : Operand → Operand → Emit
  emit_addr_map_and_ld_u32_leader dst addr = with_label "leader_ld32_after" (λ place.
      emit_line (inst (Guard.unless 0) "bra" (goal place ∷ []))
      >> emit_addr_map_and_ld_u32 dst addr
      >> emit_label place)

  unfoldable pub emit_addr_map_and_st_u32 : Operand → Operand → Emit
  emit_addr_map_and_st_u32 addr src =
      emit_prepare_addr_mapping addr
      >> emit_lines (
          inst (Guard.when 3) "st.shared.u32" (at (rd 17) ∷ src ∷ [])
          ∷ inst (Guard.when 4) "st.global.u32" (at (rd 16) ∷ src ∷ [])
          ∷ [])

  unfoldable pub emit_addr_map_and_st_u32_leader : Operand → Operand → Emit
  emit_addr_map_and_st_u32_leader addr src = with_label "leader_st32_after" (λ place.
      emit_line (inst (Guard.unless 0) "bra" (goal place ∷ []))
      >> emit_addr_map_and_st_u32 addr src
      >> emit_label place)

  unfoldable pub emit_addr_map_and_ld_u8_zext_u32 : Operand → Operand → Emit
  emit_addr_map_and_ld_u8_zext_u32 dst addr =
      emit_prepare_addr_mapping addr
      >> emit_lines (
          inst (Guard.when 3) "ld.shared.u8" (u8 0 ∷ at (rd 17) ∷ [])
          ∷ inst (Guard.when 4) "ld.global.u8" (u8 0 ∷ at (rd 16) ∷ [])
          ∷ op "cvt.u32.u8" (dst ∷ u8 0 ∷ [])
          ∷ [])

  unfoldable pub emit_addr_map_and_ld_u8_zext_u32_leader : Operand → Operand → Emit
  emit_addr_map_and_ld_u8_zext_u32_leader dst addr = with_label "leader_ldu8_after" (λ place.
      emit_line (inst (Guard.unless 0) "bra" (goal place ∷ []))
      >> emit_addr_map_and_ld_u8_zext_u32 dst addr
      >> emit_label place)

  unfoldable pub emit_addr_map_and_ld_u16_zext_u32 : Operand → Operand → Emit
  emit_addr_map_and_ld_u16_zext_u32 dst addr =
      emit_prepare_addr_mapping addr
      >> emit_lines (
          inst (Guard.when 3) "ld.shared.u16" (u16 0 ∷ at (rd 17) ∷ [])
          ∷ inst (Guard.when 4) "ld.global.u16" (u16 0 ∷ at (rd 16) ∷ [])
          ∷ op "cvt.u32.u16" (dst ∷ u16 0 ∷ [])
          ∷ [])

  unfoldable pub emit_addr_map_and_ld_u16_zext_u32_leader : Operand → Operand → Emit
  emit_addr_map_and_ld_u16_zext_u32_leader dst addr = with_label "leader_ldu16_after" (λ place.
      emit_line (inst (Guard.unless 0) "bra" (goal place ∷ []))
      >> emit_addr_map_and_ld_u16_zext_u32 dst addr
      >> emit_label place)

  unfoldable pub emit_addr_map_and_st_u8 : Operand → Operand → Emit
  emit_addr_map_and_st_u8 addr src =
      emit_prepare_addr_mapping addr
      >> emit_lines (
          inst (Guard.when 3) "st.shared.u8" (at (rd 17) ∷ src ∷ [])
          ∷ inst (Guard.when 4) "st.global.u8" (at (rd 16) ∷ src ∷ [])
          ∷ [])

  unfoldable pub emit_addr_map_and_st_u8_leader : Operand → Operand → Emit
  emit_addr_map_and_st_u8_leader addr src = with_label "leader_stu8_after" (λ place.
      emit_line (inst (Guard.unless 0) "bra" (goal place ∷ []))
      >> emit_addr_map_and_st_u8 addr src
      >> emit_label place)

  unfoldable pub emit_addr_map_and_st_u16 : Operand → Operand → Emit
  emit_addr_map_and_st_u16 addr src =
      emit_prepare_addr_mapping addr
      >> emit_lines (
          inst (Guard.when 3) "st.shared.u16" (at (rd 17) ∷ src ∷ [])
          ∷ inst (Guard.when 4) "st.global.u16" (at (rd 16) ∷ src ∷ [])
          ∷ [])

  unfoldable pub emit_addr_map_and_st_u16_leader : Operand → Operand → Emit
  emit_addr_map_and_st_u16_leader addr src = with_label "leader_stu16_after" (λ place.
      emit_line (inst (Guard.unless 0) "bra" (goal place ∷ []))
      >> emit_addr_map_and_st_u16 addr src
      >> emit_label place)

  -- A store of all lanes is made by the leader.
  unfoldable pub emit_addr_map_and_st_u32_scalar : Operand → Operand → Emit
  emit_addr_map_and_st_u32_scalar addr src =
      emit_select_leader_from_active_mask
      >> emit_addr_map_and_st_u32_leader addr src
      >> emit_warp_sync

  unfoldable pub emit_addr_map_and_st_u8_scalar : Operand → Operand → Emit
  emit_addr_map_and_st_u8_scalar addr src =
      emit_select_leader_from_active_mask
      >> emit_addr_map_and_st_u8_leader addr src
      >> emit_warp_sync

  unfoldable pub emit_addr_map_and_st_u16_scalar : Operand → Operand → Emit
  emit_addr_map_and_st_u16_scalar addr src =
      emit_select_leader_from_active_mask
      >> emit_addr_map_and_st_u16_leader addr src
      >> emit_warp_sync

  -- `kKnlPrintAddrOffset` and its like are offsets from `%r30`.
  unfoldable pub emit_load_knl_u32_scalar : Operand → ℕ → Emit
  emit_load_knl_u32_scalar dst offset =
      emit_line (op "add.u32" (r 16 ∷ r 30 ∷ dec offset ∷ []))
      >> emit_addr_map_and_ld_u32 dst (r 16)
