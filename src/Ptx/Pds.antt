-- ===== src/Ptx/Pds.antt =====
-- sbt/ptx_emit.cpp: the pool of blocks of private memory. The first thread of a group takes a free
-- bit of the bitmap, and the last thread to leave gives it back.
use ventus_gpgpu_sbt_simulat.Prelude.{List, [], ◌∷◌, ◌++◌}
use ventus_gpgpu_sbt_simulat.Prelude.Int.{negsuc}
use ventus_gpgpu_sbt_simulat.Ptx.Lines.{
  Label, Line, Guard, Operand, r, rd, p, op, dec, zero_imm, inst, num, hex, neg_hex, word, at, goal,
}
use ventus_gpgpu_sbt_simulat.Ptx.Emit.{EmitCtx, Emit, emit_lines, with_label}

unfoldable pub emit_compute_csr_pds_u32 : Operand → Emit
emit_compute_csr_pds_u32 dst = emit_lines (
    op "ld.shared.u32" (r 24 ∷ at (word "__sbt_pds_wg_base") ∷ [])
    ∷ op "shl.b32" (r 25 ∷ r 29 ∷ dec 5 ∷ [])
    ∷ op "mul.lo.u32" (r 23 ∷ r 10 ∷ r 25 ∷ [])
    ∷ op "add.u32" (dst ∷ r 24 ∷ r 23 ∷ [])
    ∷ [])

module _ (c : EmitCtx) where
  -- Only the first thread goes on, and only where a lane has private memory and a pool is given.
  abbrev acquire_start : Label → Label → List Line
  acquire_start thread0_done skip_thread0 =
      op "setp.eq.u32" (p 6 ∷ r 9 ∷ zero_imm ∷ [])
      ∷ inst (Guard.unless 6) "bra" (goal skip_thread0 ∷ [])
      ∷ op "st.shared.u32" (at (word "__sbt_pds_exit_count") ∷ zero_imm ∷ [])
      ∷ op "setp.eq.u32" (p 7 ∷ r 29 ∷ zero_imm ∷ [])
      ∷ inst (Guard.when 7) "st.shared.u32" (at (word "__sbt_pds_block_idx") ∷ zero_imm ∷ [])
      ∷ inst (Guard.when 7) "st.shared.u32" (at (word "__sbt_pds_wg_base") ∷ r 28 ∷ [])
      ∷ inst (Guard.when 7) "bra" (goal thread0_done ∷ [])
      ∷ op "setp.eq.u32" (p 7 ∷ r 27 ∷ zero_imm ∷ [])
      ∷ inst (Guard.when 7) "trap" []
      ∷ op "setp.lt.u32" (p 7 ∷ r 26 ∷ hex c.opt.global_base_vaddr ∷ [])
      ∷ inst (Guard.when 7) "trap" []
      ∷ op "add.u32" (r 23 ∷ r 27 ∷ dec 31 ∷ [])
      ∷ op "shr.u32" (r 23 ∷ r 23 ∷ dec 5 ∷ [])
      ∷ op "mov.u32" (r 21 ∷ zero_imm ∷ [])
      ∷ []

  -- The free bits of a word of the bitmap, with the bits beyond the pool masked out.
  abbrev acquire_scan : Label → Label → List Line
  acquire_scan scan_word scan_restart =
      Line.label scan_word
      ∷ op "setp.ge.u32" (p 7 ∷ r 21 ∷ r 23 ∷ [])
      ∷ inst (Guard.when 7) "bra" (goal scan_restart ∷ [])
      ∷ op "shl.b32" (r 22 ∷ r 21 ∷ dec 2 ∷ [])
      ∷ op "add.u32" (r 24 ∷ r 26 ∷ r 22 ∷ [])
      ∷ op "add.u32" (r 25 ∷ r 24 ∷ neg_hex c.opt.global_base_vaddr ∷ [])
      ∷ op "cvt.u64.u32" (rd 18 ∷ r 25 ∷ [])
      ∷ op "add.u64" (rd 18 ∷ rd 0 ∷ rd 18 ∷ [])
      ∷ op "ld.global.u32" (r 25 ∷ at (rd 18) ∷ [])
      ∷ op "not.b32" (r 22 ∷ r 25 ∷ [])
      ∷ op "mul.lo.u32" (r 24 ∷ r 21 ∷ dec 32 ∷ [])
      ∷ op "sub.u32" (r 24 ∷ r 27 ∷ r 24 ∷ [])
      ∷ op "setp.ge.u32" (p 7 ∷ r 24 ∷ dec 32 ∷ [])
      ∷ inst (Guard.when 7) "mov.u32" (r 20 ∷ hex 0xffffffff ∷ [])
      ∷ inst (Guard.unless 7) "mov.u32" (r 20 ∷ dec 1 ∷ [])
      ∷ inst (Guard.unless 7) "shl.b32" (r 20 ∷ r 20 ∷ r 24 ∷ [])
      ∷ inst (Guard.unless 7) "add.u32" (r 20 ∷ r 20 ∷ num (negsuc 0) ∷ [])
      ∷ op "and.b32" (r 22 ∷ r 22 ∷ r 20 ∷ [])
      ∷ op "setp.eq.u32" (p 7 ∷ r 22 ∷ zero_imm ∷ [])
      ∷ inst (Guard.when 7) "add.u32" (r 21 ∷ r 21 ∷ dec 1 ∷ [])
      ∷ inst (Guard.when 7) "bra" (goal scan_word ∷ [])
      ∷ []

  -- Take the highest free bit, and scan on where another group was first.
  abbrev acquire_try : Label → Label → Label → List Line
  acquire_try try_word scan_word alloc_success =
      Line.label try_word
      ∷ op "bfind.u32" (r 20 ∷ r 22 ∷ [])
      ∷ op "mov.u32" (r 19 ∷ dec 1 ∷ [])
      ∷ op "shl.b32" (r 19 ∷ r 19 ∷ r 20 ∷ [])
      ∷ op "atom.global.or.b32" (r 18 ∷ at (rd 18) ∷ r 19 ∷ [])
      ∷ op "and.b32" (r 15 ∷ r 18 ∷ r 19 ∷ [])
      ∷ op "setp.eq.u32" (p 7 ∷ r 15 ∷ zero_imm ∷ [])
      ∷ inst (Guard.when 7) "bra" (goal alloc_success ∷ [])
      ∷ op "xor.b32" (r 22 ∷ r 22 ∷ r 19 ∷ [])
      ∷ op "setp.ne.u32" (p 8 ∷ r 22 ∷ zero_imm ∷ [])
      ∷ inst (Guard.when 8) "bra" (goal try_word ∷ [])
      ∷ op "add.u32" (r 21 ∷ r 21 ∷ dec 1 ∷ [])
      ∷ op "bra" (goal scan_word ∷ [])
      ∷ []

  -- The base address of the block that was taken, for the whole group.
  abbrev acquire_finish : Label → Label → Label → Label → Label → List Line
  acquire_finish scan_restart scan_word alloc_success thread0_done skip_thread0 =
      Line.label scan_restart
      ∷ op "mov.u32" (r 21 ∷ zero_imm ∷ [])
      ∷ op "bra" (goal scan_word ∷ [])
      ∷ Line.label alloc_success
      ∷ op "mad.lo.u32" (r 18 ∷ r 21 ∷ dec 32 ∷ r 20 ∷ [])
      ∷ op "st.shared.u32" (at (word "__sbt_pds_block_idx") ∷ r 18 ∷ [])
      ∷ op "shl.b32" (r 15 ∷ r 29 ∷ dec 5 ∷ [])
      ∷ op "mul.lo.u32" (r 16 ∷ r 12 ∷ r 15 ∷ [])
      ∷ op "cvt.u64.u32" (rd 16 ∷ r 18 ∷ [])
      ∷ op "cvt.u64.u32" (rd 15 ∷ r 16 ∷ [])
      ∷ op "mul.lo.u64" (rd 16 ∷ rd 16 ∷ rd 15 ∷ [])
      ∷ op "cvt.u64.u32" (rd 15 ∷ r 28 ∷ [])
      ∷ op "add.u64" (rd 16 ∷ rd 16 ∷ rd 15 ∷ [])
      ∷ op "cvt.u32.u64" (r 16 ∷ rd 16 ∷ [])
      ∷ op "st.shared.u32" (at (word "__sbt_pds_wg_base") ∷ r 16 ∷ [])
      ∷ Line.label thread0_done
      ∷ Line.label skip_thread0
      ∷ op "bar.sync" (zero_imm ∷ [])
      ∷ []

  unfoldable pub emit_entry_pds_pool_acquire : Emit
  emit_entry_pds_pool_acquire = with_label "pds_acquire_t0_done" (λ thread0_done.
      with_label "pds_acquire_skip_t0" (λ skip_thread0. with_label "pds_scan_word" (λ scan_word.
        with_label "pds_try_word" (λ try_word. with_label "pds_alloc_success" (λ alloc_success.
          with_label "pds_scan_restart" (λ scan_restart. emit_lines (
            acquire_start thread0_done skip_thread0
            ++ acquire_scan scan_word scan_restart
            ++ acquire_try try_word scan_word alloc_success
            ++ acquire_finish scan_restart scan_word alloc_success thread0_done skip_thread0)))))))

  -- Every thread counts itself, and the last one clears the bit.
  abbrev release_lines : Label → List Line
  release_lines release_done =
      op "mov.u32" (r 21 ∷ word "%ntid.x" ∷ [])
      ∷ op "mov.u32" (r 22 ∷ word "%ntid.y" ∷ [])
      ∷ op "mov.u32" (r 23 ∷ word "%ntid.z" ∷ [])
      ∷ op "mul.lo.u32" (r 21 ∷ r 21 ∷ r 22 ∷ [])
      ∷ op "mul.lo.u32" (r 21 ∷ r 21 ∷ r 23 ∷ [])
      ∷ op "atom.shared.add.u32" (r 17 ∷ at (word "__sbt_pds_exit_count") ∷ dec 1 ∷ [])
      ∷ op "add.u32" (r 17 ∷ r 17 ∷ dec 1 ∷ [])
      ∷ op "setp.ne.u32" (p 8 ∷ r 17 ∷ r 21 ∷ [])
      ∷ inst (Guard.when 8) "bra" (goal release_done ∷ [])
      ∷ op "setp.eq.u32" (p 7 ∷ r 29 ∷ zero_imm ∷ [])
      ∷ inst (Guard.when 7) "bra" (goal release_done ∷ [])
      ∷ op "ld.shared.u32" (r 18 ∷ at (word "__sbt_pds_block_idx") ∷ [])
      ∷ op "shr.u32" (r 21 ∷ r 18 ∷ dec 5 ∷ [])
      ∷ op "and.b32" (r 20 ∷ r 18 ∷ dec 31 ∷ [])
      ∷ op "mov.u32" (r 19 ∷ dec 1 ∷ [])
      ∷ op "shl.b32" (r 19 ∷ r 19 ∷ r 20 ∷ [])
      ∷ op "not.b32" (r 19 ∷ r 19 ∷ [])
      ∷ op "shl.b32" (r 22 ∷ r 21 ∷ dec 2 ∷ [])
      ∷ op "add.u32" (r 24 ∷ r 26 ∷ r 22 ∷ [])
      ∷ op "add.u32" (r 25 ∷ r 24 ∷ neg_hex c.opt.global_base_vaddr ∷ [])
      ∷ op "cvt.u64.u32" (rd 18 ∷ r 25 ∷ [])
      ∷ op "add.u64" (rd 18 ∷ rd 0 ∷ rd 18 ∷ [])
      ∷ op "atom.global.and.b32" (r 17 ∷ at (rd 18) ∷ r 19 ∷ [])
      ∷ Line.label release_done
      ∷ []

  unfoldable pub emit_entry_pds_pool_release : Emit
  emit_entry_pds_pool_release =
      with_label "pds_release_done" (λ release_done. emit_lines (release_lines release_done))
