-- ===== src/Ptx/Prologue.antt =====
-- sbt/ptx_emit.cpp: what stands before the blocks of a function.
use ventus_gpgpu_sbt_simulat.Prelude.{String, List, [], ◌∷◌, ◌++◌, ◌==◌, if◌then◌else◌}
use Prim.Native.String.{◌++◌ as str_append}
use ventus_gpgpu_sbt_simulat.Prelude.Int.{pos}
use ventus_gpgpu_sbt_simulat.Ptx.Lines.{
  Line, Guard, r, rd, p, op, dec, zero_imm, inst, hex, word, at, comment,
}
use ventus_gpgpu_sbt_simulat.Ptx.Memory.{emit_load_knl_u32_scalar}
use ventus_gpgpu_sbt_simulat.Ptx.Pds.{emit_entry_pds_pool_acquire}
use ventus_gpgpu_sbt_simulat.Ptx.Blob.{
  emit_restore_mutable_state_blob, emit_load_runtime_env_blob, emit_load_machine_ctx_blob,
  mutable_state_bytes, machine_ctx_bytes, runtime_env_bytes,
}
use ventus_gpgpu_sbt_simulat.Ptx.Text.{to_string}
use ventus_gpgpu_sbt_simulat.Ptx.Emit.{
  EmitCtx, Emit, skip, emit_line, emit_lines, ◌>>◌, emit_st_x_u32_all,
  emit_select_leader_from_active_mask, emit_warp_sync,
}

abbrev pub signature_text : String → String
signature_text ptx_name = str_append ".func (\n    .param .align 4 .b8 __sbt_mutable_state_out[" (
    str_append (to_string (pos mutable_state_bytes)) (
      str_append "]\n) " (
        str_append ptx_name (
          str_append "(\n    .param .align 4 .b8 __sbt_mutable_state_in[" (
            str_append (to_string (pos mutable_state_bytes)) (
              str_append "],\n    .param .align 4 .b8 __sbt_machine_ctx_in[" (
                str_append (to_string (pos machine_ctx_bytes)) (
                  str_append "],\n    .param .align 8 .b8 __sbt_runtime_env_in["
                    (str_append (to_string (pos runtime_env_bytes)) "]\n)")))))))))

unfoldable pub emit_helper_func_signature : String → Line
emit_helper_func_signature ptx_name = Line.raw (signature_text ptx_name)

-- The declarations of the registers.
abbrev register_lines : List Line
register_lines =
    comment ".reg .b32 %r<32>;"
    ∷ comment ".reg .b64 %rd<32>;"
    ∷ comment ".reg .pred %p<16>;"
    ∷ comment ".reg .f32 %f<16>;"
    ∷ comment ".reg .u8 %ub<4>;"
    ∷ comment ".reg .u16 %uh<4>;"
    ∷ comment ".reg .b32 %x<256>;"
    ∷ comment ".reg .b32 %v<256>;"
    ∷ []

abbrev entry_header : String → List Line
entry_header ptx_name =
    Line.raw (str_append ".visible .entry " (str_append ptx_name "(\n"))
    ∷ Line.raw "    .param .u64 global_base,\n"
    ∷ Line.raw "    .param .u32 knl_vaddr,\n"
    ∷ Line.raw "    .param .u32 pds_base_vaddr,\n"
    ∷ Line.raw "    .param .u32 pds_size_per_thread,\n"
    ∷ Line.raw "    .param .u32 pds_bitmap_base_vaddr,\n"
    ∷ Line.raw "    .param .u32 pds_pool_num_blocks\n"
    ∷ Line.raw ")\n{\n"
    ∷ []

abbrev entry_params : List Line
entry_params =
    op "ld.param.u64" (rd 10 ∷ at (word "global_base") ∷ [])
    ∷ op "cvta.to.global.u64" (rd 0 ∷ rd 10 ∷ [])
    ∷ op "ld.param.u32" (r 30 ∷ at (word "knl_vaddr") ∷ [])
    ∷ op "ld.param.u32" (r 28 ∷ at (word "pds_base_vaddr") ∷ [])
    ∷ op "ld.param.u32" (r 29 ∷ at (word "pds_size_per_thread") ∷ [])
    ∷ op "ld.param.u32" (r 26 ∷ at (word "pds_bitmap_base_vaddr") ∷ [])
    ∷ op "ld.param.u32" (r 27 ∷ at (word "pds_pool_num_blocks") ∷ [])
    ∷ []

-- `%r0` is the lane, `%r9` the linear index of the thread, `%r10` its warp and `%r12` the warps.
abbrev thread_lines : List Line
thread_lines =
    op "mov.u32" (r 0 ∷ word "%laneid" ∷ [])
    ∷ op "mov.u32" (r 3 ∷ word "%tid.x" ∷ [])
    ∷ op "mov.u32" (r 4 ∷ word "%tid.y" ∷ [])
    ∷ op "mov.u32" (r 5 ∷ word "%tid.z" ∷ [])
    ∷ op "mov.u32" (r 6 ∷ word "%ntid.x" ∷ [])
    ∷ op "mov.u32" (r 7 ∷ word "%ntid.y" ∷ [])
    ∷ op "mov.u32" (r 8 ∷ word "%ntid.z" ∷ [])
    ∷ op "mul.lo.u32" (r 9 ∷ r 7 ∷ r 5 ∷ [])
    ∷ op "add.u32" (r 9 ∷ r 9 ∷ r 4 ∷ [])
    ∷ op "mul.lo.u32" (r 9 ∷ r 9 ∷ r 6 ∷ [])
    ∷ op "add.u32" (r 9 ∷ r 9 ∷ r 3 ∷ [])
    ∷ op "shr.u32" (r 10 ∷ r 9 ∷ dec 5 ∷ [])
    ∷ op "mul.lo.u32" (r 11 ∷ r 6 ∷ r 7 ∷ [])
    ∷ op "mul.lo.u32" (r 11 ∷ r 11 ∷ r 8 ∷ [])
    ∷ op "add.u32" (r 12 ∷ r 11 ∷ dec 31 ∷ [])
    ∷ op "shr.u32" (r 12 ∷ r 12 ∷ dec 5 ∷ [])
    ∷ op "mov.u64" (rd 2 ∷ word "__sbt_shmem" ∷ [])
    ∷ op "mul.lo.u32" (r 13 ∷ r 10 ∷ r 17 ∷ [])
    ∷ op "cvt.u64.u32" (rd 13 ∷ r 13 ∷ [])
    ∷ op "add.u64" (rd 3 ∷ rd 2 ∷ rd 13 ∷ [])
    ∷ op "mov.u64" (rd 3 ∷ zero_imm ∷ [])
    ∷ []

module _ (c : EmitCtx) where
  -- The private memory is in global memory, where there is any.
  abbrev pds_check : List Line
  pds_check =
      op "setp.lt.u32" (p 1 ∷ r 28 ∷ hex c.opt.global_base_vaddr ∷ [])
      ∷ op "setp.ne.u32" (p 2 ∷ r 29 ∷ zero_imm ∷ [])
      ∷ op "and.pred" (p 1 ∷ p 1 ∷ p 2 ∷ [])
      ∷ inst (Guard.when 1) "trap" []
      ∷ []

  -- The registers as `_start` leaves them: x4, x3, x2, x8 and x10.
  unfoldable pub emit_start_registers : Emit
  emit_start_registers =
      emit_line (op "mov.u32" (r 15 ∷ zero_imm ∷ []))
      >> emit_st_x_u32_all c (pos 4) (r 15) c.cfg.start
      >> (if c.opt.global_pointer_vaddr == 0
          then skip
          else emit_line (op "mov.u32" (r 15 ∷ hex c.opt.global_pointer_vaddr ∷ []))
            >> emit_st_x_u32_all c (pos 3) (r 15) c.cfg.start)
      >> emit_lines (
          op "mul.lo.u32" (r 15 ∷ r 10 ∷ r 17 ∷ [])
          ∷ op "add.u32" (r 15 ∷ r 15 ∷ hex c.opt.shared_base_vaddr ∷ [])
          ∷ [])
      >> emit_st_x_u32_all c (pos 2) (r 15) c.cfg.start
      >> emit_lines (
          op "mul.lo.u32" (r 15 ∷ r 12 ∷ r 17 ∷ [])
          ∷ op "add.u32" (r 15 ∷ r 15 ∷ hex c.opt.shared_base_vaddr ∷ [])
          ∷ [])
      >> emit_st_x_u32_all c (pos 8) (r 15) c.cfg.start
      >> emit_load_knl_u32_scalar c (r 17) 4
      >> emit_st_x_u32_all c (pos 10) (r 17) c.cfg.start

  unfoldable pub emit_prologue : Emit
  emit_prologue =
      emit_lines (entry_header c.ptx_name ++ (register_lines ++ entry_params))
      >> emit_load_knl_u32_scalar c (r 17) 56
      >> emit_lines thread_lines
      >> emit_select_leader_from_active_mask
      >> emit_lines pds_check
      >> emit_entry_pds_pool_acquire c
      >> emit_start_registers
      >> emit_warp_sync

  unfoldable pub emit_func_prologue : Emit
  emit_func_prologue =
      emit_lines (emit_helper_func_signature c.ptx_name ∷ Line.raw "\n{\n" ∷ register_lines)
      >> emit_line (op "mov.u32" (r 0 ∷ word "%laneid" ∷ []))
      >> emit_load_runtime_env_blob "__sbt_runtime_env_in"
      >> emit_load_machine_ctx_blob "__sbt_machine_ctx_in"
      >> emit_lines
          (op "mov.u64" (rd 2 ∷ word "__sbt_shmem" ∷ []) ∷ op "mov.u64" (rd 3 ∷ zero_imm ∷ []) ∷ [])
      >> emit_restore_mutable_state_blob "__sbt_mutable_state_in"
