-- ===== src/Ptx/Blob.antt =====
-- sbt/ptx_emit.cpp: the blobs of parameters that carry the state over a call, and the call.
use ventus_gpgpu_sbt_simulat.Prelude.{ℕ, zero, suc, ◌+◌, ◌-◌, ◌*◌, String, List, [], ◌∷◌}
use Prim.Native.String.{◌++◌ as str_append}
use ventus_gpgpu_sbt_simulat.Prelude.Int.{pos}
use ventus_gpgpu_sbt_simulat.Ptx.Lines.{
  Line, Operand, r, rd, v, x, op, zero_imm, param, call, declare,
}
use ventus_gpgpu_sbt_simulat.Ptx.Text.{to_string}
use ventus_gpgpu_sbt_simulat.Ptx.Emit.{
  Emit, emit_line, emit_lines, ◌>>◌, with_temp_id, emit_refresh_leader_predicate,
  emit_select_leader_from_active_mask,
}

abbrev pub num_x_regs : ℕ
num_x_regs = 256

abbrev pub num_v_regs : ℕ
num_v_regs = 256

abbrev pub blob_word_bytes : ℕ
blob_word_bytes = 4

abbrev pub runtime_env_bytes : ℕ
runtime_env_bytes = 8

abbrev pub machine_ctx_bytes : ℕ
machine_ctx_bytes = 20

abbrev pub mutable_leader_offset : ℕ
mutable_leader_offset = 0

abbrev pub mutable_x_offset : ℕ
mutable_x_offset = mutable_leader_offset + blob_word_bytes

abbrev pub mutable_v_offset : ℕ
mutable_v_offset = mutable_x_offset + num_x_regs * blob_word_bytes

abbrev pub mutable_state_bytes : ℕ
mutable_state_bytes = mutable_v_offset + num_v_regs * blob_word_bytes

abbrev pub emit_store_param_u32 : String → ℕ → Operand → Line
emit_store_param_u32 base offset src = op "st.param.u32" (param base offset ∷ src ∷ [])

abbrev pub emit_store_param_u64 : String → ℕ → Operand → Line
emit_store_param_u64 base offset src = op "st.param.u64" (param base offset ∷ src ∷ [])

abbrev pub emit_load_param_u32 : Operand → String → ℕ → Line
emit_load_param_u32 dst base offset = op "ld.param.u32" (dst ∷ param base offset ∷ [])

abbrev pub emit_load_param_u64 : Operand → String → ℕ → Line
emit_load_param_u64 dst base offset = op "ld.param.u64" (dst ∷ param base offset ∷ [])

-- `for (i = first; ...; ++i)`, `count` times.
unfoldable pub each_from : (ℕ → Line) → ℕ → ℕ → List Line
each_from line first zero = []
each_from line first (suc count) = line first ∷ each_from line (first + 1) count

abbrev pub store_x : String → ℕ → Line
store_x blob i = emit_store_param_u32 blob (mutable_x_offset + i * blob_word_bytes) (x (pos i))

abbrev pub store_v : String → ℕ → Line
store_v blob i = emit_store_param_u32 blob (mutable_v_offset + i * blob_word_bytes) (v (pos i))

abbrev pub load_x : String → ℕ → Line
load_x blob i = emit_load_param_u32 (x (pos i)) blob (mutable_x_offset + i * blob_word_bytes)

abbrev pub load_v : String → ℕ → Line
load_v blob i = emit_load_param_u32 (v (pos i)) blob (mutable_v_offset + i * blob_word_bytes)

unfoldable pub emit_store_mutable_state_blob : String → Emit
emit_store_mutable_state_blob blob =
    emit_select_leader_from_active_mask
    >> emit_lines (
        emit_store_param_u32 blob mutable_leader_offset (r 2)
        ∷ op "mov.u32" (r 31 ∷ zero_imm ∷ [])
        ∷ emit_store_param_u32 blob mutable_x_offset (r 31)
        ∷ [])
    >> emit_lines (each_from (store_x blob) 1 (num_x_regs - 1))
    >> emit_lines (each_from (store_v blob) 0 num_v_regs)

unfoldable pub emit_restore_mutable_state_blob : String → Emit
emit_restore_mutable_state_blob blob =
    emit_line (emit_load_param_u32 (r 2) blob mutable_leader_offset)
    >> emit_refresh_leader_predicate
    >> emit_lines (each_from (load_x blob) 1 (num_x_regs - 1))
    >> emit_lines (each_from (load_v blob) 0 num_v_regs)

unfoldable pub emit_store_runtime_env_blob : String → Emit
emit_store_runtime_env_blob blob = emit_line (emit_store_param_u64 blob 0 (rd 0))

-- The offsets `kMachineKnlOffset` to `kMachineWarpsPerBlockOffset` are 0, 4, 8, 12 and 16.
unfoldable pub emit_store_machine_ctx_blob : String → Emit
emit_store_machine_ctx_blob blob = emit_lines (
    emit_store_param_u32 blob 0 (r 30)
    ∷ emit_store_param_u32 blob 4 (r 28)
    ∷ emit_store_param_u32 blob 8 (r 29)
    ∷ emit_store_param_u32 blob 12 (r 10)
    ∷ emit_store_param_u32 blob 16 (r 12)
    ∷ [])

unfoldable pub emit_load_runtime_env_blob : String → Emit
emit_load_runtime_env_blob blob = emit_line (emit_load_param_u64 (rd 0) blob 0)

unfoldable pub emit_load_machine_ctx_blob : String → Emit
emit_load_machine_ctx_blob blob = emit_lines (
    emit_load_param_u32 (r 30) blob 0
    ∷ emit_load_param_u32 (r 28) blob 4
    ∷ emit_load_param_u32 (r 29) blob 8
    ∷ emit_load_param_u32 (r 10) blob 12
    ∷ emit_load_param_u32 (r 12) blob 16
    ∷ [])

abbrev with_param_name : String → (String → Emit) → Emit
with_param_name stem k = with_temp_id (λ n. k (str_append stem (to_string (pos n))))

unfoldable pub emit_direct_call : String → Emit
emit_direct_call callee = with_param_name "__sbt_call_mutable_in_" (λ mut_in.
    with_param_name "__sbt_call_mutable_out_" (λ mut_out.
      with_param_name "__sbt_call_machine_" (λ machine.
        with_param_name "__sbt_call_runtime_" (λ runtime.
          emit_lines (
            declare ".param .align 4 .b8 " mut_in mutable_state_bytes
            ∷ declare ".param .align 4 .b8 " mut_out mutable_state_bytes
            ∷ declare ".param .align 4 .b8 " machine machine_ctx_bytes
            ∷ declare ".param .align 8 .b8 " runtime runtime_env_bytes
            ∷ [])
          >> emit_store_mutable_state_blob mut_in
          >> emit_store_machine_ctx_blob machine
          >> emit_store_runtime_env_blob runtime
          >> emit_line (call mut_out callee (mut_in ∷ machine ∷ runtime ∷ []))
          >> emit_restore_mutable_state_blob mut_out))))
