-- ===== src/Tests/Ptx.antt =====
-- Instructions, a context and a lane, on which the emitted lines run.
use ventus_gpgpu_sbt_simulat.Prelude.{
  ℕ, ◌%◌, ◌^◌, ◌<◌, ◌≤◌, ◌≡◌, refl, arith, String, true, false, none, some, [], ◌∷◌, if◌then◌else◌,
  ltb, ◌==◌,
}
use ventus_gpgpu_sbt_simulat.Prelude.Int.{pos, negsuc}
use ventus_gpgpu_sbt_simulat.Decode.Types.{ImmKind, FpRoundingMode, DecodedInst, blank}
use ventus_gpgpu_sbt_simulat.Cfg.Types.{BundleInst, FunctionCfg, lookup}
use ventus_gpgpu_sbt_simulat.Ptx.Lines.{block}
use ventus_gpgpu_sbt_simulat.Ptx.Emit.{EmitCtx, Options, start_state}
use ventus_gpgpu_sbt_simulat.Ptx.Scalar.{emit_scalar_alu}
use ventus_gpgpu_sbt_simulat.Ptx.ScalarFp.{try_emit_scalar_fp}
use ventus_gpgpu_sbt_simulat.Ptx.Access.{emit_scalar_load}
use ventus_gpgpu_sbt_simulat.Ptx.Branch.{emit_scalar_branch, emit_vector_branch}
use ventus_gpgpu_sbt_simulat.Ptx.Blob.{
  emit_store_mutable_state_blob, emit_restore_mutable_state_blob,
}
use ventus_gpgpu_sbt_simulat.Ptx.VectorCompare.{emit_mask_bool}
use ventus_gpgpu_sbt_simulat.Ptx.Lane.{Lane}
use ventus_gpgpu_sbt_simulat.Ptx.Riscv.{RegOp, ImmOp, reg_name, imm_name, reg_result, imm_result}
use ventus_gpgpu_sbt_simulat.Ptx.Run.Scalar.{machine, machine_after, machine_emitted, get_x, set_x}
use ventus_gpgpu_sbt_simulat.Ptx.Run.Alu.{emit_scalar_alu-reg_result}
use ventus_gpgpu_sbt_simulat.Ptx.One.{emit_one_inst}
use ventus_gpgpu_sbt_simulat.Ptx.Run.One.{emit_one_inst-reg_result}
use ventus_gpgpu_sbt_simulat.Ptx.Run.Imm.{emit_scalar_alu-imm_result}
use ventus_gpgpu_sbt_simulat.Ptx.Run.Mask.{
  MaskOp, mask_name, mask_result, set_v, set_mask, holds_v, emit_mask_bool-mask_result,
  emit_mask_bool-mask_xnor,
}
use ventus_gpgpu_sbt_simulat.Ptx.Run.Rounding.{
  RoundedOp, rounded_name, emit_error, rounding_error, try_emit_scalar_fp-rounding_error,
}
use ventus_gpgpu_sbt_simulat.Ptx.Run.Branch.{
  BranchOp, branch_address, branch_name, vector_branch_name, is_taken, jump_after,
  emit_scalar_branch-is_taken, emit_vector_branch-is_taken,
}
use ventus_gpgpu_sbt_simulat.Ptx.Run.{accessible, all_mapped}
use ventus_gpgpu_sbt_simulat.Ptx.Run.Load.{LoadOp, load_name, load_result, finished}
use ventus_gpgpu_sbt_simulat.Ptx.Run.Load.Emitted.{end_after, emit_scalar_load-value_at}
use ventus_gpgpu_sbt_simulat.Ptx.Run.Blob.Roundtrip.{
  lane_after, emit_restore_mutable_state_blob-emit_store_mutable_state_blob,
}
use ventus_gpgpu_sbt_simulat.Ptx.Run.Fclass.{float_class, try_emit_scalar_fp-float_class}
use ventus_gpgpu_sbt_simulat.Ptx.Run.Vector.{
  vv_name, vx_name, emit_vector_int, emit_vector_int-vv_result, emit_vector_int-vx_result,
}

-- The blocks of a loop of four words and the instruction behind it.
abbrev branch_cfg : FunctionCfg
branch_cfg = record {
  start = 0;
  end_pc = 20;
  insts = [];
  blocks = [];
  inst_index_by_pc = [];
  inst_pc_to_block = (0, 0) ∷ (4, 0) ∷ (8, 0) ∷ (16, 16) ∷ [];
  block_index_by_start = [];
}

abbrev options : Options
options = record {
  sm = 75;
  shared_base_vaddr = 0x70000000;
  global_base_vaddr = 0x80000000;
  global_pointer_vaddr = 0;
  lds_bytes = 32768;
  include_comments = true;
}

abbrev context : EmitCtx
context = record {
  cfg = branch_cfg;
  sym_by_addr = [];
  func_name = "kernel";
  ptx_name = "kernel";
  opt = options;
  ptx_name_by_addr = none;
  is_entry = true;
}

-- Register x[k] and v[k] of the lane hold k.
abbrev lane : Lane
lane = record {
  r = λ k. 0;
  rd = λ k. 4096;
  p = λ k. false;
  x = λ k. k % 2 ^ 32;
  v = λ k. k % 2 ^ 32;
  narrow = λ k. 0;
  special = λ w. 0;
  active = 1;
  param = λ w k. 0;
  shared = λ k. k % 2 ^ 8;
  global = λ k. 255;
  maps_shared = λ k. true;
  maps_global = λ k. ltb k 4160;
}

abbrev numbered : String → DecodedInst
numbered name = record (blank 0 0) {
  name = name;
  rd = pos 5;
  rs1 = pos 6;
  rs2 = pos 7;
  rs3 = pos 8;
}

abbrev with_imm : String → ImmKind → ℕ → DecodedInst
with_imm name kind imm = record (numbered name) { imm_kind = kind; imm = pos imm }

emit_scalar_alu-reg_result_example :
    machine_after (emit_scalar_alu context (numbered "div")) start_state lane
    ≡ some (
        set_x
          (machine lane)
          5
          (reg_result RegOp.op_div (get_x (machine lane) 6) (get_x (machine lane) 7)))
unfolding reg_name
emit_scalar_alu-reg_result_example =
    emit_scalar_alu-reg_result context (numbered "div") start_state lane 5 6 7 refl refl
      RegOp.op_div refl refl (λ k. omega arith)

emit_one_inst-reg_result_example :
    machine_emitted lane (
      emit_one_inst context
        (record { inst = numbered "mulh"; len = 4; inst_pc = 0; pc = 0 })
        start_state)
    ≡ some (
        set_x
          (machine lane)
          5
          (reg_result RegOp.op_mulh (get_x (machine lane) 6) (get_x (machine lane) 7)))
unfolding reg_name
emit_one_inst-reg_result_example =
    emit_one_inst-reg_result context
      (record { inst = numbered "mulh"; len = 4; inst_pc = 0; pc = 0 }) start_state lane 5 6 7 refl
      refl refl RegOp.op_mulh refl (λ k. omega arith)

emit_scalar_alu-imm_result_example :
    machine_after (emit_scalar_alu context (with_imm "srai" ImmKind.i12 3)) start_state lane
    ≡ some (set_x (machine lane) 5 (imm_result ImmOp.op_srai (get_x (machine lane) 6) 3))
unfolding imm_name
emit_scalar_alu-imm_result_example =
    emit_scalar_alu-imm_result context (with_imm "srai" ImmKind.i12 3) start_state lane 5 6 refl
      refl ImmOp.op_srai refl refl (λ e. omega arith)

emit_vector_int-vv_result_example :
    machine_after (emit_vector_int context (numbered "vrem_vv")) start_state lane
    ≡ some (set_v (machine lane) 5 (reg_result RegOp.op_rem (lane.v 7) (lane.v 6)))
unfolding vv_name
emit_vector_int-vv_result_example =
    emit_vector_int-vv_result context (numbered "vrem_vv") start_state lane 5 6 7 refl refl refl
      (λ k. omega arith) RegOp.op_rem refl

emit_vector_int-vx_result_example :
    machine_after (emit_vector_int context (numbered "vmslt_vx")) start_state lane
    ≡ some (set_v (machine lane) 5 (reg_result RegOp.op_slt (lane.v 7) (get_x (machine lane) 6)))
unfolding vx_name
emit_vector_int-vx_result_example =
    emit_vector_int-vx_result context (numbered "vmslt_vx") start_state lane 5 6 7 refl refl refl
      (λ k. omega arith) RegOp.op_slt refl (λ k. omega arith)

-- A lane on which x6 points behind the start of global memory.
abbrev pointing : Lane
pointing = record lane { x = λ k. if k == 6 then 0x80000008 else 0 }

emit_scalar_load-value_at_example :
    end_after (emit_scalar_load context (with_imm "lh" ImmKind.i12 4)) start_state pointing
    ≡ finished (set_x (machine pointing) 5 0xffffffff)
unfolding load_name load_result accessible all_mapped
emit_scalar_load-value_at_example =
    emit_scalar_load-value_at context (with_imm "lh" ImmKind.i12 4) start_state pointing 5 6 refl
      refl refl LoadOp.load_half refl (omega arith) (λ k. omega arith) (λ k. omega arith)

-- A branch with a prefix at 8, to the instruction at 0 and over the one at 16.
abbrev branch_inst : String → BundleInst
branch_inst name = record {
  pc = 8;
  inst_pc = 12;
  len = 8;
  inst = record (numbered name) { imm_kind = ImmKind.b13; imm = negsuc 11 };
}

found_at : lookup (branch_address 12 (negsuc 11)) branch_cfg.inst_pc_to_block ≡ some 0
unfolding lookup branch_address
found_at = refl

found_branch : lookup 8 branch_cfg.inst_pc_to_block ≡ some 0
unfolding lookup
found_branch = refl

found_next : lookup 16 branch_cfg.inst_pc_to_block ≡ some 16
unfolding lookup
found_next = refl

emit_scalar_branch-is_taken_example :
    jump_after (emit_scalar_branch context (branch_inst "blt")) start_state lane
    ≡ some (block (if is_taken BranchOp.br_lt 6 7 then 0 else 16), machine lane)
unfolding branch_name
emit_scalar_branch-is_taken_example =
    emit_scalar_branch-is_taken context (branch_inst "blt") start_state lane BranchOp.br_lt 6 7 0 0
      16 refl refl refl found_branch found_at found_next refl

emit_vector_branch-is_taken_example :
    jump_after (emit_vector_branch context (branch_inst "vblt")) start_state lane
    ≡ some (block (if is_taken BranchOp.br_lt 7 6 then 0 else 16), machine lane)
unfolding vector_branch_name
emit_vector_branch-is_taken_example =
    emit_vector_branch-is_taken context (branch_inst "vblt") start_state lane BranchOp.br_lt 6 7 0 0
      16 refl refl refl found_branch found_at found_next refl

emit_restore_mutable_state_blob-emit_store_mutable_state_blob_example :
    (stored restored : Lane) × (lane_after
        (emit_store_mutable_state_blob "__sbt_mutable_state_out")
        start_state
        lane
      ≡ some stored)
    × (lane_after
          (emit_restore_mutable_state_blob "__sbt_mutable_state_out")
          start_state
          (record lane { param = stored.param })
        ≡ some restored)
    × ((i : ℕ) → 1 ≤ i → i < 256 → restored.x i ≡ lane.x i)
    × ((i : ℕ) → i < 256 → restored.v i ≡ lane.v i)
emit_restore_mutable_state_blob-emit_store_mutable_state_blob_example =
    emit_restore_mutable_state_blob-emit_store_mutable_state_blob "__sbt_mutable_state_out"
      start_state lane lane

try_emit_scalar_fp-float_class_example :
    machine_after (try_emit_scalar_fp context (numbered "fclass_s")) start_state lane
    ≡ some (set_x (machine lane) 5 (float_class 6))
try_emit_scalar_fp-float_class_example =
    try_emit_scalar_fp-float_class context (numbered "fclass_s") start_state lane 5 6 refl refl refl
      (λ k. omega arith)

emit_mask_bool-mask_result_example :
    machine_after (emit_mask_bool context (numbered "vmorn_mm")) start_state lane
    ≡ some (set_mask lane 5 (mask_result MaskOp.mask_orn (holds_v lane 7) (holds_v lane 6)))
unfolding mask_name
emit_mask_bool-mask_result_example =
    emit_mask_bool-mask_result context (numbered "vmorn_mm") start_state lane 5 6 7 refl refl refl
      MaskOp.mask_orn refl refl

emit_mask_bool-mask_xnor_example :
    machine_after (emit_mask_bool context (numbered "vmnand_mm")) start_state lane
    ≡ some (set_mask lane 5 (mask_result MaskOp.mask_xnor (holds_v lane 7) (holds_v lane 6)))
unfolding mask_name
emit_mask_bool-mask_xnor_example =
    emit_mask_bool-mask_xnor context (numbered "vmnand_mm") start_state lane 5 6 7 refl refl refl
      MaskOp.mask_nand refl refl

-- A conversion has one operand, and the decoder leaves the others unset.
abbrev conversion : DecodedInst
conversion = record (blank 0 0) {
  name = "fcvt_w_s";
  rd = pos 5;
  rs1 = pos 6;
  fp_rm = FpRoundingMode.rmm;
}

try_emit_scalar_fp-rounding_error_example :
    emit_error (try_emit_scalar_fp context conversion) start_state
    ≡ rounding_error FpRoundingMode.rmm
unfolding rounded_name
try_emit_scalar_fp-rounding_error_example =
    try_emit_scalar_fp-rounding_error context conversion 5 6 0 0 refl refl RoundedOp.to_int
      start_state refl (λ e. absurd (cc)) (λ e. absurd (cc))
