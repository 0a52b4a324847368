-- ===== src/Ptx/Run/One.antt =====
-- `emit_one_inst` on the scalar integer instructions: which of its sections has the instruction.
use ventus_gpgpu_sbt_simulat.Prelude.{
  ℕ, ◌≡◌, refl, ◌∙◌, Bool, String, true, false, some, List, [], ◌∷◌, if◌then◌else◌,
}
use ventus_gpgpu_sbt_simulat.Prelude.Int.{pos}
use ventus_gpgpu_sbt_simulat.Prelude.Result.{Result, ok, err}
use ventus_gpgpu_sbt_simulat.Cfg.Types.{BundleInst}
use ventus_gpgpu_sbt_simulat.Ptx.Lines.{Line, comment}
use ventus_gpgpu_sbt_simulat.Ptx.Emit.{
  EmitCtx, EmitState, EmitError, Emit, skip, emit_line, prepend, ◌>>◌,
}
use ventus_gpgpu_sbt_simulat.Ptx.Kinds.{
  any_name, is_ret, is_call, is_uncond_jump, is_scalar_branch, is_vector_branch, is_scalar_load,
  is_scalar_store,
}
use ventus_gpgpu_sbt_simulat.Ptx.Scalar.{emit_scalar_alu, from_two}
use ventus_gpgpu_sbt_simulat.Ptx.ScalarFp.{try_emit_scalar_fp}
use ventus_gpgpu_sbt_simulat.Ptx.Csr.{emit_csr}
use ventus_gpgpu_sbt_simulat.Ptx.Access.{emit_scalar_load, emit_scalar_store}
use ventus_gpgpu_sbt_simulat.Ptx.Branch.{emit_uncond_jump, emit_scalar_branch, emit_vector_branch}
use ventus_gpgpu_sbt_simulat.Ptx.Call.{emit_call}
use ventus_gpgpu_sbt_simulat.Ptx.One.{emit_marker, first_of, sections, emit_one_inst}
use ventus_gpgpu_sbt_simulat.Ptx.Lane.{Lane}
use ventus_gpgpu_sbt_simulat.Ptx.Riscv.{RegOp, reg_name, reg_result}
use ventus_gpgpu_sbt_simulat.Ptx.Run.{exec, exec_line}
use ventus_gpgpu_sbt_simulat.Ptx.Run.Scalar.{machine, get_x, set_x, machine_emitted, machine_after}
use ventus_gpgpu_sbt_simulat.Ptx.Run.Alu.{IsWords, reg_lines, reg_emits, emit_scalar_alu-reg_result}

-- A comment before the lines does not change what they do.
comment_before :
    (b : Emit) (text : String) (st : EmitState) (s : Lane)
    → machine_emitted s ((emit_line (comment text) >> b) st) ≡ machine_emitted s (b st)
unfolding machine_emitted exec exec_line
comment_before b text st s = commented (b st)
  where
    commented :
        (e : Result EmitError (List Line × EmitState))
        → machine_emitted s (prepend (comment text ∷ []) e) ≡ machine_emitted s e
    commented (ok (ls, st')) = refl
    commented (err e) = refl

nothing_before :
    (b : Emit) (st : EmitState) (s : Lane)
    → machine_emitted s ((skip >> b) st) ≡ machine_emitted s (b st)
unfolding machine_emitted
nothing_before b st s = unchanged (b st)
  where
    unchanged :
        (e : Result EmitError (List Line × EmitState))
        → machine_emitted s (prepend [] e) ≡ machine_emitted s e
    unchanged (ok (ls, st')) = refl
    unchanged (err e) = refl

after_comment :
    (include_comments : Bool) (b : Emit) (text : String) (st : EmitState) (s : Lane)
    → machine_emitted s (((if include_comments then emit_line (comment text) else skip) >> b) st)
      ≡ machine_emitted s (b st)
after_comment true b text st s = comment_before b text st s
after_comment false b text st s = nothing_before b st s

-- Of the sections the one of the scalar integer instructions is the first that has a case for them.
first_section :
    (c : EmitCtx) (bi : BundleInst) (o : RegOp)
    → bi.inst.name ≡ reg_name o
    → first_of (sections c bi) ≡ some (from_two c bi.inst (reg_lines o))
unfolding reg_name emit_marker emit_call emit_uncond_jump emit_scalar_branch emit_vector_branch
    emit_csr emit_scalar_load emit_scalar_store try_emit_scalar_fp first_of any_name is_ret is_call
    is_uncond_jump is_scalar_branch is_vector_branch is_scalar_load is_scalar_store
first_section c bi RegOp.op_add h = rw (reg_emits c bi.inst RegOp.op_add h) (rw h refl)
first_section c bi RegOp.op_sub h = rw (reg_emits c bi.inst RegOp.op_sub h) (rw h refl)
first_section c bi RegOp.op_and h = rw (reg_emits c bi.inst RegOp.op_and h) (rw h refl)
first_section c bi RegOp.op_or h = rw (reg_emits c bi.inst RegOp.op_or h) (rw h refl)
first_section c bi RegOp.op_xor h = rw (reg_emits c bi.inst RegOp.op_xor h) (rw h refl)
first_section c bi RegOp.op_mul h = rw (reg_emits c bi.inst RegOp.op_mul h) (rw h refl)
first_section c bi RegOp.op_mulh h = rw (reg_emits c bi.inst RegOp.op_mulh h) (rw h refl)
first_section c bi RegOp.op_mulhu h = rw (reg_emits c bi.inst RegOp.op_mulhu h) (rw h refl)
first_section c bi RegOp.op_mulhsu h = rw (reg_emits c bi.inst RegOp.op_mulhsu h) (rw h refl)
first_section c bi RegOp.op_div h = rw (reg_emits c bi.inst RegOp.op_div h) (rw h refl)
first_section c bi RegOp.op_divu h = rw (reg_emits c bi.inst RegOp.op_divu h) (rw h refl)
first_section c bi RegOp.op_rem h = rw (reg_emits c bi.inst RegOp.op_rem h) (rw h refl)
first_section c bi RegOp.op_remu h = rw (reg_emits c bi.inst RegOp.op_remu h) (rw h refl)
first_section c bi RegOp.op_sll h = rw (reg_emits c bi.inst RegOp.op_sll h) (rw h refl)
first_section c bi RegOp.op_srl h = rw (reg_emits c bi.inst RegOp.op_srl h) (rw h refl)
first_section c bi RegOp.op_sra h = rw (reg_emits c bi.inst RegOp.op_sra h) (rw h refl)
first_section c bi RegOp.op_slt h = rw (reg_emits c bi.inst RegOp.op_slt h) (rw h refl)
first_section c bi RegOp.op_sltu h = rw (reg_emits c bi.inst RegOp.op_sltu h) (rw h refl)

-- The function as a whole does what its scalar section does.
one_inst_lem :
    (c : EmitCtx) (bi : BundleInst) (st : EmitState) (s : Lane) (o : RegOp)
    → bi.inst.name ≡ reg_name o
    → machine_emitted s (emit_one_inst c bi st) ≡ machine_after (emit_scalar_alu c bi.inst) st s
unfolding emit_one_inst machine_after
one_inst_lem c bi st s o named =
    rw (first_section c bi o named, reg_emits c bi.inst o named)
      (after_comment c.opt.include_comments (from_two c bi.inst (reg_lines o)) _ st s)

module _ (c : EmitCtx) (bi : BundleInst) (st : EmitState) (s : Lane) (d i j : ℕ)
    (at_rd : bi.inst.rd ≡ pos d) (at_rs1 : bi.inst.rs1 ≡ pos i) (at_rs2 : bi.inst.rs2 ≡ pos j) where
  -- For a register instruction of RV32IM on the scalar registers, and a lane that holds words,
  -- emit_one_inst emits, with or without the comment, lines that run to their end and leave in
  -- x[rd] what RV32IM says of x[rs1] and x[rs2]; x0, all other registers and the memories are
  -- unchanged.
  pub emit_one_inst-reg_result :
      (o : RegOp)
      → bi.inst.name ≡ reg_name o
      → IsWords s
      → machine_emitted s (emit_one_inst c bi st)
        ≡ some (set_x (machine s) d (reg_result o (get_x (machine s) i) (get_x (machine s) j)))
  emit_one_inst-reg_result o named words =
      one_inst_lem c bi st s o named
      ∙ emit_scalar_alu-reg_result c bi.inst st s d i j at_rd at_rs1 o at_rs2 named words
