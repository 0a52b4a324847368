-- ===== src/Ptx/Branch.antt =====
-- sbt/ptx_emit.cpp, `emit_one_inst`: jumps and branches, to the labels of the blocks.
use ventus_gpgpu_sbt_simulat.Prelude.{
  ℕ, ◌+◌, String, str_eq, Option, none, some, [], ◌∷◌, ◌&&◌, if◌then◌else◌,
}
use ventus_gpgpu_sbt_simulat.Prelude.Int.{pos, ◌+ℤ◌}
use ventus_gpgpu_sbt_simulat.Words.{u32, to_u32}
use ventus_gpgpu_sbt_simulat.Decode.Types.{DecodedInst, is_b13}
use ventus_gpgpu_sbt_simulat.Cfg.Types.{BundleInst}
use ventus_gpgpu_sbt_simulat.Ptx.Lines.{Label, Guard, Operand, block, r, p, v, op, inst, goal}
use ventus_gpgpu_sbt_simulat.Ptx.Kinds.{is_scalar_branch, is_vector_branch, is_uncond_jump}
use ventus_gpgpu_sbt_simulat.Ptx.Emit.{
  EmitCtx, Emit, emit_line, emit_lines, ◌>>◌, throw, block_start_of_pc, emit_ld_x_u32_all,
}

-- The test of a branch, where it has one; a vector branch has the name with a `v` before it.
unfoldable pub branch_test : String → Option String
branch_test n =
    if str_eq n "beq"
    then some "setp.eq.u32"
    else if str_eq n "bne"
    then some "setp.ne.u32"
    else if str_eq n "blt"
    then some "setp.lt.s32"
    else if str_eq n "bge"
    then some "setp.ge.s32"
    else if str_eq n "bltu"
    then some "setp.lt.u32"
    else if str_eq n "bgeu"
    then some "setp.ge.u32"
    else none

unfoldable pub vector_branch_test : String → Option String
vector_branch_test n =
    if str_eq n "vbeq"
    then some "setp.eq.u32"
    else if str_eq n "vbne"
    then some "setp.ne.u32"
    else if str_eq n "vblt"
    then some "setp.lt.s32"
    else if str_eq n "vbge"
    then some "setp.ge.s32"
    else if str_eq n "vbltu"
    then some "setp.lt.u32"
    else if str_eq n "vbgeu"
    then some "setp.ge.u32"
    else none

abbrev pub target_label_for_edge : ℕ → ℕ → Label
target_label_for_edge src_block dst_block = block dst_block

module _ (c : EmitCtx) (bi : BundleInst) where
  abbrev di : DecodedInst
  di = bi.inst

  abbrev pub emit_target : ℕ
  emit_target = to_u32 (pos bi.inst_pc +ℤ di.imm)

  unfoldable pub emit_uncond_jump : Option Emit
  emit_uncond_jump =
      if is_uncond_jump di
      then some (
          block_start_of_pc c bi.pc (λ src_block. block_start_of_pc c emit_target (λ dst_block.
            emit_line (op "bra" (goal (target_label_for_edge src_block dst_block) ∷ [])))))
      else none

  -- The line of the test, with its predicate `%p1`.
  abbrev test_line : Option String → Operand → Operand → Emit
  test_line (some name) left right = emit_line (op name (p 1 ∷ left ∷ right ∷ []))
  test_line none left right = throw c "unsupported.inst" di.pc di.name

  abbrev with_blocks : (ℕ → ℕ → ℕ → Emit) → Emit
  with_blocks k = block_start_of_pc c bi.pc (λ src_block.
      block_start_of_pc c emit_target
        (λ dst_t. block_start_of_pc c (u32 (bi.inst_pc + 4)) (λ dst_f. k src_block dst_t dst_f)))

  unfoldable pub emit_scalar_branch : Option Emit
  emit_scalar_branch =
      if is_scalar_branch di.name && is_b13 di.imm_kind
      then some (
          with_blocks (λ src_block dst_t dst_f.
            emit_ld_x_u32_all c (r 14) di.rs1 di.pc
            >> emit_ld_x_u32_all c (r 15) di.rs2 di.pc
            >> test_line (branch_test di.name) (r 14) (r 15)
            >> emit_lines (
                inst (Guard.when 1) "bra.uni" (goal (target_label_for_edge src_block dst_t) ∷ [])
                ∷ op "bra.uni" (goal (target_label_for_edge src_block dst_f) ∷ [])
                ∷ [])))
      else none

  unfoldable pub emit_vector_branch : Option Emit
  emit_vector_branch =
      if is_vector_branch di.name && is_b13 di.imm_kind
      then some (
          with_blocks (λ src_block dst_t dst_f.
            test_line (vector_branch_test di.name) (v di.rs2) (v di.rs1)
            >> emit_lines (
                inst (Guard.when 1) "bra" (goal (target_label_for_edge src_block dst_t) ∷ [])
                ∷ op "bra" (goal (target_label_for_edge src_block dst_f) ∷ [])
                ∷ [])))
      else none
