-- ===== src/Ptx/Run/Imm.antt =====
-- The scalar instructions with an immediate: running what is emitted for one does what RV32I says.
use ventus_gpgpu_sbt_simulat.Prelude.{
  ℕ, ◌<◌, ◌≡◌, refl, Bool, true, false, some, List, [], ◌∷◌, lt→ltb,
}
use ventus_gpgpu_sbt_simulat.Prelude.Int.{pos}
use ventus_gpgpu_sbt_simulat.Words.{to_u32}
use ventus_gpgpu_sbt_simulat.Decode.Types.{DecodedInst, is_i12}
use ventus_gpgpu_sbt_simulat.Ptx.Lines.{Line, op, r, p, num, hex, dec, zero_imm}
use ventus_gpgpu_sbt_simulat.Ptx.Emit.{EmitCtx, EmitState}
use ventus_gpgpu_sbt_simulat.Ptx.Scalar.{
  emit_scalar_alu, emit_arithmetic, emit_shift_or_compare, from_one,
}
use ventus_gpgpu_sbt_simulat.Ptx.Lane.{Lane}
use ventus_gpgpu_sbt_simulat.Ptx.Riscv.{ImmOp, imm_name, imm_result}
use ventus_gpgpu_sbt_simulat.Ptx.Run.{exec, exec_line}
use ventus_gpgpu_sbt_simulat.Ptx.Run.Scalar.{
  machine, get_x, set_x, result_of, machine_after, loaded, from_one_lem,
}

abbrev pub shifts : ImmOp → Bool
shifts ImmOp.op_slli = true
shifts ImmOp.op_srli = true
shifts ImmOp.op_srai = true
shifts _ = false

abbrev imm_lines : ImmOp → DecodedInst → List Line
imm_lines ImmOp.op_addi di = op "add.s32" (r 15 ∷ r 14 ∷ num di.imm ∷ []) ∷ []
imm_lines ImmOp.op_andi di = op "and.b32" (r 15 ∷ r 14 ∷ hex (to_u32 di.imm) ∷ []) ∷ []
imm_lines ImmOp.op_ori di = op "or.b32" (r 15 ∷ r 14 ∷ hex (to_u32 di.imm) ∷ []) ∷ []
imm_lines ImmOp.op_xori di = op "xor.b32" (r 15 ∷ r 14 ∷ num di.imm ∷ []) ∷ []
imm_lines ImmOp.op_slli di = op "shl.b32" (r 15 ∷ r 14 ∷ num di.imm ∷ []) ∷ []
imm_lines ImmOp.op_srli di = op "shr.u32" (r 15 ∷ r 14 ∷ num di.imm ∷ []) ∷ []
imm_lines ImmOp.op_srai di = op "shr.s32" (r 15 ∷ r 14 ∷ num di.imm ∷ []) ∷ []
imm_lines ImmOp.op_slti di =
    op "setp.lt.s32" (p 1 ∷ r 14 ∷ num di.imm ∷ [])
    ∷ op "selp.u32" (r 15 ∷ dec 1 ∷ zero_imm ∷ p 1 ∷ [])
    ∷ []
imm_lines ImmOp.op_sltiu di =
    op "setp.lt.u32" (p 1 ∷ r 14 ∷ hex (to_u32 di.imm) ∷ [])
    ∷ op "selp.u32" (r 15 ∷ dec 1 ∷ zero_imm ∷ p 1 ∷ [])
    ∷ []

imm_emits :
    (c : EmitCtx) (di : DecodedInst) (o : ImmOp)
    → di.name ≡ imm_name o
    → is_i12 di.imm_kind ≡ true
    → emit_scalar_alu c di ≡ some (from_one c di (imm_lines o di))
unfolding emit_scalar_alu emit_arithmetic emit_shift_or_compare imm_name
imm_emits c di ImmOp.op_addi h k = rw (h, k) refl
imm_emits c di ImmOp.op_andi h k = rw (h, k) refl
imm_emits c di ImmOp.op_ori h k = rw (h, k) refl
imm_emits c di ImmOp.op_xori h k = rw (h, k) refl
imm_emits c di ImmOp.op_slli h k = rw (h, k) refl
imm_emits c di ImmOp.op_srli h k = rw (h, k) refl
imm_emits c di ImmOp.op_srai h k = rw (h, k) refl
imm_emits c di ImmOp.op_slti h k = rw (h, k) refl
imm_emits c di ImmOp.op_sltiu h k = rw (h, k) refl

module _ (s : Lane) (a : ℕ) (di : DecodedInst) where
  imm_runs :
      (o : ImmOp)
      → (shifts o ≡ true → to_u32 di.imm < 32)
      → result_of 15 (exec (imm_lines o di) (loaded s 14 a))
        ≡ some (machine s, imm_result o a (to_u32 di.imm))
  unfolding exec exec_line result_of imm_result
  imm_runs ImmOp.op_addi k = refl
  imm_runs ImmOp.op_andi k = refl
  imm_runs ImmOp.op_ori k = refl
  imm_runs ImmOp.op_xori k = refl
  imm_runs ImmOp.op_slli k = rw (lt→ltb (to_u32 di.imm) 32 (k refl)) refl
  imm_runs ImmOp.op_srli k = rw (lt→ltb (to_u32 di.imm) 32 (k refl)) refl
  imm_runs ImmOp.op_srai k = rw (lt→ltb (to_u32 di.imm) 32 (k refl)) refl
  imm_runs ImmOp.op_slti k = refl
  imm_runs ImmOp.op_sltiu k = refl

module _ (c : EmitCtx) (di : DecodedInst) (st : EmitState) (s : Lane) (d i : ℕ)
    (at_rd : di.rd ≡ pos d) (at_rs1 : di.rs1 ≡ pos i) where
  -- For an instruction of RV32I with a 12-bit immediate, below 32 where it is a shift, the
  -- emitted lines run to their end and leave in x[rd] what RV32I says of x[rs1] and the
  -- immediate; x0, all other registers and the memories are unchanged.
  pub emit_scalar_alu-imm_result :
      (o : ImmOp)
      → di.name ≡ imm_name o
      → is_i12 di.imm_kind ≡ true
      → (shifts o ≡ true → to_u32 di.imm < 32)
      → machine_after (emit_scalar_alu c di) st s
        ≡ some (set_x (machine s) d (imm_result o (get_x (machine s) i) (to_u32 di.imm)))
  emit_scalar_alu-imm_result o named kind count = rw (imm_emits c di o named kind) (
      from_one_lem c di st s d i 0 at_rd at_rs1 (imm_lines o di)
        (imm_result o (get_x (machine s) i) (to_u32 di.imm))
        (imm_runs s (get_x (machine s) i) di o count))
