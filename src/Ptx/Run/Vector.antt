-- ===== src/Ptx/Run/Vector.antt =====
-- The integer instructions of the vector registers: on each lane they do what the scalar ones do.
use ventus_gpgpu_sbt_simulat.Prelude.{
  ℕ, ◌%◌, ◌^◌, ◌<◌, ◌≡◌, refl, ap, arith, String, Option, some, List, [], ◌∷◌, ◌++◌, ◌==◌, lt→ltb,
  Bool-cases, inl, inr,
}
use ventus_gpgpu_sbt_simulat.Prelude.Int.{ℤ, pos}
use ventus_gpgpu_sbt_simulat.Words.{bit_and_mask}
use ventus_gpgpu_sbt_simulat.Decode.Types.{DecodedInst}
use ventus_gpgpu_sbt_simulat.Ptx.Lines.{
  Line, Operand, Guard, op, r, rd, p, v, hex, dec, zero_imm, inst,
}
use ventus_gpgpu_sbt_simulat.Ptx.Emit.{EmitCtx, EmitState, Emit}
use ventus_gpgpu_sbt_simulat.Ptx.One.{first_of}
use ventus_gpgpu_sbt_simulat.Ptx.VectorInt.{emit_vector_add_or_logic, emit_vector_shift}
use ventus_gpgpu_sbt_simulat.Ptx.VectorMul.{emit_vector_multiply, emit_vector_divide}
use ventus_gpgpu_sbt_simulat.Ptx.VectorCompare.{emit_vector_compare, emit_vector_compare_rest}
use ventus_gpgpu_sbt_simulat.Ptx.Lane.{Lane}
use ventus_gpgpu_sbt_simulat.Ptx.Riscv.{RegOp, reg_result}
use ventus_gpgpu_sbt_simulat.Ptx.Run.{exec, exec_line}
use ventus_gpgpu_sbt_simulat.Ptx.Run.Scalar.{
  machine, get_x, machine_of, machine_after, machine_emitted, ld_line, loaded, emit_ld_lem,
  exec-ld_line,
}
use ventus_gpgpu_sbt_simulat.Ptx.Run.Alu.{
  IsWords, get_x-word, mulhsu_word, by_zero, other_by_zero, overflow, least, usual, divide_cases,
}
use ventus_gpgpu_sbt_simulat.Ptx.Run.Mask.{set_v}

unfoldable pub vv_name : RegOp → String
vv_name RegOp.op_add = "vadd_vv"
vv_name RegOp.op_sub = "vsub_vv"
vv_name RegOp.op_and = "vand_vv"
vv_name RegOp.op_or = "vor_vv"
vv_name RegOp.op_xor = "vxor_vv"
vv_name RegOp.op_mul = "vmul_vv"
vv_name RegOp.op_mulh = "vmulh_vv"
vv_name RegOp.op_mulhu = "vmulhu_vv"
vv_name RegOp.op_mulhsu = "vmulhsu_vv"
vv_name RegOp.op_div = "vdiv_vv"
vv_name RegOp.op_divu = "vdivu_vv"
vv_name RegOp.op_rem = "vrem_vv"
vv_name RegOp.op_remu = "vremu_vv"
vv_name RegOp.op_sll = "vsll_vv"
vv_name RegOp.op_srl = "vsrl_vv"
vv_name RegOp.op_sra = "vsra_vv"
vv_name RegOp.op_slt = "vmslt_vv"
vv_name RegOp.op_sltu = "vmsltu_vv"

unfoldable pub vx_name : RegOp → String
vx_name RegOp.op_add = "vadd_vx"
vx_name RegOp.op_sub = "vsub_vx"
vx_name RegOp.op_and = "vand_vx"
vx_name RegOp.op_or = "vor_vx"
vx_name RegOp.op_xor = "vxor_vx"
vx_name RegOp.op_mul = "vmul_vx"
vx_name RegOp.op_mulh = "vmulh_vx"
vx_name RegOp.op_mulhu = "vmulhu_vx"
vx_name RegOp.op_mulhsu = "vmulhsu_vx"
vx_name RegOp.op_div = "vdiv_vx"
vx_name RegOp.op_divu = "vdivu_vx"
vx_name RegOp.op_rem = "vrem_vx"
vx_name RegOp.op_remu = "vremu_vx"
vx_name RegOp.op_sll = "vsll_vx"
vx_name RegOp.op_srl = "vsrl_vx"
vx_name RegOp.op_sra = "vsra_vx"
vx_name RegOp.op_slt = "vmslt_vx"
vx_name RegOp.op_sltu = "vmsltu_vx"

-- The sections of `emit_one_inst` that have these instructions, in their order.
unfoldable pub emit_vector_int : EmitCtx → DecodedInst → Option Emit
emit_vector_int c di = first_of (
    emit_vector_add_or_logic c di
    ∷ emit_vector_shift c di
    ∷ emit_vector_multiply c di
    ∷ emit_vector_divide c di
    ∷ emit_vector_compare c di
    ∷ emit_vector_compare_rest c di
    ∷ [])

abbrev signed_tests : ℤ → Operand → List Line
signed_tests a b =
    op "setp.eq.u32" (p 1 ∷ b ∷ zero_imm ∷ [])
    ∷ op "setp.eq.u32" (p 2 ∷ v a ∷ hex 0x80000000 ∷ [])
    ∷ op "setp.eq.u32" (p 3 ∷ b ∷ hex 0xffffffff ∷ [])
    ∷ op "and.pred" (p 2 ∷ p 2 ∷ p 3 ∷ [])
    ∷ op "or.pred" (p 4 ∷ p 1 ∷ p 2 ∷ [])
    ∷ []

-- The lines into v[d] from v[a] and the operand `b`.
abbrev vector_lines : RegOp → ℤ → ℤ → Operand → List Line
vector_lines RegOp.op_add d a b = op "add.u32" (v d ∷ v a ∷ b ∷ []) ∷ []
vector_lines RegOp.op_sub d a b = op "sub.u32" (v d ∷ v a ∷ b ∷ []) ∷ []
vector_lines RegOp.op_and d a b = op "and.b32" (v d ∷ v a ∷ b ∷ []) ∷ []
vector_lines RegOp.op_or d a b = op "or.b32" (v d ∷ v a ∷ b ∷ []) ∷ []
vector_lines RegOp.op_xor d a b = op "xor.b32" (v d ∷ v a ∷ b ∷ []) ∷ []
vector_lines RegOp.op_mul d a b = op "mul.lo.s32" (v d ∷ v a ∷ b ∷ []) ∷ []
vector_lines RegOp.op_mulh d a b = op "mul.hi.s32" (v d ∷ v a ∷ b ∷ []) ∷ []
vector_lines RegOp.op_mulhu d a b = op "mul.hi.u32" (v d ∷ v a ∷ b ∷ []) ∷ []
vector_lines RegOp.op_mulhsu d a b =
    op "cvt.s64.s32" (rd 16 ∷ v a ∷ [])
    ∷ op "cvt.s64.u32" (rd 17 ∷ b ∷ [])
    ∷ op "mul.lo.s64" (rd 18 ∷ rd 16 ∷ rd 17 ∷ [])
    ∷ op "shr.s64" (rd 18 ∷ rd 18 ∷ dec 32 ∷ [])
    ∷ op "cvt.u32.s64" (r 15 ∷ rd 18 ∷ [])
    ∷ op "mov.u32" (v d ∷ r 15 ∷ [])
    ∷ []
vector_lines RegOp.op_div d a b =
    signed_tests a b
    ++ inst (Guard.when 1) "mov.u32" (v d ∷ hex 0xffffffff ∷ [])
      ∷ inst (Guard.when 2) "mov.u32" (v d ∷ hex 0x80000000 ∷ [])
      ∷ inst (Guard.unless 4) "div.s32" (v d ∷ v a ∷ b ∷ [])
      ∷ []
vector_lines RegOp.op_divu d a b =
    op "setp.eq.u32" (p 1 ∷ b ∷ zero_imm ∷ [])
    ∷ inst (Guard.when 1) "mov.u32" (v d ∷ hex 0xffffffff ∷ [])
    ∷ inst (Guard.unless 1) "div.u32" (v d ∷ v a ∷ b ∷ [])
    ∷ []
vector_lines RegOp.op_rem d a b =
    signed_tests a b
    ++ inst (Guard.when 1) "mov.u32" (v d ∷ v a ∷ [])
      ∷ inst (Guard.when 2) "mov.u32" (v d ∷ zero_imm ∷ [])
      ∷ inst (Guard.unless 4) "rem.s32" (v d ∷ v a ∷ b ∷ [])
      ∷ []
vector_lines RegOp.op_remu d a b =
    op "setp.eq.u32" (p 1 ∷ b ∷ zero_imm ∷ [])
    ∷ inst (Guard.when 1) "mov.u32" (v d ∷ v a ∷ [])
    ∷ inst (Guard.unless 1) "rem.u32" (v d ∷ v a ∷ b ∷ [])
    ∷ []
vector_lines RegOp.op_sll d a b =
    op "and.b32" (r 14 ∷ b ∷ dec 31 ∷ []) ∷ op "shl.b32" (v d ∷ v a ∷ r 14 ∷ []) ∷ []
vector_lines RegOp.op_srl d a b =
    op "and.b32" (r 14 ∷ b ∷ dec 31 ∷ []) ∷ op "shr.u32" (v d ∷ v a ∷ r 14 ∷ []) ∷ []
vector_lines RegOp.op_sra d a b =
    op "and.b32" (r 14 ∷ b ∷ dec 31 ∷ []) ∷ op "shr.s32" (v d ∷ v a ∷ r 14 ∷ []) ∷ []
vector_lines RegOp.op_slt d a b =
    op "setp.lt.s32" (p 1 ∷ v a ∷ b ∷ []) ∷ op "selp.u32" (v d ∷ dec 1 ∷ zero_imm ∷ p 1 ∷ []) ∷ []
vector_lines RegOp.op_sltu d a b =
    op "setp.lt.u32" (p 1 ∷ v a ∷ b ∷ []) ∷ op "selp.u32" (v d ∷ dec 1 ∷ zero_imm ∷ p 1 ∷ []) ∷ []

module _ (c : EmitCtx) (di : DecodedInst) (st : EmitState) (s : Lane) where
  vv_emits :
      (o : RegOp)
      → di.name ≡ vv_name o
      → machine_after (emit_vector_int c di) st s
        ≡ machine_of (exec (vector_lines o di.rd di.rs2 (v di.rs1)) s)
  unfolding machine_after machine_emitted emit_vector_int first_of emit_vector_add_or_logic
      emit_vector_shift emit_vector_multiply emit_vector_divide emit_vector_compare
      emit_vector_compare_rest vv_name
  vv_emits RegOp.op_add h = rw h refl
  vv_emits RegOp.op_sub h = rw h refl
  vv_emits RegOp.op_and h = rw h refl
  vv_emits RegOp.op_or h = rw h refl
  vv_emits RegOp.op_xor h = rw h refl
  vv_emits RegOp.op_mul h = rw h refl
  vv_emits RegOp.op_mulh h = rw h refl
  vv_emits RegOp.op_mulhu h = rw h refl
  vv_emits RegOp.op_mulhsu h = rw h refl
  vv_emits RegOp.op_div h = rw h refl
  vv_emits RegOp.op_divu h = rw h refl
  vv_emits RegOp.op_rem h = rw h refl
  vv_emits RegOp.op_remu h = rw h refl
  vv_emits RegOp.op_sll h = rw h refl
  vv_emits RegOp.op_srl h = rw h refl
  vv_emits RegOp.op_sra h = rw h refl
  vv_emits RegOp.op_slt h = rw h refl
  vv_emits RegOp.op_sltu h = rw h refl

  vx_emits :
      (o : RegOp) (i : ℕ)
      → di.rs1 ≡ pos i
      → di.name ≡ vx_name o
      → machine_after (emit_vector_int c di) st s
        ≡ machine_of (exec (ld_line 14 i ∷ vector_lines o di.rd di.rs2 (r 14)) s)
  unfolding machine_after machine_emitted emit_vector_int first_of emit_vector_add_or_logic
      emit_vector_shift emit_vector_multiply emit_vector_divide emit_vector_compare
      emit_vector_compare_rest vx_name
  vx_emits RegOp.op_add i at_rs1 h = rw (h, at_rs1, emit_ld_lem c 14 i di.pc st) refl
  vx_emits RegOp.op_sub i at_rs1 h = rw (h, at_rs1, emit_ld_lem c 14 i di.pc st) refl
  vx_emits RegOp.op_and i at_rs1 h = rw (h, at_rs1, emit_ld_lem c 14 i di.pc st) refl
  vx_emits RegOp.op_or i at_rs1 h = rw (h, at_rs1, emit_ld_lem c 14 i di.pc st) refl
  vx_emits RegOp.op_xor i at_rs1 h = rw (h, at_rs1, emit_ld_lem c 14 i di.pc st) refl
  vx_emits RegOp.op_mul i at_rs1 h = rw (h, at_rs1, emit_ld_lem c 14 i di.pc st) refl
  vx_emits RegOp.op_mulh i at_rs1 h = rw (h, at_rs1, emit_ld_lem c 14 i di.pc st) refl
  vx_emits RegOp.op_mulhu i at_rs1 h = rw (h, at_rs1, emit_ld_lem c 14 i di.pc st) refl
  vx_emits RegOp.op_mulhsu i at_rs1 h = rw (h, at_rs1, emit_ld_lem c 14 i di.pc st) refl
  vx_emits RegOp.op_div i at_rs1 h = rw (h, at_rs1, emit_ld_lem c 14 i di.pc st) refl
  vx_emits RegOp.op_divu i at_rs1 h = rw (h, at_rs1, emit_ld_lem c 14 i di.pc st) refl
  vx_emits RegOp.op_rem i at_rs1 h = rw (h, at_rs1, emit_ld_lem c 14 i di.pc st) refl
  vx_emits RegOp.op_remu i at_rs1 h = rw (h, at_rs1, emit_ld_lem c 14 i di.pc st) refl
  vx_emits RegOp.op_sll i at_rs1 h = rw (h, at_rs1, emit_ld_lem c 14 i di.pc st) refl
  vx_emits RegOp.op_srl i at_rs1 h = rw (h, at_rs1, emit_ld_lem c 14 i di.pc st) refl
  vx_emits RegOp.op_sra i at_rs1 h = rw (h, at_rs1, emit_ld_lem c 14 i di.pc st) refl
  vx_emits RegOp.op_slt i at_rs1 h = rw (h, at_rs1, emit_ld_lem c 14 i di.pc st) refl
  vx_emits RegOp.op_sltu i at_rs1 h = rw (h, at_rs1, emit_ld_lem c 14 i di.pc st) refl

module _ (s : Lane) (d i j : ℕ) (small_a : s.v j < 2 ^ 32) (small_b : s.v i < 2 ^ 32) where
  vv_runs :
      (o : RegOp)
      → machine_of (exec (vector_lines o (pos d) (pos j) (v (pos i))) s)
        ≡ some (set_v (machine s) d (reg_result o (s.v j) (s.v i)))
  unfolding exec exec_line machine_of reg_result
  vv_runs RegOp.op_add = refl
  vv_runs RegOp.op_sub = refl
  vv_runs RegOp.op_and = refl
  vv_runs RegOp.op_or = refl
  vv_runs RegOp.op_xor = refl
  vv_runs RegOp.op_mul = refl
  vv_runs RegOp.op_mulh = refl
  vv_runs RegOp.op_mulhu = refl
  vv_runs RegOp.op_mulhsu =
      ap (λ (w : ℕ). some (set_v (machine s) d w)) (mulhsu_word (s.v j) (s.v i) small_a small_b)
  vv_runs RegOp.op_div = elim (divide_cases (s.v j) (s.v i)) [
    | by_zero z e m ↦ rw (z, e, m) refl
    | other_by_zero z e ↦ rw (z, e) refl
    | overflow z e m ↦ rw (z, e, m) refl
    | least z e m ↦ rw (z, e, m) (rw (z, e, m) refl)
    | usual z e ↦ rw (z, e) (rw (z, e) refl)
  ]
  vv_runs RegOp.op_divu = elim (Bool-cases (s.v i == 0)) [
    | inl z ↦ rw z refl
    | inr z ↦ rw z (rw z refl)
  ]
  vv_runs RegOp.op_rem = elim (divide_cases (s.v j) (s.v i)) [
    | by_zero z e m ↦ rw (z, e, m) refl
    | other_by_zero z e ↦ rw (z, e) refl
    | overflow z e m ↦ rw (z, e, m) refl
    | least z e m ↦ rw (z, e, m) (rw (z, e, m) refl)
    | usual z e ↦ rw (z, e) (rw (z, e) refl)
  ]
  vv_runs RegOp.op_remu = elim (Bool-cases (s.v i == 0)) [
    | inl z ↦ rw z refl
    | inr z ↦ rw z (rw z refl)
  ]
  vv_runs RegOp.op_sll =
      rw (bit_and_mask 5 (s.v i)) (rw (lt→ltb (s.v i % 32) 32 (omega arith)) refl)
  vv_runs RegOp.op_srl =
      rw (bit_and_mask 5 (s.v i)) (rw (lt→ltb (s.v i % 32) 32 (omega arith)) refl)
  vv_runs RegOp.op_sra =
      rw (bit_and_mask 5 (s.v i)) (rw (lt→ltb (s.v i % 32) 32 (omega arith)) refl)
  vv_runs RegOp.op_slt = refl
  vv_runs RegOp.op_sltu = refl

module _ (s : Lane) (d j : ℕ) (b : ℕ) (small_a : s.v j < 2 ^ 32) (small_b : b < 2 ^ 32) where
  vx_runs :
      (o : RegOp)
      → machine_of (exec (vector_lines o (pos d) (pos j) (r 14)) (loaded s 14 b))
        ≡ some (set_v (machine s) d (reg_result o (s.v j) (b)))
  unfolding exec exec_line machine_of reg_result
  vx_runs RegOp.op_add = refl
  vx_runs RegOp.op_sub = refl
  vx_runs RegOp.op_and = refl
  vx_runs RegOp.op_or = refl
  vx_runs RegOp.op_xor = refl
  vx_runs RegOp.op_mul = refl
  vx_runs RegOp.op_mulh = refl
  vx_runs RegOp.op_mulhu = refl
  vx_runs RegOp.op_mulhsu =
      ap (λ (w : ℕ). some (set_v (machine s) d w)) (mulhsu_word (s.v j) (b) small_a small_b)
  vx_runs RegOp.op_div = elim (divide_cases (s.v j) (b)) [
    | by_zero z e m ↦ rw (z, e, m) refl
    | other_by_zero z e ↦ rw (z, e) refl
    | overflow z e m ↦ rw (z, e, m) refl
    | least z e m ↦ rw (z, e, m) (rw (z, e, m) refl)
    | usual z e ↦ rw (z, e) (rw (z, e) refl)
  ]
  vx_runs RegOp.op_divu = elim (Bool-cases (b == 0)) [
    | inl z ↦ rw z refl
    | inr z ↦ rw z (rw z refl)
  ]
  vx_runs RegOp.op_rem = elim (divide_cases (s.v j) (b)) [
    | by_zero z e m ↦ rw (z, e, m) refl
    | other_by_zero z e ↦ rw (z, e) refl
    | overflow z e m ↦ rw (z, e, m) refl
    | least z e m ↦ rw (z, e, m) (rw (z, e, m) refl)
    | usual z e ↦ rw (z, e) (rw (z, e) refl)
  ]
  vx_runs RegOp.op_remu = elim (Bool-cases (b == 0)) [
    | inl z ↦ rw z refl
    | inr z ↦ rw z (rw z refl)
  ]
  vx_runs RegOp.op_sll = rw (bit_and_mask 5 (b)) (rw (lt→ltb (b % 32) 32 (omega arith)) refl)
  vx_runs RegOp.op_srl = rw (bit_and_mask 5 (b)) (rw (lt→ltb (b % 32) 32 (omega arith)) refl)
  vx_runs RegOp.op_sra = rw (bit_and_mask 5 (b)) (rw (lt→ltb (b % 32) 32 (omega arith)) refl)
  vx_runs RegOp.op_slt = refl
  vx_runs RegOp.op_sltu = refl

-- A lane whose vector registers hold words.
abbrev pub AreWords : Lane → Type 0
AreWords s = (k : ℕ) → s.v k < 2 ^ 32

module _ (c : EmitCtx) (di : DecodedInst) (st : EmitState) (s : Lane) (d i j : ℕ)
    (at_rd : di.rd ≡ pos d) (at_rs1 : di.rs1 ≡ pos i) (at_rs2 : di.rs2 ≡ pos j)
    (words : AreWords s) where
  -- For an integer vector instruction of two vector registers that has a counterpart among the
  -- register instructions of RV32IM, on a lane whose vector registers hold words, the emitted
  -- lines run to their end and leave in v[rd] of the lane what RV32IM says of v[rs2] and v[rs1],
  -- and nothing else changes.
  pub emit_vector_int-vv_result :
      (o : RegOp)
      → di.name ≡ vv_name o
      → machine_after (emit_vector_int c di) st s
        ≡ some (set_v (machine s) d (reg_result o (s.v j) (s.v i)))
  emit_vector_int-vv_result o named =
      rw (vv_emits c di st s o named, at_rd, at_rs1, at_rs2) (vv_runs s d i j (words j) (words i) o)

  -- For an integer vector instruction of a vector and a scalar register that has a counterpart
  -- among the register instructions of RV32IM, on a lane that holds words, the emitted lines run
  -- to their end and leave in v[rd] of the lane what RV32IM says of v[rs2] and x[rs1], and
  -- nothing else changes.
  pub emit_vector_int-vx_result :
      (o : RegOp)
      → di.name ≡ vx_name o
      → IsWords s
      → machine_after (emit_vector_int c di) st s
        ≡ some (set_v (machine s) d (reg_result o (s.v j) (get_x (machine s) i)))
  emit_vector_int-vx_result o named scalars =
      rw
        (
          vx_emits c di st s o i at_rs1 named,
          at_rd,
          at_rs2,
          exec-ld_line 14 i (vector_lines o (pos d) (pos j) (r 14)) s,
        )
        (vx_runs s d j (get_x (machine s) i) (words j) (get_x-word s i scalars) o)
