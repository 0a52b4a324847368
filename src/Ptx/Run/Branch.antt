-- ===== src/Ptx/Run/Branch.antt =====
-- The branches: running what is emitted for one goes to the block that the instruction goes to.
use ventus_gpgpu_sbt_simulat.Prelude.{
  ℕ, suc, ◌+◌, ◌-◌, ◌%◌, ◌^◌, ◌<◌, ◌≤◌, ◌≡◌, refl, ◌∙◌, ap, arith, String, Bool, true, not, Option,
  none, some, List, [], ◌∷◌, ◌==◌, ltb, leb, if◌then◌else◌, Bool-cases, inl, inr,
}
use ventus_gpgpu_sbt_simulat.Prelude.Int.{ℤ, pos, negsuc, sub_ℕ, ◌+ℤ◌}
use ventus_gpgpu_sbt_simulat.Prelude.Result.{Result, ok, err}
use ventus_gpgpu_sbt_simulat.Words.{u32, to_u32}
use ventus_gpgpu_sbt_simulat.Words.Signed.{lt_signed}
use ventus_gpgpu_sbt_simulat.Decode.Types.{is_b13}
use ventus_gpgpu_sbt_simulat.Cfg.Types.{BundleInst, lookup}
use ventus_gpgpu_sbt_simulat.Ptx.Lines.{Line, Label, Operand, Guard, op, r, v, p, inst, goal, block}
use ventus_gpgpu_sbt_simulat.Ptx.Emit.{EmitCtx, EmitError, EmitState, Emit, block_start_of_pc}
use ventus_gpgpu_sbt_simulat.Ptx.Kinds.{is_scalar_branch, is_vector_branch, any_name}
use ventus_gpgpu_sbt_simulat.Ptx.Branch.{
  emit_scalar_branch, emit_vector_branch, emit_target, branch_test, vector_branch_test,
}
use ventus_gpgpu_sbt_simulat.Ptx.Lane.{Lane, Outcome, jumped}
use ventus_gpgpu_sbt_simulat.Ptx.Run.{exec, exec_line}
use ventus_gpgpu_sbt_simulat.Ptx.Run.Scalar.{
  Machine, machine, get_x, ld_line, loaded, emit_ld_lem, exec-ld_line,
}

pub data BranchOp : Type 0 where
  br_eq br_ne br_lt br_ge br_ltu br_geu : BranchOp

unfoldable pub branch_name : BranchOp → String
branch_name BranchOp.br_eq = "beq"
branch_name BranchOp.br_ne = "bne"
branch_name BranchOp.br_lt = "blt"
branch_name BranchOp.br_ge = "bge"
branch_name BranchOp.br_ltu = "bltu"
branch_name BranchOp.br_geu = "bgeu"

unfoldable pub vector_branch_name : BranchOp → String
vector_branch_name BranchOp.br_eq = "vbeq"
vector_branch_name BranchOp.br_ne = "vbne"
vector_branch_name BranchOp.br_lt = "vblt"
vector_branch_name BranchOp.br_ge = "vbge"
vector_branch_name BranchOp.br_ltu = "vbltu"
vector_branch_name BranchOp.br_geu = "vbgeu"

-- When RV32I takes the branch.
unfoldable pub is_taken : BranchOp → ℕ → ℕ → Bool
is_taken BranchOp.br_eq a b = a == b
is_taken BranchOp.br_ne a b = not (a == b)
is_taken BranchOp.br_lt a b = lt_signed a b
is_taken BranchOp.br_ge a b = not (lt_signed a b)
is_taken BranchOp.br_ltu a b = ltb a b
is_taken BranchOp.br_geu a b = leb b a

abbrev branch_op : BranchOp → String
branch_op BranchOp.br_eq = "setp.eq.u32"
branch_op BranchOp.br_ne = "setp.ne.u32"
branch_op BranchOp.br_lt = "setp.lt.s32"
branch_op BranchOp.br_ge = "setp.ge.s32"
branch_op BranchOp.br_ltu = "setp.lt.u32"
branch_op BranchOp.br_geu = "setp.ge.u32"

-- Where RV32I goes when it takes a branch at `pc`: the offset is added to the address of the branch
-- instruction itself, and the sum wraps.
unfoldable pub branch_address : ℕ → ℤ → ℕ
branch_address pc (pos n) = (pc + n) % 2 ^ 32
branch_address pc (negsuc n) = (pc + (2 ^ 32 - (n + 1) % 2 ^ 32)) % 2 ^ 32

-- The label that lines jump to and the machine then; none where they do anything else.
unfoldable pub jump_of : Outcome → Option (Label × Machine)
jump_of (jumped l s) = some (l, machine s)
jump_of _ = none

unfoldable pub jump_emitted :
    Lane → Result EmitError (List Line × EmitState) → Option (Label × Machine)
jump_emitted s (ok (ls, st)) = jump_of (exec ls s)
jump_emitted s (err e) = none

unfoldable pub jump_after : Option Emit → EmitState → Lane → Option (Label × Machine)
jump_after none st s = none
jump_after (some e) st s = jump_emitted s (e st)

difference_lem : (a b : ℕ) → to_u32 (sub_ℕ a b) ≡ (a + (2 ^ 32 - b % 2 ^ 32)) % 2 ^ 32
difference_lem a b = elim (Bool-cases (leb b a)) [
  | inl e ↦ rw e (let h : b ≤ a = ground arith in omega arith)
  | inr e ↦ rw e (let h : a < b = ground arith in omega arith)
]

address_lem : (pc : ℕ) (imm : ℤ) → to_u32 (pos pc +ℤ imm) ≡ branch_address pc imm
unfolding branch_address ◌+ℤ◌
address_lem pc (pos n) = difference_lem (pc + n) 0 ∙ omega arith
address_lem pc (negsuc n) = difference_lem (pc + 0) (0 + suc n) ∙ omega arith

emit_target_lem :
    (c : EmitCtx) (bi : BundleInst) → emit_target c bi ≡ branch_address bi.inst_pc bi.inst.imm
emit_target_lem c bi = address_lem bi.inst_pc bi.inst.imm

block_start_lem :
    (c : EmitCtx) (pc b : ℕ) (k : ℕ → Emit)
    → lookup pc c.cfg.inst_pc_to_block ≡ some b
    → block_start_of_pc c pc k ≡ k b
unfolding block_start_of_pc
block_start_lem c pc b k h = rw (h, block_start_of_pc) refl

abbrev branch_lines : String → BranchOp → Operand → Operand → ℕ → ℕ → List Line
branch_lines bra o left right dst_t dst_f =
    op (branch_op o) (p 1 ∷ left ∷ right ∷ [])
    ∷ inst (Guard.when 1) bra (goal (block dst_t) ∷ [])
    ∷ op bra (goal (block dst_f) ∷ [])
    ∷ []

branch_tests : (o : BranchOp) → branch_test (branch_name o) ≡ some (branch_op o)
unfolding branch_test branch_name
branch_tests BranchOp.br_eq = refl
branch_tests BranchOp.br_ne = refl
branch_tests BranchOp.br_lt = refl
branch_tests BranchOp.br_ge = refl
branch_tests BranchOp.br_ltu = refl
branch_tests BranchOp.br_geu = refl

vector_branch_tests :
    (o : BranchOp) → vector_branch_test (vector_branch_name o) ≡ some (branch_op o)
unfolding vector_branch_test vector_branch_name
vector_branch_tests BranchOp.br_eq = refl
vector_branch_tests BranchOp.br_ne = refl
vector_branch_tests BranchOp.br_lt = refl
vector_branch_tests BranchOp.br_ge = refl
vector_branch_tests BranchOp.br_ltu = refl
vector_branch_tests BranchOp.br_geu = refl

is_scalar_branch-branch_name : (o : BranchOp) → is_scalar_branch (branch_name o) ≡ true
unfolding is_scalar_branch branch_name any_name
is_scalar_branch-branch_name BranchOp.br_eq = refl
is_scalar_branch-branch_name BranchOp.br_ne = refl
is_scalar_branch-branch_name BranchOp.br_lt = refl
is_scalar_branch-branch_name BranchOp.br_ge = refl
is_scalar_branch-branch_name BranchOp.br_ltu = refl
is_scalar_branch-branch_name BranchOp.br_geu = refl

is_vector_branch-vector_branch_name :
    (o : BranchOp) → is_vector_branch (vector_branch_name o) ≡ true
unfolding is_vector_branch vector_branch_name any_name
is_vector_branch-vector_branch_name BranchOp.br_eq = refl
is_vector_branch-vector_branch_name BranchOp.br_ne = refl
is_vector_branch-vector_branch_name BranchOp.br_lt = refl
is_vector_branch-vector_branch_name BranchOp.br_ge = refl
is_vector_branch-vector_branch_name BranchOp.br_ltu = refl
is_vector_branch-vector_branch_name BranchOp.br_geu = refl

module _ (s : Lane) (a b dst_t dst_f : ℕ) where
  scalar_jumps :
      (o : BranchOp)
      → jump_of
          (exec (branch_lines "bra.uni" o (r 14) (r 15) dst_t dst_f) (loaded (loaded s 14 a) 15 b))
        ≡ some (block (if is_taken o a b then dst_t else dst_f), machine s)
  unfolding jump_of exec exec_line is_taken
  scalar_jumps BranchOp.br_eq = elim (Bool-cases (a == b)) [ inl e ↦ rw e refl | inr e ↦ rw e refl ]
  scalar_jumps BranchOp.br_ne = elim (Bool-cases (a == b)) [ inl e ↦ rw e refl | inr e ↦ rw e refl ]
  scalar_jumps BranchOp.br_lt = elim (Bool-cases (lt_signed a b)) [
    | inl e ↦ rw e refl
    | inr e ↦ rw e refl
  ]
  scalar_jumps BranchOp.br_ge = elim (Bool-cases (lt_signed a b)) [
    | inl e ↦ rw e refl
    | inr e ↦ rw e refl
  ]
  scalar_jumps BranchOp.br_ltu = elim (Bool-cases (ltb a b)) [
    | inl e ↦ rw e refl
    | inr e ↦ rw e refl
  ]
  scalar_jumps BranchOp.br_geu = elim (Bool-cases (leb b a)) [
    | inl e ↦ rw e refl
    | inr e ↦ rw e refl
  ]

module _ (s : Lane) (i j dst_t dst_f : ℕ) where
  vector_jumps :
      (o : BranchOp)
      → jump_of (exec (branch_lines "bra" o (v (pos j)) (v (pos i)) dst_t dst_f) s)
        ≡ some (block (if is_taken o (s.v j) (s.v i) then dst_t else dst_f), machine s)
  unfolding jump_of exec exec_line is_taken
  vector_jumps BranchOp.br_eq = elim (Bool-cases (s.v j == s.v i)) [
    | inl e ↦ rw e refl
    | inr e ↦ rw e refl
  ]
  vector_jumps BranchOp.br_ne = elim (Bool-cases (s.v j == s.v i)) [
    | inl e ↦ rw e refl
    | inr e ↦ rw e refl
  ]
  vector_jumps BranchOp.br_lt = elim (Bool-cases (lt_signed (s.v j) (s.v i))) [
    | inl e ↦ rw e refl
    | inr e ↦ rw e refl
  ]
  vector_jumps BranchOp.br_ge = elim (Bool-cases (lt_signed (s.v j) (s.v i))) [
    | inl e ↦ rw e refl
    | inr e ↦ rw e refl
  ]
  vector_jumps BranchOp.br_ltu = elim (Bool-cases (ltb (s.v j) (s.v i))) [
    | inl e ↦ rw e refl
    | inr e ↦ rw e refl
  ]
  vector_jumps BranchOp.br_geu = elim (Bool-cases (leb (s.v i) (s.v j))) [
    | inl e ↦ rw e refl
    | inr e ↦ rw e refl
  ]

module _ (c : EmitCtx) (bi : BundleInst) (st : EmitState) (s : Lane) (o : BranchOp)
    (i j src dst_t dst_f : ℕ) (kind : is_b13 bi.inst.imm_kind ≡ true) (at_rs1 : bi.inst.rs1 ≡ pos i)
    (at_rs2 : bi.inst.rs2 ≡ pos j) (at_src : lookup bi.pc c.cfg.inst_pc_to_block ≡ some src)
    (at_taken : lookup (branch_address bi.inst_pc bi.inst.imm) c.cfg.inst_pc_to_block ≡ some dst_t)
    (at_next : lookup (u32 (bi.inst_pc + 4)) c.cfg.inst_pc_to_block ≡ some dst_f) where
  -- Where a scalar branch, the word at its offset from the branch instruction itself, behind any
  -- prefix, and the instruction after it lie in blocks, the emitted lines jump to the block of
  -- that word if RV32I takes the branch on x[rs1] and x[rs2], and else to the block of the
  -- instruction after it, with the registers and the memories unchanged.
  pub emit_scalar_branch-is_taken :
      bi.inst.name ≡ branch_name o
      → jump_after (emit_scalar_branch c bi) st s
        ≡ some (
          block (if is_taken o (get_x (machine s) i) (get_x (machine s) j) then dst_t else dst_f),
          machine s,
        )
  unfolding jump_after jump_emitted emit_scalar_branch
  emit_scalar_branch-is_taken named =
      rw
        (
          named,
          is_scalar_branch-branch_name o,
          kind,
          branch_tests o,
          block_start_lem c bi.pc src _ at_src,
          block_start_lem c (emit_target c bi) dst_t _
              (ap (λ t. lookup t c.cfg.inst_pc_to_block) (emit_target_lem c bi) ∙ at_taken),
          block_start_lem c (u32 (bi.inst_pc + 4)) dst_f _ at_next,
          at_rs1,
          at_rs2,
          emit_ld_lem c 14 i bi.inst.pc st,
          emit_ld_lem c 15 j bi.inst.pc st,
        )
        (rw
          (
            exec-ld_line 14 i (ld_line 15 j ∷ branch_lines "bra.uni" o (r 14) (r 15) dst_t dst_f) s,
            exec-ld_line 15 j (branch_lines "bra.uni" o (r 14) (r 15) dst_t dst_f)
                (loaded s 14 (get_x (machine s) i)),
          )
          (scalar_jumps s (get_x (machine s) i) (get_x (machine s) j) dst_t dst_f o))

  -- Where a vector branch, the word at its offset from the branch instruction itself, behind any
  -- prefix, and the instruction after it lie in blocks, the emitted lines jump to the block of
  -- that word if RV32I takes the branch on v[rs2] and v[rs1] of the lane, in that order, and else
  -- to the block of the instruction after it, with the registers and the memories unchanged.
  pub emit_vector_branch-is_taken :
      bi.inst.name ≡ vector_branch_name o
      → jump_after (emit_vector_branch c bi) st s
        ≡ some (block (if is_taken o (s.v j) (s.v i) then dst_t else dst_f), machine s)
  unfolding jump_after jump_emitted emit_vector_branch
  emit_vector_branch-is_taken named =
      rw
        (
          named,
          is_vector_branch-vector_branch_name o,
          kind,
          vector_branch_tests o,
          block_start_lem c bi.pc src _ at_src,
          block_start_lem c (emit_target c bi) dst_t _
              (ap (λ t. lookup t c.cfg.inst_pc_to_block) (emit_target_lem c bi) ∙ at_taken),
          block_start_lem c (u32 (bi.inst_pc + 4)) dst_f _ at_next,
          at_rs1,
          at_rs2,
        )
        (vector_jumps s i j dst_t dst_f o)
