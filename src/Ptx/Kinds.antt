-- ===== src/Ptx/Kinds.antt =====
-- sbt/ptx_emit.cpp: the kinds of the instructions by their names.
use ventus_gpgpu_sbt_simulat.Prelude.{
  String, str_eq, Bool, true, false, not, Option, none, some, List, [], ◌∷◌, ◌&&◌, if◌then◌else◌,
}
use ventus_gpgpu_sbt_simulat.Prelude.Int.{is_num}
use ventus_gpgpu_sbt_simulat.Decode.Types.{DecodedInst, is_i12, is_j21, is_xreg}
use ventus_gpgpu_sbt_simulat.Ptx.Emit.{EmitCtx, Emit, require}

unfoldable pub any_name : String → List String → Bool
any_name s [] = false
any_name s (n ∷ ns) = if str_eq s n then true else any_name s ns

unfoldable pub is_scalar_branch : String → Bool
is_scalar_branch name = any_name name ("beq" ∷ "bne" ∷ "blt" ∷ "bge" ∷ "bltu" ∷ "bgeu" ∷ [])

unfoldable pub is_vector_branch : String → Bool
is_vector_branch name = any_name name ("vbeq" ∷ "vbne" ∷ "vblt" ∷ "vbge" ∷ "vbltu" ∷ "vbgeu" ∷ [])

unfoldable pub is_vector_load : String → Bool
is_vector_load name =
    any_name name ("vlw12_v" ∷ "vlb12_v" ∷ "vlbu12_v" ∷ "vlh12_v" ∷ "vlhu12_v" ∷ "vlw_v" ∷ [])

unfoldable pub is_vector_store : String → Bool
is_vector_store name = any_name name ("vsw12_v" ∷ "vsb12_v" ∷ "vsh12_v" ∷ "vsw_v" ∷ [])

unfoldable pub is_scalar_load : String → Bool
is_scalar_load name = any_name name ("lb" ∷ "lh" ∷ "lw" ∷ "lbu" ∷ "lhu" ∷ "flw" ∷ [])

unfoldable pub is_scalar_store : String → Bool
is_scalar_store name = any_name name ("sb" ∷ "sh" ∷ "sw" ∷ "fsw" ∷ [])

unfoldable pub is_uncond_jump : DecodedInst → Bool
is_uncond_jump di =
    str_eq di.name "jal" && (is_xreg di.rd_class && (is_num di.rd 0 && is_j21 di.imm_kind))

unfoldable pub is_call : DecodedInst → Bool
is_call di =
    str_eq di.name "jal" && (is_xreg di.rd_class && (not (is_num di.rd 0) && is_j21 di.imm_kind))

unfoldable pub is_ret : DecodedInst → Bool
is_ret di =
    str_eq di.name "jalr"
    && (is_xreg di.rd_class
        && (is_xreg di.rs1_class
            && (is_num di.rd 0 && (is_num di.rs1 1 && (is_i12 di.imm_kind && is_num di.imm 0)))))

pub data ScalarExecKind : Type 0 where
  uniform_pure lane_sensitive fixed_lane_sensitive externally_side_effecting : ScalarExecKind

abbrev pub ScalarExecRule : Type 0
ScalarExecRule = String × ScalarExecKind

abbrev scalar_exec_rules : List ScalarExecRule
scalar_exec_rules =
    ("lb", ScalarExecKind.uniform_pure)
    ∷ ("lh", ScalarExecKind.uniform_pure)
    ∷ ("lw", ScalarExecKind.uniform_pure)
    ∷ ("lbu", ScalarExecKind.uniform_pure)
    ∷ ("lhu", ScalarExecKind.uniform_pure)
    ∷ ("flw", ScalarExecKind.uniform_pure)
    ∷ ("sb", ScalarExecKind.externally_side_effecting)
    ∷ ("sh", ScalarExecKind.externally_side_effecting)
    ∷ ("sw", ScalarExecKind.externally_side_effecting)
    ∷ ("fsw", ScalarExecKind.externally_side_effecting)
    ∷ ("csrrw", ScalarExecKind.uniform_pure)
    ∷ ("csrrs", ScalarExecKind.uniform_pure)
    ∷ ("csrrc", ScalarExecKind.uniform_pure)
    ∷ ("csrrwi", ScalarExecKind.uniform_pure)
    ∷ ("csrrsi", ScalarExecKind.uniform_pure)
    ∷ ("csrrci", ScalarExecKind.uniform_pure)
    ∷ ("vmv_x_s", ScalarExecKind.fixed_lane_sensitive)
    ∷ ("trap", ScalarExecKind.externally_side_effecting)
    ∷ []

unfoldable pub lookup_in : String → List ScalarExecRule → Option ScalarExecKind
lookup_in name [] = none
lookup_in name ((n, kind) ∷ rules) = if str_eq n name then some kind else lookup_in name rules

unfoldable pub lookup_scalar_exec_kind : String → Option ScalarExecKind
lookup_scalar_exec_kind name = lookup_in name scalar_exec_rules

unfoldable pub scalar_exec_kind_for_inst : DecodedInst → ScalarExecKind
scalar_exec_kind_for_inst di = elim (lookup_scalar_exec_kind di.name) [
  | some kind ↦ kind
  | none ↦
      if is_scalar_branch di.name then ScalarExecKind.uniform_pure else ScalarExecKind.uniform_pure
]

abbrev is_kind : ScalarExecKind → ScalarExecKind → Bool
is_kind ScalarExecKind.uniform_pure ScalarExecKind.uniform_pure = true
is_kind ScalarExecKind.lane_sensitive ScalarExecKind.lane_sensitive = true
is_kind ScalarExecKind.fixed_lane_sensitive ScalarExecKind.fixed_lane_sensitive = true
is_kind ScalarExecKind.externally_side_effecting ScalarExecKind.externally_side_effecting = true
is_kind _ _ = false

-- The test of the kind that stands before an instruction.
unfoldable pub require_kind : EmitCtx → DecodedInst → ScalarExecKind → Emit
require_kind c di kind =
    require c (is_kind (scalar_exec_kind_for_inst di) kind) "invalid.scalar_exec" di.pc di.name
