-- ===== src/Cfg/Classify.antt =====
-- What an instruction does to control, as sbt/cfg.cpp classifies it.
use ventus_gpgpu_sbt_simulat.Prelude.{
  ℕ, String, Bool, true, false, not, ◌&&◌, ◌||◌, str_eq, if◌then◌else◌, leb, ltb,
}
use ventus_gpgpu_sbt_simulat.Prelude.Int.{pos, ◌+ℤ◌, is_num}
use ventus_gpgpu_sbt_simulat.Words.{to_u32}
use ventus_gpgpu_sbt_simulat.Decode.Types.{DecodedInst, is_xreg, is_b13, is_j21, is_i12}
use ventus_gpgpu_sbt_simulat.Decode.Names.{is_vbranch}
use ventus_gpgpu_sbt_simulat.Cfg.Types.{BundleInst}

unfoldable pub is_cond_branch : String → Bool
is_cond_branch name =
    str_eq name "beq"
    || str_eq name "bne"
    || str_eq name "blt"
    || str_eq name "bge"
    || str_eq name "bltu"
    || str_eq name "bgeu"

unfoldable pub is_uncond_jump : DecodedInst → Bool
is_uncond_jump di = str_eq di.name "jal" && is_xreg di.rd_class && is_num di.rd 0

unfoldable pub is_call : DecodedInst → Bool
is_call di = str_eq di.name "jal" && is_xreg di.rd_class && not (is_num di.rd 0)

unfoldable pub is_ret : DecodedInst → Bool
is_ret di =
    str_eq di.name "jalr"
    && is_xreg di.rd_class
    && is_xreg di.rs1_class
    && is_num di.rd 0
    && is_num di.rs1 1
    && is_i12 di.imm_kind
    && is_num di.imm 0

unfoldable pub is_indirect_jalr : DecodedInst → Bool
unfolding is_ret
is_indirect_jalr di = str_eq di.name "jalr" && not (is_ret di)

pub record CfInfo : Type 0 where
  pub is_terminator : Bool
  pub is_branch : Bool
  pub is_jump : Bool
  pub is_call : Bool
  pub is_return : Bool
  pub has_fallthrough : Bool
  pub target : ℕ

-- `CfInfo{}`
abbrev pub straight : CfInfo
straight = record {
  is_terminator = false;
  is_branch = false;
  is_jump = false;
  is_call = false;
  is_return = false;
  has_fallthrough = true;
  target = 0;
}

-- The sum is done in int64_t and cut to uint32_t.
unfoldable pub target_of : BundleInst → ℕ
target_of bi = to_u32 (pos bi.inst_pc +ℤ bi.inst.imm)

unfoldable pub classify : BundleInst → CfInfo
classify bi =
    let di = bi.inst in
    if str_eq di.name "endprg"
    then record straight { is_terminator = true; has_fallthrough = false }
    else if str_eq di.name "join"
    then straight
    else if is_ret di
    then record straight { is_return = true; is_terminator = true; has_fallthrough = false }
    else if is_indirect_jalr di
    then record straight { is_terminator = true; has_fallthrough = false }
    else if (is_cond_branch di.name || is_vbranch di.name) && is_b13 di.imm_kind
    then record straight { is_branch = true; is_terminator = true; target = target_of bi }
    else if is_uncond_jump di && is_j21 di.imm_kind
    then record straight {
      is_jump = true;
      is_terminator = true;
      target = target_of bi;
      has_fallthrough = false;
    }
    else if is_call di && is_j21 di.imm_kind
    then record straight { is_call = true; target = target_of bi }
    else straight

-- `x >= lo && x < hi_excl`
unfoldable pub in_range : ℕ → ℕ → ℕ → Bool
in_range x lo hi_excl = leb lo x && ltb x hi_excl
