-- ===== src/Verify/Report.antt =====
-- The structs of sbt/cfg_verify.hpp, and what the checks keep of a branch.
use ventus_gpgpu_sbt_simulat.Prelude.{ℕ, Bool, String, Option, List}
use ventus_gpgpu_sbt_simulat.Verify.BitSet.{BitSet}

-- What the messages of a check say, each with the pc that it shows.
pub data CheckError : Type 0 where
  vbranch_unmapped barrier_unmapped no_join_pc no_index not_postdominated side_exit : CheckError
  no_join_inst join_unmapped join_inside_block : ℕ → CheckError
  barrier_in_region : ℕ → CheckError

pub record VBranchCheck : Type 0 where
  pub vbranch_addr : ℕ
  pub vbranch_block : ℕ
  pub mnemonic : String
  pub target : Option ℕ
  pub fallthrough : Option ℕ
  pub join_pc : Option ℕ
  pub proven_uniform : Bool
  pub join_is_join_inst : Bool
  pub loop_like : Bool
  pub postdom_ok : Bool
  pub no_side_exit_ok : Bool
  pub single_entry_ok : Bool
  pub error : Option CheckError

pub record BarrierCheck : Type 0 where
  pub barrier_addr : ℕ
  pub barrier_block : ℕ
  pub ok : Bool
  pub error : Option CheckError

pub record UnsupportedJalr : Type 0 where
  pub addr : ℕ
  pub word : ℕ

pub record FunctionVerifyResult : Type 0 where
  pub func : String
  pub start : ℕ
  pub end_pc : ℕ
  pub insts : ℕ
  pub blocks : ℕ
  pub edges : ℕ
  pub vbranch : List VBranchCheck
  pub barriers : List BarrierCheck
  pub unsupported_jalr : List UnsupportedJalr

pub record VBranchDerived : Type 0 where
  pub check : VBranchCheck
  pub region : BitSet
