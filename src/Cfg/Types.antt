-- ===== src/Cfg/Types.antt =====
-- The types of sbt/cfg.hpp. An unordered map is an association list in the order of insertion; no
-- code iterates over one.
use ventus_gpgpu_sbt_simulat.Prelude.{
  ℕ, String, Bool, true, false, Option, none, some, List, [], ◌∷◌, ◌==◌, if◌then◌else◌,
}
use ventus_gpgpu_sbt_simulat.Decode.Types.{DecodedInst}

pub data EdgeKind : Type 0 where
  fallthrough branch jump : EdgeKind

unfoldable pub edge_kind_to_string : EdgeKind → String
edge_kind_to_string EdgeKind.branch = "branch"
edge_kind_to_string EdgeKind.jump = "jump"
edge_kind_to_string EdgeKind.fallthrough = "fallthrough"

pub record Edge : Type 0 where
  pub src : ℕ
  pub dst : ℕ
  pub kind : EdgeKind

pub record BundleInst : Type 0 where
  pub pc : ℕ
  pub inst_pc : ℕ
  pub len : ℕ
  pub inst : DecodedInst

pub record BasicBlock : Type 0 where
  pub start : ℕ
  pub inst_indices : List ℕ
  pub succs : List Edge

abbrev pub PcMap : Type 0
PcMap = List (ℕ × ℕ)

pub record FunctionCfg : Type 0 where
  pub start : ℕ
  pub end_pc : ℕ
  pub insts : List BundleInst
  pub blocks : List BasicBlock
  pub inst_index_by_pc : PcMap
  pub inst_pc_to_block : PcMap
  pub block_index_by_start : PcMap

-- `find`
unfoldable pub lookup : ℕ → PcMap → Option ℕ
lookup k [] = none
lookup k ((j, v) ∷ m) = if j == k then some v else lookup k m

-- `m[k] = v`
unfoldable pub insert : ℕ → ℕ → PcMap → PcMap
insert k v [] = (k, v) ∷ []
insert k v ((j, u) ∷ m) = if j == k then (k, v) ∷ m else (j, u) ∷ insert k v m

-- `contains` of a set of pcs.
unfoldable pub has : ℕ → List ℕ → Bool
has k [] = false
has k (j ∷ js) = if j == k then true else has k js
