-- ===== src/Tests/Cfg.antt =====
-- The control flow graph of a small function: a branch over one instruction.
use ventus_gpgpu_sbt_simulat.Prelude.{ℕ, ◌≡◌, refl, List, [], ◌∷◌}
use ventus_gpgpu_sbt_simulat.Prelude.Int.{ℤ, pos, ◌+ℤ◌}
use ventus_gpgpu_sbt_simulat.Prelude.Result.{ok, err}
use ventus_gpgpu_sbt_simulat.Decode.Types.{RegClass, ImmKind, DecodedInst, blank}
use ventus_gpgpu_sbt_simulat.Cfg.Types.{
  EdgeKind, Edge, BundleInst, FunctionCfg, lookup, insert, has, edge_kind_to_string,
}
use ventus_gpgpu_sbt_simulat.Decode.Names.{is_vbranch}
use ventus_gpgpu_sbt_simulat.Cfg.Classify.{
  classify, is_ret, is_indirect_jalr, is_cond_branch, is_uncond_jump, is_call, target_of, in_range,
}
use ventus_gpgpu_sbt_simulat.Cfg.Build.{
  CfgError, to_bundle, index_insts, collect_leaders, leader_targets, leader_next, spans, split,
  ends_between, map_spans, map_insts, connect, flush_block, block_edges, index_blocks, last_inst,
  build_bundles, build_function_cfg,
}
use ventus_gpgpu_sbt_simulat.Cfg.Index.{IsIndexedAt, build_function_cfg-IsIndexedAt}
use ventus_gpgpu_sbt_simulat.Cfg.WellFormed.{IsGraph, build_function_cfg-IsGraph}

abbrev pub beq : ℕ → ℤ → DecodedInst
beq pc offset = record (blank pc 0) {
  name = "beq";
  rs1_class = RegClass.xreg;
  rs2_class = RegClass.xreg;
  imm_kind = ImmKind.b13;
  imm = offset;
}

abbrev pub addi : ℕ → DecodedInst
addi pc = record (blank pc 0) { name = "addi" }

abbrev pub endprg : ℕ → DecodedInst
endprg pc = record (blank pc 0) { name = "endprg" }

abbrev program : List DecodedInst
program = beq 0 (pos 8) ∷ addi 4 ∷ endprg 8 ∷ []

-- An instruction that no prefix comes before.
abbrev pub plain : DecodedInst → BundleInst
plain di = record { pc = di.pc; inst_pc = di.pc; len = 4; inst = di }

abbrev pub edge : ℕ → ℕ → EdgeKind → Edge
edge s d k = record { src = s; dst = d; kind = k }

abbrev pub triangle : FunctionCfg
triangle = record {
  start = 0;
  end_pc = 12;
  insts = plain (beq 0 (pos 8)) ∷ plain (addi 4) ∷ plain (endprg 8) ∷ [];
  blocks =
      record {
        start = 0;
        inst_indices = 0 ∷ [];
        succs = edge 0 8 EdgeKind.branch ∷ edge 0 4 EdgeKind.fallthrough ∷ [];
      }
      ∷ record { start = 4; inst_indices = 1 ∷ []; succs = edge 4 8 EdgeKind.fallthrough ∷ [] }
      ∷ record { start = 8; inst_indices = 2 ∷ []; succs = [] }
      ∷ [];
  inst_index_by_pc = (0, 0) ∷ (4, 1) ∷ (8, 2) ∷ [];
  inst_pc_to_block = (0, 0) ∷ (4, 4) ∷ (8, 8) ∷ [];
  block_index_by_start = (0, 0) ∷ (4, 1) ∷ (8, 2) ∷ [];
}

builds : build_function_cfg program 0 12 ≡ ok triangle
unfolding build_function_cfg build_bundles to_bundle index_insts collect_leaders leader_targets
    leader_next spans split ends_between map_spans map_insts connect flush_block block_edges
    index_blocks last_inst classify is_ret is_indirect_jalr is_cond_branch is_vbranch is_uncond_jump
    is_call target_of in_range lookup insert has ◌+ℤ◌
builds = refl

empty_throws : build_function_cfg [] 0 12 ≡ err CfgError.empty_function
unfolding build_function_cfg
empty_throws = refl

-- A branch into the second word of a bundle has no instruction at its target.
missing_throws :
    build_function_cfg (beq 0 (pos 6) ∷ addi 4 ∷ endprg 8 ∷ []) 0 12
    ≡ err (CfgError.missing_target 6)
unfolding build_function_cfg build_bundles to_bundle index_insts collect_leaders leader_targets
    leader_next classify is_ret is_indirect_jalr is_cond_branch is_vbranch is_uncond_jump is_call
    target_of in_range lookup ◌+ℤ◌
missing_throws = refl

kind_spelling : edge_kind_to_string EdgeKind.branch ≡ "branch"
unfolding edge_kind_to_string
kind_spelling = refl

build_function_cfg-IsGraph_example : IsGraph triangle
build_function_cfg-IsGraph_example = build_function_cfg-IsGraph program 0 12 triangle builds

build_function_cfg-IsIndexedAt_example :
    IsIndexedAt 0 12 triangle.inst_index_by_pc 1 (plain (addi 4))
build_function_cfg-IsIndexedAt_example =
    build_function_cfg-IsIndexedAt program 0 12 triangle builds 1 (plain (addi 4)) refl
