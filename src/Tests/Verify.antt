-- ===== src/Tests/Verify.antt =====
-- The verifier's analyses on the graph of `Tests.Cfg`.
use ventus_gpgpu_sbt_simulat.Prelude.{
  ℕ, ◌≡◌, ◌↔◌, refl, arith, ◌||◌, ◌==◌, Bool, true, false, Option, none, some, List, [], ◌∷◌,
  get_or,
}
use ventus_gpgpu_sbt_simulat.Cfg.Types.{lookup, insert, has}
use ventus_gpgpu_sbt_simulat.Verify.BitSet.{
  BitSet, intersect, and_words, same_set, same_words, full_set, trim_last, empty_set, test,
  test_word, set_bit,
}
use ventus_gpgpu_sbt_simulat.Verify.Bits.{test-set_bit, test-intersect}
use ventus_gpgpu_sbt_simulat.Verify.Graph.{
  build_graph, add_blocks, add_edges, link, sort_pcs, index_nodes, insert_pc, succ_indices,
}
use ventus_gpgpu_sbt_simulat.Verify.Worklist.{compute_region, compute_reachable, drain, offer}
use ventus_gpgpu_sbt_simulat.Verify.Worklist.Loop.{Reached}
use ventus_gpgpu_sbt_simulat.Verify.Worklist.Region.{
  compute_region_iff, no_side_exit-compute_region, compute_reachable_iff,
}
use ventus_gpgpu_sbt_simulat.Verify.Branch.{
  no_side_exit, single_entry, region_closed, all_inside, any_chases_back, chases_back,
  jump_block_dst,
}
use ventus_gpgpu_sbt_simulat.Prelude.{◌&&◌}
use ventus_gpgpu_sbt_simulat.Prelude.Int.{pos}
use ventus_gpgpu_sbt_simulat.Decode.Types.{RegClass, DecodedInst}
use ventus_gpgpu_sbt_simulat.Cfg.Types.{EdgeKind, FunctionCfg}
use ventus_gpgpu_sbt_simulat.Verify.VReg.{
  no_vregs, transfer_vreg_uniform, same_vregs, intersect_vregs,
}
use ventus_gpgpu_sbt_simulat.Verify.Fixpoint.{
  compute_dominators, dominator_update, compute_postdominators, postdominator_update, sweep,
  iterate, meet_or, meet_all,
}
use ventus_gpgpu_sbt_simulat.Verify.Uniform.{
  compute_vreg_uniform_must, uniform_sweep, uniform_start, new_in, new_out, meet_preds,
  transfer_block, transfer_insts,
}
use ventus_gpgpu_sbt_simulat.Verify.Report.{VBranchDerived, CheckError}
use ventus_gpgpu_sbt_simulat.Verify.Function.{
  Analyses, analyse, entry_of, check_vbranch, check_region, fresh_check, inst_by_pc, proves_uniform,
  transfer_until,
}
use ventus_gpgpu_sbt_simulat.Tests.Cfg.{triangle, plain, edge, beq, addi, endprg}

abbrev between : BitSet
between = record { nbits = 3; words = 2 ∷ [] }

region_found : compute_region (build_graph triangle) 0 2 ≡ some between
unfolding compute_region build_graph add_blocks add_edges link sort_pcs index_nodes insert_pc offer
    drain lookup insert has empty_set test set_bit test_word
region_found = refl

compute_region_iff_example :
    let g = build_graph triangle in
    (region : BitSet) × (compute_region g 0 2 ≡ some region)
    × ((u : ℕ)
        → (test region u ≡ true) ↔ Reached (succ_indices g) (λ s. s == 2) (succ_indices g 0) u)
compute_region_iff_example = compute_region_iff triangle 0 2

no_side_exit-compute_region_example : no_side_exit (build_graph triangle) between 2 ≡ true
no_side_exit-compute_region_example = no_side_exit-compute_region triangle 0 2 between region_found

entry_found : lookup 0 (build_graph triangle).idx_of ≡ some 0
unfolding build_graph add_blocks add_edges link sort_pcs index_nodes insert_pc lookup insert has
entry_found = refl

compute_reachable_iff_example :
    let g = build_graph triangle in
    (seen : List Bool) × (compute_reachable g 0 ≡ some seen)
    × ((u : ℕ) → (get_or seen u false ≡ true) ↔ Reached (succ_indices g) (λ _. false) (0 ∷ []) u)
compute_reachable_iff_example = compute_reachable_iff triangle 0 0 entry_found

test-set_bit_example : test (set_bit (empty_set 70) 65) 1 ≡ (65 == 1 || test (empty_set 70) 1)
test-set_bit_example = test-set_bit (empty_set 70) 65 1 (unfold empty_set in omega arith)

-- A divergent branch over one instruction to a join.
abbrev vbeq : DecodedInst
vbeq = record (beq 0 (pos 8)) {
  name = "vbeq";
  rs1_class = RegClass.vreg;
  rs2_class = RegClass.vreg;
}

abbrev join : DecodedInst
join = record (endprg 8) { name = "join" }

abbrev divergent : FunctionCfg
divergent = record {
  start = 0;
  end_pc = 16;
  insts = plain vbeq ∷ plain (addi 4) ∷ plain join ∷ plain (endprg 12) ∷ [];
  blocks =
      record {
        start = 0;
        inst_indices = 0 ∷ [];
        succs = edge 0 8 EdgeKind.branch ∷ edge 0 4 EdgeKind.fallthrough ∷ [];
      }
      ∷ record { start = 4; inst_indices = 1 ∷ []; succs = edge 4 8 EdgeKind.fallthrough ∷ [] }
      ∷ record { start = 8; inst_indices = 2 ∷ 3 ∷ []; succs = [] }
      ∷ [];
  inst_index_by_pc = (0, 0) ∷ (4, 1) ∷ (8, 2) ∷ (12, 3) ∷ [];
  inst_pc_to_block = (0, 0) ∷ (4, 4) ∷ (8, 8) ∷ (12, 8) ∷ [];
  block_index_by_start = (0, 0) ∷ (4, 1) ∷ (8, 2) ∷ [];
}

abbrev flags : ℕ → ℕ → BitSet
flags n w = record { nbits = n; words = w ∷ [] }

abbrev analyses : Analyses
analyses = record {
  graph = build_graph divergent;
  dom = flags 3 1 ∷ flags 3 3 ∷ flags 3 5 ∷ [];
  postdom = flags 4 13 ∷ flags 4 14 ∷ flags 4 12 ∷ flags 4 8 ∷ [];
  uniform = record {
    sets = record {
      in_sets = no_vregs ∷ no_vregs ∷ no_vregs ∷ [];
      out_sets = no_vregs ∷ no_vregs ∷ no_vregs ∷ [];
    };
    reachable = true ∷ true ∷ true ∷ [];
  };
}

analyses_found : analyse 10 divergent ≡ some analyses
unfolding analyse entry_of build_graph add_blocks add_edges link sort_pcs index_nodes insert_pc
    lookup insert has compute_dominators dominator_update compute_postdominators
    postdominator_update sweep iterate meet_or meet_all set_bit intersect and_words same_set
    same_words empty_set full_set trim_last compute_vreg_uniform_must uniform_sweep uniform_start
    new_in new_out meet_preds transfer_block transfer_insts transfer_vreg_uniform same_vregs
    intersect_vregs compute_reachable drain offer
analyses_found = refl

test-intersect_example :
    test (intersect (set_bit (empty_set 70) 65) (empty_set 70)) 65
    ≡ (test (set_bit (empty_set 70) 65) 65 && test (empty_set 70) 65)
test-intersect_example =
    test-intersect (set_bit (empty_set 70) 65) (empty_set 70) 65
      (unfold set_bit empty_set in omega arith)

-- A divergent branch whose one side is entered from an instruction before it.
abbrev entered : FunctionCfg
entered = record {
  start = 0;
  end_pc = 20;
  insts =
      plain (beq 0 (pos 8))
      ∷ plain (record vbeq { pc = 4 })
      ∷ plain (addi 8)
      ∷ plain (record join { pc = 12 })
      ∷ plain (endprg 16)
      ∷ [];
  blocks =
      record {
        start = 0;
        inst_indices = 0 ∷ [];
        succs = edge 0 8 EdgeKind.branch ∷ edge 0 4 EdgeKind.fallthrough ∷ [];
      }
      ∷ record {
        start = 4;
        inst_indices = 1 ∷ [];
        succs = edge 4 12 EdgeKind.branch ∷ edge 4 8 EdgeKind.fallthrough ∷ [];
      }
      ∷ record { start = 8; inst_indices = 2 ∷ []; succs = edge 8 12 EdgeKind.fallthrough ∷ [] }
      ∷ record { start = 12; inst_indices = 3 ∷ 4 ∷ []; succs = [] }
      ∷ [];
  inst_index_by_pc = (0, 0) ∷ (4, 1) ∷ (8, 2) ∷ (12, 3) ∷ (16, 4) ∷ [];
  inst_pc_to_block = (0, 0) ∷ (4, 4) ∷ (8, 8) ∷ (12, 12) ∷ (16, 12) ∷ [];
  block_index_by_start = (0, 0) ∷ (4, 1) ∷ (8, 2) ∷ (12, 3) ∷ [];
}

abbrev entered_analyses : Analyses
entered_analyses = record {
  graph = build_graph entered;
  dom = flags 4 1 ∷ flags 4 3 ∷ flags 4 5 ∷ flags 4 9 ∷ [];
  postdom = flags 5 25 ∷ flags 5 26 ∷ flags 5 28 ∷ flags 5 24 ∷ flags 5 16 ∷ [];
  uniform = record {
    sets = record {
      in_sets = no_vregs ∷ no_vregs ∷ no_vregs ∷ no_vregs ∷ [];
      out_sets = no_vregs ∷ no_vregs ∷ no_vregs ∷ no_vregs ∷ [];
    };
    reachable = true ∷ true ∷ true ∷ true ∷ [];
  };
}

abbrev entry_and_error : Option VBranchDerived → Option (Bool × Option CheckError)
entry_and_error none = none
entry_and_error (some vb) = some (vb.check.single_entry_ok, vb.check.error)

-- It is found to have more than one entry, and has no error.
entered_accepted :
    entry_and_error
      (check_vbranch entered entered_analyses 1 (plain (record vbeq { pc = 4 })) (some 12))
    ≡ some (false, none)
unfolding check_vbranch check_region fresh_check inst_by_pc single_entry region_closed all_inside
    no_side_exit lookup build_graph add_blocks add_edges link sort_pcs index_nodes insert_pc insert
    has compute_region offer drain empty_set test set_bit test_word any_chases_back chases_back
    jump_block_dst proves_uniform transfer_until
entered_accepted = refl
