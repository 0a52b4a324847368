-- ===== src/Verify/Function.antt =====
-- `verify_function`: the checks of every divergent branch and every barrier of a function.
use ventus_gpgpu_sbt_simulat.Prelude.{
  ℕ, ◌+◌, Bool, true, false, not, ◌&&◌, String, Option, none, some, List, [], ◌∷◌, map, length,
  get_or, get_elem?, str_eq, ◌==◌, if◌then◌else◌,
}
use ventus_gpgpu_sbt_simulat.Words.{u32}
use ventus_gpgpu_sbt_simulat.Decode.Types.{DecodedInst, is_vreg, is_b13}
use ventus_gpgpu_sbt_simulat.Decode.Names.{is_vbranch}
use ventus_gpgpu_sbt_simulat.Cfg.Types.{BundleInst, BasicBlock, FunctionCfg, lookup}
use ventus_gpgpu_sbt_simulat.Cfg.Classify.{target_of, is_indirect_jalr}
use ventus_gpgpu_sbt_simulat.Verify.BitSet.{BitSet, empty_set, test}
use ventus_gpgpu_sbt_simulat.Verify.VReg.{VRegSet, no_vregs, test_vreg, transfer_vreg_uniform}
use ventus_gpgpu_sbt_simulat.Verify.Graph.{Graph, build_graph}
use ventus_gpgpu_sbt_simulat.Verify.Fixpoint.{compute_dominators, compute_postdominators}
use ventus_gpgpu_sbt_simulat.Verify.Worklist.{compute_region}
use ventus_gpgpu_sbt_simulat.Verify.Uniform.{VRegUniformData, compute_vreg_uniform_must, block_at}
use ventus_gpgpu_sbt_simulat.Verify.Branch.{
  resolve_setrpc_join_pc, any_chases_back, no_side_exit, single_entry,
}
use ventus_gpgpu_sbt_simulat.Verify.Report.{
  CheckError, vbranch_unmapped, barrier_unmapped, no_join_pc, no_index, not_postdominated,
  side_exit, no_join_inst, join_unmapped, join_inside_block, barrier_in_region, VBranchCheck,
  BarrierCheck, UnsupportedJalr, FunctionVerifyResult, VBranchDerived,
}

-- The results of the analyses that the checks read.
pub record Analyses : Type 0 where
  pub graph : Graph
  pub dom : List BitSet
  pub postdom : List BitSet
  pub uniform : VRegUniformData

-- `inst_by_pc`: the last instruction of a pc.
unfoldable pub inst_by_pc : ℕ → List BundleInst → Option BundleInst
inst_by_pc pc [] = none
inst_by_pc pc (bi ∷ rest) = elim (inst_by_pc pc rest) [
  | some b ↦ some b
  | none ↦ if bi.pc == pc then some bi else none
]

-- The check before anything is known but the branch itself.
unfoldable pub fresh_check : BundleInst → VBranchCheck
fresh_check bi = record {
  vbranch_addr = bi.pc;
  vbranch_block = 0;
  mnemonic = bi.inst.name;
  target = if is_b13 bi.inst.imm_kind then some (target_of bi) else none;
  fallthrough = some (u32 (bi.inst_pc + 4));
  join_pc = none;
  proven_uniform = false;
  join_is_join_inst = false;
  loop_like = false;
  postdom_ok = false;
  no_side_exit_ok = false;
  single_entry_ok = false;
  error = none;
}

-- The transfer of a block's instructions before the one at index `i`.
unfoldable pub transfer_until : List BundleInst → ℕ → List ℕ → VRegSet → VRegSet
transfer_until insts i [] st = st
transfer_until insts i (k ∷ ks) st =
    let rest =
      transfer_until insts i ks
        (elim (get_elem? insts k) [ none ↦ st | some bi ↦ transfer_vreg_uniform st bi ]) in
    if k == i then st else rest

module _ (cfg : FunctionCfg) (a : Analyses) where
  -- Both operands of the branch are proven uniform.
  unfoldable pub proves_uniform : ℕ → DecodedInst → ℕ → ℕ → Bool
  unfolding transfer_until
  proves_uniform i di vblock vblock_i =
      if length a.uniform.reachable == length a.graph.nodes
        && get_or a.uniform.reachable vblock_i false
      then (elim (block_at cfg vblock) [
        | none ↦ false
        | some bb ↦
            let st =
              transfer_until cfg.insts i bb.inst_indices
                (get_or a.uniform.sets.in_sets vblock_i no_vregs) in
            (is_vreg di.rs1_class && is_vreg di.rs2_class)
            && (test_vreg st di.rs1 && test_vreg st di.rs2)
      ])
      else false

  -- The checks once the branch's block and the join block have their indices.
  unfoldable pub check_region : ℕ → DecodedInst → VBranchCheck → ℕ → ℕ → BitSet → VBranchDerived
  unfolding proves_uniform
  check_region i di c vblock_i join_i region =
      let g = a.graph in
      let loops =
        any_chases_back cfg g (get_or a.dom vblock_i (empty_set 0)) (get_or g.succs vblock_i []) in
      let postdom = test (get_or a.postdom vblock_i (empty_set 0)) join_i in
      let closed = no_side_exit g region join_i in
      record {
        check = record c {
          proven_uniform = proves_uniform i di c.vbranch_block vblock_i;
          loop_like = loops;
          postdom_ok = postdom;
          no_side_exit_ok = closed;
          single_entry_ok = if loops then true else single_entry g region c.vbranch_block;
          error =
              if postdom then (if closed then none else some side_exit) else some not_postdominated;
        };
        region = region;
      }

  abbrev pub failed : VBranchCheck → CheckError → Option VBranchDerived
  failed c e =
      some
        (record { check = record c { error = some e }; region = empty_set (length a.graph.nodes) })

  -- The check of the branch at index `i` under the join pc that is current; `none` is the fuel of
  -- the region's worklist run out.
  unfoldable pub check_vbranch : ℕ → BundleInst → Option ℕ → Option VBranchDerived
  unfolding check_region fresh_check inst_by_pc
  check_vbranch i bi current_rpc =
      let c0 = fresh_check bi in
      elim (lookup bi.pc cfg.inst_pc_to_block) [
        | none ↦ failed c0 vbranch_unmapped
        | some vblock ↦
            let c1 = record c0 { vbranch_block = vblock; join_pc = current_rpc } in
            elim current_rpc [
              | none ↦ failed c1 no_join_pc
              | some join_pc ↦ elim (inst_by_pc join_pc cfg.insts) [
                | none ↦ failed c1 (no_join_inst join_pc)
                | some bj ↦
                    if str_eq bj.inst.name "join"
                    then (let c2 = record c1 { join_is_join_inst = true } in
                        elim (lookup join_pc cfg.inst_pc_to_block) [
                          | none ↦ failed c2 (join_unmapped join_pc)
                          | some join_block ↦
                              if join_block == join_pc
                              then (elim (lookup vblock a.graph.idx_of) [
                                | none ↦ failed c2 no_index
                                | some vblock_i ↦ elim (lookup join_block a.graph.idx_of) [
                                  | none ↦ failed c2 no_index
                                  | some join_i ↦ elim (compute_region a.graph vblock_i join_i) [
                                    | none ↦ none
                                    | some region ↦
                                        some (check_region i bi.inst c2 vblock_i join_i region)
                                  ]
                                ]
                              ])
                              else failed c2 (join_inside_block join_pc)
                        ])
                    else failed c1 (no_join_inst join_pc)
              ]
            ]
      ]

  -- The loop over the instructions with the join pc of the last setrpc.
  unfoldable pub check_insts : ℕ → List BundleInst → Option ℕ → Option (List VBranchDerived)
  unfolding check_vbranch
  check_insts i [] rpc = some []
  check_insts i (bi ∷ rest) rpc =
      if str_eq bi.inst.name "setrpc"
      then check_insts (i + 1) rest (resolve_setrpc_join_pc cfg i)
      else (let later = check_insts (i + 1) rest rpc in
          if is_vbranch bi.inst.name
          then (elim (check_vbranch i bi rpc) [
            | none ↦ none
            | some vb ↦ elim later [ none ↦ none | some vbs ↦ some (vb ∷ vbs) ]
          ])
          else later)

  -- The first branch that is not proven uniform and whose region holds the block.
  unfoldable pub has_barrier_in_region : ℕ → List VBranchDerived → Option ℕ
  has_barrier_in_region b_i [] = none
  has_barrier_in_region b_i (vb ∷ vbs) =
      if not vb.check.proven_uniform && test vb.region b_i
      then some vb.check.vbranch_addr
      else has_barrier_in_region b_i vbs

  unfoldable pub check_barrier : List VBranchDerived → BundleInst → BarrierCheck
  unfolding has_barrier_in_region
  check_barrier vbs bi = elim (lookup bi.pc cfg.inst_pc_to_block) [
    | none ↦ record {
      barrier_addr = bi.pc;
      barrier_block = 0;
      ok = false;
      error = some barrier_unmapped;
    }
    | some block ↦
        let reason =
          let found : Option ℕ = elim (lookup block a.graph.idx_of) [
            | none ↦ none
            | some b_i ↦ has_barrier_in_region b_i vbs
          ] in
          found in
        elim reason [
          | none ↦ record { barrier_addr = bi.pc; barrier_block = block; ok = true; error = none }
          | some addr ↦ record {
            barrier_addr = bi.pc;
            barrier_block = block;
            ok = false;
            error = some (barrier_in_region addr);
          }
        ]
  ]

unfoldable pub check_barriers :
    FunctionCfg → Analyses → List VBranchDerived → List BundleInst → List BarrierCheck
unfolding check_barrier
check_barriers cfg a vbs [] = []
check_barriers cfg a vbs (bi ∷ rest) =
    let later = check_barriers cfg a vbs rest in
    if str_eq bi.inst.name "barrier" then check_barrier cfg a vbs bi ∷ later else later

-- The indirect jumps that are not returns. A setrpc is passed over before this test.
unfoldable pub find_jalrs : List BundleInst → List UnsupportedJalr
find_jalrs [] = []
find_jalrs (bi ∷ rest) =
    let later = find_jalrs rest in
    if not (str_eq bi.inst.name "setrpc") && is_indirect_jalr bi.inst
    then record { addr = bi.pc; word = bi.inst.word } ∷ later
    else later

unfoldable pub count_edges : List BasicBlock → ℕ
count_edges [] = 0
count_edges (b ∷ bs) = length b.succs + count_edges bs

unfoldable pub entry_of : FunctionCfg → ℕ
entry_of cfg = elim cfg.blocks [ [] ↦ cfg.start | b ∷ bs ↦ b.start ]

-- The analyses, each under the same fuel.
unfoldable pub analyse : ℕ → FunctionCfg → Option Analyses
analyse fuel cfg =
    let g = build_graph cfg in
    let entry = entry_of cfg in
    elim (compute_dominators g fuel entry) [
      | none ↦ none
      | some dom ↦ elim (compute_postdominators g fuel) [
        | none ↦ none
        | some postdom ↦ elim (compute_vreg_uniform_must fuel cfg g entry) [
          | none ↦ none
          | some vuni ↦ some (record { graph = g; dom = dom; postdom = postdom; uniform = vuni })
        ]
      ]
    ]

unfoldable pub verify_function : ℕ → FunctionCfg → String → Option FunctionVerifyResult
unfolding analyse check_insts check_barriers find_jalrs count_edges entry_of
verify_function fuel cfg func_name = elim (analyse fuel cfg) [
  | none ↦ none
  | some a ↦ elim (check_insts cfg a 0 cfg.insts none) [
    | none ↦ none
    | some vbs ↦ some (record {
      func = func_name;
      start = cfg.start;
      end_pc = cfg.end_pc;
      insts = length cfg.insts;
      blocks = length cfg.blocks;
      edges = count_edges cfg.blocks;
      vbranch = map (λ (vb : VBranchDerived). vb.check) vbs;
      barriers = check_barriers cfg a vbs cfg.insts;
      unsupported_jalr = find_jalrs cfg.insts;
    })
  ]
]
