-- ===== src/Verify/Branch.antt =====
-- The checks of one divergent branch.
use ventus_gpgpu_sbt_simulat.Prelude.{
  ℕ, zero, suc, ◌-◌, Bool, true, false, not, ◌&&◌, ◌||◌, Option, none, some, List, [], ◌∷◌, length,
  get_or, get_elem?, str_eq, ◌==◌, ltb, if◌then◌else◌,
}
use ventus_gpgpu_sbt_simulat.Prelude.Int.{ℤ, pos, negsuc, ◌+ℤ◌}
use ventus_gpgpu_sbt_simulat.Words.{to_u32}
use ventus_gpgpu_sbt_simulat.Decode.Types.{is_xreg}
use ventus_gpgpu_sbt_simulat.Cfg.Types.{EdgeKind, BundleInst, FunctionCfg, lookup}
use ventus_gpgpu_sbt_simulat.Verify.BitSet.{BitSet, test}
use ventus_gpgpu_sbt_simulat.Verify.Graph.{Graph, node_index, succ_indices}
use ventus_gpgpu_sbt_simulat.Verify.Fixpoint.{indices}
use ventus_gpgpu_sbt_simulat.Verify.Uniform.{block_at}

-- `r >= 0 && r < 32`
abbrev is_gpr : ℤ → Bool
is_gpr (pos n) = ltb n 32
is_gpr (negsuc n) = false

-- `pj.rd == rs1`
abbrev same_reg : ℤ → ℤ → Bool
same_reg (pos m) (pos n) = m == n
same_reg (negsuc m) (negsuc n) = m == n
same_reg _ _ = false

-- The search backwards for the auipc, `count` instructions from the one before index `j` on.
unfoldable pub find_auipc : List BundleInst → ℤ → ℤ → ℕ → ℕ → Option ℕ
find_auipc insts rs1 off zero j = none
find_auipc insts rs1 off (suc count) j =
    let further = find_auipc insts rs1 off count (j - 1) in
    elim (get_elem? insts (j - 1)) [
      | none ↦ none
      | some bj ↦
          if str_eq bj.inst.name "auipc" && is_xreg bj.inst.rd_class && same_reg bj.inst.rd rs1
          then some (to_u32 (pos bj.inst_pc +ℤ bj.inst.imm +ℤ off))
          else further
    ]

unfoldable pub resolve_setrpc_join_pc : FunctionCfg → ℕ → Option ℕ
unfolding find_auipc
resolve_setrpc_join_pc cfg i = elim (get_elem? cfg.insts i) [
  | none ↦ none
  | some bi ↦
      if str_eq bi.inst.name "setrpc" && is_xreg bi.inst.rs1_class && is_gpr bi.inst.rs1
      then find_auipc cfg.insts bi.inst.rs1 bi.inst.imm (if ltb 12 i then 12 else i) i
      else none
]

-- The destination of a block that ends in a jump and nothing else.
unfoldable pub jump_block_dst : FunctionCfg → ℕ → Option ℕ
jump_block_dst cfg block_start = elim (block_at cfg block_start) [
  | none ↦ none
  | some bb ↦ elim bb.succs [
    | [] ↦ none
    | e ∷ more ↦ elim more [
      | [] ↦ elim e.kind [ EdgeKind.jump ↦ some e.dst | _ ↦ none ]
      | _ ∷ _ ↦ none
    ]
  ]
]

-- The chain of at most `steps` jump blocks from `cur` meets a node that dominates the branch.
unfoldable pub chases_back : FunctionCfg → Graph → BitSet → ℕ → ℕ → Bool
chases_back cfg g dom zero cur = false
chases_back cfg g dom (suc steps) cur = elim (lookup cur g.idx_of) [
  | none ↦ false
  | some i ↦ if test dom i then true else (elim (jump_block_dst cfg cur) [
    | none ↦ false
    | some dst ↦ chases_back cfg g dom steps dst
  ])
]

unfoldable pub any_chases_back : FunctionCfg → Graph → BitSet → List ℕ → Bool
unfolding chases_back
any_chases_back cfg g dom [] = false
any_chases_back cfg g dom (s ∷ ss) = chases_back cfg g dom 8 s || any_chases_back cfg g dom ss

module _ (inside : ℕ → Bool) where
  -- Every node of the list is inside.
  unfoldable pub all_inside : List ℕ → Bool
  all_inside [] = true
  all_inside (i ∷ is) = inside i && all_inside is

  -- From every node of the region all its neighbours are inside.
  unfoldable pub region_closed : BitSet → (ℕ → List ℕ) → List ℕ → Bool
  unfolding all_inside
  region_closed region next [] = true
  region_closed region next (i ∷ is) =
      (not (test region i) || all_inside (next i)) && region_closed region next is

-- No edge leaves the region but to the join block.
unfoldable pub no_side_exit : Graph → BitSet → ℕ → Bool
unfolding region_closed
no_side_exit g region join_i =
    region_closed (λ s. s == join_i || test region s) region (succ_indices g)
      (indices 0 (length g.nodes))

-- No edge enters the region but from the branch's block.
unfoldable pub single_entry : Graph → BitSet → ℕ → Bool
unfolding region_closed
single_entry g region vbranch_block =
    region_closed (λ p. p == vbranch_block || test region (node_index g p)) region
      (λ i. get_or g.preds i []) (indices 0 (length g.nodes))
