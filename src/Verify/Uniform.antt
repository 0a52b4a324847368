-- ===== src/Verify/Uniform.antt =====
-- `compute_vreg_uniform_must`: which vector registers are uniform at the blocks' ends.
use ventus_gpgpu_sbt_simulat.Prelude.{
  ℕ, suc, Bool, true, false, not, ◌&&◌, ◌||◌, Option, none, some, List, [], ◌∷◌, length, get_or,
  set, get_elem?, replicate, ◌==◌, if◌then◌else◌,
}
use ventus_gpgpu_sbt_simulat.Cfg.Types.{BundleInst, BasicBlock, FunctionCfg, lookup}
use ventus_gpgpu_sbt_simulat.Verify.VReg.{
  VRegSet, no_vregs, all_vregs, intersect_vregs, same_vregs, transfer_vreg_uniform,
}
use ventus_gpgpu_sbt_simulat.Verify.Graph.{Graph, pred_indices}
use ventus_gpgpu_sbt_simulat.Verify.Fixpoint.{iterate, indices}
use ventus_gpgpu_sbt_simulat.Verify.Worklist.{compute_reachable}

pub record UniformState : Type 0 where
  pub in_sets : List VRegSet
  pub out_sets : List VRegSet

-- The instructions at the indices, through the transfer.
unfoldable pub transfer_insts : List BundleInst → List ℕ → VRegSet → VRegSet
transfer_insts insts [] st = st
transfer_insts insts (k ∷ ks) st =
    transfer_insts insts ks
      (elim (get_elem? insts k) [ none ↦ st | some bi ↦ transfer_vreg_uniform st bi ])

-- The block that starts at a pc.
abbrev pub block_at : FunctionCfg → ℕ → Option BasicBlock
block_at cfg start = elim (lookup start cfg.block_index_by_start) [
  | none ↦ none
  | some i ↦ get_elem? cfg.blocks i
]

unfoldable pub transfer_block : FunctionCfg → ℕ → VRegSet → VRegSet
unfolding transfer_insts
transfer_block cfg block_start st = elim (block_at cfg block_start) [
  | none ↦ st
  | some bb ↦ transfer_insts cfg.insts bb.inst_indices st
]

module _ (reachable : List Bool) (outs : List VRegSet) where
  -- The meet over the reachable predecessors; `none` while none was met.
  unfoldable pub meet_preds : List ℕ → Option VRegSet → Option VRegSet
  meet_preds [] acc = acc
  meet_preds (p ∷ ps) acc =
      let out = get_or outs p no_vregs in
      meet_preds ps (
        if get_or reachable p false
        then elim acc [ none ↦ some out | some a ↦ some (intersect_vregs a out) ]
        else acc)

module _ (cfg : FunctionCfg) (g : Graph) (entry_i : ℕ) (reachable : List Bool) where
  unfoldable pub new_in : UniformState → ℕ → VRegSet
  unfolding meet_preds
  new_in d i =
      if i == entry_i
      then no_vregs
      else elim (meet_preds reachable d.out_sets (pred_indices g i) none) [
        | none ↦ no_vregs
        | some acc ↦ acc
      ]

  unfoldable pub new_out : UniformState → ℕ → VRegSet
  unfolding new_in transfer_block
  new_out d i = transfer_block cfg (get_or g.nodes i 0) (new_in d i)

  unfoldable pub uniform_sweep : List ℕ → UniformState → Bool → UniformState × Bool
  unfolding new_in new_out
  uniform_sweep [] d changed = (d, changed)
  uniform_sweep (i ∷ is) d changed =
      let i_in = new_in d i in
      let i_out = new_out d i in
      let same =
        same_vregs i_in (get_or d.in_sets i no_vregs)
        && same_vregs i_out (get_or d.out_sets i no_vregs) in
      let keep = not (get_or reachable i false) || same in
      uniform_sweep is
        (if keep
          then d
          else record { in_sets = set d.in_sets i i_in; out_sets = set d.out_sets i i_out })
        (if keep then changed else true)

  -- The sets before the first sweep.
  unfoldable pub uniform_start : List Bool → ℕ → List VRegSet
  uniform_start [] i = []
  uniform_start (r ∷ rs) i =
      (if not r || i == entry_i then no_vregs else all_vregs) ∷ uniform_start rs (suc i)

pub record VRegUniformData : Type 0 where
  pub sets : UniformState
  pub reachable : List Bool

unfoldable pub compute_vreg_uniform_must : ℕ → FunctionCfg → Graph → ℕ → Option VRegUniformData
unfolding uniform_sweep uniform_start iterate
compute_vreg_uniform_must fuel cfg g entry =
    let n = length g.nodes in
    let blank = replicate n no_vregs in
    elim (compute_reachable g entry) [
      | none ↦ none
      | some reachable ↦ elim (lookup entry g.idx_of) [
        | none ↦
            some (record {
              sets = record { in_sets = blank; out_sets = blank };
              reachable = reachable;
            })
        | some entry_i ↦
            let start = uniform_start cfg g entry_i reachable reachable 0 in
            elim (iterate fuel (λ d. uniform_sweep cfg g entry_i reachable (indices 0 n) d false)
              (record { in_sets = start; out_sets = start })) [
                | none ↦ none
                | some d ↦ some (record { sets = d; reachable = reachable })
              ]
      ]
    ]
