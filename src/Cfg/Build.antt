-- ===== src/Cfg/Build.antt =====
-- `build_function_cfg`. A block is first a span of the instruction list; `flush_block` then makes
-- the block and its entries in the map from it.
use ventus_gpgpu_sbt_simulat.Prelude.{
  ℕ, ◌+◌, Bool, ◌&&◌, ◌||◌, none, some, List, [], ◌∷◌, ◌++◌, map, str_eq, if◌then◌else◌,
}
use ventus_gpgpu_sbt_simulat.Prelude.Result.{Result, ok, err, ◌>>=◌}
use ventus_gpgpu_sbt_simulat.Words.{u32}
use ventus_gpgpu_sbt_simulat.Decode.Types.{DecodedInst}
use ventus_gpgpu_sbt_simulat.Cfg.Types.{
  EdgeKind, Edge, BundleInst, BasicBlock, PcMap, FunctionCfg, lookup, insert, has,
}
use ventus_gpgpu_sbt_simulat.Cfg.Classify.{CfInfo, classify, is_indirect_jalr, in_range}

pub data CfgError : Type 0 where
  empty_function pc_out_of_range duplicate_pc no_dst_block : CfgError
  missing_target : ℕ → CfgError

unfoldable pub to_bundle : DecodedInst → BundleInst
to_bundle di = record {
  pc = if di.had_regext then di.regext.pc else di.pc;
  inst_pc = di.pc;
  len = if di.had_regext then 8 else 4;
  inst = di;
}

-- The instruction behind a terminator is a leader.
unfoldable pub leader_next : CfInfo → List BundleInst → List ℕ
leader_next ci [] = []
leader_next ci (next ∷ rest) = if ci.is_terminator then next.pc ∷ [] else []

module _ (lo hi : ℕ) where
  -- The loop that fills `inst_index_by_pc`.
  unfoldable pub index_insts : ℕ → List BundleInst → PcMap → Result CfgError PcMap
  index_insts i [] m = ok m
  index_insts i (bi ∷ rest) m =
      if in_range bi.pc lo hi
      then (elim (lookup bi.pc m) [
        | some _ ↦ err duplicate_pc
        | none ↦ index_insts (i + 1) rest (m ++ (bi.pc, i) ∷ [])
      ])
      else err pc_out_of_range

  -- The leaders that one instruction adds to the set, with the instructions that follow it.
  unfoldable pub leader_targets : PcMap → CfInfo → Result CfgError (List ℕ)
  leader_targets m ci =
      if (ci.is_branch || ci.is_jump) && in_range ci.target lo hi
      then (elim (lookup ci.target m) [
        | none ↦ err (missing_target ci.target)
        | some _ ↦ ok (ci.target ∷ [])
      ])
      else ok []

  -- The loop that collects the leaders.
  unfoldable pub collect_leaders : PcMap → List BundleInst → Result CfgError (List ℕ)
  collect_leaders m [] = ok []
  collect_leaders m (bi ∷ rest) = do
    targets ← leader_targets m (classify bi)
    others ← collect_leaders m rest
    ok (
        (if str_eq bi.inst.name "join" then bi.pc ∷ [] else [])
        ++ (targets ++ (leader_next (classify bi) rest ++ others)))

-- The instructions of one block with their indices: the first, and those behind it.
abbrev pub IndexedInst : Type 0
IndexedInst = ℕ × BundleInst

pub record Span : Type 0 where
  pub first : IndexedInst
  pub others : List IndexedInst

module _ (leaders : List ℕ) where
  -- The test that ends the inner loop between an instruction and the next.
  unfoldable pub ends_between : BundleInst → BundleInst → Bool
  ends_between prev next = (classify prev).is_terminator || has next.pc leaders

  -- What is left of the block that `prev` is in, and the blocks behind it.
  unfoldable pub split : ℕ → BundleInst → List BundleInst → List IndexedInst × List Span
  split i prev [] = ([], [])
  split i prev (bi ∷ rest) =
      let (cur, more) = split (i + 1) bi rest in
      if ends_between prev bi
      then ([], record { first = (i, bi); others = cur } ∷ more)
      else ((i, bi) ∷ cur, more)

  -- The `while` loop over the instructions.
  unfoldable pub spans : List BundleInst → List Span
  spans [] = []
  spans (bi ∷ rest) =
      let (cur, more) = split 1 bi rest in record { first = (0, bi); others = cur } ∷ more

abbrev pub span_insts : Span → List IndexedInst
span_insts s = s.first ∷ s.others

abbrev pub span_start : Span → ℕ
span_start s = s.first.1.pc

-- `insts[inst_indices.back()]`
unfoldable pub last_inst : IndexedInst → List IndexedInst → BundleInst
last_inst x [] = x.1
last_inst x (y ∷ ys) = last_inst y ys

unfoldable pub map_insts : ℕ → List IndexedInst → PcMap → PcMap
map_insts start [] m = m
map_insts start ((k, bi) ∷ rest) m = map_insts start rest (insert bi.pc start m)

-- The entries of `inst_pc_to_block` that the calls of `flush_block` make.
unfoldable pub map_spans : List Span → PcMap → PcMap
map_spans [] m = m
map_spans (s ∷ ss) m = map_spans ss (map_insts (span_start s) (span_insts s) m)

-- The block that `flush_block` pushes.
unfoldable pub flush_block : Span → BasicBlock
flush_block s = record {
  start = span_start s;
  inst_indices = map (λ (x : IndexedInst). x.0) (span_insts s);
  succs = [];
}

module _ (lo hi : ℕ) (to_block : PcMap) (start : ℕ) where
  -- `add_edge`: nothing for a destination outside the function.
  unfoldable pub add_edge : ℕ → EdgeKind → Result CfgError (List Edge)
  add_edge dst_pc kind =
      if in_range dst_pc lo hi
      then (elim (lookup dst_pc to_block) [
        | none ↦ err no_dst_block
        | some dst ↦ ok (record { src = start; dst = dst; kind = kind } ∷ [])
      ])
      else ok []

  -- The successors of a block that ends in `last`.
  unfoldable pub block_edges : BundleInst → Result CfgError (List Edge)
  unfolding add_edge
  block_edges last =
      let ci = classify last in
      let next = u32 (last.inst_pc + 4) in
      if ci.is_branch
      then (do
        taken ← add_edge ci.target EdgeKind.branch
        falls ← add_edge next EdgeKind.fallthrough
        ok (taken ++ falls))
      else if ci.is_jump
      then add_edge ci.target EdgeKind.jump
      else if ci.is_return || str_eq last.inst.name "endprg" || is_indirect_jalr last.inst
      then ok []
      else add_edge next EdgeKind.fallthrough

-- The loop over the blocks that adds the edges.
unfoldable pub connect : ℕ → ℕ → PcMap → List Span → Result CfgError (List BasicBlock)
connect lo hi m [] = ok []
connect lo hi m (s ∷ ss) = do
  succs ← block_edges lo hi m (span_start s) (last_inst s.first s.others)
  rest ← connect lo hi m ss
  ok (record (flush_block s) { succs = succs } ∷ rest)

unfoldable pub index_blocks : ℕ → List Span → PcMap → PcMap
index_blocks i [] m = m
index_blocks i (s ∷ ss) m = index_blocks (i + 1) ss (insert (span_start s) i m)

-- The function from its bundles on, the first of which is known.
unfoldable pub build_bundles : BundleInst → List BundleInst → ℕ → ℕ → Result CfgError FunctionCfg
build_bundles b0 rest lo hi = do
  index ← index_insts lo hi 0 (b0 ∷ rest) []
  found ← collect_leaders lo hi index (b0 ∷ rest)
  let ss = spans (b0.pc ∷ lo ∷ found) (b0 ∷ rest)
  let to_block = map_spans ss []
  blocks ← connect lo hi to_block ss
  ok (record {
    start = lo;
    end_pc = hi;
    insts = b0 ∷ rest;
    blocks = blocks;
    inst_index_by_pc = index;
    inst_pc_to_block = to_block;
    block_index_by_start = index_blocks 0 ss [];
  })

unfoldable pub build_function_cfg : List DecodedInst → ℕ → ℕ → Result CfgError FunctionCfg
build_function_cfg [] func_start func_end_excl = err empty_function
build_function_cfg (d ∷ ds) func_start func_end_excl =
    build_bundles (to_bundle d) (map to_bundle ds) func_start func_end_excl
