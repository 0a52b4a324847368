-- ===== src/Cfg/WellFormed.antt =====
-- The well-formedness of the graph that `build_function_cfg` returns.
use mathlib.Core.Path.{subst}
use ventus_gpgpu_sbt_simulat.Prelude.{
  ℕ, ◌+◌, ◌≡◌, refl, ◌∙◌, sym, ap, arith, true, List, [], ◌∷◌, map, All, All-imp, All-In, In, ◌⊎◌,
  inl, inr, some, get_elem?,
}
use ventus_gpgpu_sbt_simulat.Prelude.Result.{ok}
use ventus_gpgpu_sbt_simulat.Words.{u32}
use ventus_gpgpu_sbt_simulat.Decode.Types.{DecodedInst}
use ventus_gpgpu_sbt_simulat.Cfg.Types.{
  EdgeKind, Edge, BundleInst, BasicBlock, PcMap, FunctionCfg, lookup, has,
}
use ventus_gpgpu_sbt_simulat.Cfg.Classify.{classify}
use ventus_gpgpu_sbt_simulat.Cfg.Build.{
  IndexedInst, Span, span_insts, span_start, spans, last_inst, map_spans, build_function_cfg,
  to_bundle, index_blocks,
}
use ventus_gpgpu_sbt_simulat.Cfg.Maps.{lookup-map_spans, find_block-In}
use ventus_gpgpu_sbt_simulat.Cfg.Spans.{enumerate, spans-flat, spans-IsBlock, find_block-leader}
use ventus_gpgpu_sbt_simulat.Cfg.Edges.{
  Built, build_bundles-Built, FromSpan, FromSpans, connect-FromSpans, FromSpans-indices,
  all_indices, range_from, enumerate-range,
}
use ventus_gpgpu_sbt_simulat.Cfg.Graph.{LeavesBy, block_edges-LeavesBy}
use ventus_gpgpu_sbt_simulat.Cfg.Fetched.{
  last?, Fetched, last-span, last-All, enumerate-Fetched, InSpan, flat-InSpan, enumerate-All, both,
}
use ventus_gpgpu_sbt_simulat.Cfg.Held.{In-map, has-pcs, find_block-span, FromSpans-In}
use ventus_gpgpu_sbt_simulat.Cfg.Correct.{HasTarget, collect_leaders-HasTarget}

abbrev pub starts : List BasicBlock → List ℕ
starts [] = []
starts (b ∷ bs) = b.start ∷ starts bs

module _ (cfg : FunctionCfg) where
  -- The last instruction of a block.
  abbrev pub LastOf : BasicBlock → BundleInst → Type 0
  LastOf b last = (k : ℕ) × (last? b.inst_indices ≡ some k) × (get_elem? cfg.insts k ≡ some last)

  -- The block that starts at `start` has an instruction at `pc`.
  abbrev pub HoldsAt : ℕ → ℕ → Type 0
  HoldsAt pc start =
      (b : BasicBlock) × In b cfg.blocks
      × (b.start ≡ start)
      × ((k : ℕ) × (bi : BundleInst) × In k b.inst_indices
          × (get_elem? cfg.insts k ≡ some bi)
          × (bi.pc ≡ pc))

  -- Where an edge of kind `k` to `d` comes from: a taken branch or a jump goes to its target
  -- itself, a fallthrough to the block that holds the next word.
  abbrev pub GoesTo : BundleInst → Edge → Type 0
  GoesTo last e =
      (((classify last).is_branch ≡ true)
        × (e.kind ≡ EdgeKind.branch)
        × (e.dst ≡ (classify last).target))
      ⊎ ((((classify last).is_jump ≡ true)
            × (e.kind ≡ EdgeKind.jump)
            × (e.dst ≡ (classify last).target))
          ⊎ ((e.kind ≡ EdgeKind.fallthrough) × HoldsAt (u32 (last.inst_pc + 4)) e.dst))

  pub record IsEdge (b : BasicBlock) (e : Edge) : Type 0 where
    pub own_source : e.src ≡ b.start
    pub into_block : In e.dst (starts cfg.blocks)
    pub last : BundleInst
    pub is_last : LastOf b last
    pub goes : GoesTo last e

  pub record IsGraph : Type 0 where
    pub partition : all_indices cfg.blocks ≡ range_from 0 cfg.insts
    pub edges : All (λ b. All (IsEdge b) b.succs) cfg.blocks
    pub placed : (pc d : ℕ) → lookup pc cfg.inst_pc_to_block ≡ some d → HoldsAt pc d

FromSpans-starts :
    (lo hi : ℕ) (m : PcMap) (ss : List Span) (bs : List BasicBlock)
    → FromSpans lo hi m ss bs
    → starts bs ≡ map span_start ss
FromSpans-starts lo hi m [] [] h = refl
FromSpans-starts lo hi m [] (b ∷ bs) h = absurd h
FromSpans-starts lo hi m (s ∷ ss) [] h = absurd h
FromSpans-starts lo hi m (s ∷ ss) (b ∷ bs) h = rw (h.0.1, FromSpans-starts lo hi m ss bs h.1)

module _ (b0 : BundleInst) (rest : List BundleInst) (lo hi : ℕ) (cfg : FunctionCfg)
    (built : Built b0 rest lo hi cfg) where
  open built use {index, found, blocks, collected, connected, result}

  insts : List BundleInst
  insts = b0 ∷ rest

  leaders : List ℕ
  leaders = b0.pc ∷ lo ∷ found

  cut : List Span
  unfolding insts leaders
  cut = spans leaders insts

  -- What every instruction of a block has.
  abbrev Facts : IndexedInst → Type 0
  Facts x = Fetched insts x × HasTarget lo hi found x.1

  cut-Facts : All (InSpan Facts) cut
  unfolding cut insts leaders
  cut-Facts = flat-InSpan Facts cut (
      rw (spans-flat leaders insts) (
        both (Fetched insts) (λ x. HasTarget lo hi found x.1) (enumerate 0 insts)
          (enumerate-Fetched insts)
          (enumerate-All (HasTarget lo hi found) 0 insts
            (collect_leaders-HasTarget lo hi index insts found collected))))

  graph : FunctionCfg
  unfolding insts cut
  graph = record {
    start = lo;
    end_pc = hi;
    insts = insts;
    blocks = blocks;
    inst_index_by_pc = index;
    inst_pc_to_block = map_spans cut [];
    block_index_by_start = index_blocks 0 cut [];
  }

  blocks-FromSpans : FromSpans lo hi (map_spans cut []) cut blocks
  unfolding cut insts leaders
  blocks-FromSpans = connect-FromSpans lo hi (map_spans cut []) cut blocks connected

  -- A destination is the start of a block, and a target that is a leader is that start.
  found-In : (pc d : ℕ) → lookup pc (map_spans cut []) ≡ some d → In d (starts blocks)
  found-In pc d h =
      rw (FromSpans-starts lo hi (map_spans cut []) cut blocks blocks-FromSpans)
        (find_block-In pc d cut (sym (lookup-map_spans pc cut) ∙ h))

  found-target : (pc d : ℕ) → has pc found ≡ true → lookup pc (map_spans cut []) ≡ some d → d ≡ pc
  unfolding cut leaders has
  found-target pc d l h =
      find_block-leader leaders pc d cut (ground arith) (spans-IsBlock leaders insts)
        (sym (lookup-map_spans pc cut) ∙ h)

  found-HoldsAt : (pc d : ℕ) → lookup pc (map_spans cut []) ≡ some d → HoldsAt graph pc d
  unfolding graph
  found-HoldsAt pc d h =
      let (s, in_cut, at_start, held) =
        find_block-span pc d cut (sym (lookup-map_spans pc cut) ∙ h) in
      let (b, in_blocks, from) =
        FromSpans-In lo hi (map_spans cut []) s cut blocks blocks-FromSpans in_cut in
      let (x, in_span, at_pc) = has-pcs pc (span_insts s) held in
      let facts = All-In (InSpan Facts) cut cut-Facts in_cut in
      let fetched = All-In Facts (span_insts s) facts in_span in
      (
        b,
        in_blocks,
        from.1 ∙ at_start,
        (
          x.0,
          x.1,
          rw from.2 (In-map (λ (y : IndexedInst). y.0) x (span_insts s) in_span),
          fetched.0,
          at_pc,
        ),
      )

  span-IsEdge :
      (s : Span) (b : BasicBlock) (e : Edge)
      → FromSpan lo hi (map_spans cut []) s b
      → InSpan Facts s
      → LeavesBy lo hi (map_spans cut []) (span_start s) (last_inst s.first s.others) e
      → IsEdge graph b e
  unfolding graph
  span-IsEdge s b e from facts leaves =
      let last = last_inst s.first s.others in
      let target =
        last-All (HasTarget lo hi found) s.first s.others facts.0.1
          (All-imp Facts (λ x. HasTarget lo hi found x.1) (λ x f. f.1) s.others facts.1) in
      let (k, at_end, there) =
        last-span insts s.first s.others facts.0.0
          (All-imp Facts (Fetched insts) (λ x f. f.0) s.others facts.1) in
      let place : e.src ≡ span_start s
          → (pc : ℕ) → lookup pc (map_spans cut []) ≡ some e.dst
          → GoesTo graph last e
          → IsEdge graph b e =
        λ src pc h g. record {
          own_source = src ∙ sym from.1;
          into_block = found-In pc e.dst h;
          last = last;
          is_last = (k, rw from.2 at_end, there);
          goes = g;
        } in
      elim leaves [
        | inl (branch, (src, kind, within, h)) ↦
            place src (classify last).target h
              (inl (branch, kind, found-target _ e.dst (target (ground arith) within) h))
        | inr (inl (jump, (src, kind, within, h))) ↦
            place src (classify last).target h
              (inr (inl (jump, kind, found-target _ e.dst (target (ground arith) within) h)))
        | inr (inr (src, kind, within, h)) ↦
            place src (u32 (last.inst_pc + 4)) h (inr (inr (kind, found-HoldsAt _ e.dst h)))
      ]

  connected-IsEdge :
      (ss : List Span) (bs : List BasicBlock)
      → FromSpans lo hi (map_spans cut []) ss bs
      → All (InSpan Facts) ss
      → All (λ b. All (IsEdge graph b) b.succs) bs
  connected-IsEdge [] [] f a = tt
  connected-IsEdge [] (b ∷ bs) f a = absurd f
  connected-IsEdge (s ∷ ss) [] f a = absurd f
  connected-IsEdge (s ∷ ss) (b ∷ bs) f a = (
    All-imp _ (IsEdge graph b) (λ e leaves. span-IsEdge s b e f.0 a.0 leaves) b.succs
        (block_edges-LeavesBy lo hi (map_spans cut []) (span_start s) (last_inst s.first s.others)
          b.succs f.0.0),
    connected-IsEdge ss bs f.1 a.1,
  )

  graph-IsGraph : IsGraph graph
  unfolding graph
  graph-IsGraph = record {
    partition =
        FromSpans-indices lo hi (map_spans cut []) cut blocks blocks-FromSpans
        ∙ ap (map (λ (x : IndexedInst). x.0)) (unfold cut insts leaders in spans-flat leaders insts)
        ∙ enumerate-range 0 insts;
    edges = connected-IsEdge cut blocks blocks-FromSpans cut-Facts;
    placed = found-HoldsAt;
  }

  cfg-IsGraph : IsGraph cfg
  unfolding graph insts cut leaders
  cfg-IsGraph = subst IsGraph (sym result) graph-IsGraph

-- When build_function_cfg returns, the blocks hold every instruction once and in order; each edge
-- starts at its own block and ends at the start of a block; a taken branch or a jump goes to the
-- block that starts at its target, a fallthrough to a block that has an instruction at the word
-- behind the last one, and inst_pc_to_block sends a pc only to a block that has an instruction at
-- it.
pub build_function_cfg-IsGraph :
    (ds : List DecodedInst) (lo hi : ℕ) (cfg : FunctionCfg)
    → build_function_cfg ds lo hi ≡ ok cfg
    → IsGraph cfg
unfolding build_function_cfg
build_function_cfg-IsGraph [] lo hi cfg h = absurd (cc)
build_function_cfg-IsGraph (d ∷ ds) lo hi cfg h =
    cfg-IsGraph (to_bundle d) (map to_bundle ds) lo hi cfg
      (build_bundles-Built (to_bundle d) (map to_bundle ds) lo hi cfg h)
