-- ===== src/Cfg/Edges.antt =====
-- The finished graph: its blocks partition the instructions, and its edges go where the last
-- instruction of a block sends control.
use ventus_gpgpu_sbt_simulat.Prelude.{ℕ, ◌+◌, ◌≡◌, refl, sym, ap, List, [], ◌∷◌, ◌++◌, map}
use mathlib.Core.Path.{subst}
use mathlib.Core.List.{map-append}
use ventus_gpgpu_sbt_simulat.Prelude.Result.{Result, ok, >>=-eq-ok}
use ventus_gpgpu_sbt_simulat.Cfg.Types.{BundleInst, BasicBlock, PcMap, FunctionCfg}
use ventus_gpgpu_sbt_simulat.Cfg.Build.{
  IndexedInst, Span, span_insts, span_start, spans, last_inst, map_spans, flush_block, block_edges,
  connect, index_insts, index_blocks, collect_leaders, build_bundles,
}
use ventus_gpgpu_sbt_simulat.Cfg.Spans.{enumerate, flat}

pub ok_injective : {E A : Type 0} {a b : A} → ◌≡◌ {A = Result E A} (ok a) (ok b) → a ≡ b
ok_injective h = cc

-- The parts that a successful build went through.
pub record Built (b0 : BundleInst) (rest : List BundleInst) (lo hi : ℕ) (cfg : FunctionCfg)
    : Type 0 where
  pub index : PcMap
  pub found : List ℕ
  pub blocks : List BasicBlock
  pub indexed : index_insts lo hi 0 (b0 ∷ rest) [] ≡ ok index
  pub collected : collect_leaders lo hi index (b0 ∷ rest) ≡ ok found
  pub connected :
      let ss = spans (b0.pc ∷ lo ∷ found) (b0 ∷ rest) in
      connect lo hi (map_spans ss []) ss ≡ ok blocks
  pub result :
      let ss = spans (b0.pc ∷ lo ∷ found) (b0 ∷ rest) in
      cfg ≡ record {
        start = lo;
        end_pc = hi;
        insts = b0 ∷ rest;
        blocks = blocks;
        inst_index_by_pc = index;
        inst_pc_to_block = map_spans ss [];
        block_index_by_start = index_blocks 0 ss [];
      }

pub build_bundles-Built :
    (b0 : BundleInst) (rest : List BundleInst) (lo hi : ℕ) (cfg : FunctionCfg)
    → build_bundles b0 rest lo hi ≡ ok cfg
    → Built b0 rest lo hi cfg
unfolding build_bundles
build_bundles-Built b0 rest lo hi cfg h =
    let (index, indexed, h1) = >>=-eq-ok (index_insts lo hi 0 (b0 ∷ rest) []) _ h in
    let (found, collected, h2) = >>=-eq-ok (collect_leaders lo hi index (b0 ∷ rest)) _ h1 in
    let ss = spans (b0.pc ∷ lo ∷ found) (b0 ∷ rest) in
    let (blocks, connected, h3) = >>=-eq-ok (connect lo hi (map_spans ss []) ss) _ h2 in
    record {
      index = index;
      found = found;
      blocks = blocks;
      indexed = indexed;
      collected = collected;
      connected = connected;
      result = cc;
    }

module _ (lo hi : ℕ) (m : PcMap) where
  -- Block by block, what `connect` makes of a span.
  abbrev pub FromSpan : Span → BasicBlock → Type 0
  FromSpan s b =
      (block_edges lo hi m (span_start s) (last_inst s.first s.others) ≡ ok b.succs)
      × (b.start ≡ span_start s)
      × (b.inst_indices ≡ map (λ (x : IndexedInst). x.0) (span_insts s))

  abbrev pub FromSpans : List Span → List BasicBlock → Type 0
  FromSpans [] [] = Unit
  FromSpans (s ∷ ss) (b ∷ bs) = FromSpan s b × FromSpans ss bs
  FromSpans _ _ = ⊥

  pub connect-FromSpans :
      (ss : List Span) (bs : List BasicBlock) → connect lo hi m ss ≡ ok bs → FromSpans ss bs
  unfolding connect flush_block
  connect-FromSpans [] [] h = tt
  connect-FromSpans [] (b ∷ bs) h = absurd (cc)
  connect-FromSpans (s ∷ ss) bs h =
      let (es, edges, h1) =
        >>=-eq-ok (block_edges lo hi m (span_start s) (last_inst s.first s.others)) _ h in
      let (rest, later, h2) = >>=-eq-ok (connect lo hi m ss) _ h1 in
      subst (FromSpans (s ∷ ss)) (ok_injective h2)
        ((edges, refl, refl), connect-FromSpans ss rest later)

-- The indices of all blocks, in order, and those of all instructions.
abbrev pub all_indices : List BasicBlock → List ℕ
all_indices [] = []
all_indices (b ∷ bs) = b.inst_indices ++ all_indices bs

abbrev pub range_from {ℓ} : {A : Type ℓ} → ℕ → List A → List ℕ
range_from i [] = []
range_from i (x ∷ xs) = i ∷ range_from (i + 1) xs

pub enumerate-range :
    (i : ℕ) (insts : List BundleInst)
    → map (λ (x : IndexedInst). x.0) (enumerate i insts) ≡ range_from i insts
enumerate-range i [] = refl
enumerate-range i (bi ∷ rest) = ap (◌∷◌ i) (enumerate-range (i + 1) rest)

pub FromSpans-indices :
    (lo hi : ℕ) (m : PcMap) (ss : List Span) (bs : List BasicBlock)
    → FromSpans lo hi m ss bs
    → all_indices bs ≡ map (λ (x : IndexedInst). x.0) (flat ss)
FromSpans-indices lo hi m [] [] h = refl
FromSpans-indices lo hi m [] (b ∷ bs) h = absurd h
FromSpans-indices lo hi m (s ∷ ss) [] h = absurd h
FromSpans-indices lo hi m (s ∷ ss) (b ∷ bs) h =
    rw (h.0.2, FromSpans-indices lo hi m ss bs h.1)
      (ap (◌∷◌ s.first.0) (sym (map-append (λ (x : IndexedInst). x.0) s.others (flat ss))))
