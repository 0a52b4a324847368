-- ===== src/Verify/Graph.antt =====
-- The graph of the blocks that the analyses run on. An unordered set is a list without repetition,
-- in the order of insertion.
pub mod Indexed
use ventus_gpgpu_sbt_simulat.Prelude.{
  ℕ, ◌+◌, Bool, true, false, Option, none, some, List, [], ◌∷◌, ◌++◌, map, length, leb, get_or, set,
  replicate, if◌then◌else◌,
}
use ventus_gpgpu_sbt_simulat.Cfg.Types.{Edge, BasicBlock, FunctionCfg, PcMap, lookup, insert, has}

pub record Graph : Type 0 where
  pub nodes : List ℕ
  pub idx_of : PcMap
  pub succs : List (List ℕ)
  pub preds : List (List ℕ)

-- `std::sort` of the block starts.
unfoldable pub insert_pc : ℕ → List ℕ → List ℕ
insert_pc p [] = p ∷ []
insert_pc p (q ∷ qs) = elim (leb p q) [ true ↦ p ∷ q ∷ qs | false ↦ q ∷ insert_pc p qs ]

unfoldable pub sort_pcs : List ℕ → List ℕ
unfolding insert_pc
sort_pcs [] = []
sort_pcs (p ∷ ps) = insert_pc p (sort_pcs ps)

unfoldable pub index_nodes : ℕ → List ℕ → PcMap → PcMap
index_nodes i [] m = m
index_nodes i (p ∷ ps) m = index_nodes (i + 1) ps (insert p i m)

-- `insert` of a set.
abbrev pub add_pc : ℕ → List ℕ → List ℕ
add_pc p ps = if has p ps then ps else ps ++ p ∷ []

-- `sets[i].insert(p)`
abbrev pub add_at : ℕ → ℕ → List (List ℕ) → List (List ℕ)
add_at i p sets = set sets i (add_pc p (get_or sets i []))

-- An edge of the block at index `si`, if its destination is a node.
unfoldable pub link : ℕ → ℕ → Edge → Graph → Graph
link si start e g = elim (lookup e.dst g.idx_of) [
  | none ↦ g
  | some di ↦ record g { succs = add_at si e.dst g.succs; preds = add_at di start g.preds }
]

-- The inner loop over the edges of the block at index `si`.
unfoldable pub add_edges : ℕ → ℕ → List Edge → Graph → Graph
unfolding link
add_edges si start [] g = g
add_edges si start (e ∷ es) g = add_edges si start es (link si start e g)

-- The index of a pc. The `at` of the source throws on a pc without one; every pc that the analyses
-- ask for has one, and an absent one reads the number of nodes here.
abbrev pub node_index : Graph → ℕ → ℕ
node_index g p = elim (lookup p g.idx_of) [ some i ↦ i | none ↦ length g.nodes ]

unfoldable pub add_blocks : List BasicBlock → Graph → Graph
unfolding add_edges
add_blocks [] g = g
add_blocks (bb ∷ bbs) g = add_blocks bbs (add_edges (node_index g bb.start) bb.start bb.succs g)

unfoldable pub build_graph : FunctionCfg → Graph
unfolding sort_pcs index_nodes add_blocks
build_graph cfg =
    let nodes = sort_pcs (map (λ (b : BasicBlock). b.start) cfg.blocks) in
    add_blocks cfg.blocks (record {
      nodes = nodes;
      idx_of = index_nodes 0 nodes [];
      succs = replicate (length nodes) [];
      preds = replicate (length nodes) [];
    })

-- The successors and predecessors of a node by index.
abbrev pub succ_indices : Graph → ℕ → List ℕ
succ_indices g i = map (node_index g) (get_or g.succs i [])

abbrev pub pred_indices : Graph → ℕ → List ℕ
pred_indices g i = map (node_index g) (get_or g.preds i [])
