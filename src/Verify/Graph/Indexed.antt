-- ===== src/Verify/Graph/Indexed.antt =====
-- Why the lookups with `at` in sbt/cfg_verify.cpp never miss: what a row of the graph names is a node.
use ventus_gpgpu_sbt_simulat.Prelude.{
  ℕ, zero, suc, inl, inr, ◌+◌, ◌<◌, ◌≡◌, refl, arith, some, List, [], ◌∷◌, map, length, get_or, set,
  replicate, All, All-append, Bool-cases, Option-cases,
}
use ventus_gpgpu_sbt_simulat.Cfg.Types.{Edge, BasicBlock, FunctionCfg, PcMap, lookup, insert, has}
use ventus_gpgpu_sbt_simulat.Cfg.Maps.{lookup-insert}
use ventus_gpgpu_sbt_simulat.Verify.Graph.{
  Graph, sort_pcs, index_nodes, add_pc, add_edges, link, node_index, add_blocks, build_graph,
  succ_indices,
}

-- Every successor has an index in the graph.
abbrev pub IsIndexed : Graph → Type 0
IsIndexed g = (c : ℕ) → All (λ s. s < length g.nodes) (succ_indices g c)

map-All : (P : ℕ → Type 0) (f : ℕ → ℕ) (ps : List ℕ) → All (λ p. P (f p)) ps → All P (map f ps)
map-All P f [] a = _
map-All P f (p ∷ ps) a = (a.0, map-All P f ps a.1)

-- The map's indices are below `n`.
abbrev Below : ℕ → PcMap → Type 0
Below n m = (p i : ℕ) → lookup p m ≡ some i → i < n

-- The rows hold pcs with an index only.
abbrev Rows : Graph → List (List ℕ) → Type 0
Rows g rows = (c : ℕ) → All (λ p. node_index g p < length g.nodes) (get_or rows c [])

insert-Below : (n k : ℕ) (m : PcMap) → Below n m → Below (n + 1) (insert k n m)
insert-Below n k m b p i h = ground (arith, lookup-insert k p n m, b p i)

index_nodes-Below :
    (i : ℕ) (ps : List ℕ) (m : PcMap) → Below i m → Below (i + length ps) (index_nodes i ps m)
unfolding index_nodes
index_nodes-Below i [] m b p k h = omega (arith, b p k h)
index_nodes-Below i (p ∷ ps) m b q k h =
    omega (arith, index_nodes-Below (i + 1) ps (insert p i m) (insert-Below i p m b) q k h)

set-All :
    (P : ℕ → Type 0) (i : ℕ) (row : List ℕ) (rows : List (List ℕ))
    → ((c : ℕ) → All P (get_or rows c []))
    → All P row
    → (c : ℕ) → All P (get_or (set rows i row) c [])
set-All P i row [] h a c = h c
set-All P zero row (r ∷ rows) h a zero = a
set-All P zero row (r ∷ rows) h a (suc c) = h (suc c)
set-All P (suc i) row (r ∷ rows) h a zero = h 0
set-All P (suc i) row (r ∷ rows) h a (suc c) = set-All P i row rows (λ d. h (suc d)) a c

add_pc-All : (P : ℕ → Type 0) (p : ℕ) (ps : List ℕ) → All P ps → P p → All P (add_pc p ps)
add_pc-All P p ps a h = elim (Bool-cases (has p ps)) [
  | inl old ↦ rw old a
  | inr new ↦ rw new (All-append P ps (p ∷ []) a (h, _))
]

-- The map's indices and the rows of successors are those of nodes.
record Good (g : Graph) : Type 0 where
  below : Below (length g.nodes) g.idx_of
  rows : Rows g g.succs

link-Good : (si start : ℕ) (e : Edge) (g : Graph) → Good g → Good (link si start e g)
unfolding link
link-Good si start e g k = elim (Option-cases (lookup e.dst g.idx_of)) [
  | inl missing ↦ rw (missing, link) k
  | inr (di, found) ↦
      let known : node_index g e.dst < length g.nodes =
        rw (found, node_index) (k.below e.dst di found) in
      rw (found, link)
        (record {
          below = k.below;
          rows =
              set-All (λ p. node_index g p < length g.nodes) si
                (add_pc e.dst (get_or g.succs si [])) g.succs k.rows
                (add_pc-All (λ p. node_index g p < length g.nodes) e.dst (get_or g.succs si [])
                  (k.rows si) known);
        })
]

add_edges-Good :
    (si start : ℕ) (es : List Edge) (g : Graph) → Good g → Good (add_edges si start es g)
unfolding add_edges
add_edges-Good si start [] g k = k
add_edges-Good si start (e ∷ es) g k =
    add_edges-Good si start es (link si start e g) (link-Good si start e g k)

add_blocks-Good : (bbs : List BasicBlock) (g : Graph) → Good g → Good (add_blocks bbs g)
unfolding add_blocks
add_blocks-Good [] g k = k
add_blocks-Good (bb ∷ bbs) g k =
    let g' = add_edges (node_index g bb.start) bb.start bb.succs g in
    add_blocks-Good bbs g' (add_edges-Good (node_index g bb.start) bb.start bb.succs g k)

get_or-replicate_nil : (n c : ℕ) → get_or {A = List ℕ} (replicate n []) c [] ≡ []
get_or-replicate_nil zero c = refl
get_or-replicate_nil (suc n) zero = refl
get_or-replicate_nil (suc n) (suc c) = get_or-replicate_nil n c

nil-Below : Below 0 []
unfolding lookup
nil-Below p i h = absurd (cc)

build_graph-Good : (cfg : FunctionCfg) → Good (build_graph cfg)
unfolding build_graph
build_graph-Good cfg =
    let nodes = sort_pcs (map (λ (b : BasicBlock). b.start) cfg.blocks) in
    add_blocks-Good cfg.blocks _ (record {
      below = λ p i h. omega (arith, index_nodes-Below 0 nodes [] nil-Below p i h);
      rows = λ c. rw (get_or-replicate_nil (length nodes) c) _;
    })

-- Every successor in the graph of a function has an index below the number of nodes.
pub build_graph-IsIndexed : (cfg : FunctionCfg) → IsIndexed (build_graph cfg)
build_graph-IsIndexed cfg c =
    map-All (λ s. s < length (build_graph cfg).nodes) (node_index (build_graph cfg))
      (get_or (build_graph cfg).succs c []) ((build_graph-Good cfg).rows c)

-- The indices that the map of a function's graph holds are below the number of nodes.
pub build_graph-below :
    (cfg : FunctionCfg) (p i : ℕ)
    → lookup p (build_graph cfg).idx_of ≡ some i
    → i < length (build_graph cfg).nodes
build_graph-below cfg = (build_graph-Good cfg).below
