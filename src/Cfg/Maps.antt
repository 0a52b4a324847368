-- ===== src/Cfg/Maps.antt =====
-- The laws of the maps and of the set of leaders, and what `inst_pc_to_block` holds.
use ventus_gpgpu_sbt_simulat.Prelude.{
  ℕ, ◌≡◌, refl, ◌∙◌, arith, ◌||◌, Option, none, some, List, [], ◌∷◌, ◌++◌, map, In, inl, inr, ◌==◌,
  if◌then◌else◌, Option-cases,
}
use ventus_gpgpu_sbt_simulat.Cfg.Types.{PcMap, lookup, insert, has}
use ventus_gpgpu_sbt_simulat.Cfg.Build.{
  IndexedInst, Span, span_insts, span_start, map_insts, map_spans,
}

pub lookup-insert :
    (k j v : ℕ) (m : PcMap) → lookup j (insert k v m) ≡ (if k == j then some v else lookup j m)
unfolding lookup insert
lookup-insert k j v [] = refl
lookup-insert k j v ((i, u) ∷ m) = ground (arith, lookup-insert k j v m)

pub has-append : (k : ℕ) (xs ys : List ℕ) → has k (xs ++ ys) ≡ (has k xs || has k ys)
unfolding has
has-append k [] ys = refl
has-append k (x ∷ xs) ys = ground (arith, has-append k xs ys)

-- The pcs of a span's instructions.
abbrev pub pcs : List IndexedInst → List ℕ
pcs [] = []
pcs ((k, bi) ∷ xs) = bi.pc ∷ pcs xs

-- The start of the last span that holds an instruction at `j`.
unfoldable pub find_block : ℕ → List Span → Option ℕ
find_block j [] = none
find_block j (s ∷ ss) = elim (find_block j ss) [
  | some d ↦ some d
  | none ↦ if has j (pcs (span_insts s)) then some (span_start s) else none
]

lookup-map_insts :
    (j start : ℕ) (xs : List IndexedInst) (m : PcMap)
    → lookup j (map_insts start xs m) ≡ (if has j (pcs xs) then some start else lookup j m)
unfolding map_insts has
lookup-map_insts j start [] m = refl
lookup-map_insts j start ((k, bi) ∷ xs) m =
    ground
      (arith, lookup-map_insts j start xs (insert bi.pc start m), lookup-insert bi.pc j start m)

pub or_else : Option ℕ → Option ℕ → Option ℕ
or_else (some d) o = some d
or_else none o = o

lookup-map_spans_from :
    (j : ℕ) (ss : List Span) (m : PcMap)
    → lookup j (map_spans ss m) ≡ or_else (find_block j ss) (lookup j m)
unfolding map_spans find_block or_else
lookup-map_spans_from j [] m = refl
lookup-map_spans_from j (s ∷ ss) m = ground (
  arith,
  lookup-map_spans_from j ss (map_insts (span_start s) (span_insts s) m),
  lookup-map_insts j (span_start s) (span_insts s) m,
)

-- `inst_pc_to_block` sends a pc to the block that holds it.
pub lookup-map_spans : (j : ℕ) (ss : List Span) → lookup j (map_spans ss []) ≡ find_block j ss
unfolding lookup or_else
lookup-map_spans j ss = elim (Option-cases (find_block j ss)) [
  | inl e ↦ lookup-map_spans_from j ss [] ∙ ground arith
  | inr (d, e) ↦ lookup-map_spans_from j ss [] ∙ ground arith
]

-- What it finds is the start of one of the blocks.
pub find_block-In : (j d : ℕ) (ss : List Span) → find_block j ss ≡ some d → In d (map span_start ss)
unfolding find_block
find_block-In j d [] h = cc
find_block-In j d (s ∷ ss) h = elim (Option-cases (find_block j ss)) [
  | inr (d', e) ↦ inr (find_block-In j d ss (ground arith))
  | inl e ↦ inl (ground arith)
]
