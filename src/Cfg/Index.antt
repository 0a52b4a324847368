-- ===== src/Cfg/Index.antt =====
-- The map `inst_index_by_pc` that `build_function_cfg` fills.
use ventus_gpgpu_sbt_simulat.Prelude.{
  ℕ, zero, suc, ◌+◌, ◌≡◌, sym, arith, true, some, none, List, [], ◌∷◌, ◌++◌, map, get_elem?,
  Bool-cases, Option-cases, inl, inr,
}
use mathlib.Core.Path.{subst}
use ventus_gpgpu_sbt_simulat.Prelude.Result.{ok}
use ventus_gpgpu_sbt_simulat.Decode.Types.{DecodedInst}
use ventus_gpgpu_sbt_simulat.Cfg.Types.{BundleInst, PcMap, FunctionCfg, lookup}
use ventus_gpgpu_sbt_simulat.Cfg.Classify.{in_range}
use ventus_gpgpu_sbt_simulat.Cfg.Build.{index_insts, to_bundle, build_function_cfg}
use ventus_gpgpu_sbt_simulat.Cfg.Edges.{build_bundles-Built, ok_injective}

-- What a map answers is kept.
abbrev Extends : PcMap → PcMap → Type 0
Extends m m' = (k v : ℕ) → lookup k m ≡ some v → lookup k m' ≡ some v

append-Extends : (m : PcMap) (j u : ℕ) → Extends m (m ++ (j, u) ∷ [])
unfolding lookup
append-Extends [] j u k v h = absurd (cc)
append-Extends ((i, w) ∷ m) j u k v h = ground (arith, append-Extends m j u k v)

lookup-append : (m : PcMap) (j u : ℕ) → lookup j m ≡ none → lookup j (m ++ (j, u) ∷ []) ≡ some u
unfolding lookup
lookup-append [] j u h = ground arith
lookup-append ((i, w) ∷ m) j u h = ground (arith, lookup-append m j u)

-- The instruction at a position is in range and found under its pc.
abbrev pub IsIndexedAt : ℕ → ℕ → PcMap → ℕ → BundleInst → Type 0
IsIndexedAt lo hi m k b = (in_range b.pc lo hi ≡ true) × (lookup b.pc m ≡ some k)

module _ (lo hi : ℕ) where
  at_index :
      (i : ℕ) (bi : BundleInst) (rest : List BundleInst) (m : PcMap)
      → IsIndexedAt lo hi m i bi
      → ((n : ℕ) (b : BundleInst) → get_elem? rest n ≡ some b → IsIndexedAt lo hi m (i + 1 + n) b)
      → (n : ℕ) (b : BundleInst) → get_elem? (bi ∷ rest) n ≡ some b
      → IsIndexedAt lo hi m (i + n) b
  at_index i bi rest m here later zero b e =
      let k : i ≡ i + 0 = omega arith in
      let same : bi ≡ b = cc in
      subst (λ t. IsIndexedAt lo hi m t b) k (subst (IsIndexedAt lo hi m i) same here)
  at_index i bi rest m here later (suc n) b e =
      let k : i + 1 + n ≡ i + suc n = omega arith in
      subst (λ t. IsIndexedAt lo hi m t b) k (later n b e)

  index_insts-ok :
      (i : ℕ) (bis : List BundleInst) (m m' : PcMap)
      → index_insts lo hi i bis m ≡ ok m'
      → Extends m m'
        × ((n : ℕ) (b : BundleInst) → get_elem? bis n ≡ some b → IsIndexedAt lo hi m' (i + n) b)
  unfolding index_insts
  index_insts-ok i [] m m' h = (λ k v e. rw (sym (ok_injective h)) e, λ n b e. absurd (cc))
  index_insts-ok i (bi ∷ rest) m m' h = elim (Bool-cases (in_range bi.pc lo hi)) [
    | inr out ↦ absurd (cc (rw (out, index_insts) at h))
    | inl within ↦ elim (Option-cases (lookup bi.pc m)) [
      | inr (v, old) ↦ absurd (cc (rw (within, old, index_insts) at h))
      | inl new ↦
          let (extends, found) =
            index_insts-ok (i + 1) rest (m ++ (bi.pc, i) ∷ []) m'
              (rw (within, new, index_insts) at h) in
          (
            λ k v e. extends k v (append-Extends m bi.pc i k v e),
            at_index i bi rest m' (within, extends bi.pc i (lookup-append m bi.pc i new)) found,
          )
    ]
  ]

-- When build_function_cfg returns, every instruction starts within the function, and
-- inst_index_by_pc has its index under its pc.
pub build_function_cfg-IsIndexedAt :
    (ds : List DecodedInst) (lo hi : ℕ) (cfg : FunctionCfg)
    → build_function_cfg ds lo hi ≡ ok cfg
    → (n : ℕ) (b : BundleInst) → get_elem? cfg.insts n ≡ some b
    → IsIndexedAt lo hi cfg.inst_index_by_pc n b
unfolding build_function_cfg
build_function_cfg-IsIndexedAt [] lo hi cfg h = absurd (cc)
build_function_cfg-IsIndexedAt (d ∷ ds) lo hi cfg h =
    let built = build_bundles-Built (to_bundle d) (map to_bundle ds) lo hi cfg h in
    let found =
      index_insts-ok lo hi 0 (to_bundle d ∷ map to_bundle ds) [] built.index built.indexed in
    subst
      (λ (c : FunctionCfg).
        (n : ℕ) (b : BundleInst)
        → get_elem? c.insts n ≡ some b
        → IsIndexedAt lo hi c.inst_index_by_pc n b)
      (sym built.result)
      (λ n b e.
        let k : 0 + n ≡ n = omega arith in
        subst (λ t. IsIndexedAt lo hi built.index t b) k (found.1 n b e))
