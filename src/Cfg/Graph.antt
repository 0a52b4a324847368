-- ===== src/Cfg/Graph.antt =====
-- What a caller of `build_function_cfg` may rely on.
use mathlib.Core.Path.{subst}
use ventus_gpgpu_sbt_simulat.Prelude.{
  ℕ, ◌+◌, ◌≡◌, refl, arith, true, ◌||◌, List, All, All-imp, All-append, ◌⊎◌, Bool-cases, inl, inr,
  some, Option-cases, str_eq,
}
use ventus_gpgpu_sbt_simulat.Prelude.Result.{ok, >>=-eq-ok}
use ventus_gpgpu_sbt_simulat.Words.{u32}
use ventus_gpgpu_sbt_simulat.Cfg.Types.{EdgeKind, Edge, BundleInst, PcMap, lookup}
use ventus_gpgpu_sbt_simulat.Cfg.Classify.{classify, in_range, is_indirect_jalr}
use ventus_gpgpu_sbt_simulat.Cfg.Build.{add_edge, block_edges}
use ventus_gpgpu_sbt_simulat.Cfg.Edges.{ok_injective}

module _ (lo hi : ℕ) (m : PcMap) (start : ℕ) where
  -- An edge that `add_edge` made.
  abbrev pub IsAdded : ℕ → EdgeKind → Edge → Type 0
  IsAdded pc kind e =
      (e.src ≡ start) × (e.kind ≡ kind) × (in_range pc lo hi ≡ true) × (lookup pc m ≡ some e.dst)

  pub add_edge-IsAdded :
      (pc : ℕ) (kind : EdgeKind) (es : List Edge)
      → add_edge lo hi m start pc kind ≡ ok es
      → All (IsAdded pc kind) es
  unfolding add_edge
  add_edge-IsAdded pc kind es h = elim (Bool-cases (in_range pc lo hi)) [
    | inr out ↦ subst (All (IsAdded pc kind)) (ok_injective (rw out at h)) tt
    | inl within ↦ elim (Option-cases (lookup pc m)) [
      | inl e ↦ absurd (ground arith)
      | inr (d, e) ↦
          subst (All (IsAdded pc kind)) (ok_injective (rw (within, e) at h))
            ((refl, refl, within, e), tt)
    ]
  ]

  -- How control leaves a block whose last instruction is `last`.
  abbrev pub LeavesBy : BundleInst → Edge → Type 0
  LeavesBy last e =
      let ci = classify last in
      ((ci.is_branch ≡ true) × IsAdded ci.target EdgeKind.branch e)
      ⊎ (((ci.is_jump ≡ true) × IsAdded ci.target EdgeKind.jump e)
          ⊎ IsAdded (u32 (last.inst_pc + 4)) EdgeKind.fallthrough e)

  pub block_edges-LeavesBy :
      (last : BundleInst) (es : List Edge)
      → block_edges lo hi m start last ≡ ok es
      → All (LeavesBy last) es
  unfolding block_edges
  block_edges-LeavesBy last es h =
      let ci = classify last in
      let next = u32 (last.inst_pc + 4) in
      elim (Bool-cases ci.is_branch) [
        | inl branch ↦
            let (taken, e1, h1) =
              >>=-eq-ok (add_edge lo hi m start ci.target EdgeKind.branch) _
                (rw (branch, block_edges) at h) in
            let (falls, e2, h2) =
              >>=-eq-ok (add_edge lo hi m start next EdgeKind.fallthrough) _ h1 in
            subst (All (LeavesBy last)) (ok_injective h2) (
              All-append (LeavesBy last) taken falls
                (All-imp (IsAdded ci.target EdgeKind.branch) (LeavesBy last)
                  (λ e a. inl (branch, a)) taken (add_edge-IsAdded _ _ taken e1))
                (All-imp (IsAdded next EdgeKind.fallthrough) (LeavesBy last) (λ e a. inr (inr a))
                  falls (add_edge-IsAdded _ _ falls e2)))
        | inr no_branch ↦ elim (Bool-cases ci.is_jump) [
          | inl jump ↦
              All-imp (IsAdded ci.target EdgeKind.jump) (LeavesBy last) (λ e a. inr (inl (jump, a)))
                es (add_edge-IsAdded _ _ es (rw (no_branch, jump, block_edges) at h))
          | inr no_jump ↦
              elim (Bool-cases
                (ci.is_return || str_eq last.inst.name "endprg" || is_indirect_jalr last.inst)) [
                  | inl ends ↦
                      subst (All (LeavesBy last))
                        (ok_injective (rw (no_branch, no_jump, ends, block_edges) at h)) tt
                  | inr goes_on ↦
                      All-imp (IsAdded next EdgeKind.fallthrough) (LeavesBy last)
                        (λ e a. inr (inr a)) es
                        (add_edge-IsAdded _ _ es
                          (rw (no_branch, no_jump, goes_on, block_edges) at h))
                ]
        ]
      ]
