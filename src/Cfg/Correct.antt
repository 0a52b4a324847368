-- ===== src/Cfg/Correct.antt =====
-- A successful `build_function_cfg` returns a well-formed graph of the function.
use mathlib.Core.Path.{subst}
use ventus_gpgpu_sbt_simulat.Prelude.{
  ℕ, ◌≡◌, ◌∙◌, ap, arith, true, ◌||◌, List, [], ◌∷◌, ◌++◌, All, All-imp, str_eq, if◌then◌else◌,
}
use ventus_gpgpu_sbt_simulat.Prelude.Result.{ok, >>=-eq-ok}
use ventus_gpgpu_sbt_simulat.Cfg.Types.{BundleInst, PcMap, has}
use ventus_gpgpu_sbt_simulat.Cfg.Classify.{classify, in_range}
use ventus_gpgpu_sbt_simulat.Cfg.Build.{collect_leaders, leader_targets, leader_next}
use ventus_gpgpu_sbt_simulat.Cfg.Maps.{has-append}
use ventus_gpgpu_sbt_simulat.Cfg.Edges.{ok_injective}

-- The target of a branch or jump into the function is among the leaders.
abbrev pub HasTarget : ℕ → ℕ → List ℕ → BundleInst → Type 0
HasTarget lo hi found bi =
    ((classify bi).is_branch || (classify bi).is_jump) ≡ true
    → in_range (classify bi).target lo hi ≡ true
    → has (classify bi).target found ≡ true

module _ (lo hi : ℕ) (index : PcMap) where
  leader_targets-HasTarget :
      (bi : BundleInst) (ts : List ℕ)
      → leader_targets lo hi index (classify bi) ≡ ok ts
      → HasTarget lo hi ts bi
  unfolding leader_targets has
  leader_targets-HasTarget bi ts h goes within = ground arith

  pub collect_leaders-HasTarget :
      (insts : List BundleInst) (found : List ℕ)
      → collect_leaders lo hi index insts ≡ ok found
      → All (HasTarget lo hi found) insts
  unfolding collect_leaders
  collect_leaders-HasTarget [] found h = tt
  collect_leaders-HasTarget (bi ∷ rest) found h =
      let (ts, e1, h1) = >>=-eq-ok (leader_targets lo hi index (classify bi)) _ h in
      let (others, e2, h2) = >>=-eq-ok (collect_leaders lo hi index rest) _ h1 in
      let joins = if str_eq bi.inst.name "join" then bi.pc ∷ [] else [] in
      let next = leader_next (classify bi) rest in
      let same : joins ++ (ts ++ (next ++ others)) ≡ found = ok_injective h2 in
      let grows = λ (t : ℕ).
        has-append t joins (ts ++ (next ++ others))
        ∙ ap (λ b. has t joins || b)
            (has-append t ts (next ++ others)
              ∙ ap (λ b. has t ts || b) (has-append t next others)) in
      subst (λ f. All (HasTarget lo hi f) (bi ∷ rest)) same
        (
          λ goes within.
              ground
                (arith, grows (classify bi).target, leader_targets-HasTarget bi ts e1 goes within),
          All-imp (HasTarget lo hi others) (HasTarget lo hi (joins ++ (ts ++ (next ++ others))))
              (λ b f goes within. ground (arith, grows (classify b).target, f goes within)) rest
              (collect_leaders-HasTarget rest others e2),
        )
