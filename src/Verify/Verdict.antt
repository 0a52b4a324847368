-- ===== src/Verify/Verdict.antt =====
-- When `verify_function` reports an error on a divergent branch.
use ventus_gpgpu_sbt_simulat.Prelude.{◌≡◌, ◌↔◌, true, none}
use ventus_gpgpu_sbt_simulat.Verify.BitSet.{BitSet}
use ventus_gpgpu_sbt_simulat.Verify.Report.{VBranchDerived}

-- The check has no error exactly when it found that the join block postdominates the branch's block, and
-- then only where the join is a join instruction. Whether the region has a single entry is not asked.
abbrev pub IsVerdict : VBranchDerived → Type 0
IsVerdict vb =
    ((vb.check.error ≡ none) ↔ (vb.check.postdom_ok ≡ true))
    × (vb.check.error ≡ none → vb.check.join_is_join_inst ≡ true)
