-- ===== src/Verify/Worklist.antt =====
-- `compute_reachable` and `compute_region`: one worklist over two kinds of flags. The loop takes
-- fuel, one unit for each node that leaves the queue.
pub mod Loop
pub mod Region
use ventus_gpgpu_sbt_simulat.Prelude.{
  ℕ, zero, suc, Bool, true, false, not, ◌||◌, Option, none, some, List, [], ◌∷◌, ◌++◌, length,
  get_or, set, replicate, ◌==◌, if◌then◌else◌,
}
use ventus_gpgpu_sbt_simulat.Cfg.Types.{lookup}
use ventus_gpgpu_sbt_simulat.Verify.BitSet.{BitSet, empty_set, test, set_bit}
use ventus_gpgpu_sbt_simulat.Verify.Graph.{Graph, succ_indices}

-- The operations on flags that the loop uses.
pub record Flags (F : Type 0) : Type 0 where
  pub read : F → ℕ → Bool
  pub mark : F → ℕ → F

module _ {F : Type 0} (ops : Flags F) (next : ℕ → List ℕ) (skip : ℕ → Bool) where
  -- The `for` loop over the successors of a node: the flags and the queue after it.
  unfoldable pub offer : List ℕ → F → List ℕ → F × List ℕ
  offer [] m q = (m, q)
  offer (s ∷ ss) m q =
      let old = skip s || ops.read m s in
      offer ss (if old then m else ops.mark m s) (if old then q else q ++ s ∷ [])

  -- The `while` loop over the queue.
  unfoldable pub drain : ℕ → F → List ℕ → Option F
  drain fuel m [] = some m
  drain zero m (c ∷ q) = none
  drain (suc fuel) m (c ∷ q) = let (m', q') = offer (next c) m q in drain fuel m' q'

abbrev pub char_flags : Flags (List Bool)
char_flags = record { read = λ m i. get_or m i false; mark = λ m i. set m i true }

abbrev pub bit_flags : Flags BitSet
bit_flags = record { read = test; mark = set_bit }

module _ (g : Graph) where
  unfoldable pub compute_reachable : ℕ → Option (List Bool)
  unfolding drain
  compute_reachable entry =
      let n = length g.nodes in
      elim (lookup entry g.idx_of) [
        | none ↦ some (replicate n false)
        | some i ↦
            drain char_flags (succ_indices g) (λ _. false) (suc n) (set (replicate n false) i true)
              (i ∷ [])
      ]

  -- The nodes behind the branch's block that are reached without passing the join block.
  unfoldable pub compute_region : ℕ → ℕ → Option BitSet
  unfolding drain
  compute_region vblock_i join_i =
      let n = length g.nodes in
      let skip = λ (s : ℕ). s == join_i in
      let (region, q) =
        offer bit_flags (succ_indices g) skip (succ_indices g vblock_i) (empty_set n) [] in
      drain bit_flags (succ_indices g) skip (suc n) region q
