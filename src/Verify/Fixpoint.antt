-- ===== src/Verify/Fixpoint.antt =====
-- `compute_dominators` and `compute_postdominators`: sweeps over the nodes, in place, until one
-- changes nothing. The sweeps take fuel, and `none` says that it ran out.
use ventus_gpgpu_sbt_simulat.Prelude.{
  ℕ, zero, suc, ◌+◌, Bool, true, false, Option, none, some, List, [], ◌∷◌, length, get_or, set,
  replicate, ◌==◌, if◌then◌else◌,
}
use ventus_gpgpu_sbt_simulat.Verify.BitSet.{
  BitSet, empty_set, full_set, set_bit, intersect, same_set,
}
use ventus_gpgpu_sbt_simulat.Verify.Graph.{Graph, node_index, succ_indices, pred_indices}

-- `while (changed)`: the step says whether it changed anything.
unfoldable pub iterate {ℓ} : {S : Type ℓ} → ℕ → (S → S × Bool) → S → Option S
iterate zero step s = none
iterate (suc fuel) step s =
    let (s', changed) = step s in elim changed [ true ↦ iterate fuel step s' | false ↦ some s' ]

-- One sweep over the indices, with the flag of the source. `update` gives the new set of a node, and
-- `none` for a node that is passed over.
unfoldable pub sweep :
    (List BitSet → ℕ → Option BitSet) → List ℕ → List BitSet → Bool → List BitSet × Bool
sweep update [] sets changed = (sets, changed)
sweep update (i ∷ is) sets changed =
    let new : Option BitSet = elim (update sets i) [
      | none ↦ none
      | some s ↦ if same_set s (get_or sets i (empty_set 0)) then none else some s
    ] in
    sweep update is (elim new [ none ↦ sets | some s ↦ set sets i s ])
      (elim new [ none ↦ changed | some s ↦ true ])

abbrev pub indices : ℕ → ℕ → List ℕ
indices i zero = []
indices i (suc n) = i ∷ indices (i + 1) n

-- The intersection of the sets at the indices, starting from that at the first.
unfoldable pub meet_all : List BitSet → BitSet → List ℕ → BitSet
meet_all sets acc [] = acc
meet_all sets acc (p ∷ ps) = meet_all sets (intersect acc (get_or sets p (empty_set 0))) ps

unfoldable pub meet_or : List BitSet → BitSet → List ℕ → BitSet
unfolding meet_all
meet_or sets none_of [] = none_of
meet_or sets none_of (p ∷ ps) = meet_all sets (get_or sets p (empty_set 0)) ps

module _ (g : Graph) where
  unfoldable pub dominator_update : ℕ → List BitSet → ℕ → Option BitSet
  unfolding meet_or
  dominator_update entry_i dom i =
      if i == entry_i
      then none
      else some (set_bit (meet_or dom (empty_set (length g.nodes)) (pred_indices g i)) i)

  unfoldable pub compute_dominators : ℕ → ℕ → Option (List BitSet)
  unfolding dominator_update sweep iterate
  compute_dominators fuel entry =
      let n = length g.nodes in
      let entry_i = node_index g entry in
      iterate fuel (λ dom. sweep (dominator_update entry_i) (indices 0 n) dom false)
        (set (replicate n (full_set n)) entry_i (set_bit (empty_set n) entry_i))

  -- The exit that every node without successors leads to has the index `n`.
  unfoldable pub postdominator_update : List BitSet → ℕ → Option BitSet
  unfolding meet_or
  postdominator_update postdom i =
      let exit_i = length g.nodes in
      some (set_bit (meet_or postdom (get_or postdom exit_i (empty_set 0)) (succ_indices g i)) i)

  unfoldable pub compute_postdominators : ℕ → Option (List BitSet)
  unfolding postdominator_update sweep iterate
  compute_postdominators fuel =
      let n = length g.nodes in
      let n2 = n + 1 in
      iterate fuel (λ postdom. sweep postdominator_update (indices 0 n) postdom false)
        (set (replicate n2 (full_set n2)) n (set_bit (empty_set n2) n))
