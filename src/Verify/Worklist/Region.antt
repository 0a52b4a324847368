-- ===== src/Verify/Worklist/Region.antt =====
-- `compute_region` and `compute_reachable` find exactly the nodes that they are meant to find.
use ventus_gpgpu_sbt_simulat.Prelude.{
  ℕ, zero, suc, ◌/◌, ◌<◌, ◌≡◌, ◌↔◌, inl, inr, refl, ◌∙◌, sym, arith, Bool, true, false, ◌||◌, some,
  List, [], ◌∷◌, length, ◌==◌, In, get_or, set, replicate, length-set, length-replicate, Bool-cases,
  ==_iff,
}
use mathlib.Core.Path.{subst}
use ventus_gpgpu_sbt_simulat.Verify.Branch.{all_inside, region_closed, no_side_exit}
use ventus_gpgpu_sbt_simulat.Verify.Fixpoint.{indices}
use ventus_gpgpu_sbt_simulat.Cfg.Types.{FunctionCfg, lookup}
use ventus_gpgpu_sbt_simulat.Verify.BitSet.{BitSet, word_count, empty_set, test, set_bit}
use ventus_gpgpu_sbt_simulat.Verify.Bits.{
  Holds, test-set_bit, test-empty_set, get_or-set_self, get_or-set_ne,
}
use ventus_gpgpu_sbt_simulat.Verify.Graph.{Graph, build_graph, succ_indices}
use ventus_gpgpu_sbt_simulat.Verify.Graph.Indexed.{
  IsIndexed, build_graph-IsIndexed, build_graph-below,
}
use ventus_gpgpu_sbt_simulat.Verify.Worklist.{
  char_flags, bit_flags, offer, compute_reachable, compute_region,
}
use ventus_gpgpu_sbt_simulat.Verify.Worklist.Loop.{
  Lawful, Reached, start, step, unseen-le, offer-Offered, Inv, drain-Marked,
}

abbrev Roomy : ℕ → BitSet → Type 0
Roomy n s = (i : ℕ) → i < n → Holds s i

bit_flags-Lawful : (n : ℕ) → Lawful bit_flags n
bit_flags-Lawful n = record {
  Fit = Roomy n;
  keeps = λ m i f j h. unfold set_bit in rw (length-set m.words (i / 64) _) (f j h);
  law = λ m i j f h. test-set_bit m i j (f i h);
}

char_flags-Lawful : (n : ℕ) → Lawful char_flags n
char_flags-Lawful n = record {
  Fit = λ m. length m ≡ n;
  keeps = λ m i f. length-set m i true ∙ f;
  law = λ m i j f h. elim (Bool-cases (i == j)) [
    | inl same ↦
        let q : i ≡ j = (==_iff i j).0 same in
        let room : i < length m = subst (λ k. i < k) (sym f) h in
        rw same (
          subst (λ k. get_or (set m i true) k false ≡ true) q (get_or-set_self m i true false room))
    | inr other ↦ rw other (get_or-set_ne m i j true false (λ e. ground arith))
  ];
}

empty-Roomy : (n : ℕ) → Roomy n (empty_set n)
unfolding empty_set
empty-Roomy n i h =
    let size : length (replicate (word_count n) 0) ≡ word_count n =
      length-replicate {A = ℕ} (word_count n) 0 in
    omega (arith, size)

get_or-replicate-false : (n u : ℕ) → get_or (replicate n false) u false ≡ false
get_or-replicate-false zero u = refl
get_or-replicate-false (suc n) zero = refl
get_or-replicate-false (suc n) (suc u) = get_or-replicate-false n u

one_flag :
    (n i : ℕ)
    → i < n
    → (u : ℕ) → (get_or (set (replicate n false) i true) u false ≡ true) ↔ In u (i ∷ [])
unfolding char_flags-Lawful
one_flag n i h u = ground (
  arith,
  (char_flags-Lawful n).law (replicate n false) i u (length-replicate {A = Bool} n false) h,
  get_or-replicate-false n u,
)

all_inside-all :
    (inside : ℕ → Bool) (is : List ℕ)
    → ((i : ℕ) → In i is → inside i ≡ true)
    → all_inside inside is ≡ true
unfolding all_inside
all_inside-all inside [] h = refl
all_inside-all inside (i ∷ is) h =
    rw (h i (inl refl)) (all_inside-all inside is (λ k there. h k (inr there)))

region_closed-all :
    (inside : ℕ → Bool) (region : BitSet) (next : ℕ → List ℕ) (is : List ℕ)
    → ((u s : ℕ) → test region u ≡ true → In s (next u) → inside s ≡ true)
    → region_closed inside region next is ≡ true
unfolding region_closed
region_closed-all inside region next [] h = refl
region_closed-all inside region next (i ∷ is) h = elim (Bool-cases (test region i)) [
  | inl member ↦
      rw (member, all_inside-all inside (next i) (λ s. h i s member))
        (region_closed-all inside region next is h)
  | inr other ↦ rw other (region_closed-all inside region next is h)
]

module _ (g : Graph) (indexed : IsIndexed g) where
  compute_region-Reached :
      (v j : ℕ)
      → (region : BitSet) × (compute_region g v j ≡ some region)
        × ((u : ℕ)
            → (test region u ≡ true) ↔ Reached (succ_indices g) (λ s. s == j) (succ_indices g v) u)
  unfolding compute_region bit_flags-Lawful
  compute_region-Reached v j =
      let n = length g.nodes in
      let skip : ℕ → Bool = λ s. s == j in
      let next = succ_indices g in
      let l = bit_flags-Lawful n in
      let m = empty_set n in
      let from = next v in
      let r = offer bit_flags next skip from m [] in
      let o = offer-Offered bit_flags n l next skip from m [] (empty-Roomy n) (indexed v) in
      let no : (u : ℕ) → test m u ≡ false = λ u. test-empty_set n u in
      let inv : Inv bit_flags n l next skip from indexed r.0 r.1 = record {
        fit = o.fit;
        started = λ u h fresh. (o.marks u).1 (inr (h, fresh));
        queued = λ u h. elim ((o.queues u).0 h) [ inl x ↦ absurd x | inr (x, y) ↦ x ];
        sound = λ u h. elim ((o.marks u).0 h) [
          | inl x ↦ absurd (ground (arith, no u))
          | inr (x, y) ↦ start x y
        ];
        closed = λ u w h there fresh. inl ((o.queues u).1 (inr (h, no u)));
      } in
      let (t, e, k) =
        drain-Marked bit_flags n l next skip from indexed (suc n) r.0 r.1 inv
          (omega (arith, o.work, unseen-le bit_flags n l n m)) in
      (t, e, λ u. (k.sound u, k.complete u))

  compute_region-no_side_exit :
      (v j : ℕ) (region : BitSet)
      → compute_region g v j ≡ some region
      → no_side_exit g region j ≡ true
  unfolding no_side_exit
  compute_region-no_side_exit v j region h =
      let (t, e, k) = compute_region-Reached v j in
      let same : t ≡ region = cc in
      let marked : (u : ℕ)
          → (test region u ≡ true) ↔ Reached (succ_indices g) (λ s. s == j) (succ_indices g v) u =
        subst
          (λ r.
            (u : ℕ)
            → (test r u ≡ true) ↔ Reached (succ_indices g) (λ s. s == j) (succ_indices g v) u)
          same k in
      region_closed-all (λ s. s == j || test region s) region (succ_indices g)
        (indices 0 (length g.nodes))
        (λ u s there edge. elim (Bool-cases (s == j)) [
          | inl member ↦ rw member refl
          | inr other ↦ rw (other, (marked s).1 (step ((marked u).0 there) edge other)) refl
        ])

  compute_reachable-Reached :
      (entry i : ℕ)
      → lookup entry g.idx_of ≡ some i
      → i < length g.nodes
      → (seen : List Bool) × (compute_reachable g entry ≡ some seen)
        × ((u : ℕ)
            → (get_or seen u false ≡ true) ↔ Reached (succ_indices g) (λ _. false) (i ∷ []) u)
  unfolding compute_reachable char_flags-Lawful
  compute_reachable-Reached entry i found h =
      let n = length g.nodes in
      let skip : ℕ → Bool = λ _. false in
      let next = succ_indices g in
      let l = char_flags-Lawful n in
      let m : List Bool = replicate n false in
      let m' = set m i true in
      let size : length m ≡ n = length-replicate {A = Bool} n false in
      let only = one_flag n i h in
      let inv : Inv char_flags n l next skip (i ∷ []) indexed m' (i ∷ []) = record {
        fit = l.keeps m i size;
        started = λ u there fresh. (only u).1 there;
        queued = λ u there. (only u).1 there;
        sound = λ u marked. start ((only u).0 marked) refl;
        closed = λ u w marked there fresh. inl ((only u).0 marked);
      } in
      let (t, e, k) =
        drain-Marked char_flags n l next skip (i ∷ []) indexed (suc n) m' (i ∷ []) inv
          (omega (arith, unseen-le char_flags n l n m')) in
      (t, rw (found, compute_reachable) e, λ u. (k.sound u, k.complete u))

-- In the graph of a function compute_region ends within its fuel, and its region holds exactly the
-- nodes that are reached from the successors of the branch's block without entering the join block.
pub compute_region_iff :
    (cfg : FunctionCfg) (v j : ℕ)
    → let g = build_graph cfg in
      (region : BitSet) × (compute_region g v j ≡ some region)
      × ((u : ℕ)
          → (test region u ≡ true) ↔ Reached (succ_indices g) (λ s. s == j) (succ_indices g v) u)
compute_region_iff cfg v j =
    compute_region-Reached (build_graph cfg) (build_graph-IsIndexed cfg) v j

-- In the graph of a function the check no_side_exit holds of every region that compute_region
-- returns.
pub no_side_exit-compute_region :
    (cfg : FunctionCfg) (v j : ℕ) (region : BitSet)
    → compute_region (build_graph cfg) v j ≡ some region
    → no_side_exit (build_graph cfg) region j ≡ true
no_side_exit-compute_region cfg =
    compute_region-no_side_exit (build_graph cfg) (build_graph-IsIndexed cfg)

-- In the graph of a function whose entry is the start of the block at index i, compute_reachable
-- ends within its fuel and marks exactly the nodes that are reached from that block.
pub compute_reachable_iff :
    (cfg : FunctionCfg) (entry i : ℕ)
    → lookup entry (build_graph cfg).idx_of ≡ some i
    → let g = build_graph cfg in
      (seen : List Bool) × (compute_reachable g entry ≡ some seen)
      × ((u : ℕ) → (get_or seen u false ≡ true) ↔ Reached (succ_indices g) (λ _. false) (i ∷ []) u)
compute_reachable_iff cfg entry i found =
    compute_reachable-Reached (build_graph cfg) (build_graph-IsIndexed cfg) entry i found
      (build_graph-below cfg entry i found)
