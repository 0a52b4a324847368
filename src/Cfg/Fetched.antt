-- ===== src/Cfg/Fetched.antt =====
-- The instructions of a block: where they stand in the list, and properties that they all have.
use ventus_gpgpu_sbt_simulat.Prelude.{
  ℕ, suc, ◌+◌, ◌-◌, ◌≤◌, ◌≡◌, refl, arith, List, [], ◌∷◌, ◌++◌, map, All, All-imp, Option, some,
  none, get_elem?,
}
use ventus_gpgpu_sbt_simulat.Cfg.Types.{BundleInst}
use ventus_gpgpu_sbt_simulat.Cfg.Build.{IndexedInst, Span, last_inst}
use ventus_gpgpu_sbt_simulat.Cfg.Spans.{enumerate, flat}

abbrev pub last? : List ℕ → Option ℕ
last? [] = none
last? (x ∷ []) = some x
last? (x ∷ y ∷ r) = last? (y ∷ r)

module _ (insts : List BundleInst) where
  abbrev pub Fetched : IndexedInst → Type 0
  Fetched x = get_elem? insts x.0 ≡ some x.1

  pub last-span :
      (x : IndexedInst) (xs : List IndexedInst)
      → Fetched x
      → All Fetched xs
      → (k : ℕ) × (last? (map (λ (y : IndexedInst). y.0) (x ∷ xs)) ≡ some k)
        × (get_elem? insts k ≡ some (last_inst x xs))
  unfolding last_inst
  last-span x [] h a = (x.0, refl, h)
  last-span x (y ∷ ys) h a = last-span y ys a.0 a.1

-- A property of all instructions holds of the last one of a span.
pub last-All :
    (P : BundleInst → Type 0) (x : IndexedInst) (xs : List IndexedInst)
    → P x.1
    → All (λ (y : IndexedInst). P y.1) xs
    → P (last_inst x xs)
unfolding last_inst
last-All P x [] h a = h
last-All P x (y ∷ ys) h a = last-All P y ys a.0 a.1

-- The position of an instruction in the list from index `i` on.
enumerate-position :
    (i : ℕ) (insts : List BundleInst)
    → All
        (λ (x : IndexedInst). (i ≤ x.0) × (get_elem? insts (x.0 - i) ≡ some x.1))
        (enumerate i insts)
enumerate-position i [] = tt
enumerate-position i (bi ∷ rest) = (
  (omega arith, let e : i - i ≡ 0 = omega arith in rw e),
  All-imp _ _
      (λ x h. (omega arith, let e : x.0 - i ≡ suc (x.0 - (i + 1)) = omega arith in rw e h.1))
      (enumerate (i + 1) rest) (enumerate-position (i + 1) rest),
)

pub enumerate-Fetched : (insts : List BundleInst) → All (Fetched insts) (enumerate 0 insts)
enumerate-Fetched insts =
    All-imp _ (Fetched insts) (λ x h. let e : x.0 - 0 ≡ x.0 = omega arith in rw e at h.1)
      (enumerate 0 insts) (enumerate-position 0 insts)

-- A property of every instruction, span by span.
abbrev pub InSpan : (IndexedInst → Type 0) → Span → Type 0
InSpan P s = P s.first × All P s.others

append-All :
    (P : IndexedInst → Type 0) (xs ys : List IndexedInst) → All P (xs ++ ys) → All P xs × All P ys
append-All P [] ys h = (tt, h)
append-All P (x ∷ xs) ys h = let (a, b) = append-All P xs ys h.1 in ((h.0, a), b)

pub flat-InSpan : (P : IndexedInst → Type 0) (ss : List Span) → All P (flat ss) → All (InSpan P) ss
flat-InSpan P [] h = tt
flat-InSpan P (s ∷ ss) h =
    let (a, b) = append-All P s.others (flat ss) h.1 in ((h.0, a), flat-InSpan P ss b)

pub enumerate-All :
    (P : BundleInst → Type 0) (i : ℕ) (insts : List BundleInst)
    → All P insts
    → All (λ (x : IndexedInst). P x.1) (enumerate i insts)
enumerate-All P i [] h = tt
enumerate-All P i (bi ∷ rest) h = (h.0, enumerate-All P (i + 1) rest h.1)

pub both :
    (P Q : IndexedInst → Type 0) (xs : List IndexedInst)
    → All P xs
    → All Q xs
    → All (λ x. P x × Q x) xs
both P Q [] h k = tt
both P Q (x ∷ xs) h k = ((h.0, k.0), both P Q xs h.1 k.1)
