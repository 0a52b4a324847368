-- ===== src/Cfg/Held.antt =====
-- Which block holds the instruction at a pc that `inst_pc_to_block` has.
use ventus_gpgpu_sbt_simulat.Prelude.{
  ℕ, ◌≡◌, refl, ap, arith, true, List, [], ◌∷◌, map, In, inl, inr, some, Option-cases, Bool-cases,
  ◌==◌,
}
use ventus_gpgpu_sbt_simulat.Cfg.Types.{BasicBlock, PcMap, has}
use ventus_gpgpu_sbt_simulat.Cfg.Build.{IndexedInst, Span, span_insts, span_start}
use ventus_gpgpu_sbt_simulat.Cfg.Maps.{pcs, find_block}
use ventus_gpgpu_sbt_simulat.Cfg.Edges.{FromSpan, FromSpans}

pub In-map : {A B : Type 0} (f : A → B) (a : A) (xs : List A) → In a xs → In (f a) (map f xs)
In-map f a [] h = absurd h
In-map f a (x ∷ xs) (inl e) = inl (ap f e)
In-map f a (x ∷ xs) (inr h) = inr (In-map f a xs h)

pub has-pcs :
    (j : ℕ) (xs : List IndexedInst)
    → has j (pcs xs) ≡ true
    → (x : IndexedInst) × In x xs × (x.1.pc ≡ j)
unfolding has
has-pcs j [] h = absurd (cc)
has-pcs j ((k, bi) ∷ xs) h = elim (Bool-cases (bi.pc == j)) [
  | inl e ↦ ((k, bi), inl refl, ground arith)
  | inr e ↦ let (x, m, p) = has-pcs j xs (ground arith) in (x, inr m, p)
]

-- The span that is found holds an instruction at the pc.
pub find_block-span :
    (j d : ℕ) (ss : List Span)
    → find_block j ss ≡ some d
    → (s : Span) × In s ss × (span_start s ≡ d) × (has j (pcs (span_insts s)) ≡ true)
unfolding find_block
find_block-span j d [] h = absurd (cc)
find_block-span j d (s ∷ ss) h = elim (Option-cases (find_block j ss)) [
  | inr (d', e) ↦
      let (t, m, at_start, held) = find_block-span j d ss (ground arith) in
      (t, inr m, at_start, held)
  | inl e ↦ (s, inl refl, ground arith, ground arith)
]

-- A span has the block that was made of it.
pub FromSpans-In :
    (lo hi : ℕ) (m : PcMap) (s : Span) (ss : List Span) (bs : List BasicBlock)
    → FromSpans lo hi m ss bs
    → In s ss
    → (b : BasicBlock) × In b bs × FromSpan lo hi m s b
FromSpans-In lo hi m s [] bs f h = absurd h
FromSpans-In lo hi m s (t ∷ ss) [] f h = absurd f
FromSpans-In lo hi m s (t ∷ ss) (b ∷ bs) f (inl e) = (b, inl refl, rw e f.0)
FromSpans-In lo hi m s (t ∷ ss) (b ∷ bs) f (inr h) =
    let (c, k, g) = FromSpans-In lo hi m s ss bs f.1 h in (c, inr k, g)
