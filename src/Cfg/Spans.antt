-- ===== src/Cfg/Spans.antt =====
-- The blocks are the instruction list, cut at the leaders and behind the terminators.
use ventus_gpgpu_sbt_simulat.Prelude.{
  ℕ, ◌+◌, ◌≡◌, refl, ap, arith, true, false, List, [], ◌∷◌, ◌++◌, All, Bool-cases, inl, inr, some,
}
use ventus_gpgpu_sbt_simulat.Cfg.Types.{BundleInst, has}
use ventus_gpgpu_sbt_simulat.Cfg.Build.{IndexedInst, Span, ends_between, split, spans}
use ventus_gpgpu_sbt_simulat.Cfg.Maps.{pcs, find_block}

-- The instructions with their indices.
abbrev pub enumerate : ℕ → List BundleInst → List IndexedInst
enumerate i [] = []
enumerate i (bi ∷ rest) = (i, bi) ∷ enumerate (i + 1) rest

abbrev pub flat : List Span → List IndexedInst
flat [] = []
flat (s ∷ ss) = s.first ∷ (s.others ++ flat ss)

module _ (leaders : List ℕ) where
  split-flat :
      (i : ℕ) (prev : BundleInst) (rest : List BundleInst)
      → let r = split leaders i prev rest in r.0 ++ flat r.1 ≡ enumerate i rest
  unfolding split
  split-flat i prev [] = refl
  split-flat i prev (bi ∷ rest) = elim (Bool-cases (ends_between leaders prev bi)) [
    | inl e ↦ rw (e, split) (ap (◌∷◌ (i, bi)) (split-flat (i + 1) bi rest))
    | inr e ↦ rw (e, split) (ap (◌∷◌ (i, bi)) (split-flat (i + 1) bi rest))
  ]

  -- The spans hold every instruction once, in order.
  pub spans-flat : (insts : List BundleInst) → flat (spans leaders insts) ≡ enumerate 0 insts
  unfolding spans
  spans-flat [] = refl
  spans-flat (bi ∷ rest) = ap (◌∷◌ (0, bi)) (split-flat 1 bi rest)

  -- From each instruction to the next there is no end of a block.
  abbrev pub IsStraight : BundleInst → List IndexedInst → Type 0
  IsStraight prev [] = Unit
  IsStraight prev ((k, bi) ∷ xs) = (ends_between leaders prev bi ≡ false) × IsStraight bi xs

  abbrev pub IsBlock : Span → Type 0
  IsBlock s = IsStraight s.first.1 s.others

  split-IsBlock :
      (i : ℕ) (prev : BundleInst) (rest : List BundleInst)
      → let r = split leaders i prev rest in IsStraight prev r.0 × All IsBlock r.1
  unfolding split
  split-IsBlock i prev [] = (tt, tt)
  split-IsBlock i prev (bi ∷ rest) = elim (Bool-cases (ends_between leaders prev bi)) [
    | inl e ↦ let (cur, more) = split-IsBlock (i + 1) bi rest in rw (e, split) (tt, (cur, more))
    | inr e ↦ let (cur, more) = split-IsBlock (i + 1) bi rest in rw (e, split) ((e, cur), more)
  ]

  pub spans-IsBlock : (insts : List BundleInst) → All IsBlock (spans leaders insts)
  unfolding spans
  spans-IsBlock [] = tt
  spans-IsBlock (bi ∷ rest) = split-IsBlock 1 bi rest

  -- A leader in a block is its first instruction.
  leader-not-inside :
      (t : ℕ) (prev : BundleInst) (xs : List IndexedInst)
      → has t leaders ≡ true
      → IsStraight prev xs
      → has t (pcs xs) ≡ false
  unfolding has ends_between
  leader-not-inside t prev [] l h = refl
  leader-not-inside t prev ((k, bi) ∷ xs) l h = ground (arith, leader-not-inside t bi xs)

  -- The block that a leader is found in starts with it.
  pub find_block-leader :
      (t d : ℕ) (ss : List Span)
      → has t leaders ≡ true
      → All IsBlock ss
      → find_block t ss ≡ some d
      → d ≡ t
  unfolding find_block has
  find_block-leader t d [] l a h = absurd (cc)
  find_block-leader t d (s ∷ ss) l a h =
      ground (arith, leader-not-inside t s.first.1 s.others, find_block-leader t d ss)
