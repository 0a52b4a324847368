-- ===== src/Decode/Stream.antt =====
-- The stream of words as a sequence of items, each an instruction that a prefix may precede, and
-- the loop of `decode_text` as a parser of it.
pub mod Parse
use ventus_gpgpu_sbt_simulat.Prelude.{
  ℕ, ◌+◌, ◌<◌, ◌≡◌, refl, arith, Bool, true, false, ◌&&◌, ◌⊎◌, inl, inr, bit_and, Option, none,
  some, List, [], ◌∷◌, str_eq,
}
use ventus_gpgpu_sbt_simulat.Words.{u32, bit_and_mask}
use ventus_gpgpu_sbt_simulat.Decode.Types.{
  RegextPrefix, DecodedInst, DecodeOptions, Pattern, no_prefix,
}
use ventus_gpgpu_sbt_simulat.Decode.Operands.{IsPrefix}
use ventus_gpgpu_sbt_simulat.Decode.One.{decode_one}
use ventus_gpgpu_sbt_simulat.Decode.Text.{regext_prefix, regexti_prefix, prefix_of}

-- An instruction word, and one behind a prefix word.
pub data Item : Type 0 where
  plain : ℕ → Item
  extended : ℕ → ℕ → Item

-- The words of the items, in order.
unfoldable pub layout : List Item → List ℕ
layout [] = []
layout (plain w ∷ is) = w ∷ layout is
layout (extended p w ∷ is) = p ∷ w ∷ layout is

abbrev pub pc_at : ℕ → ℕ → ℕ
pc_at vaddr off = u32 (vaddr + u32 off)

module _ (opt : DecodeOptions) (patterns : List Pattern) (vaddr : ℕ) where
  -- The instruction of a word at an offset, under a prefix.
  abbrev pub inst_at : ℕ → ℕ → RegextPrefix → DecodedInst
  inst_at off w px = decode_one (pc_at vaddr off) w patterns px

  -- The word is no prefix, and is known where that is required.
  abbrev pub IsInst : ℕ → ℕ → RegextPrefix → Type 0
  IsInst off w px =
      (prefix_of opt patterns (pc_at vaddr off) w ≡ none)
      × ((opt.require_known && str_eq (inst_at off w px).name "unknown") ≡ false)

  -- Each item is an instruction, and each prefix word a prefix.
  pub data Parses : ℕ → List Item → List DecodedInst → Type 0 where
    done : {off : ℕ} → Parses off [] []
    plain_item :
        {off : ℕ} {w : ℕ} {is : List Item} {ds : List DecodedInst}
        → IsInst off w no_prefix
        → Parses (off + 4) is ds
        → Parses off (plain w ∷ is) (inst_at off w no_prefix ∷ ds)
    extended_item :
        {off : ℕ} {p w : ℕ} {px : RegextPrefix} {is : List Item} {ds : List DecodedInst}
        → prefix_of opt patterns (pc_at vaddr off) p ≡ some px
        → IsInst (off + 4) w px
        → Parses (off + 4 + 4) is ds
        → Parses off (extended p w ∷ is) (inst_at (off + 4) w px ∷ ds)

-- What `decode_text` keeps of a prefix word.
pub record PrefixFacts (pc : ℕ) (px : RegextPrefix) : Type 0 where
  pub is_valid : px.valid ≡ true
  pub own_pc : px.pc ≡ pc
  pub small : IsPrefix px

three_bits : (x : ℕ) → bit_and x 7 < 8
three_bits x = omega (arith, bit_and_mask 3 x)

regext_prefix-PrefixFacts : (pc w : ℕ) → PrefixFacts pc (regext_prefix pc w)
unfolding regext_prefix
regext_prefix-PrefixFacts pc w = record {
  is_valid = refl;
  own_pc = refl;
  small = record {
    rd_small = three_bits _;
    rs1_small = three_bits _;
    rs2_small = three_bits _;
    rs3_small = three_bits _;
  };
}

regexti_prefix-PrefixFacts : (pc w : ℕ) → PrefixFacts pc (regexti_prefix pc w)
unfolding regexti_prefix
regexti_prefix-PrefixFacts pc w = record {
  is_valid = refl;
  own_pc = refl;
  small = record {
    rd_small = three_bits _;
    rs1_small = omega arith;
    rs2_small = three_bits _;
    rs3_small = omega arith;
  };
}

forms :
    (opt : DecodeOptions) (patterns : List Pattern) (pc w : ℕ) (px : RegextPrefix)
    → prefix_of opt patterns pc w ≡ some px
    → (px ≡ regext_prefix pc w) ⊎ (px ≡ regexti_prefix pc w)
unfolding prefix_of
forms opt patterns pc w px h = ground arith

pub prefix_of-PrefixFacts :
    (opt : DecodeOptions) (patterns : List Pattern) (pc w : ℕ) (px : RegextPrefix)
    → prefix_of opt patterns pc w ≡ some px
    → PrefixFacts pc px
prefix_of-PrefixFacts opt patterns pc w px h = elim (forms opt patterns pc w px h) [
  | inl e ↦ rw e (regext_prefix-PrefixFacts pc w)
  | inr e ↦ rw e (regexti_prefix-PrefixFacts pc w)
]
