-- ===== src/Decode/Whole.antt =====
-- `decode_text` as a whole: when it succeeds, what it returns, and what it throws.
use ventus_gpgpu_sbt_simulat.Prelude.{ℕ, ◌+◌, ◌%◌, ◌≡◌, ◌↔◌, arith, List, All, length}
use ventus_gpgpu_sbt_simulat.Prelude.Result.{ok}
use ventus_gpgpu_sbt_simulat.Decode.Types.{DecodedInst, DecodeOptions, Pattern, no_prefix}
use ventus_gpgpu_sbt_simulat.Decode.Order.{sort_patterns}
use ventus_gpgpu_sbt_simulat.Decode.Operands.{HasOperands, IsPrefix, decode_one-HasOperands}
use ventus_gpgpu_sbt_simulat.Decode.Text.{words, decode_text}
use ventus_gpgpu_sbt_simulat.Decode.Stream.{
  Item, layout, Parses, done, plain_item, extended_item, prefix_of-PrefixFacts, pc_at,
}
use ventus_gpgpu_sbt_simulat.Decode.Stream.Parse.{decode_loop_iff}

-- decode_text succeeds with ds exactly when the size is a multiple of four and the words are the
-- layout of items, each an instruction that one prefix word may precede, that decode to ds, with no
-- unknown instruction where that is required.
pub decode_text_iff :
    (text : List ℕ) (vaddr : ℕ) (opt : DecodeOptions) (ps : List Pattern) (ds : List DecodedInst)
    → (decode_text text vaddr opt ps ≡ ok ds) ↔ (
        (length text % 4 ≡ 0)
        × ((is : List Item) × (layout is ≡ words text)
            × Parses opt (sort_patterns ps) vaddr 0 is ds))
unfolding decode_text
decode_text_iff text vaddr opt ps ds =
    ground (arith, decode_loop_iff opt (sort_patterns ps) vaddr 0 (words text) ds)

no_prefix-IsPrefix : IsPrefix no_prefix
no_prefix-IsPrefix = omega arith

Parses-HasOperands :
    (opt : DecodeOptions) (ps : List Pattern) (vaddr : ℕ) {off : ℕ} {is : List Item}
    {ds : List DecodedInst}
    → Parses opt ps vaddr off is ds
    → All (HasOperands 256) ds
Parses-HasOperands opt ps vaddr done = tt
Parses-HasOperands opt ps vaddr (plain_item {off} {w} h p) = (
  decode_one-HasOperands (pc_at vaddr off) w ps no_prefix no_prefix-IsPrefix,
  Parses-HasOperands opt ps vaddr p,
)
Parses-HasOperands opt ps vaddr (extended_item {off} {p = p} {w} {px} pre h rest) = (
  decode_one-HasOperands (pc_at vaddr (off + 4)) w ps px
      (prefix_of-PrefixFacts opt ps (pc_at vaddr off) p px pre).small,
  Parses-HasOperands opt ps vaddr rest,
)

-- Every instruction that decode_text returns has a register number below 256 exactly for the
-- operands that its classes name, and -1 for the others.
pub decode_text-HasOperands :
    (text : List ℕ) (vaddr : ℕ) (opt : DecodeOptions) (ps : List Pattern) (ds : List DecodedInst)
    → decode_text text vaddr opt ps ≡ ok ds
    → All (HasOperands 256) ds
decode_text-HasOperands text vaddr opt ps ds h =
    let (size, (is, e, p)) = (decode_text_iff text vaddr opt ps ds).0 h in
    Parses-HasOperands opt (sort_patterns ps) vaddr p
