-- ===== src/Decode/Text.antt =====
-- `decode_text`: the whole of .text.
use ventus_gpgpu_sbt_simulat.Prelude.{
  ℕ, ◌+◌, ◌%◌, if◌then◌else◌, ◌==◌, true, false, ◌&&◌, Option, none, some, List, [], ◌∷◌, length,
  str_eq, bit_and,
}
use ventus_gpgpu_sbt_simulat.Prelude.Result.{Result, ok, err, ◌>>=◌}
use ventus_gpgpu_sbt_simulat.Words.{u32, ◌>>>◌}
use ventus_gpgpu_sbt_simulat.Decode.Types.{
  RegextPrefix, DecodedInst, DecodeOptions, Pattern, no_prefix,
}
use ventus_gpgpu_sbt_simulat.Decode.Fields.{read_u32_le}
use ventus_gpgpu_sbt_simulat.Decode.Patterns.{match_pattern, pattern_name}
use ventus_gpgpu_sbt_simulat.Decode.Order.{sort_patterns}
use ventus_gpgpu_sbt_simulat.Decode.One.{decode_one}

-- What `decode_text` throws, each with the pc that its message shows.
pub data DecodeError : Type 0 where
  bad_size : DecodeError
  nested_regext unknown_instruction dangling_regext : ℕ → DecodeError

-- The words that the loop reads, four bytes at a time.
unfoldable pub words : List ℕ → List ℕ
unfolding read_u32_le
words (b0 ∷ b1 ∷ b2 ∷ b3 ∷ rest) = read_u32_le b0 b1 b2 b3 ∷ words rest
words _ = []

-- The prefix that `regext` sets up.
unfoldable pub regext_prefix : ℕ → ℕ → RegextPrefix
regext_prefix pc w =
    let imm12 = bit_and (w >>> 20) 0xfff in
    record {
      valid = true;
      validi = false;
      pc = pc;
      imm12 = imm12;
      ext_rd = bit_and imm12 7;
      ext_rs1 = bit_and (imm12 >>> 3) 7;
      ext_rs2 = bit_and (imm12 >>> 6) 7;
      ext_rs3 = bit_and (imm12 >>> 9) 7;
      ext_imm = 0;
    }

-- The prefix that `regexti` sets up.
unfoldable pub regexti_prefix : ℕ → ℕ → RegextPrefix
regexti_prefix pc w =
    let imm12 = bit_and (w >>> 20) 0xfff in
    record {
      valid = true;
      validi = true;
      pc = pc;
      imm12 = imm12;
      ext_rd = bit_and imm12 7;
      ext_rs1 = 0;
      ext_rs2 = bit_and (imm12 >>> 3) 7;
      ext_rs3 = 0;
      ext_imm = bit_and (imm12 >>> 6) 0x3f;
    }

module _ (opt : DecodeOptions) (patterns : List Pattern) where
  -- The prefix that a word is, when prefixes are bundled.
  unfoldable pub prefix_of : ℕ → ℕ → Option RegextPrefix
  prefix_of pc w =
      if opt.bundle_regext
      then elim (match_pattern w patterns) [
        | none ↦ none
        | some p ↦
            if str_eq (pattern_name p) "regext"
            then some (regext_prefix pc w)
            else if str_eq (pattern_name p) "regexti"
            then some (regexti_prefix pc w)
            else none
      ]
      else none

  -- The loop of `decode_text` from offset `off` on, with the prefix that is pending.
  unfoldable pub decode_loop : ℕ → ℕ → List ℕ → RegextPrefix → Result DecodeError (List DecodedInst)
  decode_loop vaddr off [] px = if px.valid then err (dangling_regext px.pc) else ok []
  decode_loop vaddr off (w ∷ ws) px =
      let pc = u32 (vaddr + u32 off) in
      elim (prefix_of pc w) [
        | some px' ↦ elim px.valid [
          | true ↦ err (nested_regext pc)
          | false ↦ decode_loop vaddr (off + 4) ws px'
        ]
        | none ↦
            let di = decode_one pc w patterns px in
            elim (opt.require_known && str_eq di.name "unknown") [
              | true ↦ err (unknown_instruction pc)
              | false ↦ do rest ← decode_loop vaddr (off + 4) ws no_prefix; ok (di ∷ rest)
            ]
      ]

unfoldable pub decode_text :
    List ℕ → ℕ → DecodeOptions → List Pattern → Result DecodeError (List DecodedInst)
decode_text text text_vaddr opt patterns_in =
    if length text % 4 == 0
    then decode_loop opt (sort_patterns patterns_in) text_vaddr 0 (words text) no_prefix
    else err bad_size
