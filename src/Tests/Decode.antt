-- ===== src/Tests/Decode.antt =====
-- The decoder on a text of two words: a `regext` prefix and an `addi` that it extends.
use ventus_gpgpu_sbt_simulat.Prelude.{
  ℕ, ◌+◌, ◌*◌, ◌%◌, ◌^◌, ◌≤◌, ◌≡◌, refl, arith, true, none, some, List, [], ◌∷◌, All, In, inl,
  length,
}
use ventus_gpgpu_sbt_simulat.Prelude.Int.{pos}
use ventus_gpgpu_sbt_simulat.Prelude.Result.{ok, err}
use ventus_gpgpu_sbt_simulat.Words.{to_i32}
use ventus_gpgpu_sbt_simulat.Decode.Types.{
  RegClass, ImmKind, DecodedInst, DecodeOptions, Pattern, blank, no_prefix, class_to_string,
  imm_kind_to_string, rounding_to_string, FpRoundingMode,
}
use ventus_gpgpu_sbt_simulat.Decode.Text.{
  decode_text, words, decode_loop, prefix_of, regext_prefix, dangling_regext, nested_regext,
  bad_size, unknown_instruction,
}
use ventus_gpgpu_sbt_simulat.Decode.Fields.{
  read_u32_le, sext, imm_i, opcode, rd5, funct3, rs1_5, ext_apply,
}
use ventus_gpgpu_sbt_simulat.Decode.Fp.{decode_fp}
use ventus_gpgpu_sbt_simulat.Decode.Scalar.{
  op_imm_name, op_name, op_imm, set_i, decode_base, decode_scalar,
}
use ventus_gpgpu_sbt_simulat.Decode.Order.{popcount, sort_patterns}
use ventus_gpgpu_sbt_simulat.Decode.Patterns.{match_pattern}
use ventus_gpgpu_sbt_simulat.Decode.Patterns.Best.{
  IsBest, Fits, match_pattern-IsBest, match_pattern-popcount,
}
use ventus_gpgpu_sbt_simulat.Decode.One.{apply_prefix, decode_word, decode_one}
use ventus_gpgpu_sbt_simulat.Decode.Sext.{signed, sext_lem, read_u32_le_digits}
use ventus_gpgpu_sbt_simulat.Decode.Encoding.{
  encode_b, encode_i, encode_s, encode_r, encode_u, encode_j,
}
use ventus_gpgpu_sbt_simulat.Ptx.Riscv.{RegOp, reg_name}
use ventus_gpgpu_sbt_simulat.Decode.Manual.{Branch, Load, Store, OpImm}
use ventus_gpgpu_sbt_simulat.Decode.Roundtrip.{decode_scalar-encode_jalr}
use ventus_gpgpu_sbt_simulat.Decode.Roundtrip.Tables.{
  decode_scalar-encode_b, decode_scalar-encode_load, decode_scalar-encode_op_imm,
  decode_scalar-encode_s, decode_scalar-encode_r,
}
use ventus_gpgpu_sbt_simulat.Decode.Roundtrip.Upper.{
  decode_scalar-encode_lui, decode_scalar-encode_auipc, decode_scalar-encode_j,
}
use ventus_gpgpu_sbt_simulat.Decode.Operands.{HasOperands}
use ventus_gpgpu_sbt_simulat.Decode.Stream.{Item, layout, Parses}
use ventus_gpgpu_sbt_simulat.Decode.Whole.{decode_text_iff, decode_text-HasOperands}

abbrev regext_pattern : Pattern
regext_pattern = record { name = some "regext"; match = 0x200b; mask = 0x707f }

abbrev table : List Pattern
table = regext_pattern ∷ []

abbrev options : DecodeOptions
options = record { bundle_regext = true; require_known = true }

abbrev code : List ℕ
code = 0x0b ∷ 0x20 ∷ 0x10 ∷ 0x04 ∷ 0x93 ∷ 0x00 ∷ 0x10 ∷ 0x00 ∷ []

-- addi x33, x0, 1, whose number is extended by the prefix.
abbrev addi : DecodedInst
addi = record (blank 0x1004 0x0010_0093) {
  name = "addi";
  rd_class = RegClass.xreg;
  rs1_class = RegClass.xreg;
  rd = pos 33;
  rs1 = pos 0;
  imm_kind = ImmKind.i12;
  imm = pos 1;
  had_regext = true;
  regext = record no_prefix { valid = true; pc = 0x1000; imm12 = 65; ext_rd = 1; ext_rs2 = 1 };
}

decodes : decode_text code 0x1000 options table ≡ ok (addi ∷ [])
unfolding decode_text words read_u32_le decode_loop prefix_of match_pattern sort_patterns
    regext_prefix decode_one decode_word decode_scalar decode_fp decode_base op_imm set_i opcode rd5
    funct3 rs1_5 imm_i sext apply_prefix ext_apply op_imm_name
decodes = refl

-- What it throws.
bad_size_throws : decode_text (1 ∷ []) 0 options table ≡ err bad_size
unfolding decode_text
bad_size_throws = refl

dangling_throws :
    decode_text (0x0b ∷ 0x20 ∷ 0x10 ∷ 0x04 ∷ []) 0x1000 options table ≡ err (dangling_regext 0x1000)
unfolding decode_text words read_u32_le decode_loop prefix_of match_pattern sort_patterns
    regext_prefix
dangling_throws = refl

nested_throws :
    decode_text (0x0b ∷ 0x20 ∷ 0x10 ∷ 0x04 ∷ 0x0b ∷ 0x20 ∷ 0x10 ∷ 0x04 ∷ []) 0x1000 options table
    ≡ err (nested_regext 0x1004)
unfolding decode_text words read_u32_le decode_loop prefix_of match_pattern sort_patterns
    regext_prefix
nested_throws = refl

unknown_throws : decode_text (0 ∷ 0 ∷ 0 ∷ 0 ∷ []) 0 options table ≡ err (unknown_instruction 0)
unfolding decode_text words read_u32_le decode_loop prefix_of match_pattern sort_patterns decode_one
    decode_word decode_scalar decode_fp decode_base opcode apply_prefix
unknown_throws = refl

-- A funct7 that the manual reserves is accepted with funct3 = 1.
reserved_funct7 : op_name 1 0x40 ≡ some "sll"
unfolding op_name
reserved_funct7 = refl

class_spelling : class_to_string RegClass.vreg ≡ "v"
unfolding class_to_string
class_spelling = refl

imm_spelling : imm_kind_to_string ImmKind.csr12 ≡ "csr12"
unfolding imm_kind_to_string
imm_spelling = refl

rounding_spelling : rounding_to_string FpRoundingMode.dyn ≡ "dyn"
unfolding rounding_to_string
rounding_spelling = refl

decode_text_iff_example :
    (length code % 4 ≡ 0)
    × ((is : List Item) × (layout is ≡ words code)
        × Parses options (sort_patterns table) 0x1000 0 is (addi ∷ []))
decode_text_iff_example = (decode_text_iff code 0x1000 options table (addi ∷ [])).0 decodes

decode_text-HasOperands_example : All (HasOperands 256) (addi ∷ [])
decode_text-HasOperands_example =
    decode_text-HasOperands code 0x1000 options table (addi ∷ []) decodes

regext_found : match_pattern 0x0410_200b (sort_patterns table) ≡ some regext_pattern
unfolding match_pattern sort_patterns
regext_found = refl

match_pattern-IsBest_example :
    ((p : Pattern)
      → match_pattern 0x0410_200b (sort_patterns table) ≡ some p
      → IsBest 0x0410_200b table p)
    × (match_pattern 0x0410_200b (sort_patterns table) ≡ none
        → (q : Pattern) → In q table
        → ¬ (Fits 0x0410_200b q))
match_pattern-IsBest_example = match_pattern-IsBest 0x0410_200b table

match_pattern-popcount_example : popcount 0x707f ≤ popcount 0x707f
match_pattern-popcount_example =
    match_pattern-popcount 0x0410_200b table regext_pattern regext_pattern regext_found (inl refl)
      ((λ e. absurd (cc)), refl)

sext_lem_example : sext 0xfff 12 ≡ signed 12 (0xfff % 2 ^ 12)
sext_lem_example = sext_lem 11 0xfff (omega arith)

read_u32_le_digits_example :
    read_u32_le 0x93 0x00 0x10 0x00 ≡ 0x93 + 0x00 * 2 ^ 8 + 0x10 * 2 ^ 16 + 0x00 * 2 ^ 24
read_u32_le_digits_example =
    read_u32_le_digits 0x93 0x00 0x10 0x00 (omega arith) (omega arith) (omega arith) (omega arith)

abbrev start : DecodedInst
start = blank 0 0

decode_scalar-encode_b_example :
    decode_scalar (encode_b 0x63 1 2 3 (2 * 4092)) start
    ≡ some (record start {
      name = "bne";
      rs1_class = RegClass.xreg;
      rs2_class = RegClass.xreg;
      rs1 = pos 2;
      rs2 = pos 3;
      imm_kind = ImmKind.b13;
      imm = signed 13 (2 * 4092);
    })
decode_scalar-encode_b_example =
    decode_scalar-encode_b start Branch.bne 2 3 4092 (omega arith) (omega arith) (omega arith)

decode_scalar-encode_load_example :
    decode_scalar (encode_i 0x03 5 2 6 0xff0) start
    ≡ some (record start {
      name = "lw";
      rd_class = RegClass.xreg;
      rs1_class = RegClass.xreg;
      rd = pos 5;
      rs1 = pos 6;
      imm_kind = ImmKind.i12;
      imm = signed 12 0xff0;
    })
decode_scalar-encode_load_example =
    decode_scalar-encode_load start Load.lw 5 6 0xff0 (omega arith) (omega arith) (omega arith)

decode_scalar-encode_jalr_example :
    decode_scalar (encode_i 0x67 5 0 6 0xff0) start
    ≡ some (record start {
      name = "jalr";
      rd_class = RegClass.xreg;
      rs1_class = RegClass.xreg;
      rd = pos 5;
      rs1 = pos 6;
      imm_kind = ImmKind.i12;
      imm = signed 12 0xff0;
    })
decode_scalar-encode_jalr_example =
    decode_scalar-encode_jalr start 5 6 0xff0 (omega arith) (omega arith) (omega arith)

decode_scalar-encode_op_imm_example :
    decode_scalar (encode_i 0x13 5 0 6 0xff0) start
    ≡ some (record start {
      name = "addi";
      rd_class = RegClass.xreg;
      rs1_class = RegClass.xreg;
      rd = pos 5;
      rs1 = pos 6;
      imm_kind = ImmKind.i12;
      imm = signed 12 0xff0;
    })
decode_scalar-encode_op_imm_example =
    decode_scalar-encode_op_imm start OpImm.addi 5 6 0xff0 (omega arith) (omega arith) (omega arith)

decode_scalar-encode_s_example :
    decode_scalar (encode_s 0x23 2 6 7 0xff0) start
    ≡ some (record start {
      name = "sw";
      rs1_class = RegClass.xreg;
      rs2_class = RegClass.xreg;
      rs1 = pos 6;
      rs2 = pos 7;
      imm_kind = ImmKind.s12;
      imm = signed 12 0xff0;
    })
decode_scalar-encode_s_example =
    decode_scalar-encode_s start Store.sw 6 7 0xff0 (omega arith) (omega arith) (omega arith)

decode_scalar-encode_r_example :
    decode_scalar (encode_r 0x33 5 0 6 7 0x20) start
    ≡ some (record start {
      name = "sub";
      rd_class = RegClass.xreg;
      rs1_class = RegClass.xreg;
      rs2_class = RegClass.xreg;
      rd = pos 5;
      rs1 = pos 6;
      rs2 = pos 7;
    })
unfolding reg_name
decode_scalar-encode_r_example =
    decode_scalar-encode_r start RegOp.op_sub 5 6 7 (omega arith) (omega arith) (omega arith)

decode_scalar-encode_lui_example :
    decode_scalar (encode_u 0x37 5 0x80000) start
    ≡ some (record start {
      name = "lui";
      rd_class = RegClass.xreg;
      rd = pos 5;
      imm_kind = ImmKind.u20;
      imm = to_i32 (0x80000 * 2 ^ 12);
    })
decode_scalar-encode_lui_example =
    decode_scalar-encode_lui start 5 0x80000 (omega arith) (omega arith)

decode_scalar-encode_auipc_example :
    decode_scalar (encode_u 0x17 5 0x80000) start
    ≡ some (record start {
      name = "auipc";
      rd_class = RegClass.xreg;
      rd = pos 5;
      imm_kind = ImmKind.u20;
      imm = to_i32 (0x80000 * 2 ^ 12);
    })
decode_scalar-encode_auipc_example =
    decode_scalar-encode_auipc start 5 0x80000 (omega arith) (omega arith)

decode_scalar-encode_j_example :
    decode_scalar (encode_j 0x6f 1 (2 * 0xffffe)) start
    ≡ some (record start {
      name = "jal";
      rd_class = RegClass.xreg;
      rd = pos 1;
      imm_kind = ImmKind.j21;
      imm = signed 21 (2 * 0xffffe);
    })
decode_scalar-encode_j_example = decode_scalar-encode_j start 1 0xffffe (omega arith) (omega arith)
