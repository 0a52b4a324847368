-- ===== src/Decode/One.antt =====
-- `decode_one`: one instruction word, with the prefix that came before it.
use ventus_gpgpu_sbt_simulat.Prelude.{
  ℕ, if◌then◌else◌, String, Bool, true, false, ◌&&◌, none, some, List, str_eq, bit_and, bit_or,
}
use ventus_gpgpu_sbt_simulat.Prelude.Int.{ℤ, pos, negsuc, ◌+ℤ◌, ◌*ℤ◌}
use ventus_gpgpu_sbt_simulat.Words.{to_i32, ◌<<<◌, ◌>>>◌}
use ventus_gpgpu_sbt_simulat.Decode.Types.{
  RegClass, ImmKind, RegextPrefix, DecodedInst, Pattern, blank,
}
use ventus_gpgpu_sbt_simulat.Decode.Fields.{
  sext, imm_i, imm_s, imm_b, imm_u, imm_j, rd5, rs1_5, rs2_5, rs3_5, ext_apply,
}
use ventus_gpgpu_sbt_simulat.Decode.Names.{classify_by_name}
use ventus_gpgpu_sbt_simulat.Decode.Scalar.{decode_scalar}
use ventus_gpgpu_sbt_simulat.Decode.Patterns.{match_pattern, pattern_name}

-- `if (cls != RegClass::None) reg = raw;`
abbrev pub fill : RegClass → ℕ → ℤ → ℤ
fill RegClass.none raw r = r
fill _ raw r = pos raw

-- The immediate of a matched instruction; `vlw_v` and `vsw_v` have 11 bits of it.
unfoldable pub matched_imm : String → ImmKind → ℕ → ℤ → ℤ
matched_imm name ImmKind.i12 w old =
    if str_eq name "vlw_v" then sext (bit_and (w >>> 20) 0x7ff) 11 else sext (imm_i w) 12
matched_imm name ImmKind.s12 w old =
    let hi6 = bit_and (w >>> 25) 0x3f in
    let lo5 = bit_and (w >>> 7) 0x1f in
    if str_eq name "vsw_v" then sext (bit_or (hi6 <<< 5) lo5) 11 else sext (imm_s w) 12
matched_imm name ImmKind.b13 w old = sext (imm_b w) 13
matched_imm name ImmKind.u20 w old = to_i32 (imm_u w)
matched_imm name ImmKind.j21 w old = sext (imm_j w) 21
matched_imm name ImmKind.csr12 w old = pos (bit_and (w >>> 20) 0xfff)
matched_imm name ImmKind.raw12 w old = pos (bit_and (w >>> 20) 0xfff)
matched_imm name ImmKind.uimm5 w old = pos (bit_and (w >>> 15) 0x1f)
matched_imm name ImmKind.simm5 w old = sext (bit_and (w >>> 15) 0x1f) 5
matched_imm name ImmKind.none w old = old

-- The branch of `decode_one` for a word that a pattern matches.
unfoldable pub decode_matched : ℕ → String → DecodedInst → DecodedInst
unfolding classify_by_name
decode_matched w name start =
    let out = classify_by_name name (record start { name = name }) in
    record out {
      rd = fill out.rd_class (rd5 w) out.rd;
      rs1 = fill out.rs1_class (rs1_5 w) out.rs1;
      rs2 = fill out.rs2_class (rs2_5 w) out.rs2;
      rs3 = fill out.rs3_class (rs3_5 w) out.rs3;
      imm = matched_imm name out.imm_kind w out.imm;
    }

-- `if (cls != RegClass::None && reg >= 0) reg = ext_apply(reg, ext);`
abbrev pub extend : RegClass → ℤ → ℕ → ℤ
extend RegClass.none r ext = r
extend _ (pos n) ext = pos (ext_apply n ext)
extend _ (negsuc n) ext = negsuc n

abbrev pub is_imm5 : ImmKind → Bool
is_imm5 ImmKind.uimm5 = true
is_imm5 ImmKind.simm5 = true
is_imm5 _ = false

-- The 6 bits of regexti in front of the 5 bits of the word.
unfoldable pub extended_imm : ℕ → ℕ → ℤ
extended_imm w ext_imm =
    let low5 = bit_and (w >>> 15) 0x1f in
    let ext6 = sext (bit_and ext_imm 0x3f) 6 in ext6 *ℤ pos 32 +ℤ pos low5

unfoldable pub apply_prefix : ℕ → RegextPrefix → DecodedInst → DecodedInst
unfolding extended_imm
apply_prefix w px out =
    if px.valid
    then record out {
      had_regext = true;
      regext = px;
      rd = extend out.rd_class out.rd px.ext_rd;
      rs1 = extend out.rs1_class out.rs1 px.ext_rs1;
      rs2 = extend out.rs2_class out.rs2 px.ext_rs2;
      rs3 = extend out.rs3_class out.rs3 px.ext_rs3;
      imm = if px.validi && is_imm5 out.imm_kind then extended_imm w px.ext_imm else out.imm;
    }
    else out

-- The instruction before the prefix is applied.
unfoldable pub decode_word : ℕ → ℕ → List Pattern → DecodedInst
decode_word pc w patterns = elim (match_pattern w patterns) [
  | some p ↦ decode_matched w (pattern_name p) (blank pc w)
  | none ↦ elim (decode_scalar w (blank pc w)) [ some d ↦ d | none ↦ blank pc w ]
]

unfoldable pub decode_one : ℕ → ℕ → List Pattern → RegextPrefix → DecodedInst
decode_one pc w patterns px = apply_prefix w px (decode_word pc w patterns)
