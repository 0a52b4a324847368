-- ===== src/Decode/Roundtrip.antt =====
-- The decoder of scalar instructions inverts the formats of `Encoding`.
pub mod Upper
pub mod Tables
use ventus_gpgpu_sbt_simulat.Prelude.{
  ℕ, ◌*◌, ◌%◌, ◌^◌, ◌<◌, ◌≡◌, refl, ◌∙◌, arith, String, none, some, ◌==◌, false,
}
use ventus_gpgpu_sbt_simulat.Prelude.Int.{pos}
use ventus_gpgpu_sbt_simulat.Words.{to_i32}
use ventus_gpgpu_sbt_simulat.Decode.Types.{RegClass, ImmKind, DecodedInst}
use ventus_gpgpu_sbt_simulat.Decode.Fields.{opcode}
use ventus_gpgpu_sbt_simulat.Decode.Sext.{signed, sext_lem}
use ventus_gpgpu_sbt_simulat.Decode.Encoding.{
  encode_b, encode_b-BFields, encode_i, encode_i-IFields, encode_s, encode_s-SFields, encode_r,
  encode_r-RFields, encode_u, encode_u-UFields, encode_j, encode_j-UFields,
}
use ventus_gpgpu_sbt_simulat.Decode.Fp.{decode_fp}
use ventus_gpgpu_sbt_simulat.Decode.Scalar.{
  branch_name, load_name, store_name, op_imm_name, op_name, op_imm, decode_base, decode_scalar,
  set_r, set_i, set_s_b, set_u_j,
}

-- No opcode below is one of the floating-point part.
pub decode_fp-eq-none :
    (w : ℕ) (out : DecodedInst) (op : ℕ)
    → opcode w ≡ op
    → (op == 0x07) ≡ false
    → (op == 0x27) ≡ false
    → (op == 0x43) ≡ false
    → (op == 0x47) ≡ false
    → (op == 0x4b) ≡ false
    → (op == 0x4f) ≡ false
    → (op == 0x53) ≡ false
    → decode_fp w out ≡ none
unfolding decode_fp
decode_fp-eq-none w out op e a b c d f g h = rw (e, a, b, c, d, f, g, h)

pub decode_scalar-eq-base :
    (w : ℕ) (out : DecodedInst) → decode_fp w out ≡ none → decode_scalar w out ≡ decode_base w out
unfolding decode_scalar
decode_scalar-eq-base w out e = rw (e, decode_scalar)

-- The B format, under any name that the decoder has for the funct3.
pub decode_named_b :
    (out : DecodedInst) (f3 rs1 rs2 k : ℕ) {n : String}
    → f3 < 8
    → rs1 < 32
    → rs2 < 32
    → k < 4096
    → branch_name f3 ≡ some n
    → decode_scalar (encode_b 0x63 f3 rs1 rs2 (2 * k)) out
      ≡ some (record out {
        name = n;
        rs1_class = RegClass.xreg;
        rs2_class = RegClass.xreg;
        rs1 = pos rs1;
        rs2 = pos rs2;
        imm_kind = ImmKind.b13;
        imm = signed 13 (2 * k);
      })
unfolding decode_base
decode_named_b out f3 rs1 rs2 k p q r s known =
    let w = encode_b 0x63 f3 rs1 rs2 (2 * k) in
    let e = encode_b-BFields 0x63 f3 rs1 rs2 k (omega arith) p q r s in
    let small : 2 * k % 2 ^ 13 ≡ 2 * k = omega arith in
    decode_scalar-eq-base w out
      (decode_fp-eq-none w out 0x63 e.op_eq refl refl refl refl refl refl refl)
    ∙ rw (
      e.op_eq,
      e.f3_eq,
      known,
      e.rs1_eq,
      e.rs2_eq,
      e.imm_eq,
      sext_lem 12 (2 * k) (omega arith),
      small,
      decode_base,
    )

-- The I format of the loads, under any name that the decoder has for the funct3.
pub decode_named_load :
    (out : DecodedInst) (rd f3 rs1 i : ℕ) {n : String}
    → rd < 32
    → f3 < 8
    → rs1 < 32
    → i < 4096
    → load_name f3 ≡ some n
    → decode_scalar (encode_i 0x03 rd f3 rs1 i) out
      ≡ some (record out {
        name = n;
        rd_class = RegClass.xreg;
        rs1_class = RegClass.xreg;
        rd = pos rd;
        rs1 = pos rs1;
        imm_kind = ImmKind.i12;
        imm = signed 12 i;
      })
unfolding decode_base
decode_named_load out rd f3 rs1 i h0 h1 h2 h3 h4 =
    let w = encode_i 0x03 rd f3 rs1 i in
    let e = encode_i-IFields 0x03 rd f3 rs1 i (omega arith) h0 h1 h2 h3 in
    let small : i % 2 ^ 12 ≡ i = omega arith in
    decode_scalar-eq-base w out
      (decode_fp-eq-none w out 0x03 e.op_eq refl refl refl refl refl refl refl)
    ∙ rw (e.op_eq, e.f3_eq, h4, decode_base)
        (rw (e.rd_eq, e.rs1_eq, e.imm_eq, sext_lem 11 i (omega arith), small, set_i))

-- An indirect jump that is encoded by the manual, with register numbers below 32 and a 12-bit
-- offset, decodes to jalr with its registers and its signed offset.
pub decode_scalar-encode_jalr :
    (out : DecodedInst) (rd rs1 i : ℕ)
    → rd < 32
    → rs1 < 32
    → i < 4096
    → decode_scalar (encode_i 0x67 rd 0 rs1 i) out
      ≡ some (record out {
        name = "jalr";
        rd_class = RegClass.xreg;
        rs1_class = RegClass.xreg;
        rd = pos rd;
        rs1 = pos rs1;
        imm_kind = ImmKind.i12;
        imm = signed 12 i;
      })
unfolding decode_base
decode_scalar-encode_jalr out rd rs1 i h0 h1 h2 =
    let w = encode_i 0x67 rd 0 rs1 i in
    let e = encode_i-IFields 0x67 rd 0 rs1 i (omega arith) h0 (omega arith) h1 h2 in
    let small : i % 2 ^ 12 ≡ i = omega arith in
    decode_scalar-eq-base w out
      (decode_fp-eq-none w out 0x67 e.op_eq refl refl refl refl refl refl refl)
    ∙ rw (e.op_eq, e.f3_eq, decode_base)
        (rw (e.rd_eq, e.rs1_eq, e.imm_eq, sext_lem 11 i (omega arith), small, set_i))

-- The I format of the operations, under any name that the decoder has for the funct3.
pub decode_named_op_imm :
    (out : DecodedInst) (rd f3 rs1 i : ℕ) {n : String}
    → rd < 32
    → f3 < 8
    → rs1 < 32
    → i < 4096
    → op_imm_name f3 ≡ some n
    → decode_scalar (encode_i 0x13 rd f3 rs1 i) out
      ≡ some (record out {
        name = n;
        rd_class = RegClass.xreg;
        rs1_class = RegClass.xreg;
        rd = pos rd;
        rs1 = pos rs1;
        imm_kind = ImmKind.i12;
        imm = signed 12 i;
      })
unfolding decode_base
decode_named_op_imm out rd f3 rs1 i h0 h1 h2 h3 h4 =
    let w = encode_i 0x13 rd f3 rs1 i in
    let e = encode_i-IFields 0x13 rd f3 rs1 i (omega arith) h0 h1 h2 h3 in
    let small : i % 2 ^ 12 ≡ i = omega arith in
    decode_scalar-eq-base w out
      (decode_fp-eq-none w out 0x13 e.op_eq refl refl refl refl refl refl refl)
    ∙ rw (e.op_eq, op_imm, e.f3_eq, h4, decode_base)
        (rw (e.rd_eq, e.rs1_eq, e.imm_eq, sext_lem 11 i (omega arith), small, set_i))

-- The S format, under any name that the decoder has for the funct3.
pub decode_named_s :
    (out : DecodedInst) (f3 rs1 rs2 i : ℕ) {n : String}
    → f3 < 8
    → rs1 < 32
    → rs2 < 32
    → i < 4096
    → store_name f3 ≡ some n
    → decode_scalar (encode_s 0x23 f3 rs1 rs2 i) out
      ≡ some (record out {
        name = n;
        rs1_class = RegClass.xreg;
        rs2_class = RegClass.xreg;
        rs1 = pos rs1;
        rs2 = pos rs2;
        imm_kind = ImmKind.s12;
        imm = signed 12 i;
      })
unfolding decode_base
decode_named_s out f3 rs1 rs2 i h0 h1 h2 h3 h4 =
    let w = encode_s 0x23 f3 rs1 rs2 i in
    let e = encode_s-SFields 0x23 f3 rs1 rs2 i (omega arith) h0 h1 h2 h3 in
    let small : i % 2 ^ 12 ≡ i = omega arith in
    decode_scalar-eq-base w out
      (decode_fp-eq-none w out 0x23 e.op_eq refl refl refl refl refl refl refl)
    ∙ rw (e.op_eq, e.f3_eq, h4, decode_base)
        (rw (e.rs1_eq, e.rs2_eq, e.imm_eq, sext_lem 11 i (omega arith), small, set_s_b))

-- The R format, under any name that the decoder has for the funct3 and the funct7.
pub decode_named_r :
    (out : DecodedInst) (rd f3 rs1 rs2 f7 : ℕ) {n : String}
    → rd < 32
    → f3 < 8
    → rs1 < 32
    → rs2 < 32
    → f7 < 128
    → op_name f3 f7 ≡ some n
    → decode_scalar (encode_r 0x33 rd f3 rs1 rs2 f7) out
      ≡ some (record out {
        name = n;
        rd_class = RegClass.xreg;
        rs1_class = RegClass.xreg;
        rs2_class = RegClass.xreg;
        rd = pos rd;
        rs1 = pos rs1;
        rs2 = pos rs2;
      })
unfolding decode_base
decode_named_r out rd f3 rs1 rs2 f7 h0 h1 h2 h3 h4 h5 =
    let w = encode_r 0x33 rd f3 rs1 rs2 f7 in
    let e = encode_r-RFields 0x33 rd f3 rs1 rs2 f7 (omega arith) h0 h1 h2 h3 h4 in
    decode_scalar-eq-base w out
      (decode_fp-eq-none w out 0x33 e.op_eq refl refl refl refl refl refl refl)
    ∙ rw (e.op_eq, e.f3_eq, e.f7_eq, h5, decode_base) (rw (e.rd_eq, e.rs1_eq, e.rs2_eq, set_r))
