-- ===== src/Decode/Roundtrip/Upper.antt =====
-- The formats without source registers: upper immediates and jumps.
use ventus_gpgpu_sbt_simulat.Prelude.{ℕ, ◌*◌, ◌%◌, ◌^◌, ◌<◌, ◌≡◌, refl, ◌∙◌, arith, some}
use ventus_gpgpu_sbt_simulat.Prelude.Int.{pos}
use ventus_gpgpu_sbt_simulat.Words.{to_i32}
use ventus_gpgpu_sbt_simulat.Decode.Types.{RegClass, ImmKind, DecodedInst}
use ventus_gpgpu_sbt_simulat.Decode.Sext.{signed, sext_lem}
use ventus_gpgpu_sbt_simulat.Decode.Encoding.{
  encode_u, encode_u-UFields, encode_j, encode_j-UFields,
}
use ventus_gpgpu_sbt_simulat.Decode.Scalar.{decode_base, decode_scalar, set_u_j}
use ventus_gpgpu_sbt_simulat.Decode.Roundtrip.{decode_fp-eq-none, decode_scalar-eq-base}

-- lui with a register number below 32 and a 20-bit immediate decodes to its register and its upper
-- immediate.
pub decode_scalar-encode_lui :
    (out : DecodedInst) (rd u : ℕ)
    → rd < 32
    → u < 2 ^ 20
    → decode_scalar (encode_u 0x37 rd u) out
      ≡ some (record out {
        name = "lui";
        rd_class = RegClass.xreg;
        rd = pos rd;
        imm_kind = ImmKind.u20;
        imm = to_i32 (u * 2 ^ 12);
      })
unfolding decode_base
decode_scalar-encode_lui out rd u h0 h1 =
    let w = encode_u 0x37 rd u in
    let e = encode_u-UFields 0x37 rd u (omega arith) h0 h1 in
    decode_scalar-eq-base w out
      (decode_fp-eq-none w out 0x37 e.op_eq refl refl refl refl refl refl refl)
    ∙ rw (e.op_eq, decode_base) (rw (e.rd_eq, e.imm_eq, set_u_j))

-- auipc with a register number below 32 and a 20-bit immediate decodes to its register and its
-- upper immediate.
pub decode_scalar-encode_auipc :
    (out : DecodedInst) (rd u : ℕ)
    → rd < 32
    → u < 2 ^ 20
    → decode_scalar (encode_u 0x17 rd u) out
      ≡ some (record out {
        name = "auipc";
        rd_class = RegClass.xreg;
        rd = pos rd;
        imm_kind = ImmKind.u20;
        imm = to_i32 (u * 2 ^ 12);
      })
unfolding decode_base
decode_scalar-encode_auipc out rd u h0 h1 =
    let w = encode_u 0x17 rd u in
    let e = encode_u-UFields 0x17 rd u (omega arith) h0 h1 in
    decode_scalar-eq-base w out
      (decode_fp-eq-none w out 0x17 e.op_eq refl refl refl refl refl refl refl)
    ∙ rw (e.op_eq, decode_base) (rw (e.rd_eq, e.imm_eq, set_u_j))

-- A jump-and-link that is encoded by the manual, with a register number below 32 and an even 21-bit
-- offset, decodes to its register and its signed offset.
pub decode_scalar-encode_j :
    (out : DecodedInst) (rd k : ℕ)
    → rd < 32
    → k < 2 ^ 20
    → decode_scalar (encode_j 0x6f rd (2 * k)) out
      ≡ some (record out {
        name = "jal";
        rd_class = RegClass.xreg;
        rd = pos rd;
        imm_kind = ImmKind.j21;
        imm = signed 21 (2 * k);
      })
unfolding decode_base
decode_scalar-encode_j out rd k h0 h1 =
    let w = encode_j 0x6f rd (2 * k) in
    let e = encode_j-UFields 0x6f rd k (omega arith) h0 h1 in
    let small : 2 * k % 2 ^ 21 ≡ 2 * k = omega arith in
    decode_scalar-eq-base w out
      (decode_fp-eq-none w out 0x6f e.op_eq refl refl refl refl refl refl refl)
    ∙ rw (e.op_eq, decode_base)
        (rw (e.rd_eq, e.imm_eq, sext_lem 20 (2 * k) (omega arith), small, set_u_j))
