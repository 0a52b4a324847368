-- ===== src/Ptx/Fclass.antt =====
-- sbt/ptx_emit.cpp: FCLASS.S, the class of a floating-point number as a mask of ten bits.
use ventus_gpgpu_sbt_simulat.Prelude.{ℕ, List, [], ◌∷◌, ◌++◌}
use ventus_gpgpu_sbt_simulat.Decode.Types.{DecodedInst}
use ventus_gpgpu_sbt_simulat.Ptx.Lines.{Line, r, p, op, dec, zero_imm, hex}
use ventus_gpgpu_sbt_simulat.Ptx.Emit.{
  EmitCtx, Emit, emit_lines, ◌>>◌, emit_ld_x_u32_all, emit_st_x_u32_all,
}

-- The sign is in `%p1`; zero, subnormal, infinite, NaN and normal are `%p5` to `%p9`, a quiet NaN is
-- `%p10` and a signaling one `%p11`, and `%p12` to `%p15` are the infinities and the zeros.
abbrev test_lines : List Line
test_lines =
    op "and.b32" (r 15 ∷ r 14 ∷ hex 0x80000000 ∷ [])
    ∷ op "and.b32" (r 16 ∷ r 14 ∷ hex 0x7f800000 ∷ [])
    ∷ op "and.b32" (r 17 ∷ r 14 ∷ hex 0x007fffff ∷ [])
    ∷ op "setp.ne.u32" (p 1 ∷ r 15 ∷ zero_imm ∷ [])
    ∷ op "setp.eq.u32" (p 2 ∷ r 16 ∷ zero_imm ∷ [])
    ∷ op "setp.eq.u32" (p 3 ∷ r 16 ∷ hex 0x7f800000 ∷ [])
    ∷ op "setp.eq.u32" (p 4 ∷ r 17 ∷ zero_imm ∷ [])
    ∷ op "and.pred" (p 5 ∷ p 2 ∷ p 4 ∷ [])
    ∷ op "not.pred" (p 6 ∷ p 4 ∷ [])
    ∷ op "and.pred" (p 6 ∷ p 2 ∷ p 6 ∷ [])
    ∷ op "and.pred" (p 7 ∷ p 3 ∷ p 4 ∷ [])
    ∷ op "not.pred" (p 8 ∷ p 4 ∷ [])
    ∷ op "and.pred" (p 8 ∷ p 3 ∷ p 8 ∷ [])
    ∷ op "not.pred" (p 9 ∷ p 2 ∷ [])
    ∷ op "not.pred" (p 10 ∷ p 3 ∷ [])
    ∷ op "and.pred" (p 9 ∷ p 9 ∷ p 10 ∷ [])
    ∷ op "and.b32" (r 18 ∷ r 17 ∷ hex 0x00400000 ∷ [])
    ∷ op "setp.ne.u32" (p 10 ∷ r 18 ∷ zero_imm ∷ [])
    ∷ op "and.pred" (p 10 ∷ p 8 ∷ p 10 ∷ [])
    ∷ op "not.pred" (p 11 ∷ p 10 ∷ [])
    ∷ op "and.pred" (p 11 ∷ p 8 ∷ p 11 ∷ [])
    ∷ op "mov.u32" (r 19 ∷ zero_imm ∷ [])
    ∷ op "and.pred" (p 12 ∷ p 7 ∷ p 1 ∷ [])
    ∷ op "not.pred" (p 13 ∷ p 1 ∷ [])
    ∷ op "and.pred" (p 13 ∷ p 7 ∷ p 13 ∷ [])
    ∷ op "and.pred" (p 14 ∷ p 5 ∷ p 1 ∷ [])
    ∷ op "not.pred" (p 15 ∷ p 1 ∷ [])
    ∷ op "and.pred" (p 15 ∷ p 5 ∷ p 15 ∷ [])
    ∷ []

-- `or_if`: the bit is set in `%r19` where the predicate holds.
abbrev or_if : ℕ → ℕ → List Line
or_if pred bit =
    op "selp.u32" (r 20 ∷ dec bit ∷ zero_imm ∷ p pred ∷ [])
    ∷ op "or.b32" (r 19 ∷ r 19 ∷ r 20 ∷ [])
    ∷ []

abbrev mask_lines : List Line
mask_lines =
    or_if 12 1
    ++ or_if 13 128
    ++ or_if 14 8
    ++ or_if 15 16
    ++ (op "and.pred" (p 12 ∷ p 6 ∷ p 1 ∷ [])
        ∷ op "not.pred" (p 13 ∷ p 1 ∷ [])
        ∷ op "and.pred" (p 13 ∷ p 6 ∷ p 13 ∷ [])
        ∷ [])
    ++ or_if 12 4
    ++ or_if 13 32
    ++ (op "and.pred" (p 12 ∷ p 9 ∷ p 1 ∷ [])
        ∷ op "not.pred" (p 13 ∷ p 1 ∷ [])
        ∷ op "and.pred" (p 13 ∷ p 9 ∷ p 13 ∷ [])
        ∷ [])
    ++ or_if 12 2
    ++ or_if 13 64
    ++ or_if 11 256
    ++ or_if 10 512

unfoldable pub fclass_lines : List Line
fclass_lines = test_lines ++ mask_lines

unfoldable pub emit_scalar_fclass_s : EmitCtx → DecodedInst → Emit
emit_scalar_fclass_s c di =
    emit_ld_x_u32_all c (r 14) di.rs1 di.pc
    >> emit_lines fclass_lines
    >> emit_st_x_u32_all c di.rd (r 19) di.pc
