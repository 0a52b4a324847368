-- ===== src/Ptx/VectorConvert.antt =====
-- sbt/ptx_emit.cpp, `emit_one_inst`: conversions and classes of the vector registers.
use ventus_gpgpu_sbt_simulat.Prelude.{str_eq, Option, none, some, List, [], ◌∷◌, if◌then◌else◌}
use ventus_gpgpu_sbt_simulat.Decode.Types.{DecodedInst}
use ventus_gpgpu_sbt_simulat.Ptx.Lines.{Line, Guard, r, p, f, v, op, dec, zero_imm, inst, hex, word}
use ventus_gpgpu_sbt_simulat.Ptx.Emit.{EmitCtx, Emit, emit_lines}

module _ (c : EmitCtx) (di : DecodedInst) where
  abbrev pub vfclass_lines : List Line
  vfclass_lines =
      op "mov.u32" (r 14 ∷ v di.rs2 ∷ [])
      ∷ op "and.b32" (r 15 ∷ r 14 ∷ hex 0x80000000 ∷ [])
      ∷ op "and.b32" (r 16 ∷ r 14 ∷ hex 0x7f800000 ∷ [])
      ∷ op "and.b32" (r 17 ∷ r 14 ∷ hex 0x007fffff ∷ [])
      ∷ op "setp.ne.u32" (p 1 ∷ r 15 ∷ zero_imm ∷ [])
      ∷ op "setp.eq.u32" (p 2 ∷ r 16 ∷ zero_imm ∷ [])
      ∷ op "setp.eq.u32" (p 3 ∷ r 16 ∷ hex 0x7f800000 ∷ [])
      ∷ op "setp.eq.u32" (p 4 ∷ r 17 ∷ zero_imm ∷ [])
      ∷ op "and.pred" (p 5 ∷ p 2 ∷ p 4 ∷ [])
      ∷ op "not.pred" (p 6 ∷ p 4 ∷ [])
      ∷ op "and.pred" (p 6 ∷ p 2 ∷ p 6 ∷ [])
      ∷ op "and.pred" (p 7 ∷ p 3 ∷ p 4 ∷ [])
      ∷ op "not.pred" (p 8 ∷ p 4 ∷ [])
      ∷ op "and.pred" (p 8 ∷ p 3 ∷ p 8 ∷ [])
      ∷ op "not.pred" (p 9 ∷ p 2 ∷ [])
      ∷ op "not.pred" (p 10 ∷ p 3 ∷ [])
      ∷ op "and.pred" (p 9 ∷ p 9 ∷ p 10 ∷ [])
      ∷ op "and.b32" (r 18 ∷ r 17 ∷ hex 0x00400000 ∷ [])
      ∷ op "setp.ne.u32" (p 10 ∷ r 18 ∷ zero_imm ∷ [])
      ∷ op "and.pred" (p 10 ∷ p 8 ∷ p 10 ∷ [])
      ∷ op "not.pred" (p 11 ∷ p 10 ∷ [])
      ∷ op "and.pred" (p 11 ∷ p 8 ∷ p 11 ∷ [])
      ∷ op "mov.u32" (r 19 ∷ zero_imm ∷ [])
      ∷ op "and.pred" (p 12 ∷ p 7 ∷ p 1 ∷ [])
      ∷ op "not.pred" (p 13 ∷ p 1 ∷ [])
      ∷ op "and.pred" (p 13 ∷ p 7 ∷ p 13 ∷ [])
      ∷ inst (Guard.when 12) "or.b32" (r 19 ∷ r 19 ∷ dec 1 ∷ [])
      ∷ inst (Guard.when 13) "or.b32" (r 19 ∷ r 19 ∷ dec 128 ∷ [])
      ∷ op "and.pred" (p 14 ∷ p 5 ∷ p 1 ∷ [])
      ∷ op "not.pred" (p 15 ∷ p 1 ∷ [])
      ∷ op "and.pred" (p 15 ∷ p 5 ∷ p 15 ∷ [])
      ∷ inst (Guard.when 14) "or.b32" (r 19 ∷ r 19 ∷ dec 8 ∷ [])
      ∷ inst (Guard.when 15) "or.b32" (r 19 ∷ r 19 ∷ dec 16 ∷ [])
      ∷ op "and.pred" (p 12 ∷ p 6 ∷ p 1 ∷ [])
      ∷ op "not.pred" (p 13 ∷ p 1 ∷ [])
      ∷ op "and.pred" (p 13 ∷ p 6 ∷ p 13 ∷ [])
      ∷ inst (Guard.when 12) "or.b32" (r 19 ∷ r 19 ∷ dec 4 ∷ [])
      ∷ inst (Guard.when 13) "or.b32" (r 19 ∷ r 19 ∷ dec 32 ∷ [])
      ∷ op "and.pred" (p 12 ∷ p 9 ∷ p 1 ∷ [])
      ∷ op "not.pred" (p 13 ∷ p 1 ∷ [])
      ∷ op "and.pred" (p 13 ∷ p 9 ∷ p 13 ∷ [])
      ∷ inst (Guard.when 12) "or.b32" (r 19 ∷ r 19 ∷ dec 2 ∷ [])
      ∷ inst (Guard.when 13) "or.b32" (r 19 ∷ r 19 ∷ dec 64 ∷ [])
      ∷ inst (Guard.when 11) "or.b32" (r 19 ∷ r 19 ∷ dec 256 ∷ [])
      ∷ inst (Guard.when 10) "or.b32" (r 19 ∷ r 19 ∷ dec 512 ∷ [])
      ∷ op "mov.u32" (v di.rd ∷ r 19 ∷ [])
      ∷ []

  unfoldable pub emit_vector_convert : Option Emit
  emit_vector_convert =
      if str_eq di.name "vfcvt_f_x_v"
      then some (
          emit_lines
            (op "cvt.rn.f32.s32" (f 0 ∷ v di.rs2 ∷ []) ∷ op "mov.b32" (v di.rd ∷ f 0 ∷ []) ∷ []))
      else if str_eq di.name "vfcvt_f_xu_v"
      then some (
          emit_lines
            (op "cvt.rn.f32.u32" (f 0 ∷ v di.rs2 ∷ []) ∷ op "mov.b32" (v di.rd ∷ f 0 ∷ []) ∷ []))
      else if str_eq di.name "vfcvt_x_f_v"
      then some (
          emit_lines (
            op "mov.b32" (f 0 ∷ v di.rs2 ∷ [])
            ∷ op "cvt.rni.s32.f32" (r 14 ∷ f 0 ∷ [])
            ∷ op "mov.u32" (v di.rd ∷ r 14 ∷ [])
            ∷ []))
      else if str_eq di.name "vfcvt_xu_f_v"
      then some (
          emit_lines (
            op "mov.b32" (f 0 ∷ v di.rs2 ∷ [])
            ∷ op "cvt.rni.u32.f32" (r 14 ∷ f 0 ∷ [])
            ∷ op "mov.u32" (v di.rd ∷ r 14 ∷ [])
            ∷ []))
      else if str_eq di.name "vfcvt_rtz_x_f_v"
      then some (
          emit_lines (
            op "mov.b32" (f 0 ∷ v di.rs2 ∷ [])
            ∷ op "cvt.rzi.s32.f32" (r 14 ∷ f 0 ∷ [])
            ∷ op "mov.u32" (v di.rd ∷ r 14 ∷ [])
            ∷ []))
      else if str_eq di.name "vfcvt_rtz_xu_f_v"
      then some (
          emit_lines (
            op "mov.b32" (f 0 ∷ v di.rs2 ∷ [])
            ∷ op "cvt.rzi.u32.f32" (r 14 ∷ f 0 ∷ [])
            ∷ op "mov.u32" (v di.rd ∷ r 14 ∷ [])
            ∷ []))
      else if str_eq di.name "vfclass_v"
      then some (emit_lines vfclass_lines)
      else if str_eq di.name "vfexp_v"
      then some (
          emit_lines (
            op "mov.b32" (f 0 ∷ v di.rs2 ∷ [])
            ∷ op "mul.rn.f32" (f 1 ∷ f 0 ∷ word "1.4426950408889634" ∷ [])
            ∷ op "ex2.approx.f32" (f 2 ∷ f 1 ∷ [])
            ∷ op "mov.b32" (v di.rd ∷ f 2 ∷ [])
            ∷ []))
      else none
