-- ===== src/Ptx/Scalar.antt =====
-- sbt/ptx_emit.cpp, `emit_one_inst`: the integer instructions on the scalar registers. A section
-- of that function returns `none` where the source goes on to the next section.
use ventus_gpgpu_sbt_simulat.Prelude.{
  ◌+◌, String, str_eq, Bool, Option, none, some, List, [], ◌∷◌, ◌++◌, ◌&&◌, ◌||◌, if◌then◌else◌,
}
use ventus_gpgpu_sbt_simulat.Words.{u32, to_u32}
use ventus_gpgpu_sbt_simulat.Decode.Types.{DecodedInst, is_i12, is_u20}
use ventus_gpgpu_sbt_simulat.Ptx.Lines.{Line, Guard, r, rd, p, op, dec, zero_imm, inst, num, hex}
use ventus_gpgpu_sbt_simulat.Ptx.Emit.{
  EmitCtx, Emit, emit_line, emit_lines, ◌>>◌, emit_ld_x_u32_all, emit_st_x_u32_all, otherwise,
}

-- The lines of the division instructions between the loads and the store: `%p1` is a division by
-- zero, `%p2` an overflow and `%p4` neither.
abbrev division_test : Bool → List Line
division_test signed_div =
    op "setp.eq.u32" (p 1 ∷ r 15 ∷ zero_imm ∷ [])
    ∷ ((if signed_div
          then op "setp.eq.u32" (p 2 ∷ r 14 ∷ hex 0x80000000 ∷ [])
            ∷ op "setp.eq.u32" (p 3 ∷ r 15 ∷ hex 0xffffffff ∷ [])
            ∷ op "and.pred" (p 2 ∷ p 2 ∷ p 3 ∷ [])
            ∷ []
          else op "setp.ne.u32" (p 2 ∷ zero_imm ∷ zero_imm ∷ []) ∷ [])
        ++ op "not.pred" (p 4 ∷ p 1 ∷ [])
          ∷ op "not.pred" (p 5 ∷ p 2 ∷ [])
          ∷ op "and.pred" (p 4 ∷ p 4 ∷ p 5 ∷ [])
          ∷ [])

abbrev division_result : String → List Line
division_result n =
    if str_eq n "div"
    then op "mov.u32" (r 16 ∷ hex 0xffffffff ∷ [])
      ∷ inst (Guard.when 2) "mov.u32" (r 16 ∷ hex 0x80000000 ∷ [])
      ∷ inst (Guard.when 4) "div.s32" (r 16 ∷ r 14 ∷ r 15 ∷ [])
      ∷ []
    else if str_eq n "divu"
    then op "mov.u32" (r 16 ∷ hex 0xffffffff ∷ [])
      ∷ inst (Guard.when 4) "div.u32" (r 16 ∷ r 14 ∷ r 15 ∷ [])
      ∷ []
    else if str_eq n "rem"
    then op "mov.u32" (r 16 ∷ r 14 ∷ [])
      ∷ inst (Guard.when 2) "mov.u32" (r 16 ∷ zero_imm ∷ [])
      ∷ inst (Guard.when 4) "rem.s32" (r 16 ∷ r 14 ∷ r 15 ∷ [])
      ∷ []
    else op "mov.u32" (r 16 ∷ r 14 ∷ [])
      ∷ inst (Guard.when 4) "rem.u32" (r 16 ∷ r 14 ∷ r 15 ∷ [])
      ∷ []

unfoldable pub division_lines : String → List Line
division_lines n = division_test (str_eq n "div" || str_eq n "rem") ++ division_result n

module _ (c : EmitCtx) (di : DecodedInst) where
  -- The loads of the operands and the store of the result, around the lines of an instruction.
  unfoldable pub from_two : List Line → Emit
  from_two ls =
      emit_ld_x_u32_all c (r 14) di.rs1 di.pc
      >> emit_ld_x_u32_all c (r 15) di.rs2 di.pc
      >> emit_lines ls
      >> emit_st_x_u32_all c di.rd (r 16) di.pc

  unfoldable pub from_one : List Line → Emit
  from_one ls =
      emit_ld_x_u32_all c (r 14) di.rs1 di.pc
      >> emit_lines ls
      >> emit_st_x_u32_all c di.rd (r 15) di.pc

  unfoldable pub emit_arithmetic : Option Emit
  emit_arithmetic =
      if str_eq di.name "addi" && is_i12 di.imm_kind
      then some (from_one (op "add.s32" (r 15 ∷ r 14 ∷ num di.imm ∷ []) ∷ []))
      else if str_eq di.name "add"
      then some (from_two (op "add.u32" (r 16 ∷ r 14 ∷ r 15 ∷ []) ∷ []))
      else if str_eq di.name "sub"
      then some (from_two (op "sub.u32" (r 16 ∷ r 14 ∷ r 15 ∷ []) ∷ []))
      else if str_eq di.name "and"
      then some (from_two (op "and.b32" (r 16 ∷ r 14 ∷ r 15 ∷ []) ∷ []))
      else if str_eq di.name "or"
      then some (from_two (op "or.b32" (r 16 ∷ r 14 ∷ r 15 ∷ []) ∷ []))
      else if str_eq di.name "xor"
      then some (from_two (op "xor.b32" (r 16 ∷ r 14 ∷ r 15 ∷ []) ∷ []))
      else if str_eq di.name "andi" && is_i12 di.imm_kind
      then some (from_one (op "and.b32" (r 15 ∷ r 14 ∷ hex (to_u32 di.imm) ∷ []) ∷ []))
      else if str_eq di.name "ori" && is_i12 di.imm_kind
      then some (from_one (op "or.b32" (r 15 ∷ r 14 ∷ hex (to_u32 di.imm) ∷ []) ∷ []))
      else if str_eq di.name "mul"
      then some (from_two (op "mul.lo.s32" (r 16 ∷ r 14 ∷ r 15 ∷ []) ∷ []))
      else if str_eq di.name "mulh"
      then some (from_two (op "mul.hi.s32" (r 16 ∷ r 14 ∷ r 15 ∷ []) ∷ []))
      else if str_eq di.name "mulhu"
      then some (from_two (op "mul.hi.u32" (r 16 ∷ r 14 ∷ r 15 ∷ []) ∷ []))
      else if str_eq di.name "mulhsu"
      then some (
          from_two (
            op "cvt.s64.s32" (rd 18 ∷ r 14 ∷ [])
            ∷ op "cvt.u64.u32" (rd 19 ∷ r 15 ∷ [])
            ∷ op "mul.lo.s64" (rd 18 ∷ rd 18 ∷ rd 19 ∷ [])
            ∷ op "shr.s64" (rd 18 ∷ rd 18 ∷ dec 32 ∷ [])
            ∷ op "cvt.u32.u64" (r 16 ∷ rd 18 ∷ [])
            ∷ []))
      else if str_eq di.name "div"
          || (str_eq di.name "divu" || (str_eq di.name "rem" || str_eq di.name "remu"))
      then some (from_two (division_lines di.name))
      else none

  unfoldable pub emit_shift_or_compare : Option Emit
  emit_shift_or_compare =
      if str_eq di.name "lui" && is_u20 di.imm_kind
      then some (
          emit_line (op "mov.u32" (r 14 ∷ hex (to_u32 di.imm) ∷ []))
          >> emit_st_x_u32_all c di.rd (r 14) di.pc)
      else if str_eq di.name "auipc" && is_u20 di.imm_kind
      then (let val = u32 (di.pc + to_u32 di.imm) in
          some (
            emit_line (op "mov.u32" (r 14 ∷ hex val ∷ []))
            >> emit_st_x_u32_all c di.rd (r 14) di.pc))
      else if str_eq di.name "slli" && is_i12 di.imm_kind
      then some (from_one (op "shl.b32" (r 15 ∷ r 14 ∷ num di.imm ∷ []) ∷ []))
      else if (str_eq di.name "srli" || str_eq di.name "srai") && is_i12 di.imm_kind
      then some (
          from_one (
            (if str_eq di.name "srli"
              then op "shr.u32" (r 15 ∷ r 14 ∷ num di.imm ∷ [])
              else op "shr.s32" (r 15 ∷ r 14 ∷ num di.imm ∷ []))
            ∷ []))
      else if str_eq di.name "sll"
      then some (
          from_two (
            op "and.b32" (r 17 ∷ r 15 ∷ dec 31 ∷ []) ∷ op "shl.b32" (r 16 ∷ r 14 ∷ r 17 ∷ []) ∷ []))
      else if str_eq di.name "srl" || str_eq di.name "sra"
      then some (
          from_two (
            op "and.b32" (r 17 ∷ r 15 ∷ dec 31 ∷ [])
            ∷ (if str_eq di.name "srl"
                then op "shr.u32" (r 16 ∷ r 14 ∷ r 17 ∷ [])
                else op "shr.s32" (r 16 ∷ r 14 ∷ r 17 ∷ []))
            ∷ []))
      else if str_eq di.name "xori" && is_i12 di.imm_kind
      then some (from_one (op "xor.b32" (r 15 ∷ r 14 ∷ num di.imm ∷ []) ∷ []))
      else if str_eq di.name "slt"
      then some (
          from_two (
            op "setp.lt.s32" (p 1 ∷ r 14 ∷ r 15 ∷ [])
            ∷ op "selp.u32" (r 16 ∷ dec 1 ∷ zero_imm ∷ p 1 ∷ [])
            ∷ []))
      else if str_eq di.name "sltu"
      then some (
          from_two (
            op "setp.lt.u32" (p 1 ∷ r 14 ∷ r 15 ∷ [])
            ∷ op "selp.u32" (r 16 ∷ dec 1 ∷ zero_imm ∷ p 1 ∷ [])
            ∷ []))
      else if str_eq di.name "slti" && is_i12 di.imm_kind
      then some (
          from_one (
            op "setp.lt.s32" (p 1 ∷ r 14 ∷ num di.imm ∷ [])
            ∷ op "selp.u32" (r 15 ∷ dec 1 ∷ zero_imm ∷ p 1 ∷ [])
            ∷ []))
      else if str_eq di.name "sltiu" && is_i12 di.imm_kind
      then (let imm_u = to_u32 di.imm in
          some (
            from_one (
              op "setp.lt.u32" (p 1 ∷ r 14 ∷ hex imm_u ∷ [])
              ∷ op "selp.u32" (r 15 ∷ dec 1 ∷ zero_imm ∷ p 1 ∷ [])
              ∷ [])))
      else none

  -- Both sections, in their order.
  unfoldable pub emit_scalar_alu : Option Emit
  emit_scalar_alu = otherwise emit_arithmetic emit_shift_or_compare
