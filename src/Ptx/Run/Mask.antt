-- ===== src/Ptx/Run/Mask.antt =====
-- The operations on mask registers: running what is emitted for one, against the RISC-V manual.
use ventus_gpgpu_sbt_simulat.Prelude.{
  ℕ, ◌≡◌, refl, String, Bool, true, false, not, ◌&&◌, ◌||◌, some, ◌==◌, if◌then◌else◌,
}
use ventus_gpgpu_sbt_simulat.Prelude.Int.{pos}
use ventus_gpgpu_sbt_simulat.Decode.Types.{DecodedInst}
use ventus_gpgpu_sbt_simulat.Ptx.Lane.{Lane, update}
use ventus_gpgpu_sbt_simulat.Ptx.Emit.{EmitCtx, EmitState}
use ventus_gpgpu_sbt_simulat.Ptx.VectorCompare.{emit_mask_bool}
use ventus_gpgpu_sbt_simulat.Ptx.Run.{exec, exec_line}
use ventus_gpgpu_sbt_simulat.Ptx.Run.Scalar.{
  Machine, machine, machine_after, machine_emitted, machine_of,
}

pub data MaskOp : Type 0 where
  mask_and mask_andn mask_or mask_orn mask_xor mask_xnor mask_nand mask_nor : MaskOp

unfoldable pub mask_name : MaskOp → String
mask_name MaskOp.mask_and = "vmand_mm"
mask_name MaskOp.mask_andn = "vmandn_mm"
mask_name MaskOp.mask_or = "vmor_mm"
mask_name MaskOp.mask_orn = "vmorn_mm"
mask_name MaskOp.mask_xor = "vmxor_mm"
mask_name MaskOp.mask_xnor = "vmxnor_mm"
mask_name MaskOp.mask_nand = "vmnand_mm"
mask_name MaskOp.mask_nor = "vmnor_mm"

-- The first operand is vs2, the second one vs1.
unfoldable pub mask_result : MaskOp → Bool → Bool → Bool
mask_result MaskOp.mask_and a b = a && b
mask_result MaskOp.mask_andn a b = a && not b
mask_result MaskOp.mask_or a b = a || b
mask_result MaskOp.mask_orn a b = a || not b
mask_result MaskOp.mask_xor a b = if a then not b else b
mask_result MaskOp.mask_xnor a b = not (if a then not b else b)
mask_result MaskOp.mask_nand a b = not (a && b)
mask_result MaskOp.mask_nor a b = not (a || b)

abbrev pub is_nand_or_nor : MaskOp → Bool
is_nand_or_nor MaskOp.mask_nand = true
is_nand_or_nor MaskOp.mask_nor = true
is_nand_or_nor _ = false

abbrev pub set_v : Machine → ℕ → ℕ → Machine
set_v m d a = record m { v = update m.v d a }

-- A mask register is true where it is not 0, and is set to 1 or 0.
abbrev pub holds_v : Lane → ℕ → Bool
holds_v s i = not (s.v i == 0)

abbrev pub set_mask : Lane → ℕ → Bool → Machine
set_mask s d b = set_v (machine s) d (if b then 1 else 0)

module _ (c : EmitCtx) (di : DecodedInst) (st : EmitState) (s : Lane) (d i j : ℕ)
    (at_rd : di.rd ≡ pos d) (at_rs1 : di.rs1 ≡ pos i) (at_rs2 : di.rs2 ≡ pos j) where
  -- For an operation on masks other than nand and nor the emitted lines run to their end and
  -- leave in v[rd] what the RISC-V manual says of v[rs2] and v[rs1], and nothing else changes.
  pub emit_mask_bool-mask_result :
      (o : MaskOp)
      → di.name ≡ mask_name o
      → is_nand_or_nor o ≡ false
      → machine_after (emit_mask_bool c di) st s
        ≡ some (set_mask s d (mask_result o (holds_v s j) (holds_v s i)))
  unfolding mask_name mask_result emit_mask_bool machine_after machine_emitted machine_of exec
      exec_line
  emit_mask_bool-mask_result MaskOp.mask_and named e =
      rw (named, at_rs2) (rw at_rs1 (rw at_rd refl))
  emit_mask_bool-mask_result MaskOp.mask_andn named e =
      rw (named, at_rs2) (rw at_rs1 (rw at_rd refl))
  emit_mask_bool-mask_result MaskOp.mask_or named e = rw (named, at_rs2) (rw at_rs1 (rw at_rd refl))
  emit_mask_bool-mask_result MaskOp.mask_orn named e =
      rw (named, at_rs2) (rw at_rs1 (rw at_rd refl))
  emit_mask_bool-mask_result MaskOp.mask_xor named e =
      rw (named, at_rs2) (rw at_rs1 (rw at_rd refl))
  emit_mask_bool-mask_result MaskOp.mask_xnor named e =
      rw (named, at_rs2) (rw at_rs1 (rw at_rd refl))
  emit_mask_bool-mask_result MaskOp.mask_nand named e = cc
  emit_mask_bool-mask_result MaskOp.mask_nor named e = cc

  -- For vmnand_mm and vmnor_mm the emitted lines run to their end and leave in v[rd] the equality
  -- of the operands, which is the result of vmxnor_mm.
  pub emit_mask_bool-mask_xnor :
      (o : MaskOp)
      → di.name ≡ mask_name o
      → is_nand_or_nor o ≡ true
      → machine_after (emit_mask_bool c di) st s
        ≡ some (set_mask s d (mask_result MaskOp.mask_xnor (holds_v s j) (holds_v s i)))
  unfolding mask_name mask_result emit_mask_bool machine_after machine_emitted machine_of exec
      exec_line
  emit_mask_bool-mask_xnor MaskOp.mask_nand named e = rw (named, at_rs2) (rw at_rs1 (rw at_rd refl))
  emit_mask_bool-mask_xnor MaskOp.mask_nor named e = rw (named, at_rs2) (rw at_rs1 (rw at_rd refl))
  emit_mask_bool-mask_xnor MaskOp.mask_and named e = cc
  emit_mask_bool-mask_xnor MaskOp.mask_andn named e = cc
  emit_mask_bool-mask_xnor MaskOp.mask_or named e = cc
  emit_mask_bool-mask_xnor MaskOp.mask_orn named e = cc
  emit_mask_bool-mask_xnor MaskOp.mask_xor named e = cc
  emit_mask_bool-mask_xnor MaskOp.mask_xnor named e = cc
