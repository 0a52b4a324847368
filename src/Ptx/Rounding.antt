-- ===== src/Ptx/Rounding.antt =====
-- sbt/ptx_emit.cpp: rounding modes.
use ventus_gpgpu_sbt_simulat.Prelude.{
  ℕ, String, true, not, Option, none, some, [], ◌∷◌, ◌||◌, if◌then◌else◌,
}
use Prim.Native.String.{◌++◌ as str_append}
use ventus_gpgpu_sbt_simulat.Decode.Types.{FpRoundingMode, rounding_to_string}
use ventus_gpgpu_sbt_simulat.Ptx.Lines.{Line, comment}
use ventus_gpgpu_sbt_simulat.Prelude.Result.{ok}
use ventus_gpgpu_sbt_simulat.Ptx.Emit.{EmitCtx, Emit, ◌>>◌, throw}

abbrev pub fp_dyn_note : Line
fp_dyn_note = comment "// NOTE: scalar FP rm=DYN treated as RNE (CSR.frm not modeled)"

module _ (c : EmitCtx) where
  unfoldable pub maybe_note_fp_dyn_rm : Emit
  maybe_note_fp_dyn_rm st =
      if not c.opt.include_comments || st.emitted_fp_dyn_note
      then ok ([], st)
      else ok (fp_dyn_note ∷ [], record st { emitted_fp_dyn_note = true })

  -- `k` takes the mode that is returned.
  unfoldable pub normalize_fp_rm : FpRoundingMode → ℕ → (FpRoundingMode → Emit) → Emit
  normalize_fp_rm FpRoundingMode.dyn pc k = maybe_note_fp_dyn_rm >> k FpRoundingMode.rne
  normalize_fp_rm FpRoundingMode.rmm pc k =
      throw c "unsupported.fp_rm" pc (str_append "rm=" (rounding_to_string FpRoundingMode.rmm))
  normalize_fp_rm FpRoundingMode.reserved5 pc k =
      throw c "unsupported.fp_rm" pc
        (str_append "rm=" (rounding_to_string FpRoundingMode.reserved5))
  normalize_fp_rm FpRoundingMode.reserved6 pc k =
      throw c "unsupported.fp_rm" pc
        (str_append "rm=" (rounding_to_string FpRoundingMode.reserved6))
  normalize_fp_rm rm pc k = k rm

  abbrev pub suffix_f32 : FpRoundingMode → Option String
  suffix_f32 FpRoundingMode.rne = some ".rn"
  suffix_f32 FpRoundingMode.rtz = some ".rz"
  suffix_f32 FpRoundingMode.rdn = some ".rm"
  suffix_f32 FpRoundingMode.rup = some ".rp"
  suffix_f32 _ = none

  abbrev pub suffix_cvt_i32 : FpRoundingMode → Option String
  suffix_cvt_i32 FpRoundingMode.rne = some ".rni"
  suffix_cvt_i32 FpRoundingMode.rtz = some ".rzi"
  suffix_cvt_i32 FpRoundingMode.rdn = some ".rmi"
  suffix_cvt_i32 FpRoundingMode.rup = some ".rpi"
  suffix_cvt_i32 _ = none

  abbrev pub with_suffix : Option String → ℕ → (String → Emit) → Emit
  with_suffix (some rm) pc k = k rm
  with_suffix none pc k = throw c "invalid.fp_rm" pc "rm=none"

  unfoldable pub ptx_rm_f32 : FpRoundingMode → ℕ → (String → Emit) → Emit
  ptx_rm_f32 mode pc k = normalize_fp_rm mode pc (λ rm. with_suffix (suffix_f32 rm) pc k)

  unfoldable pub ptx_rm_cvt_i32 : FpRoundingMode → ℕ → (String → Emit) → Emit
  ptx_rm_cvt_i32 mode pc k = normalize_fp_rm mode pc (λ rm. with_suffix (suffix_cvt_i32 rm) pc k)
