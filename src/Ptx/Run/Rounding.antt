-- ===== src/Ptx/Run/Rounding.antt =====
-- Which rounding modes the emitter takes.
use ventus_gpgpu_sbt_simulat.Prelude.{
  ℕ, ◌≡◌, refl, ◌∙◌, Bool, true, false, List, [], ◌∷◌, String, Option, none, some, not, ◌||◌,
  if◌then◌else◌, inl, inr, Bool-cases,
}
use ventus_gpgpu_sbt_simulat.Prelude.Int.{ℤ, pos}
use ventus_gpgpu_sbt_simulat.Prelude.Result.{Result, ok, err}
use ventus_gpgpu_sbt_simulat.Decode.Types.{DecodedInst, FpRoundingMode}
use ventus_gpgpu_sbt_simulat.Ptx.Lines.{Line, r}
use ventus_gpgpu_sbt_simulat.Ptx.Emit.{
  EmitCtx, EmitState, EmitError, Emit, emit_lines, emit_ld_x_u32_all, emit_st_x_u32_all, ◌>>◌,
  continue_with, prepend,
}
use ventus_gpgpu_sbt_simulat.Ptx.Rounding.{
  normalize_fp_rm, maybe_note_fp_dyn_rm, ptx_rm_f32, ptx_rm_cvt_i32, fp_dyn_note,
}
use ventus_gpgpu_sbt_simulat.Ptx.ScalarFp.{
  try_emit_scalar_fp, fma_lines, f32_binop, emit_fsqrt_s, emit_fma_family, emit_fcvt_from_int,
  emit_fcvt_to_int,
}
use ventus_gpgpu_sbt_simulat.Ptx.Scalar.{from_one, from_two}
use ventus_gpgpu_sbt_simulat.Ptx.Run.Scalar.{
  from_one_emits, from_two_emits, emit_ld_lem, emit_st_lem,
}

-- How an action ends: with the code of an error, or with none.
unfoldable pub error_code : Result EmitError (List Line × EmitState) → Option String
error_code (ok done) = none
error_code (err e) = some e.code

unfoldable pub emit_error : Option Emit → EmitState → Option String
unfolding error_code
emit_error none st = none
emit_error (some e) st = error_code (e st)

abbrev pub rounding_error : FpRoundingMode → Option String
rounding_error FpRoundingMode.rne = none
rounding_error FpRoundingMode.rtz = none
rounding_error FpRoundingMode.rdn = none
rounding_error FpRoundingMode.rup = none
rounding_error FpRoundingMode.dyn = none
rounding_error FpRoundingMode.none = some "invalid.fp_rm"
rounding_error _ = some "unsupported.fp_rm"

error_code-prepend :
    (ls : List Line) (o : Result EmitError (List Line × EmitState))
    → error_code (prepend ls o) ≡ error_code o
unfolding error_code
error_code-prepend ls (ok (ms, st)) = refl
error_code-prepend ls (err e) = refl

abbrev NoError : Emit → Type 0
NoError e = (st : EmitState) → error_code (e st) ≡ none

continued_NoError :
    (o : Result EmitError (List Line × EmitState)) (b : Emit)
    → error_code o ≡ none
    → NoError b
    → error_code (continue_with o b) ≡ none
unfolding error_code
continued_NoError (ok (ls, st)) b h k = error_code-prepend ls (b st) ∙ k st
continued_NoError (err e) b h k = h

then_NoError : (a b : Emit) → NoError a → NoError b → NoError (a >> b)
then_NoError a b h k st = continued_NoError (a st) b (h st) k

choice_NoError : (t : Bool) (a b : Emit) → NoError a → NoError b → NoError (if t then a else b)
choice_NoError true a b h k = h
choice_NoError false a b h k = k

lines_NoError : (ls : List Line) → NoError (emit_lines ls)
unfolding error_code
lines_NoError ls st = refl

ld_NoError :
    (c : EmitCtx) (k pc i : ℕ) (xreg : ℤ)
    → xreg ≡ pos i
    → NoError (emit_ld_x_u32_all c (r k) xreg pc)
unfolding error_code
ld_NoError c k pc i xreg h st = rw (h, emit_ld_lem c k i pc st) refl

st_NoError :
    (c : EmitCtx) (k pc i : ℕ) (xreg : ℤ)
    → xreg ≡ pos i
    → NoError (emit_st_x_u32_all c xreg (r k) pc)
unfolding error_code
st_NoError c k pc i xreg h st = rw (h, emit_st_lem c k i pc st) refl

note_NoError : (c : EmitCtx) (k : Emit) → NoError k → NoError (maybe_note_fp_dyn_rm c >> k)
unfolding maybe_note_fp_dyn_rm
note_NoError c k h st = elim (Bool-cases (not c.opt.include_comments || st.emitted_fp_dyn_note)) [
  | inl e ↦ rw (e) (error_code-prepend [] (k st) ∙ h st)
  | inr e ↦ rw (e) (
      error_code-prepend (fp_dyn_note ∷ []) (k (record st { emitted_fp_dyn_note = true }))
      ∙ h (record st { emitted_fp_dyn_note = true }))
]

module _ (c : EmitCtx) (pc : ℕ) (k : String → Emit) (h : (rm : String) → NoError (k rm)) where
  ptx_rm_f32-error_code :
      (mode : FpRoundingMode) (st : EmitState)
      → error_code (ptx_rm_f32 c mode pc k st) ≡ rounding_error mode
  unfolding ptx_rm_f32 normalize_fp_rm error_code
  ptx_rm_f32-error_code FpRoundingMode.rne st = h ".rn" st
  ptx_rm_f32-error_code FpRoundingMode.rtz st = h ".rz" st
  ptx_rm_f32-error_code FpRoundingMode.rdn st = h ".rm" st
  ptx_rm_f32-error_code FpRoundingMode.rup st = h ".rp" st
  ptx_rm_f32-error_code FpRoundingMode.dyn st = note_NoError c (k ".rn") (h ".rn") st
  ptx_rm_f32-error_code FpRoundingMode.none st = refl
  ptx_rm_f32-error_code FpRoundingMode.rmm st = refl
  ptx_rm_f32-error_code FpRoundingMode.reserved5 st = refl
  ptx_rm_f32-error_code FpRoundingMode.reserved6 st = refl

  ptx_rm_cvt_i32-error_code :
      (mode : FpRoundingMode) (st : EmitState)
      → error_code (ptx_rm_cvt_i32 c mode pc k st) ≡ rounding_error mode
  unfolding ptx_rm_cvt_i32 normalize_fp_rm error_code
  ptx_rm_cvt_i32-error_code FpRoundingMode.rne st = h ".rni" st
  ptx_rm_cvt_i32-error_code FpRoundingMode.rtz st = h ".rzi" st
  ptx_rm_cvt_i32-error_code FpRoundingMode.rdn st = h ".rmi" st
  ptx_rm_cvt_i32-error_code FpRoundingMode.rup st = h ".rpi" st
  ptx_rm_cvt_i32-error_code FpRoundingMode.dyn st = note_NoError c (k ".rni") (h ".rni") st
  ptx_rm_cvt_i32-error_code FpRoundingMode.none st = refl
  ptx_rm_cvt_i32-error_code FpRoundingMode.rmm st = refl
  ptx_rm_cvt_i32-error_code FpRoundingMode.reserved5 st = refl
  ptx_rm_cvt_i32-error_code FpRoundingMode.reserved6 st = refl

-- The instructions that round.
pub data RoundedOp : Type 0 where
  fadd fsub fmul fdiv fsqrt fmadd fmsub fnmsub fnmadd from_int from_uint to_int to_uint : RoundedOp

unfoldable pub rounded_name : RoundedOp → String
rounded_name RoundedOp.fadd = "fadd_s"
rounded_name RoundedOp.fsub = "fsub_s"
rounded_name RoundedOp.fmul = "fmul_s"
rounded_name RoundedOp.fdiv = "fdiv_s"
rounded_name RoundedOp.fsqrt = "fsqrt_s"
rounded_name RoundedOp.fmadd = "fmadd_s"
rounded_name RoundedOp.fmsub = "fmsub_s"
rounded_name RoundedOp.fnmsub = "fnmsub_s"
rounded_name RoundedOp.fnmadd = "fnmadd_s"
rounded_name RoundedOp.from_int = "fcvt_s_w"
rounded_name RoundedOp.from_uint = "fcvt_s_wu"
rounded_name RoundedOp.to_int = "fcvt_w_s"
rounded_name RoundedOp.to_uint = "fcvt_wu_s"

-- Which of the instructions have a second and a third operand.
abbrev pub reads_rs3 : RoundedOp → Bool
reads_rs3 RoundedOp.fmadd = true
reads_rs3 RoundedOp.fmsub = true
reads_rs3 RoundedOp.fnmsub = true
reads_rs3 RoundedOp.fnmadd = true
reads_rs3 _ = false

abbrev pub reads_rs2 : RoundedOp → Bool
reads_rs2 RoundedOp.fadd = true
reads_rs2 RoundedOp.fsub = true
reads_rs2 RoundedOp.fmul = true
reads_rs2 RoundedOp.fdiv = true
reads_rs2 o = reads_rs3 o

module _ (c : EmitCtx) (di : DecodedInst) (d i j l : ℕ) (at_rd : di.rd ≡ pos d)
    (at_rs1 : di.rs1 ≡ pos i) where
  one_NoError : (ls : List Line) → NoError (from_one c di ls)
  unfolding error_code
  one_NoError ls st = rw (from_one_emits c di st d i i at_rd at_rs1 ls) refl

  two_NoError : di.rs2 ≡ pos j → (ls : List Line) → NoError (from_two c di ls)
  unfolding error_code
  two_NoError at_rs2 ls st = rw (from_two_emits c di st d i j at_rd at_rs1 ls at_rs2) refl

  binop_error :
      di.rs2 ≡ pos j
      → (name : String) (st : EmitState)
      → error_code (f32_binop c di name st) ≡ rounding_error di.fp_rm
  unfolding f32_binop
  binop_error at_rs2 name st =
      ptx_rm_f32-error_code c di.pc _ (λ rm. two_NoError at_rs2 _) di.fp_rm st

  fsqrt_error : (st : EmitState) → error_code (emit_fsqrt_s c di st) ≡ rounding_error di.fp_rm
  unfolding emit_fsqrt_s
  fsqrt_error st = ptx_rm_f32-error_code c di.pc _ (λ rm. one_NoError _) di.fp_rm st

  from_int_error :
      (st : EmitState) → error_code (emit_fcvt_from_int c di st) ≡ rounding_error di.fp_rm
  unfolding emit_fcvt_from_int
  from_int_error st = ptx_rm_f32-error_code c di.pc _ (λ rm. one_NoError _) di.fp_rm st

  to_int_error : (st : EmitState) → error_code (emit_fcvt_to_int c di st) ≡ rounding_error di.fp_rm
  unfolding emit_fcvt_to_int
  to_int_error st = ptx_rm_cvt_i32-error_code c di.pc _ (λ rm. one_NoError _) di.fp_rm st

  fma_error :
      di.rs2 ≡ pos j
      → di.rs3 ≡ pos l
      → (st : EmitState) → error_code (emit_fma_family c di st) ≡ rounding_error di.fp_rm
  unfolding emit_fma_family
  fma_error at_rs2 at_rs3 st =
      ptx_rm_f32-error_code c di.pc _
        (λ rm. then_NoError _ _ (ld_NoError c 14 di.pc i di.rs1 at_rs1) (
          then_NoError _ _ (ld_NoError c 15 di.pc j di.rs2 at_rs2) (
            then_NoError _ _ (ld_NoError c 16 di.pc l di.rs3 at_rs3) (
              then_NoError _ _ (choice_NoError _ _ _ (lines_NoError _) (lines_NoError _)) (
                then_NoError _ _ (choice_NoError _ _ _ (lines_NoError _) (lines_NoError _)) (
                  then_NoError _ _ (lines_NoError (fma_lines rm))
                    (st_NoError c 17 di.pc d di.rd at_rd)))))))
        di.fp_rm st

  abbrev rounded_emit : RoundedOp → Emit
  rounded_emit RoundedOp.fadd = f32_binop c di "add"
  rounded_emit RoundedOp.fsub = f32_binop c di "sub"
  rounded_emit RoundedOp.fmul = f32_binop c di "mul"
  rounded_emit RoundedOp.fdiv = f32_binop c di "div"
  rounded_emit RoundedOp.fsqrt = emit_fsqrt_s c di
  rounded_emit RoundedOp.fmadd = emit_fma_family c di
  rounded_emit RoundedOp.fmsub = emit_fma_family c di
  rounded_emit RoundedOp.fnmsub = emit_fma_family c di
  rounded_emit RoundedOp.fnmadd = emit_fma_family c di
  rounded_emit RoundedOp.from_int = emit_fcvt_from_int c di
  rounded_emit RoundedOp.from_uint = emit_fcvt_from_int c di
  rounded_emit RoundedOp.to_int = emit_fcvt_to_int c di
  rounded_emit RoundedOp.to_uint = emit_fcvt_to_int c di

  rounded_emits :
      (o : RoundedOp) → di.name ≡ rounded_name o → try_emit_scalar_fp c di ≡ some (rounded_emit o)
  unfolding try_emit_scalar_fp rounded_name
  rounded_emits RoundedOp.fadd named = rw named refl
  rounded_emits RoundedOp.fsub named = rw named refl
  rounded_emits RoundedOp.fmul named = rw named refl
  rounded_emits RoundedOp.fdiv named = rw named refl
  rounded_emits RoundedOp.fsqrt named = rw named refl
  rounded_emits RoundedOp.fmadd named = rw named refl
  rounded_emits RoundedOp.fmsub named = rw named refl
  rounded_emits RoundedOp.fnmsub named = rw named refl
  rounded_emits RoundedOp.fnmadd named = rw named refl
  rounded_emits RoundedOp.from_int named = rw named refl
  rounded_emits RoundedOp.from_uint named = rw named refl
  rounded_emits RoundedOp.to_int named = rw named refl
  rounded_emits RoundedOp.to_uint named = rw named refl

  rounded_error :
      (o : RoundedOp) (st : EmitState)
      → (reads_rs2 o ≡ true → di.rs2 ≡ pos j)
      → (reads_rs3 o ≡ true → di.rs3 ≡ pos l)
      → error_code (rounded_emit o st) ≡ rounding_error di.fp_rm
  rounded_error RoundedOp.fadd st h2 h3 = binop_error (h2 refl) "add" st
  rounded_error RoundedOp.fsub st h2 h3 = binop_error (h2 refl) "sub" st
  rounded_error RoundedOp.fmul st h2 h3 = binop_error (h2 refl) "mul" st
  rounded_error RoundedOp.fdiv st h2 h3 = binop_error (h2 refl) "div" st
  rounded_error RoundedOp.fsqrt st h2 h3 = fsqrt_error st
  rounded_error RoundedOp.fmadd st h2 h3 = fma_error (h2 refl) (h3 refl) st
  rounded_error RoundedOp.fmsub st h2 h3 = fma_error (h2 refl) (h3 refl) st
  rounded_error RoundedOp.fnmsub st h2 h3 = fma_error (h2 refl) (h3 refl) st
  rounded_error RoundedOp.fnmadd st h2 h3 = fma_error (h2 refl) (h3 refl) st
  rounded_error RoundedOp.from_int st h2 h3 = from_int_error st
  rounded_error RoundedOp.from_uint st h2 h3 = from_int_error st
  rounded_error RoundedOp.to_int st h2 h3 = to_int_error st
  rounded_error RoundedOp.to_uint st h2 h3 = to_int_error st

  -- A floating-point instruction that rounds, where rd and rs1 are set, and rs2 and rs3 where it
  -- reads them, fails in the modes RMM, 5 and 6 and where it has no mode, with the code of the
  -- reason, and in no other mode.
  pub try_emit_scalar_fp-rounding_error :
      (o : RoundedOp) (st : EmitState)
      → di.name ≡ rounded_name o
      → (reads_rs2 o ≡ true → di.rs2 ≡ pos j)
      → (reads_rs3 o ≡ true → di.rs3 ≡ pos l)
      → emit_error (try_emit_scalar_fp c di) st ≡ rounding_error di.fp_rm
  unfolding emit_error
  try_emit_scalar_fp-rounding_error o st named h2 h3 =
      rw (rounded_emits o named) (rounded_error o st h2 h3)
