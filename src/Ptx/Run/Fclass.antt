-- ===== src/Ptx/Run/Fclass.antt =====
-- FCLASS.S: running what is emitted for it gives the class of the number.
use ventus_gpgpu_sbt_simulat.Prelude.{
  ℕ, ◌+◌, ◌-◌, ◌*◌, ◌/◌, ◌%◌, ◌^◌, ◌<◌, ◌≡◌, refl, ap, ◌∙◌, arith, Bool, true, false, not, ◌&&◌,
  some, ◌∷◌, ◌++◌, ◌==◌, leb, if◌then◌else◌, bit_and, bit_or, Bool-cases, inl, inr,
}
use ventus_gpgpu_sbt_simulat.Prelude.Int.{pos}
use ventus_gpgpu_sbt_simulat.Words.{bit_and_mask, bit_and_high}
use ventus_gpgpu_sbt_simulat.Decode.Types.{DecodedInst}
use ventus_gpgpu_sbt_simulat.Ptx.Emit.{EmitCtx, EmitState}
use ventus_gpgpu_sbt_simulat.Ptx.Fclass.{fclass_lines, emit_scalar_fclass_s}
use ventus_gpgpu_sbt_simulat.Ptx.ScalarFp.{try_emit_scalar_fp}
use ventus_gpgpu_sbt_simulat.Ptx.Lane.{Lane}
use ventus_gpgpu_sbt_simulat.Ptx.Run.{exec, exec_line}
use ventus_gpgpu_sbt_simulat.Ptx.Run.Scalar.{
  machine, get_x, set_x, result_of, machine_after, machine_emitted, machine_of, ld_line, st_lines,
  loaded, emit_ld_lem, emit_st_lem, exec-ld_line, exec-append, store_after,
}
use ventus_gpgpu_sbt_simulat.Ptx.Run.Alu.{IsWords, get_x-word}

-- The bits of FCLASS.S as the RISC-V manual numbers them: negative infinity, normal, subnormal and
-- zero are bits 0 to 3, the positive ones bits 4 to 7 in the opposite order, and a signaling and a
-- quiet NaN bits 8 and 9.
abbrev pub class_of : Bool → Bool → Bool → Bool → Bool → ℕ
class_of negative no_exponent all_exponent no_fraction quiet =
    if all_exponent
    then (if no_fraction
        then (if negative then 2 ^ 0 else 2 ^ 7)
        else if quiet
        then 2 ^ 9
        else 2 ^ 8)
    else if no_exponent
    then (if no_fraction
        then (if negative then 2 ^ 3 else 2 ^ 4)
        else if negative
        then 2 ^ 2
        else 2 ^ 5)
    else if negative
    then 2 ^ 1
    else 2 ^ 6

-- The class of a number of 32 bits by its sign, its exponent and its fraction.
unfoldable pub float_class : ℕ → ℕ
float_class a =
    class_of (leb (2 ^ 31) a) (a / 2 ^ 23 % 2 ^ 8 == 0) (a / 2 ^ 23 % 2 ^ 8 == 2 ^ 8 - 1)
      (a % 2 ^ 23 == 0) (leb (2 ^ 22) (a % 2 ^ 23))

abbrev with_bit : Bool → ℕ → ℕ → ℕ
with_bit t b m = bit_or m (if t then b else 0)

-- What the lines compute from the five tests.
abbrev mask_of : Bool → Bool → Bool → Bool → Bool → ℕ
mask_of n e0 e1 f0 q = with_bit (e1 && not f0 && q) 512 (
    with_bit (e1 && not f0 && not (e1 && not f0 && q)) 256 (
      with_bit (not e0 && not e1 && not n) 64 (
        with_bit (not e0 && not e1 && n) 2 (
          with_bit (e0 && not f0 && not n) 32 (
            with_bit (e0 && not f0 && n) 4 (
              with_bit (e0 && f0 && not n) 16 (
                with_bit (e0 && f0 && n) 8
                  (with_bit (e1 && f0 && not n) 128 (with_bit (e1 && f0 && n) 1 0)))))))))

mask_of_lem :
    (n e0 e1 f0 q : Bool) → e0 && e1 ≡ false → mask_of n e0 e1 f0 q ≡ class_of n e0 e1 f0 q
mask_of_lem true true false true true h = refl
mask_of_lem true true false true false h = refl
mask_of_lem true true false false true h = refl
mask_of_lem true true false false false h = refl
mask_of_lem true false true true true h = refl
mask_of_lem true false true true false h = refl
mask_of_lem true false true false true h = refl
mask_of_lem true false true false false h = refl
mask_of_lem true false false true true h = refl
mask_of_lem true false false true false h = refl
mask_of_lem true false false false true h = refl
mask_of_lem true false false false false h = refl
mask_of_lem false true false true true h = refl
mask_of_lem false true false true false h = refl
mask_of_lem false true false false true h = refl
mask_of_lem false true false false false h = refl
mask_of_lem false false true true true h = refl
mask_of_lem false false true true false h = refl
mask_of_lem false false true false true h = refl
mask_of_lem false false true false false h = refl
mask_of_lem false false false true true h = refl
mask_of_lem false false false true false h = refl
mask_of_lem false false false false true h = refl
mask_of_lem false false false false false h = refl
mask_of_lem n true true f0 q h = cc

exclusive : (e : ℕ) → (e == 0) && (e == 2 ^ 8 - 1) ≡ false
exclusive e = elim (Bool-cases (e == 0)) [
  | inl z ↦ let other : (e == 2 ^ 8 - 1) ≡ false = ground arith in rw (z, other) refl
  | inr z ↦ rw z refl
]

-- A field of a word, in its place.
field_bits :
    (k w q rest a : ℕ)
    → a ≡ q * 2 ^ k + rest
    → rest < 2 ^ k
    → bit_and a ((2 ^ w - 1) * 2 ^ k) ≡ q % 2 ^ w * 2 ^ k
field_bits k w q rest a split small =
    ap (λ (t : ℕ). bit_and t ((2 ^ w - 1) * 2 ^ k)) split
    ∙ bit_and_high k q rest (2 ^ w - 1) small
    ∙ ap (λ (t : ℕ). t * 2 ^ k) (bit_and_mask w q)

sign_test : (a : ℕ) → a < 2 ^ 32 → not (bit_and a 0x80000000 == 0) ≡ leb (2 ^ 31) a
sign_test a h =
    let bits : bit_and a 0x80000000 ≡ a / 2 ^ 31 % 2 ^ 1 * 2 ^ 31 =
      field_bits 31 1 (a / 2 ^ 31) (a % 2 ^ 31) a (omega arith) (omega arith) in
    rw bits (ground arith)

quiet_test : (f : ℕ) → f < 2 ^ 23 → not (bit_and f 0x400000 == 0) ≡ leb (2 ^ 22) f
quiet_test f h =
    let bits : bit_and f 0x400000 ≡ f / 2 ^ 22 % 2 ^ 1 * 2 ^ 22 =
      field_bits 22 1 (f / 2 ^ 22) (f % 2 ^ 22) f (omega arith) (omega arith) in
    rw bits (ground arith)

exponent_bits : (a : ℕ) → bit_and a 0x7f800000 ≡ a / 2 ^ 23 % 2 ^ 8 * 2 ^ 23
exponent_bits a = field_bits 23 8 (a / 2 ^ 23) (a % 2 ^ 23) a (omega arith) (omega arith)

zero_test : (e : ℕ) → (e * 2 ^ 23 == 0) ≡ (e == 0)
zero_test e = ground arith

ones_test : (e : ℕ) → (e * 2 ^ 23 == 0x7f800000) ≡ (e == 2 ^ 8 - 1)
ones_test e = ground arith

class_runs :
    (s : Lane) (a : ℕ)
    → result_of 19 (exec fclass_lines (loaded s 14 a))
      ≡ some (
        machine s,
        mask_of
            (not (bit_and a 0x80000000 == 0))
            (bit_and a 0x7f800000 == 0)
            (bit_and a 0x7f800000 == 0x7f800000)
            (bit_and a 0x7fffff == 0)
            (not (bit_and (bit_and a 0x7fffff) 0x400000 == 0)),
      )
unfolding exec exec_line result_of fclass_lines
class_runs s a = refl

class_value :
    (a : ℕ)
    → a < 2 ^ 32
    → mask_of
        (not (bit_and a 0x80000000 == 0))
        (bit_and a 0x7f800000 == 0)
        (bit_and a 0x7f800000 == 0x7f800000)
        (bit_and a 0x7fffff == 0)
        (not (bit_and (bit_and a 0x7fffff) 0x400000 == 0))
      ≡ float_class a
unfolding float_class
class_value a h =
    let e = a / 2 ^ 23 % 2 ^ 8 in
    let f = a % 2 ^ 23 in
    rw
      (
        sign_test a h,
        exponent_bits a,
        bit_and_mask 23 a,
        zero_test e,
        ones_test e,
        quiet_test f (omega arith),
      )
      (mask_of_lem (leb (2 ^ 31) a) (e == 0) (e == 2 ^ 8 - 1) (f == 0) (leb (2 ^ 22) f)
        (exclusive e))

module _ (c : EmitCtx) (di : DecodedInst) (st : EmitState) (s : Lane) (d i : ℕ)
    (at_rd : di.rd ≡ pos d) (at_rs1 : di.rs1 ≡ pos i) where
  class_emits :
      di.name ≡ "fclass_s"
      → machine_after (try_emit_scalar_fp c di) st s
        ≡ machine_of (exec (ld_line 14 i ∷ fclass_lines ++ st_lines d 19) s)
  unfolding machine_after machine_emitted try_emit_scalar_fp emit_scalar_fclass_s
  class_emits named =
      rw (named, at_rd, at_rs1, emit_ld_lem c 14 i di.pc st, emit_st_lem c 19 d di.pc st) refl

  -- On a lane that holds words the lines that are emitted for FCLASS.S run to their end and leave
  -- in x[rd] the one bit of the class of the number in x[rs1], and nothing else changes.
  pub try_emit_scalar_fp-float_class :
      di.name ≡ "fclass_s"
      → IsWords s
      → machine_after (try_emit_scalar_fp c di) st s
        ≡ some (set_x (machine s) d (float_class (get_x (machine s) i)))
  try_emit_scalar_fp-float_class named words =
      let a = get_x (machine s) i in
      rw (class_emits named, exec-ld_line 14 i (fclass_lines ++ st_lines d 19) s, exec-append)
        (store_after d 19 (float_class a) (machine s) (exec fclass_lines (loaded s 14 a)) (
          class_runs s a
          ∙ ap (λ (w : ℕ). some (machine s, w)) (class_value a (get_x-word s i words))))
