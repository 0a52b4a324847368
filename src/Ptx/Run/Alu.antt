-- ===== src/Ptx/Run/Alu.antt =====
-- The scalar integer instructions: running what is emitted for one does what RV32IM says.
use native.Mathlib.Nat.{mul-le-mul_right}
use ventus_gpgpu_sbt_simulat.Prelude.{
  ℕ, zero, suc, ◌+◌, ◌-◌, ◌*◌, ◌/◌, ◌%◌, ◌^◌, ◌<◌, ◌≤◌, ◌≡◌, refl, ap, arith, true, false, some,
  List, [], ◌∷◌, ◌==◌, ltb, lt→ltb, Bool-cases, inl, inr,
}
use ventus_gpgpu_sbt_simulat.Prelude.Int.{pos}
use ventus_gpgpu_sbt_simulat.Words.{u32, bit_and_mask}
use ventus_gpgpu_sbt_simulat.Words.Signed.{high_signed_unsigned, extend_signed, shift_signed_wide}
use ventus_gpgpu_sbt_simulat.Decode.Types.{DecodedInst}
use ventus_gpgpu_sbt_simulat.Ptx.Lines.{Line, op, r, rd, p, dec, zero_imm}
use ventus_gpgpu_sbt_simulat.Ptx.Emit.{EmitCtx, EmitState}
use ventus_gpgpu_sbt_simulat.Ptx.Scalar.{
  emit_scalar_alu, emit_arithmetic, emit_shift_or_compare, from_two, division_lines,
}
use ventus_gpgpu_sbt_simulat.Ptx.Lane.{Lane}
use ventus_gpgpu_sbt_simulat.Ptx.Riscv.{RegOp, reg_name, reg_result}
use ventus_gpgpu_sbt_simulat.Ptx.Run.{exec, exec_line}
use ventus_gpgpu_sbt_simulat.Ptx.Run.Scalar.{
  machine, get_x, set_x, result_of, machine_after, loaded, from_two_lem,
}

-- What is emitted between the loads and the store.
abbrev pub reg_lines : RegOp → List Line
reg_lines RegOp.op_add = op "add.u32" (r 16 ∷ r 14 ∷ r 15 ∷ []) ∷ []
reg_lines RegOp.op_sub = op "sub.u32" (r 16 ∷ r 14 ∷ r 15 ∷ []) ∷ []
reg_lines RegOp.op_and = op "and.b32" (r 16 ∷ r 14 ∷ r 15 ∷ []) ∷ []
reg_lines RegOp.op_or = op "or.b32" (r 16 ∷ r 14 ∷ r 15 ∷ []) ∷ []
reg_lines RegOp.op_xor = op "xor.b32" (r 16 ∷ r 14 ∷ r 15 ∷ []) ∷ []
reg_lines RegOp.op_mul = op "mul.lo.s32" (r 16 ∷ r 14 ∷ r 15 ∷ []) ∷ []
reg_lines RegOp.op_mulh = op "mul.hi.s32" (r 16 ∷ r 14 ∷ r 15 ∷ []) ∷ []
reg_lines RegOp.op_mulhu = op "mul.hi.u32" (r 16 ∷ r 14 ∷ r 15 ∷ []) ∷ []
reg_lines RegOp.op_mulhsu =
    op "cvt.s64.s32" (rd 18 ∷ r 14 ∷ [])
    ∷ op "cvt.u64.u32" (rd 19 ∷ r 15 ∷ [])
    ∷ op "mul.lo.s64" (rd 18 ∷ rd 18 ∷ rd 19 ∷ [])
    ∷ op "shr.s64" (rd 18 ∷ rd 18 ∷ dec 32 ∷ [])
    ∷ op "cvt.u32.u64" (r 16 ∷ rd 18 ∷ [])
    ∷ []
reg_lines RegOp.op_div = division_lines "div"
reg_lines RegOp.op_divu = division_lines "divu"
reg_lines RegOp.op_rem = division_lines "rem"
reg_lines RegOp.op_remu = division_lines "remu"
reg_lines RegOp.op_sll =
    op "and.b32" (r 17 ∷ r 15 ∷ dec 31 ∷ []) ∷ op "shl.b32" (r 16 ∷ r 14 ∷ r 17 ∷ []) ∷ []
reg_lines RegOp.op_srl =
    op "and.b32" (r 17 ∷ r 15 ∷ dec 31 ∷ []) ∷ op "shr.u32" (r 16 ∷ r 14 ∷ r 17 ∷ []) ∷ []
reg_lines RegOp.op_sra =
    op "and.b32" (r 17 ∷ r 15 ∷ dec 31 ∷ []) ∷ op "shr.s32" (r 16 ∷ r 14 ∷ r 17 ∷ []) ∷ []
reg_lines RegOp.op_slt =
    op "setp.lt.s32" (p 1 ∷ r 14 ∷ r 15 ∷ [])
    ∷ op "selp.u32" (r 16 ∷ dec 1 ∷ zero_imm ∷ p 1 ∷ [])
    ∷ []
reg_lines RegOp.op_sltu =
    op "setp.lt.u32" (p 1 ∷ r 14 ∷ r 15 ∷ [])
    ∷ op "selp.u32" (r 16 ∷ dec 1 ∷ zero_imm ∷ p 1 ∷ [])
    ∷ []

pub reg_emits :
    (c : EmitCtx) (di : DecodedInst) (o : RegOp)
    → di.name ≡ reg_name o
    → emit_scalar_alu c di ≡ some (from_two c di (reg_lines o))
unfolding emit_scalar_alu emit_arithmetic emit_shift_or_compare reg_name
reg_emits c di RegOp.op_add h = rw h refl
reg_emits c di RegOp.op_sub h = rw h refl
reg_emits c di RegOp.op_and h = rw h refl
reg_emits c di RegOp.op_or h = rw h refl
reg_emits c di RegOp.op_xor h = rw h refl
reg_emits c di RegOp.op_mul h = rw h refl
reg_emits c di RegOp.op_mulh h = rw h refl
reg_emits c di RegOp.op_mulhu h = rw h refl
reg_emits c di RegOp.op_mulhsu h = rw h refl
reg_emits c di RegOp.op_div h = rw h refl
reg_emits c di RegOp.op_divu h = rw h refl
reg_emits c di RegOp.op_rem h = rw h refl
reg_emits c di RegOp.op_remu h = rw h refl
reg_emits c di RegOp.op_sll h = rw h refl
reg_emits c di RegOp.op_srl h = rw h refl
reg_emits c di RegOp.op_sra h = rw h refl
reg_emits c di RegOp.op_slt h = rw h refl
reg_emits c di RegOp.op_sltu h = rw h refl

-- The high word of a negative product: `q` is the product of the words.
negative_word :
    (q b : ℕ)
    → 2 ^ 31 * b ≤ q
    → q + b ≤ 2 ^ 32 * b
    → b < 2 ^ 32
    → u32 (shift_signed_wide ((q + (2 ^ 64 - 2 ^ 32) * b) % 2 ^ 64) 32)
      ≡ u32 (q / 2 ^ 32 + (2 ^ 32 - b))
negative_word zero zero least most small = refl
negative_word (suc q) zero least most small = absurd (omega arith)
negative_word q (suc b) least most small =
    let wide : (q + (2 ^ 64 - 2 ^ 32) * suc b) % 2 ^ 64 ≡ q + (2 ^ 64 - 2 ^ 32 * suc b) =
      omega arith in
    let high : ltb (q + (2 ^ 64 - 2 ^ 32 * suc b)) (2 ^ 63) ≡ false = ground arith in
    rw (wide) (rw high (omega arith))

-- The high word by way of double words.
pub mulhsu_word :
    (a b : ℕ)
    → a < 2 ^ 32
    → b < 2 ^ 32
    → u32 (shift_signed_wide (extend_signed a * b % 2 ^ 64) 32) ≡ high_signed_unsigned a b
mulhsu_word a b ha hb = elim (Bool-cases (ltb a (2 ^ 31))) [
  | inl e ↦
      let short : a ≤ 2 ^ 31 - 1 = ground arith in
      let most : a * b ≤ (2 ^ 31 - 1) * b = mul-le-mul_right b short in
      let small : a * b < 2 ^ 63 = omega arith in
      let wide : a * b % 2 ^ 64 ≡ a * b = omega arith in
      rw (e) (rw wide (rw (lt→ltb (a * b) (2 ^ 63) small) (omega arith)))
  | inr e ↦
      let long : 2 ^ 31 ≤ a = ground arith in
      let short : a ≤ 2 ^ 32 - 1 = omega arith in
      let least : 2 ^ 31 * b ≤ a * b = mul-le-mul_right b long in
      let most : a * b ≤ (2 ^ 32 - 1) * b = mul-le-mul_right b short in
      let spread : (a + (2 ^ 64 - 2 ^ 32)) * b ≡ a * b + (2 ^ 64 - 2 ^ 32) * b = omega arith in
      rw e (rw spread (negative_word (a * b) b least (omega arith) hb))
]

-- No division by zero and no overflow, an overflow, or a division by zero.
pub data Division (a b : ℕ) : Type 0 where
  by_zero : (b == 0) ≡ true → (a == 2 ^ 31) ≡ true → (b == 2 ^ 32 - 1) ≡ false → Division a b
  other_by_zero : (b == 0) ≡ true → (a == 2 ^ 31) ≡ false → Division a b
  overflow : (b == 0) ≡ false → (a == 2 ^ 31) ≡ true → (b == 2 ^ 32 - 1) ≡ true → Division a b
  least : (b == 0) ≡ false → (a == 2 ^ 31) ≡ true → (b == 2 ^ 32 - 1) ≡ false → Division a b
  usual : (b == 0) ≡ false → (a == 2 ^ 31) ≡ false → Division a b

pub divide_cases : (a b : ℕ) → Division a b
divide_cases a b = elim (Bool-cases (b == 0)) [
  | inl z ↦ elim (Bool-cases (a == 2 ^ 31)) [
    | inl e ↦ by_zero z e (ground arith)
    | inr e ↦ other_by_zero z e
  ]
  | inr z ↦ elim (Bool-cases (a == 2 ^ 31)) [
    | inl e ↦ elim (Bool-cases (b == 2 ^ 32 - 1)) [ inl m ↦ overflow z e m | inr m ↦ least z e m ]
    | inr e ↦ usual z e
  ]
]

module _ (s : Lane) (a b : ℕ) (ha : a < 2 ^ 32) (hb : b < 2 ^ 32) where
  reg_runs :
      (o : RegOp)
      → result_of 16 (exec (reg_lines o) (loaded (loaded s 14 a) 15 b))
        ≡ some (machine s, reg_result o a b)
  unfolding exec exec_line result_of reg_result division_lines
  reg_runs RegOp.op_add = refl
  reg_runs RegOp.op_sub = refl
  reg_runs RegOp.op_and = refl
  reg_runs RegOp.op_or = refl
  reg_runs RegOp.op_xor = refl
  reg_runs RegOp.op_mul = refl
  reg_runs RegOp.op_mulh = refl
  reg_runs RegOp.op_mulhu = refl
  reg_runs RegOp.op_mulhsu = ap (λ t. some (machine s, t)) (mulhsu_word a b ha hb)
  reg_runs RegOp.op_div = elim (divide_cases a b) [
    | by_zero z e m ↦ rw (z, e, m) refl
    | other_by_zero z e ↦ rw (z, e) refl
    | overflow z e m ↦ rw (z, e, m) refl
    | least z e m ↦ rw (z, e, m) (rw (z, e, m) refl)
    | usual z e ↦ rw (z, e) (rw (z, e) refl)
  ]
  reg_runs RegOp.op_divu = elim (Bool-cases (b == 0)) [ inl z ↦ rw z refl | inr z ↦ rw z refl ]
  reg_runs RegOp.op_rem = elim (divide_cases a b) [
    | by_zero z e m ↦ rw (z, e, m) refl
    | other_by_zero z e ↦ rw (z, e) refl
    | overflow z e m ↦ rw (z, e, m) refl
    | least z e m ↦ rw (z, e, m) (rw (z, e, m) refl)
    | usual z e ↦ rw (z, e) (rw (z, e) refl)
  ]
  reg_runs RegOp.op_remu = elim (Bool-cases (b == 0)) [ inl z ↦ rw z refl | inr z ↦ rw z refl ]
  reg_runs RegOp.op_sll = rw (bit_and_mask 5 b) (rw (lt→ltb (b % 32) 32 (omega arith)) refl)
  reg_runs RegOp.op_srl = rw (bit_and_mask 5 b) (rw (lt→ltb (b % 32) 32 (omega arith)) refl)
  reg_runs RegOp.op_sra = rw (bit_and_mask 5 b) (rw (lt→ltb (b % 32) 32 (omega arith)) refl)
  reg_runs RegOp.op_slt = refl
  reg_runs RegOp.op_sltu = refl

abbrev pub IsWords : Lane → Type 0
IsWords s = (k : ℕ) → s.x k < 2 ^ 32

pub get_x-word : (s : Lane) (i : ℕ) → IsWords s → get_x (machine s) i < 2 ^ 32
get_x-word s zero h = omega arith
get_x-word s (suc i) h = h (suc i)

module _ (c : EmitCtx) (di : DecodedInst) (st : EmitState) (s : Lane) (d i j : ℕ)
    (at_rd : di.rd ≡ pos d) (at_rs1 : di.rs1 ≡ pos i) where
  -- For a register instruction of RV32IM on the scalar registers, and a lane that holds words,
  -- the emitted lines run to their end and leave in x[rd] what RV32IM says of x[rs1] and x[rs2];
  -- x0, all other registers and the memories are unchanged.
  pub emit_scalar_alu-reg_result :
      (o : RegOp)
      → di.rs2 ≡ pos j
      → di.name ≡ reg_name o
      → IsWords s
      → machine_after (emit_scalar_alu c di) st s
        ≡ some (set_x (machine s) d (reg_result o (get_x (machine s) i) (get_x (machine s) j)))
  emit_scalar_alu-reg_result o at_rs2 named words = rw (reg_emits c di o named) (
      from_two_lem c di st s d i j at_rd at_rs1 at_rs2 (reg_lines o)
        (reg_result o (get_x (machine s) i) (get_x (machine s) j))
        (reg_runs s (get_x (machine s) i) (get_x (machine s) j) (get_x-word s i words)
          (get_x-word s j words) o))
