-- ===== src/Ptx/Run/Load.antt =====
-- The scalar loads: running what is emitted for one reads the memory that the address belongs to.
pub mod Mapped
pub mod Emitted
use ventus_gpgpu_sbt_simulat.Prelude.{
  ℕ, zero, suc, ◌+◌, ◌-◌, ◌*◌, ◌/◌, ◌%◌, ◌^◌, ◌<◌, ◌≤◌, ◌≡◌, refl, sym, ◌∙◌, ap, arith, String,
  Bool, true, false, not, Option, none, some, List, [], ◌∷◌, ◌++◌, ◌==◌, ltb, leb, lt→ltb,
  if◌then◌else◌, Bool-cases, inl, inr,
}
use ventus_gpgpu_sbt_simulat.Prelude.Int.{ℤ, pos}
use ventus_gpgpu_sbt_simulat.Prelude.Result.{Result, ok, err}
use ventus_gpgpu_sbt_simulat.Words.{u32, to_u32}
use ventus_gpgpu_sbt_simulat.Words.Signed.{shift_signed}
use ventus_gpgpu_sbt_simulat.Decode.Types.{DecodedInst, is_i12}
use ventus_gpgpu_sbt_simulat.Ptx.Lines.{
  Line, Operand, Guard, op, r, rd, u8, u16, num, dec, inst, at,
}
use ventus_gpgpu_sbt_simulat.Ptx.Emit.{EmitCtx, EmitError, EmitState, Emit, require}
use ventus_gpgpu_sbt_simulat.Ptx.Kinds.{
  is_scalar_load, any_name, require_kind, scalar_exec_kind_for_inst, lookup_scalar_exec_kind,
  lookup_in,
}
use ventus_gpgpu_sbt_simulat.Ptx.Memory.{
  prepare_lines, emit_prepare_addr_mapping, emit_addr_map_and_ld_u32,
  emit_addr_map_and_ld_u8_zext_u32, emit_addr_map_and_ld_u16_zext_u32,
}
use ventus_gpgpu_sbt_simulat.Ptx.Access.{emit_scalar_load, scalar_load}
use ventus_gpgpu_sbt_simulat.Ptx.Lane.{
  Lane, Outcome, running, jumped, trapped, returned, stuck, after,
}
use ventus_gpgpu_sbt_simulat.Ptx.Run.{exec, exec_line, load_u32, load_u16, accessible}
use ventus_gpgpu_sbt_simulat.Ptx.Run.Scalar.{
  Machine, machine, get_x, set_x, ld_line, st_lines, loaded, emit_ld_lem, emit_st_lem, exec-ld_line,
  exec-append,
}

pub data LoadOp : Type 0 where
  load_word load_float load_byte load_half load_byte_unsigned load_half_unsigned : LoadOp

unfoldable pub load_name : LoadOp → String
load_name LoadOp.load_word = "lw"
load_name LoadOp.load_float = "flw"
load_name LoadOp.load_byte = "lb"
load_name LoadOp.load_half = "lh"
load_name LoadOp.load_byte_unsigned = "lbu"
load_name LoadOp.load_half_unsigned = "lhu"

-- The value of a load from a memory of bytes: a byte or a half word is extended to a word.
unfoldable pub load_result : LoadOp → (ℕ → ℕ) → ℕ → ℕ
load_result LoadOp.load_word m a = load_u32 m a
load_result LoadOp.load_float m a = load_u32 m a
load_result LoadOp.load_byte m a = if ltb (m a) (2 ^ 7) then m a else m a + (2 ^ 32 - 2 ^ 8)
load_result LoadOp.load_half m a =
    if ltb (load_u16 m a) (2 ^ 15) then load_u16 m a else load_u16 m a + (2 ^ 32 - 2 ^ 16)
load_result LoadOp.load_byte_unsigned m a = m a
load_result LoadOp.load_half_unsigned m a = load_u16 m a

-- The bytes that a load reads.
abbrev pub load_size : LoadOp → ℕ
load_size LoadOp.load_word = 4
load_size LoadOp.load_float = 4
load_size LoadOp.load_byte = 1
load_size LoadOp.load_half = 2
load_size LoadOp.load_byte_unsigned = 1
load_size LoadOp.load_half_unsigned = 2

-- How emitted lines end: behind the last one, at a trap, at a line that PTX gives no meaning to, or
-- at another label; or nothing is emitted.
pub data Ending (A : Type 0) : Type 0 where
  finished : A → Ending A
  at_trap at_fault elsewhere not_emitted : Ending A

abbrev pub map_ending : {A B : Type 0} → (A → B) → Ending A → Ending B
map_ending f (finished a) = finished (f a)
map_ending f at_trap = at_trap
map_ending f at_fault = at_fault
map_ending f elsewhere = elsewhere
map_ending f not_emitted = not_emitted

unfoldable pub end_of : ℕ → Outcome → Ending (Machine × ℕ)
end_of k (running s) = finished (machine s, s.r k)
end_of k trapped = at_trap
end_of k stuck = at_fault
end_of k _ = elsewhere

pub data Region (sb gb a : ℕ) : Type 0 where
  below : leb sb a ≡ false → ltb a gb ≡ true → leb gb a ≡ false → Region sb gb a
  in_shared : leb sb a ≡ true → ltb a gb ≡ true → leb gb a ≡ false → Region sb gb a
  in_global : leb sb a ≡ true → ltb a gb ≡ false → leb gb a ≡ true → Region sb gb a

pub address_cases : (sb gb a : ℕ) → sb ≤ gb → Region sb gb a
address_cases sb gb a h = elim (Bool-cases (leb sb a)) [
  | inr e ↦ below e (ground arith) (ground arith)
  | inl e ↦ elim (Bool-cases (ltb a gb)) [
    | inl g ↦ in_shared e g (ground arith)
    | inr g ↦ in_global e g (ground arith)
  ]
]

abbrev pub ld_lines : String → String → Operand → List Line
ld_lines from_shared from_global dst =
    inst (Guard.when 3) from_shared (dst ∷ at (rd 17) ∷ [])
    ∷ inst (Guard.when 4) from_global (dst ∷ at (rd 16) ∷ [])
    ∷ []

abbrev extend_by : ℕ → List Line
extend_by n = op "shl.b32" (r 17 ∷ r 17 ∷ dec n ∷ []) ∷ op "shr.s32" (r 17 ∷ r 17 ∷ dec n ∷ []) ∷ []

abbrev pub value_lines : LoadOp → List Line
value_lines LoadOp.load_word = ld_lines "ld.shared.u32" "ld.global.u32" (r 17)
value_lines LoadOp.load_float = ld_lines "ld.shared.u32" "ld.global.u32" (r 17)
value_lines LoadOp.load_byte =
    ld_lines "ld.shared.u8" "ld.global.u8" (u8 0)
    ++ op "cvt.u32.u8" (r 17 ∷ u8 0 ∷ []) ∷ extend_by 24
value_lines LoadOp.load_half =
    ld_lines "ld.shared.u16" "ld.global.u16" (u16 0)
    ++ op "cvt.u32.u16" (r 17 ∷ u16 0 ∷ []) ∷ extend_by 16
value_lines LoadOp.load_byte_unsigned =
    ld_lines "ld.shared.u8" "ld.global.u8" (u8 0) ++ op "cvt.u32.u8" (r 17 ∷ u8 0 ∷ []) ∷ []
value_lines LoadOp.load_half_unsigned =
    ld_lines "ld.shared.u16" "ld.global.u16" (u16 0) ++ op "cvt.u32.u16" (r 17 ∷ u16 0 ∷ []) ∷ []

abbrev pub IsBytes : (ℕ → ℕ) → Type 0
IsBytes m = (a : ℕ) → m a < 2 ^ 8

-- A load from one memory: a fault where the pointer is not a multiple of the size or a byte is not there.
abbrev pub load_from : LoadOp → (ℕ → Bool) → (ℕ → ℕ) → ℕ → Ending ℕ
load_from o maps m a =
    if accessible maps (load_size o) a then finished (load_result o m a) else at_fault

-- A load from a numeric address: a trap below the shared base.
abbrev pub value_at : EmitCtx → LoadOp → Lane → ℕ → Ending ℕ
value_at c o s a =
    if leb c.opt.shared_base_vaddr a
    then (if ltb a c.opt.global_base_vaddr
        then load_from o s.maps_shared s.shared ((s.rd 2 + (a - c.opt.shared_base_vaddr)) % 2 ^ 64)
        else load_from o s.maps_global s.global ((s.rd 0 + (a - c.opt.global_base_vaddr)) % 2 ^ 64))
    else at_trap

pub offset : (base a : ℕ) → base ≤ a → a < 2 ^ 32 → u32 (a + u32 (2 ^ 32 - base)) ≡ a - base
offset base a h k = omega arith

abbrev pub load_lines : EmitCtx → LoadOp → List Line
load_lines c o = prepare_lines c (r 15) ++ value_lines o

-- A sign extension by two shifts.
extend_byte :
    (w : ℕ)
    → w < 2 ^ 8
    → shift_signed (u32 (w * 2 ^ 24)) 24 ≡ (if ltb w (2 ^ 7) then w else w + (2 ^ 32 - 2 ^ 8))
extend_byte w h = elim (Bool-cases (ltb w (2 ^ 7))) [
  | inl e ↦
      let plus : ltb (u32 (w * 2 ^ 24)) (2 ^ 31) ≡ true = ground arith in
      rw e (rw plus (omega arith))
  | inr e ↦
      let minus : ltb (u32 (w * 2 ^ 24)) (2 ^ 31) ≡ false = ground arith in
      rw e (rw minus (omega arith))
]

extend_half :
    (w : ℕ)
    → w < 2 ^ 16
    → shift_signed (u32 (w * 2 ^ 16)) 16 ≡ (if ltb w (2 ^ 15) then w else w + (2 ^ 32 - 2 ^ 16))
extend_half w h = elim (Bool-cases (ltb w (2 ^ 15))) [
  | inl e ↦
      let plus : ltb (u32 (w * 2 ^ 16)) (2 ^ 31) ≡ true = ground arith in
      rw e (rw plus (omega arith))
  | inr e ↦
      let minus : ltb (u32 (w * 2 ^ 16)) (2 ^ 31) ≡ false = ground arith in
      rw e (rw minus (omega arith))
]

load_u16-word : (m : ℕ → ℕ) (a : ℕ) → IsBytes m → load_u16 m a < 2 ^ 16
load_u16-word m a h =
    let low : m a < 2 ^ 8 = h a in let high : m (a + 1) < 2 ^ 8 = h (a + 1) in omega arith

-- What the lines after the mapping leave in `%r17`, from the memory that the address is one of.
abbrev pub raw_value : LoadOp → (ℕ → ℕ) → ℕ → ℕ
raw_value LoadOp.load_word m a = load_u32 m a
raw_value LoadOp.load_float m a = load_u32 m a
raw_value LoadOp.load_byte m a = shift_signed (u32 (m a * 2 ^ 24)) 24
raw_value LoadOp.load_half m a = shift_signed (u32 (load_u16 m a * 2 ^ 16)) 16
raw_value LoadOp.load_byte_unsigned m a = m a
raw_value LoadOp.load_half_unsigned m a = load_u16 m a

pub raw_value_lem :
    (o : LoadOp) (m : ℕ → ℕ) (a : ℕ) → IsBytes m → raw_value o m a ≡ load_result o m a
unfolding load_result
raw_value_lem LoadOp.load_word m a h = refl
raw_value_lem LoadOp.load_float m a h = refl
raw_value_lem LoadOp.load_byte m a h = extend_byte (m a) (h a)
raw_value_lem LoadOp.load_half m a h = extend_half (load_u16 m a) (load_u16-word m a h)
raw_value_lem LoadOp.load_byte_unsigned m a h = refl
raw_value_lem LoadOp.load_half_unsigned m a h = refl
