-- ===== src/Ptx/Lines.antt =====
-- A line of PTX before it is printed. Each call of `emit_line` in sbt/ptx_emit.cpp puts such a line
-- together from texts; `Ptx.Text` prints it.
use ventus_gpgpu_sbt_simulat.Prelude.{ℕ, String, List}
use ventus_gpgpu_sbt_simulat.Prelude.Int.{ℤ, pos}

-- The register files `%r`, `%rd`, `%p`, `%f`, `%v`, `%x`, `%ub` and `%uh`.
pub data RegFile : Type 0 where
  file_r file_rd file_p file_f file_v file_x file_u8 file_u16 : RegFile

-- `block` is `label_bb`, and `temp` is what `new_label` returns.
pub data Label : Type 0 where
  block : ℕ → Label
  temp : String → ℕ → Label

-- `reg` is a register, `num` is `std::to_string`, `hex` is `hex_u32`, `neg_hex` is it with a minus,
-- `word` is text as written, `at` is an address in brackets, and `param` an offset from a parameter.
pub data Operand : Type 0 where
  reg : RegFile → ℤ → Operand
  num : ℤ → Operand
  hex neg_hex : ℕ → Operand
  word : String → Operand
  at : Operand → Operand
  param : String → ℕ → Operand
  goal : Label → Operand

-- `@%p` and `@!%p`.
pub data Guard : Type 0 where
  always : Guard
  when unless : ℕ → Guard

pub data Line : Type 0 where
  inst : Guard → String → List Operand → Line
  label : Label → Line
  comment raw : String → Line
  declare : String → String → ℕ → Line
  call : String → String → List String → Line

abbrev pub r : ℕ → Operand
r i = reg RegFile.file_r (pos i)

abbrev pub rd : ℕ → Operand
rd i = reg RegFile.file_rd (pos i)

abbrev pub p : ℕ → Operand
p i = reg RegFile.file_p (pos i)

abbrev pub f : ℕ → Operand
f i = reg RegFile.file_f (pos i)

abbrev pub v : ℤ → Operand
v i = reg RegFile.file_v i

abbrev pub x : ℤ → Operand
x i = reg RegFile.file_x i

abbrev pub u8 : ℕ → Operand
u8 i = reg RegFile.file_u8 (pos i)

abbrev pub u16 : ℕ → Operand
u16 i = reg RegFile.file_u16 (pos i)

-- A line without a guard.
abbrev pub op : String → List Operand → Line
op name args = inst Guard.always name args

abbrev pub zero_imm : Operand
zero_imm = num (pos 0)

abbrev pub dec : ℕ → Operand
dec n = num (pos n)
