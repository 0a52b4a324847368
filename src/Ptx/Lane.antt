-- ===== src/Ptx/Lane.antt =====
-- What the lines mean to one lane of a warp: the instructions that sbt/ptx_emit.cpp emits, as the
-- PTX documentation describes them. `r`, `x` and `v` hold words, `rd` double words, `p` predicates.
use ventus_gpgpu_sbt_simulat.Prelude.{
  ℕ, ◌+◌, ◌-◌, ◌^◌, String, str_eq, Bool, true, not, Option, none, some, ◌&&◌, ◌==◌, if◌then◌else◌,
}
use ventus_gpgpu_sbt_simulat.Prelude.Int.{pos}
use ventus_gpgpu_sbt_simulat.Words.{u32, to_u32}
use ventus_gpgpu_sbt_simulat.Ptx.Lines.{RegFile, Label, Operand, Guard}

-- `special` gives `%tid.x` and its like and the addresses of the shared symbols, `active` the mask of
-- the lanes that are active, and `param` the word at an offset of a parameter. `maps_shared` and
-- `maps_global` say which bytes of the two memories are there.
pub record Lane : Type 0 where
  pub r : ℕ → ℕ
  pub rd : ℕ → ℕ
  pub p : ℕ → Bool
  pub x : ℕ → ℕ
  pub v : ℕ → ℕ
  pub narrow : ℕ → ℕ
  pub special : String → ℕ
  pub active : ℕ
  pub param : String → ℕ → ℕ
  pub shared : ℕ → ℕ
  pub global : ℕ → ℕ
  pub maps_shared : ℕ → Bool
  pub maps_global : ℕ → Bool

-- How the lines end: after the last one, at another label, at `trap`, at `ret`, or at a line
-- that PTX gives no meaning to.
pub data Outcome : Type 0 where
  running : Lane → Outcome
  jumped : Label → Lane → Outcome
  trapped : Outcome
  returned : Lane → Outcome
  stuck : Outcome

abbrev pub update {ℓ} : {A : Type ℓ} → (ℕ → A) → ℕ → A → ℕ → A
update g i a j = if j == i then a else g j

abbrev pub update_param : (String → ℕ → ℕ) → String → ℕ → ℕ → String → ℕ → ℕ
update_param g s i a t j = if str_eq t s && (j == i) then a else g t j

-- A source operand that is no predicate.
abbrev pub value : Lane → Operand → Option ℕ
value s (Operand.reg RegFile.file_r (pos i)) = some (s.r i)
value s (Operand.reg RegFile.file_rd (pos i)) = some (s.rd i)
value s (Operand.reg RegFile.file_x (pos i)) = some (s.x i)
value s (Operand.reg RegFile.file_v (pos i)) = some (s.v i)
value s (Operand.reg RegFile.file_u8 (pos i)) = some (s.narrow i)
value s (Operand.reg RegFile.file_u16 (pos i)) = some (s.narrow (i + 4))
value s (Operand.num i) = some (to_u32 i)
value s (Operand.hex n) = some n
value s (Operand.neg_hex n) = some (u32 (2 ^ 32 - n))
value s (Operand.word w) = some (s.special w)
value s (Operand.param base offset) = some (s.param base offset)
value s _ = none

abbrev pub test : Lane → Operand → Option Bool
test s (Operand.reg RegFile.file_p (pos i)) = some (s.p i)
test s _ = none

abbrev pub write : Operand → ℕ → Lane → Outcome
write (Operand.reg RegFile.file_r (pos i)) a s = running (record s { r = update s.r i a })
write (Operand.reg RegFile.file_rd (pos i)) a s = running (record s { rd = update s.rd i a })
write (Operand.reg RegFile.file_x (pos i)) a s = running (record s { x = update s.x i a })
write (Operand.reg RegFile.file_v (pos i)) a s = running (record s { v = update s.v i a })
write (Operand.reg RegFile.file_u8 (pos i)) a s =
    running (record s { narrow = update s.narrow i a })
write (Operand.reg RegFile.file_u16 (pos i)) a s =
    running (record s { narrow = update s.narrow (i + 4) a })
write (Operand.param base offset) a s =
    running (record s { param = update_param s.param base offset a })
write _ a s = stuck

abbrev pub write_test : Operand → Bool → Lane → Outcome
write_test (Operand.reg RegFile.file_p (pos i)) b s = running (record s { p = update s.p i b })
write_test _ b s = stuck

abbrev pub guard_holds : Guard → Lane → Bool
guard_holds Guard.always s = true
guard_holds (Guard.when i) s = s.p i
guard_holds (Guard.unless i) s = not (s.p i)

-- The rest of the lines, where the lane is still running.
abbrev pub after : Outcome → (Lane → Outcome) → Outcome
after (running s) k = k s
after (jumped l s) k = jumped l s
after trapped k = trapped
after (returned s) k = returned s
after stuck k = stuck

abbrev pub with {ℓ} : {A : Type ℓ} → Option A → (A → Outcome) → Outcome
with (some a) k = k a
with none k = stuck
