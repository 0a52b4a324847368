-- ===== src/Ptx/Run/Scalar.antt =====
-- The lines around a scalar instruction, on a lane: `%x` registers are loaded into `%r` registers,
-- and the result is stored.
use ventus_gpgpu_sbt_simulat.Prelude.{
  ℕ, zero, suc, ◌≡◌, refl, false, Option, none, some, List, [], ◌∷◌, ◌++◌, ◌∙◌, sym, ap, arith, leb,
}
use ventus_gpgpu_sbt_simulat.Prelude.Int.{pos}
use ventus_gpgpu_sbt_simulat.Prelude.Result.{Result, ok, err}
use ventus_gpgpu_sbt_simulat.Ptx.Lines.{Line, op, r, x, zero_imm}
use ventus_gpgpu_sbt_simulat.Decode.Types.{DecodedInst}
use ventus_gpgpu_sbt_simulat.Ptx.Scalar.{from_one, from_two}
use ventus_gpgpu_sbt_simulat.Ptx.Emit.{
  EmitCtx, EmitError, EmitState, Emit, emit_ld_x_u32_all, emit_st_x_u32_all,
}
use ventus_gpgpu_sbt_simulat.Ptx.Lane.{
  Lane, Outcome, running, jumped, trapped, returned, stuck, update, after,
}
use ventus_gpgpu_sbt_simulat.Ptx.Run.{exec, exec_line}

-- The state of the emulated machine that a lane holds: its registers and the memories.
pub record Machine : Type 0 where
  pub x : ℕ → ℕ
  pub v : ℕ → ℕ
  pub shared : ℕ → ℕ
  pub global : ℕ → ℕ

abbrev pub machine : Lane → Machine
machine s = record { x = s.x; v = s.v; shared = s.shared; global = s.global }

-- `x0` reads as 0 and is not written.
abbrev pub get_x : Machine → ℕ → ℕ
get_x m zero = 0
get_x m (suc i) = m.x (suc i)

abbrev pub set_x : Machine → ℕ → ℕ → Machine
set_x m zero a = m
set_x m (suc d) a = record m { x = update m.x (suc d) a }

-- The machine after lines that run to their end, and with it the result in `%r` register `k`.
unfoldable pub machine_of : Outcome → Option Machine
machine_of (running s) = some (machine s)
machine_of _ = none

unfoldable pub result_of : ℕ → Outcome → Option (Machine × ℕ)
result_of k (running s) = some (machine s, s.r k)
result_of k _ = none

-- The machine after emitting from `st` and running what is emitted: none where nothing is emitted
-- or the lines do not run to their end.
unfoldable pub machine_emitted : Lane → Result EmitError (List Line × EmitState) → Option Machine
machine_emitted s (ok (ls, st)) = machine_of (exec ls s)
machine_emitted s (err e) = none

unfoldable pub machine_after : Option Emit → EmitState → Lane → Option Machine
machine_after none st s = none
machine_after (some e) st s = machine_emitted s (e st)

abbrev pub ld_line : ℕ → ℕ → Line
ld_line k zero = op "mov.u32" (r k ∷ zero_imm ∷ [])
ld_line k (suc i) = op "mov.u32" (r k ∷ x (pos (suc i)) ∷ [])

abbrev pub st_lines : ℕ → ℕ → List Line
st_lines zero k = []
st_lines (suc d) k = op "mov.u32" (x (pos (suc d)) ∷ r k ∷ []) ∷ []

append_after :
    (o : Outcome) (f g : Lane → Outcome) → after (after o f) g ≡ after o (λ s. after (f s) g)
append_after (running s) f g = refl
append_after (jumped l s) f g = refl
append_after trapped f g = refl
append_after (returned s) f g = refl
append_after stuck f g = refl

after_congr :
    (o : Outcome) {f g : Lane → Outcome} → ((s : Lane) → f s ≡ g s) → after o f ≡ after o g
after_congr (running s) h = h s
after_congr (jumped l s) h = refl
after_congr trapped h = refl
after_congr (returned s) h = refl
after_congr stuck h = refl

pub exec-append : (ls ms : List Line) (s : Lane) → exec (ls ++ ms) s ≡ after (exec ls s) (exec ms)
unfolding exec
exec-append [] ms s = refl
exec-append (l ∷ ls) ms s =
    after_congr (exec_line l s) (exec-append ls ms)
    ∙ sym (append_after (exec_line l s) (exec ls) (exec ms))

not_zero : (i : ℕ) → leb (suc i) 0 ≡ false
not_zero i = ground arith

module _ (c : EmitCtx) where
  pub emit_ld_lem :
      (k i pc : ℕ) (st : EmitState)
      → emit_ld_x_u32_all c (r k) (pos i) pc st ≡ ok (ld_line k i ∷ [], st)
  unfolding emit_ld_x_u32_all
  emit_ld_lem k zero pc st = refl
  emit_ld_lem k (suc i) pc st = rw (not_zero i) refl

  pub emit_st_lem :
      (k d pc : ℕ) (st : EmitState)
      → emit_st_x_u32_all c (pos d) (r k) pc st ≡ ok (st_lines d k, st)
  unfolding emit_st_x_u32_all
  emit_st_lem k zero pc st = refl
  emit_st_lem k (suc d) pc st = rw (not_zero d) refl

abbrev pub loaded : Lane → ℕ → ℕ → Lane
loaded s k a = record s { r = update s.r k a }

pub exec-ld_line :
    (k i : ℕ) (ls : List Line) (s : Lane)
    → exec (ld_line k i ∷ ls) s ≡ exec ls (loaded s k (get_x (machine s) i))
unfolding exec exec_line
exec-ld_line k zero ls s = refl
exec-ld_line k (suc i) ls s = refl

store_running :
    (d k : ℕ) (s : Lane) → machine_of (exec (st_lines d k) s) ≡ some (set_x (machine s) d (s.r k))
unfolding exec exec_line machine_of
store_running zero k s = refl
store_running (suc d) k s = refl

abbrev set_of : ℕ → Option (Machine × ℕ) → Option Machine
set_of d none = none
set_of d (some (m, w)) = some (set_x m d w)

store_result :
    (d k : ℕ) (o : Outcome) → machine_of (after o (exec (st_lines d k))) ≡ set_of d (result_of k o)
unfolding machine_of result_of
store_result d k (running s) = store_running d k s
store_result d k (jumped l s) = refl
store_result d k trapped = refl
store_result d k (returned s) = refl
store_result d k stuck = refl

pub store_after :
    (d k w : ℕ) (m : Machine) (o : Outcome)
    → result_of k o ≡ some (m, w)
    → machine_of (after o (exec (st_lines d k))) ≡ some (set_x m d w)
store_after d k w m o h = store_result d k o ∙ ap (set_of d) h

module _ (c : EmitCtx) (di : DecodedInst) (st : EmitState) (d i j : ℕ) (at_rd : di.rd ≡ pos d)
    (at_rs1 : di.rs1 ≡ pos i) where
  pub from_one_emits :
      (ls : List Line) → from_one c di ls st ≡ ok (ld_line 14 i ∷ ls ++ st_lines d 15, st)
  unfolding from_one
  from_one_emits ls =
      rw (at_rd, at_rs1, emit_ld_lem c 14 i di.pc st, emit_st_lem c 15 d di.pc st) refl

  pub from_two_emits :
      (ls : List Line)
      → di.rs2 ≡ pos j
      → from_two c di ls st ≡ ok (ld_line 14 i ∷ ld_line 15 j ∷ ls ++ st_lines d 16, st)
  unfolding from_two
  from_two_emits ls at_rs2 =
      rw
        (
          at_rd,
          at_rs1,
          at_rs2,
          emit_ld_lem c 14 i di.pc st,
          emit_ld_lem c 15 j di.pc st,
          emit_st_lem c 16 d di.pc st,
        )
        refl

-- The operand that a register index names.
module _ (c : EmitCtx) (di : DecodedInst) (st : EmitState) (s : Lane) (d i j : ℕ)
    (at_rd : di.rd ≡ pos d) (at_rs1 : di.rs1 ≡ pos i) where
  abbrev operand : ℕ
  operand = get_x (machine s) i

  pub from_one_lem :
      (ls : List Line) (w : ℕ)
      → result_of 15 (exec ls (loaded s 14 operand)) ≡ some (machine s, w)
      → machine_after (some (from_one c di ls)) st s ≡ some (set_x (machine s) d w)
  unfolding machine_after machine_emitted
  from_one_lem ls w h =
      rw
        (
          from_one_emits c di st d i i at_rd at_rs1 ls,
          exec-ld_line 14 i (ls ++ st_lines d 15) s,
          exec-append,
        )
        (store_after d 15 w (machine s) (exec ls (loaded s 14 operand)) h)

  module _ (at_rs2 : di.rs2 ≡ pos j) where
    pub from_two_lem :
        (ls : List Line) (w : ℕ)
        → result_of 16 (exec ls (loaded (loaded s 14 operand) 15 (get_x (machine s) j)))
          ≡ some (machine s, w)
        → machine_after (some (from_two c di ls)) st s ≡ some (set_x (machine s) d w)
    unfolding machine_after machine_emitted
    from_two_lem ls w h =
        rw
          (
            from_two_emits c di st d i j at_rd at_rs1 ls at_rs2,
            exec-ld_line 14 i (ld_line 15 j ∷ ls ++ st_lines d 16) s,
            exec-ld_line 15 j (ls ++ st_lines d 16) (loaded s 14 operand),
            exec-append,
          )
          (store_after d 16 w (machine s)
            (exec ls (loaded (loaded s 14 operand) 15 (get_x (machine s) j))) h)
