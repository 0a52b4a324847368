-- ===== src/Ptx/Emit.antt =====
-- The struct EmitCtx as a writer over its counters: `out` is only appended to, so an action returns
-- the lines that it appends. What `require` and `throw` raise ends the action.
use ventus_gpgpu_sbt_simulat.Prelude.{
  ℕ, ◌+◌, String, Bool, false, Option, none, some, List, [], ◌∷◌, ◌++◌, ◌==◌, ltb, if◌then◌else◌,
}
use ventus_gpgpu_sbt_simulat.Words.{◌<<<◌}
use ventus_gpgpu_sbt_simulat.Prelude.Int.{ℤ, is_nonneg, is_num}
use ventus_gpgpu_sbt_simulat.Prelude.Result.{Result, ok, err}
use ventus_gpgpu_sbt_simulat.Cfg.Types.{FunctionCfg, lookup}
use ventus_gpgpu_sbt_simulat.Ptx.Lines.{
  Label, Operand, Line, Guard, temp, inst, p, r, op, x, dec, zero_imm,
}

-- The ISA version, the numeric address space and the switches.
pub record Options : Type 0 where
  pub sm : ℕ
  pub shared_base_vaddr : ℕ
  pub global_base_vaddr : ℕ
  pub global_pointer_vaddr : ℕ
  pub lds_bytes : ℕ
  pub include_comments : Bool

pub record EmitError : Type 0 where
  pub code : String
  pub func : String
  pub pc : ℕ
  pub detail : String

abbrev pub TextMap : Type 0
TextMap = List (ℕ × String)

unfoldable pub find_text : ℕ → TextMap → Option String
find_text k [] = none
find_text k ((j, s) ∷ m) = if j == k then some s else find_text k m

-- The fields of EmitCtx that do not change.
pub record EmitCtx : Type 0 where
  pub cfg : FunctionCfg
  pub sym_by_addr : TextMap
  pub func_name : String
  pub ptx_name : String
  pub opt : Options
  pub ptx_name_by_addr : Option TextMap
  pub is_entry : Bool

-- The fields that do.
pub record EmitState : Type 0 where
  pub tmp_label_id : ℕ
  pub emitted_fp_dyn_note : Bool
  pub control_protocol_ready : Bool

abbrev pub start_state : EmitState
start_state = record {
  tmp_label_id = 0;
  emitted_fp_dyn_note = false;
  control_protocol_ready = false;
}

abbrev pub Emit : Type 0
Emit = EmitState → Result EmitError (List Line × EmitState)

-- Nothing is emitted.
abbrev pub skip : Emit
skip st = ok ([], st)

abbrev pub emit_line : Line → Emit
emit_line l st = ok (l ∷ [], st)

abbrev pub emit_lines : List Line → Emit
emit_lines ls st = ok (ls, st)

abbrev pub emit_label : Label → Emit
emit_label l = emit_line (Line.label l)

abbrev pub prepend :
    List Line → Result EmitError (List Line × EmitState) → Result EmitError (List Line × EmitState)
prepend ls (ok (ms, st)) = ok (ls ++ ms, st)
prepend ls (err e) = err e

abbrev pub continue_with :
    Result EmitError (List Line × EmitState) → Emit → Result EmitError (List Line × EmitState)
continue_with (ok (ls, st)) b = prepend ls (b st)
continue_with (err e) b = err e

infixr 5 ◌>>◌
abbrev pub ◌>>◌ : Emit → Emit → Emit
◌>>◌ a b st = continue_with (a st) b

-- `tmp_label_id++`.
abbrev pub with_temp_id : (ℕ → Emit) → Emit
with_temp_id k st = k st.tmp_label_id (record st { tmp_label_id = st.tmp_label_id + 1 })

-- `new_label`, for the rest of the function.
abbrev pub with_label : String → (Label → Emit) → Emit
with_label kind k = with_temp_id (λ n. k (temp kind n))

module _ (c : EmitCtx) where
  abbrev pub throw : String → ℕ → String → Emit
  throw code pc detail st =
      err (record { code = code; func = c.func_name; pc = pc; detail = detail })

  abbrev pub require : Bool → String → ℕ → String → Emit
  require holds code pc detail = if holds then skip else throw code pc detail

  unfoldable pub block_start_of_pc : ℕ → (ℕ → Emit) → Emit
  block_start_of_pc pc k = elim (lookup pc c.cfg.inst_pc_to_block) [
    | none ↦ throw "invalid.cfg" pc "pc not mapped to block"
    | some start ↦ k start
  ]

  -- An unset register index is -1 in the source, and is not one that is stored to or loaded from.
  unfoldable pub emit_ld_x_u32_all : Operand → ℤ → ℕ → Emit
  emit_ld_x_u32_all dst xreg pc =
      if is_num xreg 0
      then emit_line (op "mov.u32" (dst ∷ zero_imm ∷ []))
      else require (is_nonneg xreg) "invalid.reg" pc "xreg<0"
        >> emit_line (op "mov.u32" (dst ∷ x xreg ∷ []))

  unfoldable pub emit_st_x_u32_all : ℤ → Operand → ℕ → Emit
  emit_st_x_u32_all xreg src pc =
      if is_num xreg 0
      then skip
      else require (is_nonneg xreg) "invalid.reg" pc "xreg<=0"
        >> emit_line (op "mov.u32" (x xreg ∷ src ∷ []))

-- `%r1`, `%r2` and `%p0` hold the active lanes, the leader and whether this lane is it.
abbrev pub emit_read_activemask : Operand → Emit
emit_read_activemask dst = emit_line (op "activemask.b32" (dst ∷ []))

abbrev pub emit_refresh_leader_predicate : Emit
emit_refresh_leader_predicate = emit_line (op "setp.eq.u32" (p 0 ∷ r 0 ∷ r 2 ∷ []))

abbrev pub emit_select_leader_from_active_mask : Emit
emit_select_leader_from_active_mask =
    emit_read_activemask (r 1)
    >> emit_line (op "bfind.u32" (r 2 ∷ r 1 ∷ []))
    >> emit_refresh_leader_predicate

abbrev pub emit_warp_sync : Emit
emit_warp_sync = emit_read_activemask (r 1) >> emit_line (op "bar.warp.sync" (r 1 ∷ []))

unfoldable pub emit_trap_if_lane_inactive : EmitCtx → ℕ → Emit
emit_trap_if_lane_inactive c lane =
    require c (ltb lane 32) "unsupported.fixed_lane" c.cfg.start "lane>=32"
    >> emit_read_activemask (r 1)
    >> emit_lines (
        op "and.b32" (r 14 ∷ r 1 ∷ dec (1 <<< lane) ∷ [])
        ∷ op "setp.eq.u32" (p 1 ∷ r 14 ∷ zero_imm ∷ [])
        ∷ inst (Guard.when 1) "trap" []
        ∷ [])

-- The next section of a function, where the first one has no case for the instruction.
abbrev pub otherwise : Option Emit → Option Emit → Option Emit
otherwise (some e) rest = some e
otherwise none rest = rest
