-- ===== src/Ptx/Run/Load/Emitted.antt =====
-- The scalar loads, from the instruction to the machine.
use ventus_gpgpu_sbt_simulat.Prelude.{
  ℕ, zero, suc, ◌+◌, ◌≤◌, ◌≡◌, refl, ◌∙◌, arith, true, Option, none, some, List, [], ◌∷◌, ◌++◌,
}
use ventus_gpgpu_sbt_simulat.Prelude.Int.{ℤ, pos}
use ventus_gpgpu_sbt_simulat.Prelude.Result.{Result, ok, err}
use ventus_gpgpu_sbt_simulat.Words.{u32, to_u32}
use ventus_gpgpu_sbt_simulat.Decode.Types.{DecodedInst, is_i12}
use ventus_gpgpu_sbt_simulat.Ptx.Lines.{Line, op, r, num}
use ventus_gpgpu_sbt_simulat.Ptx.Emit.{EmitCtx, EmitError, EmitState, Emit}
use ventus_gpgpu_sbt_simulat.Ptx.Kinds.{
  is_scalar_load, any_name, require_kind, scalar_exec_kind_for_inst, lookup_scalar_exec_kind,
  lookup_in,
}
use ventus_gpgpu_sbt_simulat.Ptx.Memory.{
  prepare_lines, emit_prepare_addr_mapping, emit_addr_map_and_ld_u32,
  emit_addr_map_and_ld_u8_zext_u32, emit_addr_map_and_ld_u16_zext_u32,
}
use ventus_gpgpu_sbt_simulat.Ptx.Access.{emit_scalar_load, scalar_load}
use ventus_gpgpu_sbt_simulat.Ptx.Lane.{
  Lane, Outcome, running, jumped, trapped, returned, stuck, after,
}
use ventus_gpgpu_sbt_simulat.Ptx.Run.{exec, exec_line}
use ventus_gpgpu_sbt_simulat.Ptx.Run.Scalar.{
  Machine, machine, get_x, set_x, ld_line, st_lines, loaded, emit_ld_lem, emit_st_lem, exec-ld_line,
  exec-append,
}
use ventus_gpgpu_sbt_simulat.Ptx.Run.Load.Mapped.{load_runs}
use ventus_gpgpu_sbt_simulat.Ptx.Run.Load.{
  LoadOp, load_name, end_of, load_lines, value_at, IsBytes, Ending, finished, at_trap, at_fault,
  elsewhere, not_emitted, map_ending,
}

unfoldable pub machine_end : Outcome → Ending Machine
machine_end (running s) = finished (machine s)
machine_end trapped = at_trap
machine_end stuck = at_fault
machine_end _ = elsewhere

unfoldable pub end_emitted : Lane → Result EmitError (List Line × EmitState) → Ending Machine
end_emitted s (ok (ls, st)) = machine_end (exec ls s)
end_emitted s (err e) = not_emitted

unfoldable pub end_after : Option Emit → EmitState → Lane → Ending Machine
end_after none st s = not_emitted
end_after (some e) st s = end_emitted s (e st)

-- How a load ends: with the value in a register, or as the access ends.
abbrev pub set_loaded : Machine → ℕ → Ending ℕ → Ending Machine
set_loaded m d e = map_ending (set_x m d) e

abbrev set_end : ℕ → Ending (Machine × ℕ) → Ending Machine
set_end d e = map_ending (λ (r : Machine × ℕ). set_x r.0 d r.1) e

store_end_running :
    (d k : ℕ) (s : Lane)
    → machine_end (exec (st_lines d k) s) ≡ finished (set_x (machine s) d (s.r k))
unfolding exec exec_line machine_end
store_end_running zero k s = refl
store_end_running (suc d) k s = refl

store_end :
    (d k : ℕ) (o : Outcome) → machine_end (after o (exec (st_lines d k))) ≡ set_end d (end_of k o)
unfolding machine_end end_of
store_end d k (running s) = store_end_running d k s
store_end d k (jumped l s) = refl
store_end d k trapped = refl
store_end d k (returned s) = refl
store_end d k stuck = refl

set_end_lem :
    (m : Machine) (d : ℕ) (e : Ending ℕ) → set_end d (map_ending (λ w. (m, w)) e) ≡ set_loaded m d e
set_end_lem m d (finished w) = refl
set_end_lem m d at_trap = refl
set_end_lem m d at_fault = refl
set_end_lem m d elsewhere = refl
set_end_lem m d not_emitted = refl

abbrev address_line : ℤ → Line
address_line imm = op "add.u32" (r 15 ∷ r 14 ∷ num imm ∷ [])

exec-address :
    (imm : ℤ) (b : ℕ) (s : Lane) (rest : List Line)
    → exec (address_line imm ∷ rest) (loaded s 14 b)
      ≡ exec rest (loaded (loaded s 14 b) 15 (u32 (b + to_u32 imm)))
unfolding exec exec_line
exec-address imm b s rest = refl

module _ (c : EmitCtx) (di : DecodedInst) (st : EmitState) (s : Lane) (d i : ℕ)
    (kind : is_i12 di.imm_kind ≡ true) (at_rd : di.rd ≡ pos d) (at_rs1 : di.rs1 ≡ pos i) where
  abbrev load_address : ℕ
  load_address = u32 (get_x (machine s) i + to_u32 di.imm)

  load_emits :
      (o : LoadOp)
      → di.name ≡ load_name o
      → end_after (emit_scalar_load c di) st s
        ≡ machine_end
            (exec (ld_line 14 i ∷ address_line di.imm ∷ load_lines c o ++ st_lines d 17) s)
  unfolding end_after end_emitted load_name emit_scalar_load scalar_load is_scalar_load any_name
      require_kind scalar_exec_kind_for_inst lookup_scalar_exec_kind lookup_in prepare_lines
      emit_prepare_addr_mapping emit_addr_map_and_ld_u32 emit_addr_map_and_ld_u8_zext_u32
      emit_addr_map_and_ld_u16_zext_u32
  load_emits LoadOp.load_word named =
      rw (named, kind, at_rs1, at_rd, emit_ld_lem c 14 i di.pc st, emit_st_lem c 17 d di.pc st) refl
  load_emits LoadOp.load_float named =
      rw (named, kind, at_rs1, at_rd, emit_ld_lem c 14 i di.pc st, emit_st_lem c 17 d di.pc st) refl
  load_emits LoadOp.load_byte named =
      rw (named, kind, at_rs1, at_rd, emit_ld_lem c 14 i di.pc st, emit_st_lem c 17 d di.pc st) refl
  load_emits LoadOp.load_half named =
      rw (named, kind, at_rs1, at_rd, emit_ld_lem c 14 i di.pc st, emit_st_lem c 17 d di.pc st) refl
  load_emits LoadOp.load_byte_unsigned named =
      rw (named, kind, at_rs1, at_rd, emit_ld_lem c 14 i di.pc st, emit_st_lem c 17 d di.pc st) refl
  load_emits LoadOp.load_half_unsigned named =
      rw (named, kind, at_rs1, at_rd, emit_ld_lem c 14 i di.pc st, emit_st_lem c 17 d di.pc st) refl

  -- For a scalar load, where the shared base is not above the global one and the memories hold
  -- bytes, the emitted lines trap if the address is below the shared base; else the address less
  -- the base of its memory is a pointer, and if that is no multiple of the size of the access or
  -- a byte is not there, the lines end at a load without a meaning, and if not they run to their
  -- end and leave in x[rd] the value there, extended as RV32I says, and nothing else changes.
  pub emit_scalar_load-value_at :
      (o : LoadOp)
      → di.name ≡ load_name o
      → c.opt.shared_base_vaddr ≤ c.opt.global_base_vaddr
      → IsBytes s.shared
      → IsBytes s.global
      → end_after (emit_scalar_load c di) st s
        ≡ set_loaded (machine s) d (value_at c o s load_address)
  emit_scalar_load-value_at o named order shared global =
      let b = get_x (machine s) i in
      rw
        (
          load_emits o named,
          exec-ld_line 14 i (address_line di.imm ∷ load_lines c o ++ st_lines d 17) s,
          exec-address di.imm b s (load_lines c o ++ st_lines d 17),
          exec-append,
        )
        (store_end d 17 (exec (load_lines c o) (loaded (loaded s 14 b) 15 load_address))
          ∙ rw (load_runs c (loaded s 14 b) load_address order (omega arith) o shared global)
              (set_end_lem (machine s) d (value_at c o s load_address)))
