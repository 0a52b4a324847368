-- ===== src/Ptx/Body.antt =====
-- sbt/ptx_emit.cpp: the blocks of a function, and a module.
use ventus_gpgpu_sbt_simulat.Prelude.{
  ℕ, String, str_eq, Bool, true, false, not, Option, none, some, List, [], ◌∷◌, ◌++◌, map, ◌||◌,
  ◌==◌, if◌then◌else◌,
}
use Prim.Native.String.{◌++◌ as str_append}
use ventus_gpgpu_sbt_simulat.Prelude.Int.{pos}
use ventus_gpgpu_sbt_simulat.Decode.Types.{DecodedInst}
use ventus_gpgpu_sbt_simulat.Cfg.Types.{FunctionCfg, BundleInst, BasicBlock}
use ventus_gpgpu_sbt_simulat.Ptx.Lines.{Line, block, op, goal}
use ventus_gpgpu_sbt_simulat.Ptx.Kinds.{is_scalar_branch, is_vector_branch, is_uncond_jump, is_ret}
use ventus_gpgpu_sbt_simulat.Prelude.{get_elem?}
use ventus_gpgpu_sbt_simulat.Prelude.Result.{Result, ok, ◌>>=◌}
use ventus_gpgpu_sbt_simulat.Cfg.Types.{Edge, EdgeKind}
use ventus_gpgpu_sbt_simulat.Ptx.Text.{to_string, print}
use ventus_gpgpu_sbt_simulat.Ptx.Branch.{target_label_for_edge}
use ventus_gpgpu_sbt_simulat.Ptx.One.{emit_one_inst}
use ventus_gpgpu_sbt_simulat.Ptx.Prologue.{
  emit_prologue, emit_func_prologue, emit_helper_func_signature,
}
use ventus_gpgpu_sbt_simulat.Ptx.Emit.{
  EmitError, Options, start_state, EmitCtx, EmitState, Emit, TextMap, skip, emit_line, emit_label,
  ◌>>◌, require,
}

-- An action for each element.
unfoldable pub for_each : {A : Type 0} → (A → Emit) → List A → Emit
for_each body [] = skip
for_each body (a ∷ rest) = body a >> for_each body rest

-- The action at an index; the indices of a block are those of instructions.
abbrev at_index : FunctionCfg → ℕ → (BundleInst → Emit) → Emit
at_index cfg k body = elim (get_elem? cfg.insts k) [ none ↦ skip | some bi ↦ body bi ]

unfoldable pub last_index : List ℕ → Option ℕ
last_index [] = none
last_index (k ∷ []) = some k
last_index (k ∷ m ∷ ks) = last_index (m ∷ ks)

-- The destination of the first edge of that kind.
unfoldable pub fallthrough_dst : List Edge → Option ℕ
fallthrough_dst [] = none
fallthrough_dst (e ∷ es) = elim e.kind [
  | EdgeKind.fallthrough ↦ some e.dst
  | _ ↦ fallthrough_dst es
]

module _ (c : EmitCtx) where
  -- The check of the instructions after the first one of a block.
  abbrev check_join : ℕ → Emit
  check_join k = at_index c.cfg k (λ bi.
      require c (not (str_eq bi.inst.name "join")) "unsupported.join" bi.inst.pc
        "join must start a basic block")

  abbrev check_block : List ℕ → Emit
  check_block [] = skip
  check_block (k ∷ ks) = for_each (λ j. if j == k then skip else check_join j) ks

  unfoldable pub prepare_control_protocol : Emit
  prepare_control_protocol st =
      if st.control_protocol_ready
      then skip st
      else for_each (λ b. check_block b.inst_indices) c.cfg.blocks
          (record st { control_protocol_ready = true })

  -- A block that ends in no jump of its own goes on at its successor.
  unfoldable pub ends_block : DecodedInst → Bool
  ends_block last =
      is_uncond_jump last
      || (is_ret last
          || (str_eq last.name "endprg"
              || (is_scalar_branch last.name || is_vector_branch last.name)))

  unfoldable pub emit_fallthrough_edge_if_needed : BasicBlock → Emit
  emit_fallthrough_edge_if_needed b = elim (last_index b.inst_indices) [
    | none ↦ skip
    | some k ↦ elim (fallthrough_dst b.succs) [
      | none ↦ skip
      | some dst ↦ at_index c.cfg k (λ last.
          if ends_block last.inst
          then skip
          else emit_line (op "bra" (goal (target_label_for_edge b.start dst) ∷ [])))
    ]
  ]

  unfoldable pub emit_block : BasicBlock → Emit
  emit_block b =
      emit_label (block b.start)
      >> for_each (λ k. at_index c.cfg k (emit_one_inst c)) b.inst_indices
      >> emit_fallthrough_edge_if_needed b

  unfoldable pub emit_body : Emit
  emit_body =
      prepare_control_protocol
      >> (if c.is_entry then emit_prologue c else emit_func_prologue c)
      >> for_each emit_block c.cfg.blocks
      >> emit_line (Line.raw "}\n\n")

pub record FuncToEmit : Type 0 where
  pub name : String
  pub ptx_name : String
  pub cfg : FunctionCfg

unfoldable pub module_header : Options → List Line
module_header opt =
    Line.raw ".version 7.0\n"
    ∷ Line.raw (str_append ".target sm_" (str_append (to_string (pos opt.sm)) "\n"))
    ∷ Line.raw ".address_size 64\n\n"
    ∷ Line.raw ".extern .shared .align 16 .b8 __sbt_shmem[];\n"
    ∷ Line.raw ".shared .align 4 .u32 __sbt_pds_block_idx;\n"
    ∷ Line.raw ".shared .align 4 .u32 __sbt_pds_wg_base;\n"
    ∷ Line.raw ".shared .align 4 .u32 __sbt_pds_exit_count;\n\n"
    ∷ []

unfoldable pub prototypes : List FuncToEmit → List Line
prototypes [] = []
prototypes (g ∷ gs) = emit_helper_func_signature g.ptx_name ∷ Line.raw ";\n\n" ∷ prototypes gs

-- Each body has a context of its own.
unfoldable pub emit_bodies : List EmitCtx → Result EmitError (List Line)
emit_bodies [] = ok []
emit_bodies (c ∷ cs) = emit_body c start_state >>= λ (done : List Line × EmitState).
    emit_bodies cs >>= λ (rest : List Line). ok (done.0 ++ rest)

module _ (sym_by_addr : TextMap) (ptx_name_by_addr : TextMap) (opt : Options) where
  abbrev context : String → String → FunctionCfg → Bool → EmitCtx
  context name ptx_name cfg is_entry = record {
    cfg = cfg;
    sym_by_addr = sym_by_addr;
    func_name = name;
    ptx_name = ptx_name;
    opt = opt;
    ptx_name_by_addr = some ptx_name_by_addr;
    is_entry = is_entry;
  }

  abbrev func_context : FuncToEmit → EmitCtx
  func_context g = context g.name g.ptx_name g.cfg false

  unfoldable pub emit_module_lines :
      FunctionCfg → String → List FuncToEmit → Result EmitError (List Line)
  emit_module_lines entry_cfg entry_name funcs =
      emit_bodies (map func_context funcs ++ context entry_name entry_name entry_cfg true ∷ [])
      >>= λ (bodies : List Line). ok (module_header opt ++ (prototypes funcs ++ bodies))

  -- The text of the module.
  unfoldable pub emit_module : FunctionCfg → String → List FuncToEmit → Result EmitError String
  emit_module entry_cfg entry_name funcs =
      emit_module_lines entry_cfg entry_name funcs >>= λ (ls : List Line). ok (print ls)

unfoldable pub emit_kernel : FunctionCfg → TextMap → String → Options → Result EmitError String
emit_kernel cfg sym_by_addr kernel_name opt = emit_module sym_by_addr [] opt cfg kernel_name []
