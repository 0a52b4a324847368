-- ===== src/Ptx/Run/Blob/Roundtrip.antt =====
-- Restoring the registers from the blob that they were stored into.
use ventus_gpgpu_sbt_simulat.Prelude.{
  ℕ, ◌+◌, ◌*◌, ◌<◌, ◌≤◌, ◌≡◌, refl, sym, ap, ◌∙◌, arith, String, Option, none, some, List, [], ◌∷◌,
  ◌++◌,
}
use ventus_gpgpu_sbt_simulat.Prelude.Result.{Result, ok, err}
use ventus_gpgpu_sbt_simulat.Ptx.Lines.{Line, op, r, p, zero_imm}
use ventus_gpgpu_sbt_simulat.Ptx.Emit.{EmitError, EmitState, Emit}
use ventus_gpgpu_sbt_simulat.Ptx.Blob.{
  each_from, store_x, store_v, load_x, load_v, mutable_x_offset, mutable_v_offset,
  mutable_leader_offset, emit_store_param_u32, emit_load_param_u32, emit_store_mutable_state_blob,
  emit_restore_mutable_state_blob,
}
use ventus_gpgpu_sbt_simulat.Ptx.Lane.{Lane, Outcome, running}
use ventus_gpgpu_sbt_simulat.Ptx.Run.{exec, exec_line}
use ventus_gpgpu_sbt_simulat.Ptx.Run.Scalar.{exec-append}
use ventus_gpgpu_sbt_simulat.Ptx.Run.Blob.{
  Params, fill, pull, fill_below, fill_at, pull_at, exec-store_x, exec-store_v, exec-load_x,
  exec-load_v,
}

-- The lane after lines that run to their end.
unfoldable pub lane_of : Outcome → Option Lane
lane_of (running s) = some s
lane_of _ = none

unfoldable pub lane_emitted : Lane → Result EmitError (List Line × EmitState) → Option Lane
lane_emitted s (ok (ls, st)) = lane_of (exec ls s)
lane_emitted s (err e) = none

unfoldable pub lane_after : Emit → EmitState → Lane → Option Lane
lane_after e st s = lane_emitted s (e st)

abbrev store_head : String → List Line
store_head blob =
    op "activemask.b32" (r 1 ∷ [])
    ∷ op "bfind.u32" (r 2 ∷ r 1 ∷ [])
    ∷ op "setp.eq.u32" (p 0 ∷ r 0 ∷ r 2 ∷ [])
    ∷ emit_store_param_u32 blob mutable_leader_offset (r 2)
    ∷ op "mov.u32" (r 31 ∷ zero_imm ∷ [])
    ∷ emit_store_param_u32 blob mutable_x_offset (r 31)
    ∷ []

abbrev restore_head : String → List Line
restore_head blob =
    emit_load_param_u32 (r 2) blob mutable_leader_offset
    ∷ op "setp.eq.u32" (p 0 ∷ r 0 ∷ r 2 ∷ [])
    ∷ []

-- Some lane after the lines, of which `P` holds.
abbrev Reaches : List Line → Lane → (Lane → Type 0) → Type 0
Reaches ls s P = (t : Lane) × (exec ls s ≡ running t) × P t

abbrev SameFiles : Lane → Lane → Type 0
SameFiles s t = (s.x ≡ t.x) × (s.v ≡ t.v)

store_head_runs : (blob : String) (s : Lane) → Reaches (store_head blob) s (λ t. SameFiles s t)
unfolding exec exec_line
store_head_runs blob s = (_, refl, (refl, refl))

restore_head_runs :
    (blob : String) (s : Lane) → Reaches (restore_head blob) s (λ t. t.param ≡ s.param)
unfolding exec exec_line
restore_head_runs blob s = (_, refl, refl)

abbrev x_lines : (ℕ → Line) → List Line
x_lines line = each_from line 1 255

abbrev v_lines : (ℕ → Line) → List Line
v_lines line = each_from line 0 256

-- The word of each register is in the blob.
abbrev HoldsFiles : String → Lane → Params → Type 0
HoldsFiles blob s q =
    ((i : ℕ) → 1 ≤ i → i < 256 → q blob (mutable_x_offset + i * 4) ≡ s.x i)
    × ((i : ℕ) → i < 256 → q blob (mutable_v_offset + i * 4) ≡ s.v i)

module _ (blob : String) (st : EmitState) where
  store_emits :
      emit_store_mutable_state_blob blob st
      ≡ ok (store_head blob ++ x_lines (store_x blob) ++ v_lines (store_v blob), st)
  unfolding emit_store_mutable_state_blob
  store_emits = refl

  restore_emits :
      emit_restore_mutable_state_blob blob st
      ≡ ok (restore_head blob ++ x_lines (load_x blob) ++ v_lines (load_v blob), st)
  unfolding emit_restore_mutable_state_blob
  restore_emits = refl

  store_runs :
      (s : Lane)
      → (t : Lane) × (lane_after (emit_store_mutable_state_blob blob) st s ≡ some t)
        × HoldsFiles blob s t.param
  unfolding lane_after lane_emitted lane_of
  store_runs s =
      let head = store_head_runs blob s in
      let a = head.0 in
      let q = fill blob mutable_x_offset a.x 1 255 a.param in
      (
        record a { param = fill blob mutable_v_offset a.v 0 256 q },
        rw
            (
              store_emits,
              exec-append,
              exec-append,
              head.1,
              exec-store_x blob 1 255 a,
              exec-store_v blob 0 256 (record a { param = q }),
            )
            refl,
        (
          (λ i low high.
              fill_below blob mutable_v_offset a.v 0 256 _ q (omega arith)
              ∙ fill_at blob mutable_x_offset a.x 1 255 i a.param low (omega arith)
              ∙ ap (λ (g : ℕ → ℕ). g i) (sym head.2.0)),
          (λ i high.
              fill_at blob mutable_v_offset a.v 0 256 i q (omega arith) (omega arith)
              ∙ ap (λ (g : ℕ → ℕ). g i) (sym head.2.1)),
        ),
      )

  restore_runs :
      (s t : Lane)
      → HoldsFiles blob s t.param
      → (u : Lane) × (lane_after (emit_restore_mutable_state_blob blob) st t ≡ some u)
        × ((i : ℕ) → 1 ≤ i → i < 256 → u.x i ≡ s.x i)
        × ((i : ℕ) → i < 256 → u.v i ≡ s.v i)
  unfolding lane_after lane_emitted lane_of
  restore_runs s t held =
      let head = restore_head_runs blob t in
      let a = head.0 in
      let b : Lane = record a { x = pull (a.param blob) mutable_x_offset 1 255 a.x } in
      let at_x : (i : ℕ)
          → a.param blob (mutable_x_offset + i * 4) ≡ t.param blob (mutable_x_offset + i * 4) =
        λ i. ap (λ (q : Params). q blob (mutable_x_offset + i * 4)) head.2 in
      let at_v : (i : ℕ)
          → a.param blob (mutable_v_offset + i * 4) ≡ t.param blob (mutable_v_offset + i * 4) =
        λ i. ap (λ (q : Params). q blob (mutable_v_offset + i * 4)) head.2 in
      (
        record b { v = pull (a.param blob) mutable_v_offset 0 256 a.v },
        rw
            (
              restore_emits,
              exec-append,
              exec-append,
              head.1,
              exec-load_x blob 1 255 a,
              exec-load_v blob 0 256 b,
            )
            refl,
        (λ i low high.
            pull_at (a.param blob) mutable_x_offset 1 255 i a.x low (omega arith)
            ∙ at_x i
            ∙ held.0 i low high),
        (λ i high.
            pull_at (a.param blob) mutable_v_offset 0 256 i a.v (omega arith) (omega arith)
            ∙ at_v i
            ∙ held.1 i high),
      )

  -- The store of the mutable state runs to its end on any lane, and the restore runs to its end
  -- on any lane that has the parameters of that moment, and then holds the values that x1 to x255
  -- and v0 to v255 had when they were stored.
  pub emit_restore_mutable_state_blob-emit_store_mutable_state_blob :
      (s t : Lane)
      → (stored restored : Lane) × (lane_after (emit_store_mutable_state_blob blob) st s
          ≡ some stored)
        × (lane_after (emit_restore_mutable_state_blob blob) st (record t { param = stored.param })
            ≡ some restored)
        × ((i : ℕ) → 1 ≤ i → i < 256 → restored.x i ≡ s.x i)
        × ((i : ℕ) → i < 256 → restored.v i ≡ s.v i)
  emit_restore_mutable_state_blob-emit_store_mutable_state_blob s t =
      let kept = store_runs s in
      let back = restore_runs s (record t { param = kept.0.param }) kept.2 in
      (kept.0, back.0, kept.1, back.1, back.2, back.3)
