-- ===== src/Ptx/Run/Blob.antt =====
-- The blob of the registers: what a function stores into it at its end or before a call is what is
-- restored from it.
pub mod Roundtrip
use ventus_gpgpu_sbt_simulat.Prelude.{
  ℕ, zero, suc, ◌+◌, ◌*◌, ◌<◌, ◌≤◌, ◌≡◌, refl, sym, ap, ◌∙◌, arith, String, str_eq, eq_iff, Bool,
  true, false, Option, none, some, List, [], ◌∷◌, ◌++◌, ◌&&◌, ◌==◌, ==_iff, Bool-cases, inl, inr,
  if◌then◌else◌,
}
use mathlib.Core.Path.{subst}
use ventus_gpgpu_sbt_simulat.Prelude.Int.{pos}
use ventus_gpgpu_sbt_simulat.Prelude.Result.{Result, ok, err}
use ventus_gpgpu_sbt_simulat.Ptx.Lines.{Line, op, r, zero_imm}
use ventus_gpgpu_sbt_simulat.Ptx.Emit.{EmitError, EmitState, Emit}
use ventus_gpgpu_sbt_simulat.Ptx.Blob.{
  each_from, store_x, store_v, load_x, load_v, mutable_x_offset, mutable_v_offset,
  emit_store_mutable_state_blob, emit_restore_mutable_state_blob, num_x_regs, num_v_regs,
}
use ventus_gpgpu_sbt_simulat.Ptx.Lane.{
  Lane, Outcome, running, jumped, trapped, returned, stuck, after, update, update_param,
}
use ventus_gpgpu_sbt_simulat.Ptx.Run.{exec, exec_line}
use ventus_gpgpu_sbt_simulat.Ptx.Run.Scalar.{exec-append}

abbrev pub Params : Type 0
Params = String → ℕ → ℕ

-- The parameters after the stores of `count` values, and registers after as many loads.
unfoldable pub fill : String → ℕ → (ℕ → ℕ) → ℕ → ℕ → Params → Params
fill blob base g first zero q = q
fill blob base g first (suc count) q =
    fill blob base g (first + 1) count (update_param q blob (base + first * 4) (g first))

unfoldable pub pull : (ℕ → ℕ) → ℕ → ℕ → ℕ → (ℕ → ℕ) → ℕ → ℕ
pull q base first zero g = g
pull q base first (suc count) g =
    pull q base (first + 1) count (update g first (q (base + first * 4)))

str_eq_refl : (s : String) → str_eq s s ≡ true
str_eq_refl s = (eq_iff s s).1 refl

eq_refl : (n : ℕ) → (n == n) ≡ true
eq_refl n = (==_iff n n).1 refl

param_same : (q : Params) (blob : String) (j w : ℕ) → update_param q blob j w blob j ≡ w
param_same q blob j w = rw (str_eq_refl blob, eq_refl j) refl

param_other :
    (q : Params) (blob : String) (j k w : ℕ)
    → (k == j) ≡ false
    → update_param q blob j w blob k ≡ q blob k
param_other q blob j k w h = rw (str_eq_refl blob, h) refl

module _ (blob : String) (base : ℕ) (g : ℕ → ℕ) where
  pub fill_below :
      (first count j : ℕ) (q : Params)
      → j < base + first * 4
      → fill blob base g first count q blob j ≡ q blob j
  unfolding fill
  fill_below first zero j q h = refl
  fill_below first (suc count) j q h =
      fill_below (first + 1) count j _ (omega arith)
      ∙ param_other q blob (base + first * 4) j (g first) (ground arith)

  pub fill_above :
      (first count j : ℕ) (q : Params)
      → base + (first + count) * 4 ≤ j
      → fill blob base g first count q blob j ≡ q blob j
  unfolding fill
  fill_above first zero j q h = refl
  fill_above first (suc count) j q h =
      fill_above (first + 1) count j _ (omega arith)
      ∙ param_other q blob (base + first * 4) j (g first) (ground arith)

  pub fill_at :
      (first count i : ℕ) (q : Params)
      → first ≤ i
      → i < first + count
      → fill blob base g first count q blob (base + i * 4) ≡ g i
  unfolding fill
  fill_at first zero i q h k = absurd (omega arith)
  fill_at first (suc count) i q h k = elim (Bool-cases (i == first)) [
    | inl e ↦
        let same : i ≡ first = (==_iff i first).0 e in
        subst (λ n. fill blob base g first (suc count) q blob (base + n * 4) ≡ g n) (sym same)
          (fill_below (first + 1) count (base + first * 4) _ (omega arith)
            ∙ param_same q blob (base + first * 4) (g first))
    | inr e ↦
        let later : first + 1 ≤ i = ground arith in
        fill_at (first + 1) count i _ later (omega arith)
  ]

module _ (q : ℕ → ℕ) (base : ℕ) where
  pull_below : (first count i : ℕ) (g : ℕ → ℕ) → i < first → pull q base first count g i ≡ g i
  unfolding pull
  pull_below first zero i g h = refl
  pull_below first (suc count) i g h =
      let apart : (i == first) ≡ false = ground arith in
      pull_below (first + 1) count i _ (omega arith) ∙ rw apart refl

  pub pull_at :
      (first count i : ℕ) (g : ℕ → ℕ)
      → first ≤ i
      → i < first + count
      → pull q base first count g i ≡ q (base + i * 4)
  unfolding pull
  pull_at first zero i g h k = absurd (omega arith)
  pull_at first (suc count) i g h k = elim (Bool-cases (i == first)) [
    | inl e ↦
        let same : i ≡ first = (==_iff i first).0 e in
        subst (λ n. pull q base first (suc count) g n ≡ q (base + n * 4)) (sym same)
          (pull_below (first + 1) count first _ (omega arith) ∙ rw (eq_refl first) refl)
    | inr e ↦
        let later : first + 1 ≤ i = ground arith in
        pull_at (first + 1) count i _ later (omega arith)
  ]

module _ (blob : String) where
  pub exec-store_x :
      (first count : ℕ) (s : Lane)
      → exec (each_from (store_x blob) first count) s
        ≡ running (record s { param = fill blob mutable_x_offset s.x first count s.param })
  unfolding exec exec_line each_from fill
  exec-store_x first zero s = refl
  exec-store_x first (suc count) s = exec-store_x (first + 1) count _

  pub exec-store_v :
      (first count : ℕ) (s : Lane)
      → exec (each_from (store_v blob) first count) s
        ≡ running (record s { param = fill blob mutable_v_offset s.v first count s.param })
  unfolding exec exec_line each_from fill
  exec-store_v first zero s = refl
  exec-store_v first (suc count) s = exec-store_v (first + 1) count _

  pub exec-load_x :
      (first count : ℕ) (s : Lane)
      → exec (each_from (load_x blob) first count) s
        ≡ running (record s { x = pull (s.param blob) mutable_x_offset first count s.x })
  unfolding exec exec_line each_from pull
  exec-load_x first zero s = refl
  exec-load_x first (suc count) s = exec-load_x (first + 1) count _

  pub exec-load_v :
      (first count : ℕ) (s : Lane)
      → exec (each_from (load_v blob) first count) s
        ≡ running (record s { v = pull (s.param blob) mutable_v_offset first count s.v })
  unfolding exec exec_line each_from pull
  exec-load_v first zero s = refl
  exec-load_v first (suc count) s = exec-load_v (first + 1) count _
