-- ===== src/Ptx/Run/Load/Mapped.antt =====
-- Running the lines of an access: which memory it is one of, and how it ends.
use ventus_gpgpu_sbt_simulat.Prelude.{
  ℕ, ◌+◌, ◌-◌, ◌%◌, ◌^◌, ◌<◌, ◌≤◌, ◌≡◌, refl, sym, ◌∙◌, ap, arith, Bool, true, false, ltb, leb,
  Bool-cases, inl, inr,
}
use ventus_gpgpu_sbt_simulat.Words.{u32}
use ventus_gpgpu_sbt_simulat.Ptx.Emit.{EmitCtx}
use ventus_gpgpu_sbt_simulat.Ptx.Memory.{prepare_lines}
use ventus_gpgpu_sbt_simulat.Ptx.Lane.{Lane}
use ventus_gpgpu_sbt_simulat.Ptx.Run.{exec, exec_line, accessible}
use ventus_gpgpu_sbt_simulat.Ptx.Run.Scalar.{machine, loaded}
use ventus_gpgpu_sbt_simulat.Ptx.Run.Load.{
  LoadOp, load_size, finished, at_trap, at_fault, map_ending, end_of, below, in_shared, in_global,
  address_cases, IsBytes, load_from, value_at, offset, load_lines, raw_value, raw_value_lem,
}

module _ (c : EmitCtx) (s : Lane) (a : ℕ)
    (order : c.opt.shared_base_vaddr ≤ c.opt.global_base_vaddr) (word : a < 2 ^ 32) where
  abbrev sb : ℕ
  sb = c.opt.shared_base_vaddr

  abbrev gb : ℕ
  gb = c.opt.global_base_vaddr

  runs_below :
      (o : LoadOp)
      → leb sb a ≡ false
      → ltb a gb ≡ true
      → leb gb a ≡ false
      → end_of 17 (exec (load_lines c o) (loaded s 15 a)) ≡ at_trap
  unfolding exec exec_line end_of prepare_lines
  runs_below o e f g = rw (e, f, g) refl

  abbrev shared_pointer : ℕ
  shared_pointer = (s.rd 2 + u32 (a + u32 (2 ^ 32 - sb))) % 2 ^ 64

  abbrev global_pointer : ℕ
  global_pointer = (s.rd 0 + u32 (a + u32 (2 ^ 32 - gb))) % 2 ^ 64

  runs_shared :
      (o : LoadOp)
      → leb sb a ≡ true
      → ltb a gb ≡ true
      → leb gb a ≡ false
      → accessible s.maps_shared (load_size o) shared_pointer ≡ true
      → end_of 17 (exec (load_lines c o) (loaded s 15 a))
        ≡ finished (machine s, raw_value o s.shared shared_pointer)
  unfolding exec exec_line end_of prepare_lines
  runs_shared LoadOp.load_word e f g t = rw (e, f, g, t) refl
  runs_shared LoadOp.load_float e f g t = rw (e, f, g, t) refl
  runs_shared LoadOp.load_byte e f g t = rw (e, f, g, t) refl
  runs_shared LoadOp.load_half e f g t = rw (e, f, g, t) refl
  runs_shared LoadOp.load_byte_unsigned e f g t = rw (e, f, g, t) refl
  runs_shared LoadOp.load_half_unsigned e f g t = rw (e, f, g, t) refl

  runs_shared_fault :
      (o : LoadOp)
      → leb sb a ≡ true
      → ltb a gb ≡ true
      → leb gb a ≡ false
      → accessible s.maps_shared (load_size o) shared_pointer ≡ false
      → end_of 17 (exec (load_lines c o) (loaded s 15 a)) ≡ at_fault
  unfolding exec exec_line end_of prepare_lines
  runs_shared_fault LoadOp.load_word e f g t = rw (e, f, g, t) refl
  runs_shared_fault LoadOp.load_float e f g t = rw (e, f, g, t) refl
  runs_shared_fault LoadOp.load_byte e f g t = rw (e, f, g, t) refl
  runs_shared_fault LoadOp.load_half e f g t = rw (e, f, g, t) refl
  runs_shared_fault LoadOp.load_byte_unsigned e f g t = rw (e, f, g, t) refl
  runs_shared_fault LoadOp.load_half_unsigned e f g t = rw (e, f, g, t) refl

  runs_global :
      (o : LoadOp)
      → leb sb a ≡ true
      → ltb a gb ≡ false
      → leb gb a ≡ true
      → accessible s.maps_global (load_size o) global_pointer ≡ true
      → end_of 17 (exec (load_lines c o) (loaded s 15 a))
        ≡ finished (machine s, raw_value o s.global global_pointer)
  unfolding exec exec_line end_of prepare_lines
  runs_global LoadOp.load_word e f g t = rw (e, f, g, t) refl
  runs_global LoadOp.load_float e f g t = rw (e, f, g, t) refl
  runs_global LoadOp.load_byte e f g t = rw (e, f, g, t) refl
  runs_global LoadOp.load_half e f g t = rw (e, f, g, t) refl
  runs_global LoadOp.load_byte_unsigned e f g t = rw (e, f, g, t) refl
  runs_global LoadOp.load_half_unsigned e f g t = rw (e, f, g, t) refl

  runs_global_fault :
      (o : LoadOp)
      → leb sb a ≡ true
      → ltb a gb ≡ false
      → leb gb a ≡ true
      → accessible s.maps_global (load_size o) global_pointer ≡ false
      → end_of 17 (exec (load_lines c o) (loaded s 15 a)) ≡ at_fault
  unfolding exec exec_line end_of prepare_lines
  runs_global_fault LoadOp.load_word e f g t = rw (e, f, g, t) refl
  runs_global_fault LoadOp.load_float e f g t = rw (e, f, g, t) refl
  runs_global_fault LoadOp.load_byte e f g t = rw (e, f, g, t) refl
  runs_global_fault LoadOp.load_half e f g t = rw (e, f, g, t) refl
  runs_global_fault LoadOp.load_byte_unsigned e f g t = rw (e, f, g, t) refl
  runs_global_fault LoadOp.load_half_unsigned e f g t = rw (e, f, g, t) refl

  -- A load from the memory that the address is one of.
  from_lem :
      (o : LoadOp) (maps : ℕ → Bool) (m : ℕ → ℕ) (pointer : ℕ)
      → IsBytes m
      → (accessible maps (load_size o) pointer ≡ true
          → end_of 17 (exec (load_lines c o) (loaded s 15 a))
            ≡ finished (machine s, raw_value o m pointer))
      → (accessible maps (load_size o) pointer ≡ false
          → end_of 17 (exec (load_lines c o) (loaded s 15 a)) ≡ at_fault)
      → end_of 17 (exec (load_lines c o) (loaded s 15 a))
        ≡ map_ending (λ w. (machine s, w)) (load_from o maps m pointer)
  from_lem o maps m pointer bytes there fault =
      elim (Bool-cases (accessible maps (load_size o) pointer)) [
        | inl t ↦
            rw t (there t ∙ ap (λ w. finished (machine s, w)) (raw_value_lem o m pointer bytes))
        | inr t ↦ rw t (fault t)
      ]

  pub load_runs :
      (o : LoadOp)
      → IsBytes s.shared
      → IsBytes s.global
      → end_of 17 (exec (load_lines c o) (loaded s 15 a))
        ≡ map_ending (λ w. (machine s, w)) (value_at c o s a)
  load_runs o shared global = elim (address_cases sb gb a order) [
    | below e f g ↦ rw e (runs_below o e f g)
    | in_shared e f g ↦
        let at_least : sb ≤ a = ground arith in
        rw (e, f, sym (offset sb a at_least word))
          (from_lem o s.maps_shared s.shared shared_pointer shared (runs_shared o e f g)
            (runs_shared_fault o e f g))
    | in_global e f g ↦
        let at_least : gb ≤ a = ground arith in
        rw (e, f, sym (offset gb a at_least word))
          (from_lem o s.maps_global s.global global_pointer global (runs_global o e f g)
            (runs_global_fault o e f g))
  ]
