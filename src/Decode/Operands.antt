-- ===== src/Decode/Operands.antt =====
-- The operands of a decoded instruction: a register is set exactly where its class says that there
-- is one, and its number is in range.
use ventus_gpgpu_sbt_simulat.Prelude.{
  ℕ, ◌<◌, ◌≡◌, refl, arith, some, List, Option-cases, inl, inr, Bool-cases, String,
}
use ventus_gpgpu_sbt_simulat.Prelude.Int.{ℤ, pos, negsuc}
use ventus_gpgpu_sbt_simulat.Decode.Types.{RegClass, RegextPrefix, DecodedInst, Pattern, blank}
use ventus_gpgpu_sbt_simulat.Decode.Fields.{rd5, rs1_5, rs2_5, rs3_5}
use ventus_gpgpu_sbt_simulat.Decode.Sext.{
  rd5_digits, rs1_5_digits, rs2_5_digits, rs3_5_digits, ext_apply_digits,
}
use ventus_gpgpu_sbt_simulat.Decode.Fp.{
  decode_fp, fill_unary, fill_binary, fill_ternary, fp_load, fp_store,
}
use ventus_gpgpu_sbt_simulat.Decode.Scalar.{
  decode_base, decode_scalar, set_r, set_i, set_s_b, set_u_j, set_csr,
}
use ventus_gpgpu_sbt_simulat.Decode.Names.{form_of}
use ventus_gpgpu_sbt_simulat.Decode.Patterns.{match_pattern, pattern_name}
use ventus_gpgpu_sbt_simulat.Decode.One.{
  fill, extend, decode_matched, decode_word, apply_prefix, decode_one,
}

-- A register of class `c` with value `r`: unset for no class, else a number below `b`.
abbrev pub Operand : ℕ → RegClass → ℤ → Type 0
Operand b RegClass.none r = r ≡ negsuc 0
Operand b _ (pos n) = n < b
Operand b _ (negsuc n) = ⊥

pub record HasOperands (b : ℕ) (d : DecodedInst) : Type 0 where
  pub rd_ok : Operand b d.rd_class d.rd
  pub rs1_ok : Operand b d.rs1_class d.rs1
  pub rs2_ok : Operand b d.rs2_class d.rs2
  pub rs3_ok : Operand b d.rs3_class d.rs3

rd5-lt : (w : ℕ) → rd5 w < 32
rd5-lt w = omega (arith, rd5_digits w)

rs1_5-lt : (w : ℕ) → rs1_5 w < 32
rs1_5-lt w = omega (arith, rs1_5_digits w)

rs2_5-lt : (w : ℕ) → rs2_5 w < 32
rs2_5-lt w = omega (arith, rs2_5_digits w)

rs3_5-lt : (w : ℕ) → rs3_5 w < 32
rs3_5-lt w = omega (arith, rs3_5_digits w)

fill-Operand : (c : RegClass) (raw : ℕ) → raw < 32 → Operand 32 c (fill c raw (negsuc 0))
fill-Operand RegClass.none raw h = refl
fill-Operand RegClass.xreg raw h = h
fill-Operand RegClass.vreg raw h = h

module _ (pc w : ℕ) where
  decode_fp-HasOperands : (d : DecodedInst) → decode_fp w (blank pc w) ≡ some d → HasOperands 32 d
  unfolding decode_fp fill_unary fill_binary fill_ternary fp_load fp_store
  decode_fp-HasOperands d h = ground (arith, rd5-lt w, rs1_5-lt w, rs2_5-lt w, rs3_5-lt w)

  decode_base-HasOperands :
      (d : DecodedInst) → decode_base w (blank pc w) ≡ some d → HasOperands 32 d
  unfolding decode_base set_r set_i set_s_b set_u_j set_csr
  decode_base-HasOperands d h = ground (arith, rd5-lt w, rs1_5-lt w, rs2_5-lt w)

  decode_scalar-HasOperands :
      (d : DecodedInst) → decode_scalar w (blank pc w) ≡ some d → HasOperands 32 d
  decode_scalar-HasOperands d h = elim (Option-cases (decode_fp w (blank pc w))) [
    | inl e ↦ decode_base-HasOperands d (unfold decode_scalar in rw (e, decode_scalar) at h)
    | inr (d', e) ↦ decode_fp-HasOperands d (unfold decode_scalar in ground arith)
  ]

  -- The classes of a matched instruction come from its form, and each operand is filled by its class.
  decode_matched-HasOperands : (name : String) → HasOperands 32 (decode_matched w name (blank pc w))
  unfolding decode_matched
  decode_matched-HasOperands name = record {
    rd_ok = fill-Operand (form_of name).rd (rd5 w) (rd5-lt w);
    rs1_ok = fill-Operand (form_of name).rs1 (rs1_5 w) (rs1_5-lt w);
    rs2_ok = fill-Operand (form_of name).rs2 (rs2_5 w) (rs2_5-lt w);
    rs3_ok = refl;
  }

  pub decode_word-HasOperands :
      (patterns : List Pattern) → HasOperands 32 (decode_word pc w patterns)
  unfolding decode_word
  decode_word-HasOperands patterns = elim (Option-cases (match_pattern w patterns)) [
    | inr (p, e) ↦ rw (e, decode_word) (decode_matched-HasOperands (pattern_name p))
    | inl e ↦
        rw (e, decode_word)
          (elim (Option-cases (decode_scalar w (blank pc w))) [
            | inr (d, f) ↦ rw f (decode_scalar-HasOperands d f)
            | inl f ↦ rw f (record { rd_ok = refl; rs1_ok = refl; rs2_ok = refl; rs3_ok = refl })
          ])
  ]

-- The prefix's three bits fit above the five of the word.
extend-Operand :
    (c : RegClass) (r : ℤ) (ext : ℕ) → ext < 8 → Operand 32 c r → Operand 256 c (extend c r ext)
extend-Operand RegClass.none r ext small h = h
extend-Operand RegClass.xreg (pos n) ext small h = omega (arith, ext_apply_digits n ext h)
extend-Operand RegClass.vreg (pos n) ext small h = omega (arith, ext_apply_digits n ext h)
extend-Operand RegClass.xreg (negsuc n) ext small h = h
extend-Operand RegClass.vreg (negsuc n) ext small h = h

widen-Operand : (c : RegClass) (r : ℤ) → Operand 32 c r → Operand 256 c r
widen-Operand RegClass.none r h = h
widen-Operand RegClass.xreg (pos n) h = omega arith
widen-Operand RegClass.vreg (pos n) h = omega arith
widen-Operand RegClass.xreg (negsuc n) h = h
widen-Operand RegClass.vreg (negsuc n) h = h

-- The extension fields have three bits.
pub record IsPrefix (px : RegextPrefix) : Type 0 where
  pub rd_small : px.ext_rd < 8
  pub rs1_small : px.ext_rs1 < 8
  pub rs2_small : px.ext_rs2 < 8
  pub rs3_small : px.ext_rs3 < 8

apply_prefix-HasOperands :
    (w : ℕ) (px : RegextPrefix) (d : DecodedInst)
    → IsPrefix px
    → HasOperands 32 d
    → HasOperands 256 (apply_prefix w px d)
unfolding apply_prefix
apply_prefix-HasOperands w px d p h = elim (Bool-cases px.valid) [
  | inl e ↦ rw e (record {
    rd_ok = extend-Operand d.rd_class d.rd px.ext_rd p.rd_small h.rd_ok;
    rs1_ok = extend-Operand d.rs1_class d.rs1 px.ext_rs1 p.rs1_small h.rs1_ok;
    rs2_ok = extend-Operand d.rs2_class d.rs2 px.ext_rs2 p.rs2_small h.rs2_ok;
    rs3_ok = extend-Operand d.rs3_class d.rs3 px.ext_rs3 p.rs3_small h.rs3_ok;
  })
  | inr e ↦ rw e (record {
    rd_ok = widen-Operand d.rd_class d.rd h.rd_ok;
    rs1_ok = widen-Operand d.rs1_class d.rs1 h.rs1_ok;
    rs2_ok = widen-Operand d.rs2_class d.rs2 h.rs2_ok;
    rs3_ok = widen-Operand d.rs3_class d.rs3 h.rs3_ok;
  })
]

-- Every decoded instruction sets exactly the registers of its classes, each below 256, whatever the
-- word and the table are, under any prefix whose extension fields have three bits.
pub decode_one-HasOperands :
    (pc w : ℕ) (patterns : List Pattern) (px : RegextPrefix)
    → IsPrefix px
    → HasOperands 256 (decode_one pc w patterns px)
unfolding decode_one
decode_one-HasOperands pc w patterns px p =
    apply_prefix-HasOperands w px (decode_word pc w patterns) p
      (decode_word-HasOperands pc w patterns)
