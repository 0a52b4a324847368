-- ===== src/Decode/Types.antt =====
-- The types of sbt/riscv_decode.hpp. An `int` and an `int32_t` are integers, so that the -1 of an
-- unset register is a value like any other; an unsigned field is a number.
use ventus_gpgpu_sbt_simulat.Prelude.{ℕ, String, Bool, true, false, Option}
use ventus_gpgpu_sbt_simulat.Prelude.Int.{ℤ, pos, negsuc}

pub data RegClass : Type 0 where
  none xreg vreg : RegClass

pub data ImmKind : Type 0 where
  none i12 s12 b13 u20 j21 csr12 uimm5 simm5 raw12 : ImmKind

pub data FpRoundingMode : Type 0 where
  none rne rtz rdn rup rmm reserved5 reserved6 dyn : FpRoundingMode

pub record RegextPrefix : Type 0 where
  pub valid : Bool
  pub validi : Bool
  pub pc : ℕ
  pub imm12 : ℕ
  pub ext_rd : ℕ
  pub ext_rs1 : ℕ
  pub ext_rs2 : ℕ
  pub ext_rs3 : ℕ
  pub ext_imm : ℕ

-- `RegextPrefix{}`: no prefix is pending.
abbrev pub no_prefix : RegextPrefix
no_prefix = record {
  valid = false;
  validi = false;
  pc = 0;
  imm12 = 0;
  ext_rd = 0;
  ext_rs1 = 0;
  ext_rs2 = 0;
  ext_rs3 = 0;
  ext_imm = 0;
}

pub record DecodedInst : Type 0 where
  pub pc : ℕ
  pub word : ℕ
  pub name : String
  pub rd_class : RegClass
  pub rs1_class : RegClass
  pub rs2_class : RegClass
  pub rs3_class : RegClass
  pub rd : ℤ
  pub rs1 : ℤ
  pub rs2 : ℤ
  pub rs3 : ℤ
  pub imm_kind : ImmKind
  pub imm : ℤ
  pub fp_rm : FpRoundingMode
  pub had_regext : Bool
  pub regext : RegextPrefix

-- `DecodedInst{}` with its pc and its word filled in and the name "unknown".
abbrev pub blank : ℕ → ℕ → DecodedInst
blank pc w = record {
  pc = pc;
  word = w;
  name = "unknown";
  rd_class = RegClass.none;
  rs1_class = RegClass.none;
  rs2_class = RegClass.none;
  rs3_class = RegClass.none;
  rd = negsuc 0;
  rs1 = negsuc 0;
  rs2 = negsuc 0;
  rs3 = negsuc 0;
  imm_kind = ImmKind.none;
  imm = pos 0;
  fp_rm = FpRoundingMode.none;
  had_regext = false;
  regext = no_prefix;
}

pub record DecodeOptions : Type 0 where
  pub bundle_regext : Bool
  pub require_known : Bool

-- `none` is the null name.
pub record Pattern : Type 0 where
  pub name : Option String
  pub match : ℕ
  pub mask : ℕ

-- `c == RegClass::X` and `c == RegClass::V`.
abbrev pub is_xreg : RegClass → Bool
is_xreg RegClass.xreg = true
is_xreg _ = false

abbrev pub is_vreg : RegClass → Bool
is_vreg RegClass.vreg = true
is_vreg _ = false

abbrev pub is_b13 : ImmKind → Bool
is_b13 ImmKind.b13 = true
is_b13 _ = false

abbrev pub is_j21 : ImmKind → Bool
is_j21 ImmKind.j21 = true
is_j21 _ = false

abbrev pub is_i12 : ImmKind → Bool
is_i12 ImmKind.i12 = true
is_i12 _ = false

abbrev pub is_s12 : ImmKind → Bool
is_s12 ImmKind.s12 = true
is_s12 _ = false

abbrev pub is_u20 : ImmKind → Bool
is_u20 ImmKind.u20 = true
is_u20 _ = false

abbrev pub is_csr12 : ImmKind → Bool
is_csr12 ImmKind.csr12 = true
is_csr12 _ = false

abbrev pub is_simm5 : ImmKind → Bool
is_simm5 ImmKind.simm5 = true
is_simm5 _ = false

-- The spelling of an enumerator, for reports.
unfoldable pub class_to_string : RegClass → String
class_to_string RegClass.xreg = "x"
class_to_string RegClass.vreg = "v"
class_to_string RegClass.none = "none"

unfoldable pub imm_kind_to_string : ImmKind → String
imm_kind_to_string ImmKind.i12 = "i12"
imm_kind_to_string ImmKind.s12 = "s12"
imm_kind_to_string ImmKind.b13 = "b13"
imm_kind_to_string ImmKind.u20 = "u20"
imm_kind_to_string ImmKind.j21 = "j21"
imm_kind_to_string ImmKind.csr12 = "csr12"
imm_kind_to_string ImmKind.uimm5 = "uimm5"
imm_kind_to_string ImmKind.simm5 = "simm5"
imm_kind_to_string ImmKind.raw12 = "raw12"
imm_kind_to_string ImmKind.none = "none"

unfoldable pub rounding_to_string : FpRoundingMode → String
rounding_to_string FpRoundingMode.rne = "rne"
rounding_to_string FpRoundingMode.rtz = "rtz"
rounding_to_string FpRoundingMode.rdn = "rdn"
rounding_to_string FpRoundingMode.rup = "rup"
rounding_to_string FpRoundingMode.rmm = "rmm"
rounding_to_string FpRoundingMode.reserved5 = "reserved5"
rounding_to_string FpRoundingMode.reserved6 = "reserved6"
rounding_to_string FpRoundingMode.dyn = "dyn"
rounding_to_string FpRoundingMode.none = "none"
