-- ===== src/Decode/Names.antt =====
-- The operand forms of the instructions that are matched by pattern, found from the name.
use ventus_gpgpu_sbt_simulat.Prelude.{
  ◌-◌, if◌then◌else◌, String, Bool, true, false, ◌&&◌, ◌||◌, Option, none, some, str_eq, leb,
}
use ventus_gpgpu_sbt_simulat.Prelude.Int.{pos}
use ventus_gpgpu_sbt_simulat.Decode.Types.{RegClass, ImmKind, DecodedInst}
use Prim.Native.String.{len, slice}
use text.Mathlib.Text.{find?}

unfoldable pub is_vbranch : String → Bool
is_vbranch name =
    str_eq name "vbeq"
    || str_eq name "vbne"
    || str_eq name "vblt"
    || str_eq name "vbge"
    || str_eq name "vbltu"
    || str_eq name "vbgeu"

unfoldable pub is_load : String → Bool
is_load name =
    str_eq name "vlw12_v"
    || str_eq name "vlb12_v"
    || str_eq name "vlbu12_v"
    || str_eq name "vlh12_v"
    || str_eq name "vlhu12_v"
    || str_eq name "vlw_v"

unfoldable pub is_store : String → Bool
is_store name =
    str_eq name "vsw12_v" || str_eq name "vsb12_v" || str_eq name "vsh12_v" || str_eq name "vsw_v"

unfoldable pub ends_with : String → String → Bool
ends_with s suf = leb (len suf) (len s) && str_eq (slice s (len s - len suf) (len s)) suf

-- `s.find(t) != npos`
unfoldable pub contains : String → String → Bool
contains s t = elim (find? s t) [ none ↦ false | some _ ↦ true ]

-- What `classify_by_name` writes: the classes (that of rs3 is always none) and the immediate kind.
pub record Form : Type 0 where
  pub rd : RegClass
  pub rs1 : RegClass
  pub rs2 : RegClass
  pub imm : ImmKind

abbrev pub form : RegClass → RegClass → RegClass → ImmKind → Form
form rd rs1 rs2 imm = record { rd = rd; rs1 = rs1; rs2 = rs2; imm = imm }

abbrev unset : RegClass
unset = RegClass.none

abbrev in_x : RegClass
in_x = RegClass.xreg

abbrev in_v : RegClass
in_v = RegClass.vreg

-- The instructions with a form of their own.
unfoldable pub named_form : String → Option Form
unfolding is_vbranch is_load is_store
named_form name =
    if str_eq name "setrpc"
    then some (form in_x in_x unset ImmKind.i12)
    else if str_eq name "regext" || str_eq name "regexti"
    then some (form in_x in_x unset ImmKind.raw12)
    else if str_eq name "barrier"
    then some (form in_x in_x unset ImmKind.i12)
    else if str_eq name "join" || str_eq name "endprg"
    then some (form in_x in_x in_x ImmKind.none)
    else if is_vbranch name
    then some (form unset in_v in_v ImmKind.b13)
    else if is_load name
    then some (form in_v in_v unset ImmKind.i12)
    else if is_store name
    then some (form unset in_v in_v ImmKind.s12)
    else if str_eq name "vsetvli"
    then some (form in_x in_x unset ImmKind.raw12)
    else if str_eq name "vid_v"
    then some (form in_v unset unset ImmKind.none)
    else if str_eq name "vmv_v_x"
    then some (form in_v in_x unset ImmKind.none)
    else if str_eq name "vmv_s_x"
    then some (form in_v in_x unset ImmKind.none)
    else if str_eq name "vmv_v_i"
    then some (form in_v unset unset ImmKind.simm5)
    else if str_eq name "vfmv_v_f"
    then some (form in_v in_x unset ImmKind.none)
    else if str_eq name "vmv_x_s"
    then some (form in_x unset in_v ImmKind.none)
    else if str_eq name "vadd12_vi" || str_eq name "vsub12_vi"
    then some (form in_v in_v unset ImmKind.i12)
    else none

-- The vector instructions, by the suffix of the name.
unfoldable pub suffix_form : String → Form
unfolding ends_with contains
suffix_form name =
    if ends_with name "_vvm"
    then form in_v in_v in_v ImmKind.none
    else if ends_with name "_vxm"
    then form in_v in_x in_v ImmKind.none
    else if ends_with name "_vim"
    then form in_v unset in_v ImmKind.simm5
    else if ends_with name "_vfm"
    then form in_v in_x in_v ImmKind.none
    else if ends_with name "_vv"
    then form in_v in_v in_v ImmKind.none
    else if ends_with name "_vx"
    then form in_v in_x in_v ImmKind.none
    else if ends_with name "_vf"
    then form in_v in_x in_v ImmKind.none
    else if ends_with name "_vi"
    then form in_v unset in_v (
        if contains name "sll" || contains name "srl" || contains name "sra"
        then ImmKind.uimm5
        else ImmKind.simm5)
    else if ends_with name "_mm"
    then form in_v in_v in_v ImmKind.none
    else if ends_with name "_v"
    then form in_v unset in_v ImmKind.none
    else form unset unset unset ImmKind.none

unfoldable pub form_of : String → Form
unfolding named_form suffix_form
form_of name = elim (named_form name) [ some f ↦ f | none ↦ suffix_form name ]

unfoldable pub classify_by_name : String → DecodedInst → DecodedInst
classify_by_name name out =
    let f = form_of name in
    record out {
      rd_class = f.rd;
      rs1_class = f.rs1;
      rs2_class = f.rs2;
      rs3_class = RegClass.none;
      imm_kind = f.imm;
      imm = pos 0;
    }
