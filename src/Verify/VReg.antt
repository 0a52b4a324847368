-- ===== src/Verify/VReg.antt =====
-- The class VRegSet, 256 flags in four words, and the transfer of the uniformity of vector
-- registers through one instruction.
use ventus_gpgpu_sbt_simulat.Prelude.{
  ℕ, ◌-◌, ◌/◌, ◌%◌, Bool, true, false, ◌&&◌, ◌||◌, String, List, [], ◌∷◌, str_eq, ltb,
  if◌then◌else◌, get_or, set, bit_and, bit_or,
}
use text.Mathlib.Text.{starts_with}
use ventus_gpgpu_sbt_simulat.Prelude.Int.{ℤ, pos, negsuc}
use ventus_gpgpu_sbt_simulat.Words.{◌<<<◌}
use ventus_gpgpu_sbt_simulat.Decode.Types.{DecodedInst, is_vreg}
use ventus_gpgpu_sbt_simulat.Decode.Names.{ends_with}
use ventus_gpgpu_sbt_simulat.Cfg.Types.{BundleInst}
use ventus_gpgpu_sbt_simulat.Verify.BitSet.{all_ones, test_word, and_words, same_words}

pub record VRegSet : Type 0 where
  pub words : List ℕ

abbrev pub no_vregs : VRegSet
no_vregs = record { words = 0 ∷ 0 ∷ 0 ∷ 0 ∷ [] }

abbrev pub all_vregs : VRegSet
all_vregs = record { words = all_ones ∷ all_ones ∷ all_ones ∷ all_ones ∷ [] }

unfoldable pub test_vreg : VRegSet → ℤ → Bool
test_vreg s (negsuc n) = false
test_vreg s (pos r) = if ltb r 256 then test_word (get_or s.words (r / 64) 0) (r % 64) else false

unfoldable pub write_vreg : List ℕ → ℕ → Bool → List ℕ
write_vreg ws r true = set ws (r / 64) (bit_or (get_or ws (r / 64) 0) (1 <<< (r % 64)))
write_vreg ws r false =
    set ws (r / 64) (bit_and (get_or ws (r / 64) 0) (all_ones - (1 <<< (r % 64))))

unfoldable pub set_vreg : VRegSet → ℤ → Bool → VRegSet
unfolding write_vreg
set_vreg s (negsuc n) v = s
set_vreg s (pos r) v = if ltb r 256 then record { words = write_vreg s.words r v } else s

unfoldable pub intersect_vregs : VRegSet → VRegSet → VRegSet
unfolding and_words
intersect_vregs s o = record { words = and_words s.words o.words }

unfoldable pub same_vregs : VRegSet → VRegSet → Bool
unfolding same_words
same_vregs s o = same_words s.words o.words

unfoldable pub is_vector_load : String → Bool
is_vector_load name = str_eq name "vlw12_v" || str_eq name "vlbu12_v" || str_eq name "vlw_v"

unfoldable pub is_uniform_unsafe_op : String → Bool
is_uniform_unsafe_op name = starts_with name "vmadd" || starts_with name "vfmadd"

-- Whether the value that the instruction writes to its vector register is uniform.
unfoldable pub writes_uniform : VRegSet → DecodedInst → Bool
writes_uniform st di =
    if str_eq di.name "vmv_v_x"
    then true
    else if str_eq di.name "vid_v"
    then false
    else if is_vector_load di.name && is_vreg di.rs1_class
    then test_vreg st di.rs1
    else if is_uniform_unsafe_op di.name
    then false
    else if ends_with di.name "_vx"
    then test_vreg st di.rs2
    else if ends_with di.name "_vi"
    then test_vreg st di.rs2
    else if ends_with di.name "_vv"
    then test_vreg st di.rs2 && test_vreg st di.rs1
    else if ends_with di.name "_v" && is_vreg di.rs2_class
    then test_vreg st di.rs2
    else false

unfoldable pub transfer_vreg_uniform : VRegSet → BundleInst → VRegSet
transfer_vreg_uniform st bi =
    if is_vreg bi.inst.rd_class then set_vreg st bi.inst.rd (writes_uniform st bi.inst) else st
