-- ===== src/Decode/Sext.antt =====
-- `sext` against two's complement at every width, and the bit fields as arithmetic.
use ventus_gpgpu_sbt_simulat.Prelude.{
  ℕ, suc, ◌+◌, ◌-◌, ◌*◌, ◌/◌, ◌%◌, ◌^◌, ◌≤◌, ◌<◌, ◌≡◌, refl, ◌∙◌, ap, arith, ltb, if◌then◌else◌,
  ◌==◌, false, bit_and,
}
use ventus_gpgpu_sbt_simulat.Prelude.Int.{ℤ, pos, negsuc}
use ventus_gpgpu_sbt_simulat.Words.{u32, to_i32, bit_and_mask, bit_and_high, bit_or_fields_swap}
use ventus_gpgpu_sbt_simulat.Words.Laws.{bit_or-disjoint, bit_xor-top}
use ventus_gpgpu_sbt_simulat.Decode.Fields.{
  sext, imm_i, imm_s, imm_b, imm_u, imm_j, opcode, rd5, funct3, rs1_5, rs2_5, rs3_5, funct7,
  read_u32_le, ext_apply,
}
use native.Mathlib.Nat.{pow-suc, one-le-pow, pow-le-pow_right}

-- The value of a two's-complement number of `bits` bits.
abbrev pub signed : ℕ → ℕ → ℤ
signed bits x = if ltb x (2 ^ (bits - 1)) then pos x else negsuc (2 ^ bits - x - 1)

-- The part of `sext` after the mask: `m` is the top bit.
sext_core :
    (m n y : ℕ)
    → n ≡ m + m
    → m ≤ 2 ^ 30
    → y < m + m
    → to_i32 (u32 ((if ltb y m then y + m else y - m) + 2 ^ 32 - m))
      ≡ (if ltb y m then pos y else negsuc (n - y - 1))
sext_core m n y double small fits = ground arith

-- Sign extension of the low k + 1 bits gives the value of that two's-complement number, for widths
-- from 1 to 31.
pub sext_lem : (k x : ℕ) → k < 31 → sext x (suc k) ≡ signed (suc k) (x % 2 ^ suc k)
unfolding sext
sext_lem k x small =
    let double : 2 ^ suc k ≡ 2 ^ k + 2 ^ k = omega (arith, pow-suc 2 k) in
    let bound : 2 ^ k ≤ 2 ^ 30 = pow-le-pow_right (omega arith) {i = k} {j = 30} (omega arith) in
    let pos : 1 ≤ 2 ^ k = one-le-pow k 2 (omega arith) in
    let narrow : (suc k == 32) ≡ false = ground arith in
    let whole : 1 * 2 ^ suc k ≡ 2 ^ suc k = omega arith in
    let top : suc k - 1 ≡ k = omega arith in
    let one : 1 * 2 ^ k ≡ 2 ^ k = omega arith in
    let fits : x % 2 ^ suc k < 2 ^ k + 2 ^ k = omega arith in
    rw (narrow, whole, top, one, bit_and_mask (suc k) x, bit_xor-top k (x % 2 ^ suc k) fits)
      (sext_core (2 ^ k) (2 ^ suc k) (x % 2 ^ suc k) double bound fits)

-- The fields of a word are its digits.
pub opcode_digits : (w : ℕ) → opcode w ≡ w % 128
unfolding opcode
opcode_digits w = bit_and_mask 7 w

pub rd5_digits : (w : ℕ) → rd5 w ≡ w / 2 ^ 7 % 32
unfolding rd5
rd5_digits w = bit_and_mask 5 _

pub funct3_digits : (w : ℕ) → funct3 w ≡ w / 2 ^ 12 % 8
unfolding funct3
funct3_digits w = bit_and_mask 3 _

pub rs1_5_digits : (w : ℕ) → rs1_5 w ≡ w / 2 ^ 15 % 32
unfolding rs1_5
rs1_5_digits w = bit_and_mask 5 _

pub rs2_5_digits : (w : ℕ) → rs2_5 w ≡ w / 2 ^ 20 % 32
unfolding rs2_5
rs2_5_digits w = bit_and_mask 5 _

pub funct7_digits : (w : ℕ) → funct7 w ≡ w / 2 ^ 25 % 128
unfolding funct7
funct7_digits w = bit_and_mask 7 _

pub rs3_5_digits : (w : ℕ) → rs3_5 w ≡ w / 2 ^ 27 % 32
unfolding rs3_5
rs3_5_digits w = bit_and_mask 5 _

pub imm_i_digits : (w : ℕ) → imm_i w ≡ w / 2 ^ 20 % 4096
unfolding imm_i
imm_i_digits w = bit_and_mask 12 _

pub imm_s_digits : (w : ℕ) → imm_s w ≡ w / 2 ^ 25 * 32 + w / 2 ^ 7 % 32
unfolding imm_s
imm_s_digits w = rw (bit_and_mask 5 (w / 2 ^ 7)) (bit_or-disjoint 5 (w / 2 ^ 25) refl (omega arith))

pub imm_b_digits :
    (w : ℕ)
    → imm_b w
      ≡ w / 2 ^ 31 % 2 * 4096 + w / 2 ^ 7 % 2 * 2048 + w / 2 ^ 25 % 64 * 32 + w / 2 ^ 8 % 16 * 2
unfolding imm_b
imm_b_digits w =
    let b12 = w / 2 ^ 31 % 2 in
    let b11 = w / 2 ^ 7 % 2 in
    let b10_5 = w / 2 ^ 25 % 64 in
    let b4_1 = w / 2 ^ 8 % 16 in
    rw
      (
        bit_and_mask 1 (w / 2 ^ 31),
        bit_and_mask 1 (w / 2 ^ 7),
        bit_and_mask 6 (w / 2 ^ 25),
        bit_and_mask 4 (w / 2 ^ 8),
        bit_or-disjoint 12 b12 {a = b12 * 2 ^ 12} {r = b11 * 2 ^ 11} refl (omega arith),
        bit_or-disjoint 11 (b12 * 2 + b11) {a = b12 * 2 ^ 12 + b11 * 2 ^ 11} {r = b10_5 * 2 ^ 5}
            (omega arith) (omega arith),
        bit_or-disjoint 5 (b12 * 128 + b11 * 64 + b10_5)
            {a = b12 * 2 ^ 12 + b11 * 2 ^ 11 + b10_5 * 2 ^ 5} {r = b4_1 * 2 ^ 1} (omega arith)
            (omega arith),
      )
      (omega arith)

pub imm_j_digits :
    (w : ℕ)
    → imm_j w
      ≡ w / 2 ^ 31 % 2 * 2 ^ 20
        + w / 2 ^ 12 % 256 * 4096
        + w / 2 ^ 20 % 2 * 2048
        + w / 2 ^ 21 % 1024 * 2
unfolding imm_j
imm_j_digits w =
    let b20 = w / 2 ^ 31 % 2 in
    let b19_12 = w / 2 ^ 12 % 256 in
    let b11 = w / 2 ^ 20 % 2 in
    let b10_1 = w / 2 ^ 21 % 1024 in
    rw
      (
        bit_and_mask 1 (w / 2 ^ 31),
        bit_and_mask 10 (w / 2 ^ 21),
        bit_and_mask 1 (w / 2 ^ 20),
        bit_and_mask 8 (w / 2 ^ 12),
        bit_or-disjoint 20 b20 {a = b20 * 2 ^ 20} {r = b19_12 * 2 ^ 12} refl (omega arith),
        bit_or-disjoint 12 (b20 * 256 + b19_12) {a = b20 * 2 ^ 20 + b19_12 * 2 ^ 12}
            {r = b11 * 2 ^ 11} (omega arith) (omega arith),
        bit_or-disjoint 11 (b20 * 512 + b19_12 * 2 + b11)
            {a = b20 * 2 ^ 20 + b19_12 * 2 ^ 12 + b11 * 2 ^ 11} {r = b10_1 * 2 ^ 1} (omega arith)
            (omega arith),
      )
      (omega arith)

-- `imm_u` clears the low twelve bits of a 32-bit word.
pub imm_u_digits : (w : ℕ) → w < 2 ^ 32 → imm_u w ≡ w / 2 ^ 12 * 4096
unfolding imm_u
imm_u_digits w fits =
    let split : w ≡ w / 2 ^ 12 * 2 ^ 12 + w % 2 ^ 12 = omega arith in
    let cut = bit_and_high 12 (w / 2 ^ 12) (w % 2 ^ 12) 0xf_ffff (omega arith) in
    let keep = bit_and_mask 20 (w / 2 ^ 12) in
    ap (λ (t : ℕ). bit_and t 0xffff_f000) split ∙ cut ∙ omega arith

-- read_u32_le of four bytes, each below 256, is their sum at their places, the lowest first.
pub read_u32_le_digits :
    (a b c d : ℕ)
    → a < 256
    → b < 256
    → c < 256
    → d < 256
    → read_u32_le a b c d ≡ a + b * 2 ^ 8 + c * 2 ^ 16 + d * 2 ^ 24
unfolding read_u32_le
read_u32_le_digits a b c d p q r s =
    rw
      (
        bit_or_fields_swap 8 b a (omega arith),
        bit_or_fields_swap 16 c (b * 2 ^ 8 + a) (omega arith),
        bit_or_fields_swap 24 d (c * 2 ^ 16 + (b * 2 ^ 8 + a)) (omega arith),
      )
      (omega arith)

-- The three bits of the prefix stand above the five of the word.
pub ext_apply_digits : (n e : ℕ) → n < 32 → ext_apply n e ≡ e * 32 + n
unfolding ext_apply
ext_apply_digits n e fits = bit_or_fields_swap 5 e n fits
