-- ===== src/Decode/Encoding.antt =====
-- The instruction formats of the RISC-V manual, as sums of fields at their places. They are written
-- from the manual and not from the decoder, and the decoder's fields are read back from them.
use ventus_gpgpu_sbt_simulat.Prelude.{ℕ, ◌+◌, ◌*◌, ◌/◌, ◌%◌, ◌^◌, ◌<◌, ◌≡◌, ◌∙◌, arith}
use ventus_gpgpu_sbt_simulat.Decode.Fields.{
  imm_i, imm_s, imm_b, imm_u, imm_j, opcode, rd5, funct3, rs1_5, rs2_5, funct7,
}
use ventus_gpgpu_sbt_simulat.Decode.Sext.{
  opcode_digits, rd5_digits, funct3_digits, rs1_5_digits, rs2_5_digits, funct7_digits, imm_i_digits,
  imm_s_digits, imm_b_digits, imm_j_digits, imm_u_digits,
}

-- B-type: the offset `n` is even and has 13 bits.
unfoldable pub encode_b : ℕ → ℕ → ℕ → ℕ → ℕ → ℕ
encode_b op f3 rs1 rs2 n =
    op
    + n / 2048 % 2 * 2 ^ 7
    + n / 2 % 16 * 2 ^ 8
    + f3 * 2 ^ 12
    + rs1 * 2 ^ 15
    + rs2 * 2 ^ 20
    + n / 32 % 64 * 2 ^ 25
    + n / 4096 * 2 ^ 31

pub record BFields (w op f3 rs1 rs2 n : ℕ) : Type 0 where
  pub op_eq : opcode w ≡ op
  pub f3_eq : funct3 w ≡ f3
  pub rs1_eq : rs1_5 w ≡ rs1
  pub rs2_eq : rs2_5 w ≡ rs2
  pub imm_eq : imm_b w ≡ n

pub encode_b-BFields :
    (op f3 rs1 rs2 k : ℕ)
    → op < 128
    → f3 < 8
    → rs1 < 32
    → rs2 < 32
    → k < 4096
    → BFields (encode_b op f3 rs1 rs2 (2 * k)) op f3 rs1 rs2 (2 * k)
unfolding encode_b
encode_b-BFields op f3 rs1 rs2 k p q r s t =
    let w = encode_b op f3 rs1 rs2 (2 * k) in
    record {
      op_eq = opcode_digits w ∙ omega arith;
      f3_eq = funct3_digits w ∙ omega arith;
      rs1_eq = rs1_5_digits w ∙ omega arith;
      rs2_eq = rs2_5_digits w ∙ omega arith;
      imm_eq = imm_b_digits w ∙ omega arith;
    }

-- I-type, with a 12-bit immediate pattern.
unfoldable pub encode_i : ℕ → ℕ → ℕ → ℕ → ℕ → ℕ
encode_i op rd f3 rs1 n = op + rd * 2 ^ 7 + f3 * 2 ^ 12 + rs1 * 2 ^ 15 + n * 2 ^ 20

pub record IFields (w op rd f3 rs1 n : ℕ) : Type 0 where
  pub op_eq : opcode w ≡ op
  pub rd_eq : rd5 w ≡ rd
  pub f3_eq : funct3 w ≡ f3
  pub rs1_eq : rs1_5 w ≡ rs1
  pub imm_eq : imm_i w ≡ n

pub encode_i-IFields :
    (op rd f3 rs1 n : ℕ)
    → op < 128
    → rd < 32
    → f3 < 8
    → rs1 < 32
    → n < 4096
    → IFields (encode_i op rd f3 rs1 n) op rd f3 rs1 n
unfolding encode_i
encode_i-IFields op rd f3 rs1 n p q r s t =
    let w = encode_i op rd f3 rs1 n in
    record {
      op_eq = opcode_digits w ∙ omega arith;
      rd_eq = rd5_digits w ∙ omega arith;
      f3_eq = funct3_digits w ∙ omega arith;
      rs1_eq = rs1_5_digits w ∙ omega arith;
      imm_eq = imm_i_digits w ∙ omega arith;
    }

-- S-type, with a 12-bit immediate pattern.
unfoldable pub encode_s : ℕ → ℕ → ℕ → ℕ → ℕ → ℕ
encode_s op f3 rs1 rs2 n =
    op + n % 32 * 2 ^ 7 + f3 * 2 ^ 12 + rs1 * 2 ^ 15 + rs2 * 2 ^ 20 + n / 32 * 2 ^ 25

pub record SFields (w op f3 rs1 rs2 n : ℕ) : Type 0 where
  pub op_eq : opcode w ≡ op
  pub f3_eq : funct3 w ≡ f3
  pub rs1_eq : rs1_5 w ≡ rs1
  pub rs2_eq : rs2_5 w ≡ rs2
  pub imm_eq : imm_s w ≡ n

pub encode_s-SFields :
    (op f3 rs1 rs2 n : ℕ)
    → op < 128
    → f3 < 8
    → rs1 < 32
    → rs2 < 32
    → n < 4096
    → SFields (encode_s op f3 rs1 rs2 n) op f3 rs1 rs2 n
unfolding encode_s
encode_s-SFields op f3 rs1 rs2 n p q r s t =
    let w = encode_s op f3 rs1 rs2 n in
    record {
      op_eq = opcode_digits w ∙ omega arith;
      f3_eq = funct3_digits w ∙ omega arith;
      rs1_eq = rs1_5_digits w ∙ omega arith;
      rs2_eq = rs2_5_digits w ∙ omega arith;
      imm_eq = imm_s_digits w ∙ omega arith;
    }

-- R-type.
unfoldable pub encode_r : ℕ → ℕ → ℕ → ℕ → ℕ → ℕ → ℕ
encode_r op rd f3 rs1 rs2 f7 =
    op + rd * 2 ^ 7 + f3 * 2 ^ 12 + rs1 * 2 ^ 15 + rs2 * 2 ^ 20 + f7 * 2 ^ 25

pub record RFields (w op rd f3 rs1 rs2 f7 : ℕ) : Type 0 where
  pub op_eq : opcode w ≡ op
  pub rd_eq : rd5 w ≡ rd
  pub f3_eq : funct3 w ≡ f3
  pub rs1_eq : rs1_5 w ≡ rs1
  pub rs2_eq : rs2_5 w ≡ rs2
  pub f7_eq : funct7 w ≡ f7

pub encode_r-RFields :
    (op rd f3 rs1 rs2 f7 : ℕ)
    → op < 128
    → rd < 32
    → f3 < 8
    → rs1 < 32
    → rs2 < 32
    → f7 < 128
    → RFields (encode_r op rd f3 rs1 rs2 f7) op rd f3 rs1 rs2 f7
unfolding encode_r
encode_r-RFields op rd f3 rs1 rs2 f7 p q r s t u =
    let w = encode_r op rd f3 rs1 rs2 f7 in
    record {
      op_eq = opcode_digits w ∙ omega arith;
      rd_eq = rd5_digits w ∙ omega arith;
      f3_eq = funct3_digits w ∙ omega arith;
      rs1_eq = rs1_5_digits w ∙ omega arith;
      rs2_eq = rs2_5_digits w ∙ omega arith;
      f7_eq = funct7_digits w ∙ omega arith;
    }

-- U-type: `n` is the upper 20 bits.
unfoldable pub encode_u : ℕ → ℕ → ℕ → ℕ
encode_u op rd n = op + rd * 2 ^ 7 + n * 2 ^ 12

-- J-type: the offset `n` is even and has 21 bits.
unfoldable pub encode_j : ℕ → ℕ → ℕ → ℕ
encode_j op rd n =
    op
    + rd * 2 ^ 7
    + n / 4096 % 256 * 2 ^ 12
    + n / 2048 % 2 * 2 ^ 20
    + n / 2 % 1024 * 2 ^ 21
    + n / 2 ^ 20 * 2 ^ 31

-- What the two formats without source registers share: `i` is the immediate as `imm_u` or `imm_j`
-- reads it.
pub record UFields (imm : ℕ → ℕ) (w op rd i : ℕ) : Type 0 where
  pub op_eq : opcode w ≡ op
  pub rd_eq : rd5 w ≡ rd
  pub imm_eq : imm w ≡ i

pub encode_u-UFields :
    (op rd n : ℕ)
    → op < 128
    → rd < 32
    → n < 2 ^ 20
    → UFields imm_u (encode_u op rd n) op rd (n * 2 ^ 12)
unfolding encode_u
encode_u-UFields op rd n p q r =
    let w = encode_u op rd n in
    record {
      op_eq = opcode_digits w ∙ omega arith;
      rd_eq = rd5_digits w ∙ omega arith;
      imm_eq = imm_u_digits w (omega arith) ∙ omega arith;
    }

pub encode_j-UFields :
    (op rd k : ℕ)
    → op < 128
    → rd < 32
    → k < 2 ^ 20
    → UFields imm_j (encode_j op rd (2 * k)) op rd (2 * k)
unfolding encode_j
encode_j-UFields op rd k p q r =
    let w = encode_j op rd (2 * k) in
    record {
      op_eq = opcode_digits w ∙ omega arith;
      rd_eq = rd5_digits w ∙ omega arith;
      imm_eq = imm_j_digits w ∙ omega arith;
    }
