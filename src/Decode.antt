-- ===== src/Decode.antt =====
-- sbt/riscv_decode.hpp and sbt/riscv_decode.cpp: from the bytes of .text to decoded instructions.
pub mod Types
pub mod Fields
pub mod Names
pub mod Fp
pub mod Scalar
pub mod Order
pub mod Patterns
pub mod One
pub mod Text
pub mod Sext
pub mod Encoding
pub mod Manual
pub mod Roundtrip
pub mod Operands
pub mod Stream
pub mod Whole
