-- ===== src/Ptx.antt =====
-- sbt/ptx_emit.hpp and sbt/ptx_emit.cpp: PTX text for the functions of a kernel.
pub mod Lines
pub mod Text
pub mod Emit
pub mod Scalar
pub mod Lane
pub mod Ops
pub mod Run
pub mod Riscv
pub mod Memory
pub mod Blob
pub mod Pds
pub mod Builtins
pub mod Rounding
pub mod Fclass
pub mod ScalarFp
pub mod VectorInt
pub mod VectorMul
pub mod VectorCompare
pub mod VectorConvert
pub mod VectorFloat
pub mod Kinds
pub mod Access
pub mod Csr
pub mod Branch
pub mod Call
pub mod One
pub mod Prologue
pub mod Body
