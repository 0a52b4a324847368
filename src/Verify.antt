-- ===== src/Verify.antt =====
-- sbt/cfg_verify.hpp and sbt/cfg_verify.cpp: the checks that a function's divergent branches rejoin.
pub mod BitSet
pub mod Bits
pub mod VReg
pub mod Graph
pub mod Fixpoint
pub mod Worklist
pub mod Uniform
pub mod Branch
pub mod Report
pub mod Function
pub mod Verdict
