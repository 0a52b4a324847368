-- ===== src/Cfg.antt =====
-- sbt/cfg.hpp and sbt/cfg.cpp: the control-flow graph of one function.
pub mod Types
pub mod Classify
pub mod Build
pub mod Maps
pub mod Spans
pub mod Edges
pub mod Graph
pub mod Correct
pub mod Fetched
pub mod Held
pub mod WellFormed
pub mod Index
