-- ===== src/Lib.antt =====
-- The static binary translator that turns Ventus GPGPU kernels into PTX: its decoder, its control
-- flow graphs, its check of divergent branches and its emitter.
--
-- The program reads the .text section of an ELF file and decodes its words (sbt/riscv_decode.cpp),
-- cuts each function into basic blocks (sbt/cfg.cpp), checks that the two sides of every divergent
-- branch meet again at the join that the function names (sbt/cfg_verify.cpp), and prints PTX
-- (sbt/ptx_emit.cpp). Each stage takes the values of the one before.
--
-- Prelude holds what the parts share: lists and integers over native numbers, results, texts and
-- Boolean tests. Words holds machine words, their shifts and their binary digits.
--
-- Decode models sbt/riscv_decode.hpp and sbt/riscv_decode.cpp. Types has the structs, Fields the bit
-- fields, Names the forms that a mnemonic implies (`classify_by_name`), Fp and Scalar the decoder
-- that needs no table (`decode_scalar`), Order and Patterns the table (`match_pattern`), One the
-- decoding of a word (`decode_one`) and Text the loop (`decode_text`). A thrown exception is an `err`
-- with the pc of its message. Encoding has the formats of the RISC-V manual and Manual its tables of
-- instructions, Stream the layout of a text as items; Sext, Roundtrip, Roundtrip.Upper and
-- Roundtrip.Tables, Manual.Names, Operands, Stream.Parse, Patterns.Best and Whole are about them.
--
-- Cfg models sbt/cfg.hpp and sbt/cfg.cpp. Types has the structs, Classify the effect of an
-- instruction on control (`classify`), and Build the construction (`build_function_cfg`). The loop
-- that cuts the blocks is a recursion that returns spans of the instruction list; `flush_block` and
-- the loop over the blocks then work on spans. Maps, Spans, Edges, Graph, Fetched, Held, Correct,
-- WellFormed and Index are about it.
--
-- Verify models sbt/cfg_verify.hpp and sbt/cfg_verify.cpp: BitSet and VReg the two classes of flags,
-- Graph the graph over indices, Fixpoint the dominators and postdominators, Worklist the two
-- searches, Uniform the uniformity of vector registers, Branch the tests of one branch, Report the
-- structs and Function the checks (`verify_function`). Bits, Graph.Indexed, Worklist.Loop,
-- Worklist.Region and Verdict are about them. Where `idx_of.at` of the source throws, for a function
-- without blocks, the model has an index behind the last node; build_function_cfg returns none such.
--
-- Ptx models sbt/ptx_emit.hpp and sbt/ptx_emit.cpp. Lines has the lines of PTX as data, Text the text
-- that is printed of them, Emit the context of a function as a writer of lines over its two counters
-- (`emit_line`, `new_label`, `require`, the reads and writes of registers), Memory the accesses through
-- the map of addresses, Blob the blobs of parameters and the calls, Pds the pool of private memory,
-- Prologue and Body the function and the module (`emit_module`). One is `emit_one_inst`: it tries its
-- sections in their order, and a section returns `none` where the source goes on to the next. They
-- are Call, Branch, Csr, Access, ScalarFp (with Rounding and Fclass), Scalar, VectorInt, VectorMul,
-- VectorCompare, VectorConvert and VectorFloat; Builtins has the functions that are inlined, and Kinds
-- the tests of names.
--
-- Lane, Ops and Run give the lines a meaning, which is not of the program: a lane has registers,
-- predicates and memories, its mask of active lanes is a constant, and a line steps it, traps, jumps, or
-- is stuck. An access to memory has a meaning where its address is a multiple of its size and all
-- its bytes are there, which the lane says, and is stuck otherwise. Riscv has the register and
-- immediate instructions of RV32IM as the manual defines them, Run.Branch and Run.Load when a branch
-- is taken, where it goes, and what a load reads. The modules
-- under Run are about the lines that are emitted. Lines of floating point but the tests of FCLASS.S,
-- atomics, barriers, shuffles and calls are printed but have no meaning in Run.
--
-- A uint32_t is a number below 2 ^ 32 with its wrap written out, an int an integer. An unordered map
-- is an association list, an unordered set a list without repetition in the order of insertion: no
-- code depends on their order. An error message is a constructor with the pc that it shows, and an
-- EmitError a record of its fields.
--
-- The worklists take as fuel one more than the number of nodes, and every node enters the queue at
-- most once. The sweeps of Fixpoint and Uniform take their fuel as an argument and return `none`
-- when it runs out.
--
-- Not modelled: the readers of ELF files, dumps and encoding tables (sbt/elf_reader.cpp,
-- sbt/dump_parser.cpp, sbt/spike_encoding_parser.cpp, sbt/want_file.cpp), whose results are arguments
-- here, the command line tools and the calls of CUDA and OpenCL (tools), and the prototypes (lab).
pub mod Prelude
pub mod Words
pub mod Decode
pub mod Cfg
pub mod Verify
pub mod Ptx
pub mod Tests
