-- ===== src/Pdef.antt =====
-- src/pdef and src/runtime: protocol definitions (PDEF), the compiler of their filter rules, the
-- bytecode machine, and the match of a packet. Memory allocation always succeeds, and pointers to
-- packets, rules and protocols are never null.
pub mod Types
pub mod Executor
pub mod Compile
pub mod Rules
pub mod Loads
pub mod Runs
pub mod Conditions
pub mod Layout
pub mod Compiled
pub mod Swap
pub mod Protocol
pub mod Matching
pub mod Filters
pub mod Detection
pub mod Auto
pub mod Samples
mod Tests
