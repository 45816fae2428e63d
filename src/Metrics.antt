-- ===== src/Metrics.antt =====
-- src/metrics.c: one module for each reading of /proc. A file is its bytes, or `none` where `fopen`
-- gives `NULL`; a number is an `unsigned long long`, below 2 ^ 64.
pub mod Memory
pub mod Ranges
pub mod Traces
pub mod Reports
pub mod Cpu
pub mod Disk
pub mod Network
pub mod Processes
pub mod ContextSwitches
