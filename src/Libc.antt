-- ===== src/Libc.antt =====
-- What the program uses of the C library: 64-bit arithmetic, the calls of stdio with `fgets`, and
-- `sscanf` with the conversions that the program's formats contain.
pub mod Word
pub mod Stdio
pub mod Stream
pub mod Scan
pub mod Text
