-- ===== src/Go.antt =====
-- What the code takes from the Go language and its standard library.
pub mod Bits
pub mod Strings
pub mod Path
pub mod Strconv
pub mod Int64
pub mod Floats
