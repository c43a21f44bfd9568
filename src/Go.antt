-- ===== src/Go.antt =====
-- Functions of Go's standard library, as far as the program uses them, on the bytes of a string.
pub mod Base64
pub mod Strconv
pub mod Strings
