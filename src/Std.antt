-- ===== src/Std.antt =====
-- What the program uses of Go's standard library on texts: strings, strconv and net.
pub mod Strings
pub mod Strconv
pub mod Net
