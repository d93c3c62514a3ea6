-- ===== src/Scanner.antt =====
-- scanner/scanner.cpp: the generator of the C++ bindings.
mod Tests
pub mod Text
pub mod Model
pub mod Names
pub mod Print
pub mod Read
pub mod CommandLine
pub mod Files
pub mod Main
