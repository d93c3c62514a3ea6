-- ===== src/Util.antt =====
-- include/wayland-util.hpp.
pub mod Any
pub mod Argument
pub mod Shared
pub mod Array
pub mod Bitfield
mod Tests
mod ArgumentTests
mod ArrayTests
mod SharedTests
