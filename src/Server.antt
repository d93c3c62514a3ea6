-- ===== src/Server.antt =====
-- src/wayland-server.cpp and include/wayland-server.hpp.
pub mod Store
pub mod Display
pub mod Loop
pub mod Global
pub mod Client
pub mod Resource
pub mod Callbacks
pub mod Dispatch
mod Tests
mod DispatchTests
