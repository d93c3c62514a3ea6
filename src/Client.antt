-- ===== src/Client.antt =====
-- src/wayland-client.cpp and include/wayland-client.hpp.
pub mod Proxy
pub mod Dispatch
pub mod Display
