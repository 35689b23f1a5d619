-- ===== src/Socket.antt =====
-- src/GWSocket.h, src/GWSocket.cpp and the two subclasses: one socket and its event loop.
pub mod State
pub mod Stream
pub mod Close
pub mod Write
pub mod Connect
pub mod Config
pub mod Loop
pub mod Invariant
pub mod Machine
pub mod NullStream
pub mod Cookies
pub mod Headers
pub mod Endings
pub mod Tests
mod Examples
